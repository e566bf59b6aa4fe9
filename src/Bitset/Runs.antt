-- ===== src/Bitset/Runs.antt =====
-- Find_First_N_Free.
use geekos.Base.{
  ltb, ◌==◌, lt→ltb, ==_iff, Bool-cases, ℕ, zero, suc, ◌+◌, ◌-◌, ◌%◌, ◌^◌, ◌≤◌, ◌<◌, ◌≡◌, refl, sym,
  ap, subst, ◌∙◌, ◌⊎◌, inl, inr, true, false, arith,
}
use geekos.Bitset.{
  BitSet, Found, at, minus_one, negative, assert_failed, return_int, is_bit_set, run_end, scan_runs,
  find_first_n_free,
}

-- The `n` positions from `p` on are clear.
abbrev pub RunFree : BitSet → ℕ → ℕ → Type 0
RunFree bits n p = (k : ℕ) → k < n → is_bit_set bits (p + k) ≡ false

-- What a search for a run that starts below `bound` has to return.
abbrev pub FirstRun : BitSet → ℕ → ℕ → Found → Type 0
FirstRun bits n bound (at p) =
    (p < bound) × RunFree bits n p × ((q : ℕ) → q < p → ¬ RunFree bits n q)
FirstRun bits n bound minus_one = (q : ℕ) → q < bound → ¬ RunFree bits n q
FirstRun bits n bound (negative w) = ⊥
FirstRun bits n bound assert_failed = ⊥

-- The inner loop stops at `j + left`, past clear positions only, or earlier at a set one.
abbrev RunEnd : BitSet → ℕ → ℕ → ℕ → ℕ → Type 0
RunEnd bits i j left e =
    ((e ≡ j + left) × ((k : ℕ) → j ≤ k → k < j + left → is_bit_set bits (i + k) ≡ false))
    ⊎ ((e < j + left) × (j ≤ e) × (is_bit_set bits (i + e) ≡ true))

run_end-RunEnd :
    (left : ℕ) (bits : BitSet) (i j : ℕ)
    → i + j + left ≤ 2 ^ 32
    → RunEnd bits i j left (run_end left bits i j)
unfolding run_end
run_end-RunEnd zero bits i j h = inl (omega arith, λ k lo hi. absurd (omega arith))
run_end-RunEnd (suc left) bits i j h = rw wrap (elim (Bool-cases (is_bit_set bits (i + j))) [
  | inl t ↦ rw t (inr (omega arith, omega arith, t))
  | inr f ↦ rw f (further f (run_end-RunEnd left bits i (j + 1) (omega arith)))
])
  where
    wrap : (i + j) % 2 ^ 32 ≡ i + j
    wrap = omega arith

    further :
        is_bit_set bits (i + j) ≡ false
        → RunEnd bits i (j + 1) left (run_end left bits i (j + 1))
        → RunEnd bits i j (suc left) (run_end left bits i (j + 1))
    further f (inl (e, free)) = inl (
      omega (arith, e),
      λ k lo hi. elim (Bool-cases (j == k)) [
        | inl same ↦ subst (λ t. is_bit_set bits (i + t) ≡ false) ((==_iff j k).0 same) f
        | inr other ↦ free k (ground arith) (omega arith)
      ],
    )
    further f (inr (lt, le, t)) = inr (omega (arith, lt), omega (arith, le), t)

module _ (bits : BitSet) (n : ℕ) (some_run : 1 ≤ n) where
  -- The body of the outer loop decides whether the run at `i` is free.
  run_test :
      (i : ℕ)
      → i + n ≤ 2 ^ 32
      → (RunFree bits n i × (is_bit_set bits i ≡ false) × ((run_end (n - 1) bits i 1 == n) ≡ true))
        ⊎ ((¬ RunFree bits n i)
            × ((is_bit_set bits i ≡ true)
                ⊎ ((is_bit_set bits i ≡ false) × ((run_end (n - 1) bits i 1 == n) ≡ false))))
  run_test i h = elim (Bool-cases (is_bit_set bits i)) [
    | inl t ↦ inr (
      λ free.
          cc
            (sym t ∙ ap (is_bit_set bits) {x = i} {y = i + 0} (omega arith) ∙ free 0 (omega arith)),
      inl t,
    )
    | inr f ↦ elim (run_end-RunEnd (n - 1) bits i 1 (omega arith)) [
      | inl (e, free) ↦ inl (
        λ k hk. elim (Bool-cases (k == 0)) [
          | inl z ↦ ap (is_bit_set bits) {x = i + k} {y = i} (ground arith) ∙ f
          | inr nz ↦ free k (ground arith) (omega arith)
        ],
        f,
        ground (arith, e),
      )
      | inr (lt, le, t) ↦ inr (
        λ free. cc (sym t ∙ free (run_end (n - 1) bits i 1) (omega (arith, lt))),
        inr (f, ground (arith, lt)),
      )
    ]
  ]

  scan_runs-FirstRun :
      (left i : ℕ)
      → i + left + n ≤ 2 ^ 31
      → ((q : ℕ) → q < i → ¬ RunFree bits n q)
      → FirstRun bits n (i + left) (scan_runs left bits n i)
  unfolding scan_runs return_int
  scan_runs-FirstRun zero i h none_below = λ q lt. none_below q (omega arith)
  scan_runs-FirstRun (suc left) i h none_below = elim (run_test i (omega arith)) [
    | inl (free, f, e) ↦
        let low : ltb i (2 ^ 31) ≡ true = lt→ltb i (2 ^ 31) (omega arith) in
        rw (f, e, low) (omega arith, free, none_below)
    | inr (busy, inl t) ↦ rw t (next (scan_runs-FirstRun left (i + 1) (omega arith) (above busy)))
    | inr (busy, inr (f, e)) ↦
        rw (f, e) (next (scan_runs-FirstRun left (i + 1) (omega arith) (above busy)))
  ]
    where
      above : ¬ RunFree bits n i → (q : ℕ) → q < i + 1 → ¬ RunFree bits n q
      above busy q lt = elim (Bool-cases (q == i)) [
        | inl same ↦ subst (λ t. ¬ RunFree bits n t) (sym ((==_iff q i).0 same)) busy
        | inr other ↦ none_below q (ground arith)
      ]

      next :
          FirstRun bits n (i + 1 + left) (scan_runs left bits n (i + 1))
          → FirstRun bits n (i + suc left) (scan_runs left bits n (i + 1))
      next r =
          subst (λ b. FirstRun bits n b (scan_runs left bits n (i + 1))) {x = i + 1 + left}
            {y = i + suc left} (omega arith) r

  -- Find_First_N_Free never fails an assertion; a position that it returns starts a run of `n` clear
  -- positions, lies below `total - n`, and no run starts before it; and it returns -1 only where no
  -- run starts below `total - n`. For 1 ≤ n ≤ total ≤ 2^31.
  pub find_first_n_free-FirstRun :
      (total : ℕ)
      → n ≤ total
      → total ≤ 2 ^ 31
      → FirstRun bits n (total - n) (find_first_n_free bits n total)
  unfolding find_first_n_free
  find_first_n_free-FirstRun total le small =
      subst (λ b. FirstRun bits n (total - n) (scan_runs b bits n 0)) {x = total - n}
        {y = (total + 2 ^ 32 - n) % 2 ^ 32} (omega arith)
        (subst (λ b. FirstRun bits n b (scan_runs (total - n) bits n 0)) {x = 0 + (total - n)}
          {y = total - n} (omega arith)
          (scan_runs-FirstRun (total - n) 0 (omega arith) (λ q lt. absurd (omega arith))))

  -- The last possible start, `total - n`, is never tried: where it alone starts a run, the result is
  -- -1. For 1 ≤ n ≤ total ≤ 2^31.
  pub find_first_n_free-misses_last :
      (total : ℕ)
      → n ≤ total
      → total ≤ 2 ^ 31
      → RunFree bits n (total - n)
      → ((q : ℕ) → q < total - n → ¬ RunFree bits n q)
      → find_first_n_free bits n total ≡ minus_one
  find_first_n_free-misses_last total le small last only =
      missed (find_first_n_free bits n total) (find_first_n_free-FirstRun total le small)
    where
      missed : (r : Found) → FirstRun bits n (total - n) r → r ≡ minus_one
      missed (at p) (lt, free, low) = absurd (only p lt free)
      missed minus_one h = refl
      missed (negative w) bad = elim bad [ ]
      missed assert_failed bad = elim bad [ ]
