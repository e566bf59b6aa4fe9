-- ===== src/Screen/Scrolling.antt =====
-- src/geekos/screen.c: what Scroll does to the cells of the screen.
use geekos.Base.{
  ltb, ◌==◌, ltb→lt, lt→ltb, ==_iff, Bool-cases, length, get_elem?, set, length-set,
  get_elem?-set_self, get_elem?-set_ne, ℕ, zero, suc, ◌+◌, ◌*◌, ◌≤◌, ◌<◌, ◌≡◌, refl, sym, ap, subst,
  ◌∙◌, ◌≢◌, ◌⊎◌, inl, inr, some, List, [], ◌∷◌, arith,
}
use geekos.Base.Reasons.{Total, Total-bind}
use geekos.Screen.{
  num_cols, Cell, Console, get_cell, put_cell, put_dword, move_lines, fill_dwords, blank_cell,
  scroll,
}
use geekos.Screen.Valid.{Full}

get_cell-Total :
    (m : List Cell) (i : ℕ) → i < length m → Total (λ c. get_elem? m i ≡ some c) (get_cell m i)
get_cell-Total [] i h = absurd (omega (arith, h))
get_cell-Total (x ∷ m) zero h = refl
get_cell-Total (x ∷ m) (suc i) h = get_cell-Total m i (omega (arith, h))

put_dword-Total :
    (m : List Cell) (v : ℕ) (a b : Cell)
    → v < 1000
    → Full m
    → Total (λ m'. m' ≡ set (set m (2 * v) a) (2 * v + 1) b) (put_dword m v a b)
unfolding put_dword put_cell
put_dword-Total m v a b h full =
    rw
      (
        lt→ltb (2 * v) (length m) (omega (arith, h, full)),
        lt→ltb (2 * v + 1) (length (set m (2 * v) a))
            (omega (arith, h, full, length-set m (2 * v) a)),
      )
      refl

abbrev stored : List Cell → ℕ → Cell → Cell → List Cell
stored m v a b = set (set m (2 * v) a) (2 * v + 1) b

-- A cell after a double word was stored.
module _ (m : List Cell) (v : ℕ) (a b : Cell) (h : v < 1000) (full : Full m) where
  stored_low : get_elem? (stored m v a b) (2 * v) ≡ some a
  stored_low =
      get_elem?-set_ne (set m (2 * v) a) (2 * v + 1) (2 * v) b (λ e. omega (arith, e))
      ∙ get_elem?-set_self m (2 * v) a (omega (arith, full, h))

  stored_high : get_elem? (stored m v a b) (2 * v + 1) ≡ some b
  stored_high =
      get_elem?-set_self (set m (2 * v) a) (2 * v + 1) b
        (omega (arith, full, h, length-set m (2 * v) a))

  stored_other : (j : ℕ) → j ≢ 2 * v → j ≢ 2 * v + 1 → get_elem? (stored m v a b) j ≡ get_elem? m j
  stored_other j p q =
      get_elem?-set_ne (set m (2 * v) a) (2 * v + 1) j b (λ e. q (sym e))
      ∙ get_elem?-set_ne m (2 * v) j a (λ e. p (sym e))

  stored-Full : Full (stored m v a b)
  stored-Full = length-set (set m (2 * v) a) (2 * v + 1) b ∙ length-set m (2 * v) a ∙ full

-- The cells below `2 * v` are those one line further on, the others are as they were.
record Shifted (old m : List Cell) (v : ℕ) : Type 0 where
  full : Full m
  up : (j : ℕ) → j < 2 * v → get_elem? m j ≡ get_elem? old (j + num_cols)
  rest : (j : ℕ) → 2 * v ≤ j → get_elem? m j ≡ get_elem? old j

cell_cases : (j v : ℕ) → j < 2 * (v + 1) → (j < 2 * v) ⊎ ((j ≡ 2 * v) ⊎ (j ≡ 2 * v + 1))
cell_cases j v h = elim (Bool-cases (ltb j (2 * v))) [
  | inl lt ↦ inl (ltb→lt j (2 * v) lt)
  | inr ge ↦ elim (Bool-cases (j == 2 * v)) [
    | inl e ↦ inr (inl ((==_iff j (2 * v)).0 e))
    | inr n ↦ inr (inr (ground (arith, ge, n, h)))
  ]
]

Shifted-step :
    (old m : List Cell) (v : ℕ) (a b : Cell)
    → v < 960
    → Shifted old m v
    → get_elem? m (2 * (v + 40)) ≡ some a
    → get_elem? m (2 * (v + 40) + 1) ≡ some b
    → Shifted old (stored m v a b) (v + 1)
Shifted-step old m v a b h s at_a at_b =
    let small : v < 1000 = omega (arith, h) in
    record {
      full = stored-Full m v a b small s.full;
      up = λ j lt. elim (cell_cases j v lt) [
        | inl low ↦
            stored_other m v a b small s.full j (λ e. omega (arith, e, low))
              (λ e. omega (arith, e, low))
            ∙ s.up j low
        | inr (inl e) ↦
            ap (get_elem? (stored m v a b)) e
            ∙ stored_low m v a b small s.full
            ∙ sym at_a
            ∙ s.rest (2 * (v + 40)) (omega arith)
            ∙ ap (get_elem? old) {x = 2 * (v + 40)} {y = j + 80} (omega (arith, e))
        | inr (inr e) ↦
            ap (get_elem? (stored m v a b)) e
            ∙ stored_high m v a b small s.full
            ∙ sym at_b
            ∙ s.rest (2 * (v + 40) + 1) (omega arith)
            ∙ ap (get_elem? old) {x = 2 * (v + 40) + 1} {y = j + 80} (omega (arith, e))
      ];
      rest = λ j ge.
          stored_other m v a b small s.full j (λ e. omega (arith, e, ge))
            (λ e. omega (arith, e, ge))
          ∙ s.rest j (omega (arith, ge));
    }

move_lines-Shifted :
    (left : ℕ) (old m : List Cell) (v : ℕ)
    → v + left ≡ 960
    → Shifted old m v
    → Total (λ m'. Shifted old m' 960) (move_lines left m v)
unfolding move_lines
move_lines-Shifted zero old m v h s = subst (Shifted old m) (omega (arith, h)) s
move_lines-Shifted (suc left) old m v h s =
    Total-bind _ _ (get_cell m (2 * (v + 40))) _
      (get_cell-Total m (2 * (v + 40)) (omega (arith, h, s.full)))
      (λ a at_a.
        Total-bind _ _ (get_cell m (2 * (v + 40) + 1)) _
          (get_cell-Total m (2 * (v + 40) + 1) (omega (arith, h, s.full)))
          (λ b at_b.
            Total-bind _ _ (put_dword m v a b) _ (put_dword-Total m v a b (omega (arith, h)) s.full)
              (λ m' e. move_lines-Shifted left old m' (v + 1) (omega (arith, h)) (
                subst (λ x. Shifted old x (v + 1)) (sym e)
                  (Shifted-step old m v a b (omega (arith, h)) s at_a at_b)))))

-- The last line below `2 * v` is blank, the lines above it are as they were.
record Blanked (old m : List Cell) (v : ℕ) (blank : Cell) : Type 0 where
  full : Full m
  above : (j : ℕ) → j < 1920 → get_elem? m j ≡ get_elem? old j
  cleared : (j : ℕ) → 1920 ≤ j → j < 2 * v → get_elem? m j ≡ some blank

Blanked-step :
    (old m : List Cell) (v : ℕ) (blank : Cell)
    → 960 ≤ v
    → v < 1000
    → Blanked old m v blank
    → Blanked old (stored m v blank blank) (v + 1) blank
Blanked-step old m v blank lo h s = record {
  full = stored-Full m v blank blank h s.full;
  above = λ j lt.
      stored_other m v blank blank h s.full j (λ e. omega (arith, e, lt, lo))
        (λ e. omega (arith, e, lt, lo))
      ∙ s.above j lt;
  cleared = λ j ge lt. elim (cell_cases j v lt) [
    | inl low ↦
        stored_other m v blank blank h s.full j (λ e. omega (arith, e, low))
          (λ e. omega (arith, e, low))
        ∙ s.cleared j ge low
    | inr (inl e) ↦ ap (get_elem? (stored m v blank blank)) e ∙ stored_low m v blank blank h s.full
    | inr (inr e) ↦ ap (get_elem? (stored m v blank blank)) e ∙ stored_high m v blank blank h s.full
  ];
}

fill_dwords-Blanked :
    (left : ℕ) (old m : List Cell) (v : ℕ) (blank : Cell)
    → 960 ≤ v
    → v + left ≡ 1000
    → Blanked old m v blank
    → Total (λ m'. Blanked old m' 1000 blank) (fill_dwords left m v blank)
unfolding fill_dwords
fill_dwords-Blanked zero old m v blank lo h s =
    subst (λ n. Blanked old m n blank) (omega (arith, h)) s
fill_dwords-Blanked (suc left) old m v blank lo h s =
    Total-bind _ _ (put_dword m v blank blank) _
      (put_dword-Total m v blank blank (omega (arith, h)) s.full)
      (λ m' e.
        fill_dwords-Blanked left old m' (v + 1) blank (omega (arith, lo)) (omega (arith, h)) (
          subst (λ x. Blanked old x (v + 1) blank) (sym e)
            (Blanked-step old m v blank lo (omega (arith, h)) s)))

-- Every line of the screen has moved up, and the last one is blank.
abbrev pub ScrolledUp : Console → Console → Type 0
ScrolledUp s t =
    ((j : ℕ) → j < 24 * num_cols → get_elem? t.vidmem j ≡ get_elem? s.vidmem (j + num_cols))
    × ((j : ℕ) → 24 * num_cols ≤ j → j < 25 * num_cols → get_elem? t.vidmem j ≡ some (blank_cell s))

-- Scroll, whose loops move double words, moves every line of the screen one up and fills the last line
-- with blanks in the current attribute.
pub scroll-ScrolledUp : (s : Console) → length s.vidmem ≡ 2000 → Total (ScrolledUp s) (scroll s)
unfolding scroll
scroll-ScrolledUp s full =
    Total-bind _ _ (move_lines 960 s.vidmem 0) _
      (move_lines-Shifted 960 s.vidmem s.vidmem 0 (omega arith)
        (record { full = full; up = λ j lt. absurd (omega (arith, lt)); rest = λ j ge. refl }))
      (λ m sh.
        Total-bind _ _ (fill_dwords 40 m 960 (blank_cell s)) _
          (fill_dwords-Blanked 40 m m 960 (blank_cell s) (omega arith) (omega arith) (record {
            full = sh.full;
            above = λ j lt. refl;
            cleared = λ j ge lt. absurd (omega (arith, ge, lt));
          }))
          (λ m' bl. (
            λ j lt. bl.above j (omega (arith, lt)) ∙ sh.up j (omega (arith, lt)),
            λ j ge lt. bl.cleared j (omega (arith, ge)) (omega (arith, lt)),
          )))
