-- ===== src/Bitset/FirstFree.antt =====
-- Find_First_Free_Bit.
use geekos.Base.{
  ltb, ◌==◌, ltb→lt, ==_iff, Bool-cases, get_or, ℕ, zero, suc, ◌+◌, ◌-◌, ◌*◌, ◌/◌, ◌%◌, ◌^◌, ◌≤◌,
  ◌<◌, bit_and, ◌≡◌, ap, ap₂, subst, ◌∙◌, ◌≢◌, inl, inr, Bool, true, false, not, Option, none, some,
  arith,
}
use geekos.Base.Bits.{test_bit, has-pow, ones-test_bit}
use geekos.Bitset.{
  BitSet, Found, at, minus_one, negative, assert_failed, return_int, num_bytes, is_bit_set,
  scan_byte, scan_bytes, find_first_free_bit,
}
use geekos.Bitset.Access.{IsBytes, is_bit_set_lem, byte-lt}

-- The first clear position below `n` is `p`.
abbrev pub IsFirst : BitSet → ℕ → ℕ → Type 0
IsFirst bits n p =
    (p < n) × (is_bit_set bits p ≡ false) × ((q : ℕ) → q < p → is_bit_set bits q ≡ true)

-- What a search for the first clear position below `n` has to return: an int has room for positions below
-- 2^31, and a position from there on comes back as the negative int with its word.
abbrev pub FirstFree : BitSet → ℕ → Found → Type 0
FirstFree bits n (at p) = IsFirst bits n p × (p < 2 ^ 31)
FirstFree bits n (negative w) = IsFirst bits n w × (2 ^ 31 ≤ w)
FirstFree bits n minus_one = (q : ℕ) → q < n → is_bit_set bits q ≡ true
FirstFree bits n assert_failed = ⊥

-- The same of the bits `from` to `from + left` of a byte.
abbrev FirstZero : ℕ → ℕ → ℕ → Option ℕ → Type 0
FirstZero byte left from (some b) =
    (from ≤ b)
    × (b < from + left)
    × (test_bit byte b ≡ false)
    × ((k : ℕ) → from ≤ k → k < b → test_bit byte k ≡ true)
FirstZero byte left from none = (k : ℕ) → from ≤ k → k < from + left → test_bit byte k ≡ true

clear_test : (byte bit : ℕ) → (bit_and byte (2 ^ bit) == 0) ≡ not (test_bit byte bit)
clear_test byte bit = ground (arith, has-pow bit byte)

at_or_above : (P : ℕ → Type 0) (a k : ℕ) → P a → (a + 1 ≤ k → P k) → a ≤ k → P k
at_or_above P a k here above h = elim (Bool-cases (a == k)) [
  | inl e ↦ subst P ((==_iff a k).0 e) here
  | inr n ↦ above (ground arith)
]

FirstZero-next :
    (byte left from : ℕ) (r : Option ℕ)
    → test_bit byte from ≡ true
    → FirstZero byte left (from + 1) r
    → FirstZero byte (suc left) from r
FirstZero-next byte left from none h z =
    λ k lo hi. at_or_above (λ i. test_bit byte i ≡ true) from k h (λ a. z k a (omega arith)) lo
FirstZero-next byte left from (some b) h z = (
  omega (arith, z.0),
  omega (arith, z.1),
  z.2,
  λ k lo hi. at_or_above (λ i. test_bit byte i ≡ true) from k h (λ a. z.3 k a hi) lo,
)

scan_byte-FirstZero : (left byte from : ℕ) → FirstZero byte left from (scan_byte left byte from)
unfolding scan_byte
scan_byte-FirstZero zero byte from = λ k lo hi. absurd (omega arith)
scan_byte-FirstZero (suc left) byte from = elim (Bool-cases (test_bit byte from)) [
  | inl t ↦
      rw (clear_test byte from, t)
        (FirstZero-next byte left from (scan_byte left byte (from + 1)) t
          (scan_byte-FirstZero left byte (from + 1)))
  | inr f ↦
      rw (clear_test byte from, f) (omega arith, omega arith, f, λ k lo hi. absurd (omega arith))
]

full_byte : (byte : ℕ) → byte < 2 ^ 8 → FirstZero byte 8 0 none → byte ≡ 255
full_byte byte h z = ground (
  arith,
  z 0 (omega arith) (omega arith),
  z 1 (omega arith) (omega arith),
  z 2 (omega arith) (omega arith),
  z 3 (omega arith) (omega arith),
  z 4 (omega arith) (omega arith),
  z 5 (omega arith) (omega arith),
  z 6 (omega arith) (omega arith),
  z 7 (omega arith) (omega arith),
)

-- Positions `offset * 8` to `offset * 8 + 8` are the bits of one byte.
bit_of_byte :
    (bits : BitSet) (offset q : ℕ) (b : Bool)
    → offset * 8 ≤ q
    → q < offset * 8 + 8
    → test_bit (get_or bits offset 0) (q - offset * 8) ≡ b
    → is_bit_set bits q ≡ b
bit_of_byte bits offset q b lo hi h =
    is_bit_set_lem bits q
    ∙ ap₂ (λ i k. test_bit (get_or bits i 0) k) {x = q / 8} {y = offset} {u = q % 8}
        {v = q - offset * 8} (omega arith) (omega arith)
    ∙ h

-- The position as an int: it is not the word of -1.
return_int-FirstFree :
    (bits : BitSet) (n p : ℕ) → n ≤ 2 ^ 32 - 1 → IsFirst bits n p → FirstFree bits n (return_int p)
unfolding return_int
return_int-FirstFree bits n p small first = elim (Bool-cases (ltb p (2 ^ 31))) [
  | inl low ↦ rw low (first, ltb→lt p (2 ^ 31) low)
  | inr high ↦
      let other : (p == 2 ^ 32 - 1) ≡ false = ground (arith, first.0) in
      rw (high, other) (first, ground (arith, high))
]

below_or_in : (P : ℕ → Type 0) (a q : ℕ) → (q < a → P q) → (a ≤ q → P q) → P q
below_or_in P a q low high = elim (Bool-cases (ltb q a)) [
  | inl h ↦ low (ltb→lt q a h)
  | inr h ↦ high (ground arith)
]

module _ (bits : BitSet) (bytes : IsBytes bits) where
  -- Everything below `offset * 8` is set, and the loop goes on to `(offset + left) * 8`.
  scan_bytes-FirstFree :
      (left offset : ℕ)
      → (offset + left) * 8 ≤ 2 ^ 32 - 8
      → ((q : ℕ) → q < offset * 8 → is_bit_set bits q ≡ true)
      → FirstFree bits ((offset + left) * 8) (scan_bytes left bits offset)
  unfolding scan_bytes
  scan_bytes-FirstFree zero offset small below = λ q h. below q (omega arith)
  scan_bytes-FirstFree (suc left) offset small below =
      elim (Bool-cases (get_or bits offset 0 == 255)) [
        | inl full ↦ rw full (
            subst (λ n. FirstFree bits n (scan_bytes left bits (offset + 1))) (omega arith)
              (scan_bytes-FirstFree left (offset + 1) (omega arith) (λ q h.
                below_or_in (λ i. is_bit_set bits i ≡ true) (offset * 8) q (below q)
                  (λ lo. bit_of_byte bits offset q true lo (omega arith) (
                    ap (λ y. test_bit y (q - offset * 8)) ((==_iff _ _).0 full)
                    ∙ ones-test_bit 8 (q - offset * 8) (omega arith))))))
        | inr partial ↦ rw partial (
            found (scan_byte 8 (get_or bits offset 0) 0)
              (scan_byte-FirstZero 8 (get_or bits offset 0) 0) (ground arith))
      ]
    where
      found :
          (r : Option ℕ)
          → FirstZero (get_or bits offset 0) 8 0 r
          → get_or bits offset 0 ≢ 255
          → FirstFree bits ((offset + suc left) * 8) (elim r [
            | some bit ↦ return_int ((offset * 8 + bit) % 2 ^ 32)
            | none ↦ assert_failed
          ])
      found none z n = n (full_byte (get_or bits offset 0) (byte-lt bits offset bytes) z)
      found (some b) z n =
          let pos : (offset * 8 + b) % 2 ^ 32 ≡ offset * 8 + b = omega (arith, z.1) in
          rw pos (
            return_int-FirstFree bits ((offset + suc left) * 8) (offset * 8 + b)
              (omega (arith, small))
              (
                omega (arith, z.1),
                bit_of_byte bits offset (offset * 8 + b) false (omega arith) (omega (arith, z.1)) (
                    ap (test_bit (get_or bits offset 0)) {x = offset * 8 + b - offset * 8} {y = b}
                      (omega arith)
                    ∙ z.2),
                λ q h.
                    below_or_in (λ i. is_bit_set bits i ≡ true) (offset * 8) q (below q)
                      (λ lo.
                        bit_of_byte bits offset q true lo (omega (arith, z.1))
                          (z.3 (q - offset * 8) (omega arith) (omega (arith, z.1)))),
              ))

  -- For an array of bytes and up to 2^32 - 8 positions, Find_First_Free_Bit never fails its
  -- assertion; it returns the first clear position of the bytes that hold `total` positions, with only
  -- set positions below it, where that is below 2^31, and the negative int with the same word where it
  -- is not; and it returns -1 only where every position of those bytes is set.
  pub find_first_free_bit-FirstFree :
      (total : ℕ)
      → total ≤ 2 ^ 32 - 8
      → FirstFree bits (num_bytes total * 8) (find_first_free_bit bits total)
  unfolding find_first_free_bit num_bytes
  find_first_free_bit-FirstFree total small =
      subst (λ n. FirstFree bits n (scan_bytes (num_bytes total) bits 0))
        {x = (0 + num_bytes total) * 8} {y = num_bytes total * 8} (omega arith)
        (scan_bytes-FirstFree (num_bytes total) 0 (ground arith) (λ q h. absurd (omega arith)))

  -- The search is not confined to the positions asked for: where the last byte is not used up, every
  -- asked-for position is set and the one behind them is clear, the result is that one.
  pub find_first_free_bit-past_end :
      (total : ℕ)
      → total < 2 ^ 31 - 8
      → total % 8 ≢ 0
      → ((q : ℕ) → q < total → is_bit_set bits q ≡ true)
      → is_bit_set bits total ≡ false
      → find_first_free_bit bits total ≡ at total
  unfolding num_bytes
  find_first_free_bit-past_end total small part all_set free =
      past (find_first_free_bit bits total) (find_first_free_bit-FirstFree total (omega arith))
    where
      past : (r : Found) → FirstFree bits (num_bytes total * 8) r → r ≡ at total
      past (at p) ((lt, clear, low), _) = elim (Bool-cases (ltb p total)) [
        | inl h ↦ cc (all_set p (ltb→lt p total h))
        | inr h ↦ elim (Bool-cases (ltb total p)) [
          | inl k ↦ cc (low total (ltb→lt total p k))
          | inr k ↦ ap at (ground arith)
        ]
      ]
      past (negative w) ((lt, clear, low), high) = cc (low total (ground arith))
      past minus_one all = cc (all total (ground arith))
      past assert_failed bad = elim bad [ ]
