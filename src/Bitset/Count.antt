-- ===== src/Bitset/Count.antt =====
-- Get_Count_Of_ALL_Free_Bit.
use geekos.Base.{
  ltb, ◌==◌, if◌then◌else◌, lt→ltb, ==_iff, Bool-cases, get_or, ℕ, zero, suc, ◌+◌, ◌-◌, ◌*◌, ◌/◌,
  ◌%◌, ◌^◌, ◌≤◌, ◌<◌, ◌≡◌, refl, sym, ap, ap₂, ◌∙◌, inl, inr, Bool, true, not, arith,
}
use geekos.Base.Bits.{test_bit, has-pow, ones-test_bit}
use geekos.Bitset.{
  BitSet, num_bytes, is_bit_set, count_byte, count_bytes, pos, word_to_int,
  get_count_of_all_free_bit,
}
use geekos.Bitset.Access.{is_bit_set_lem}

-- How many of the `n` positions from `p` on are clear.
abbrev pub clear_from : BitSet → ℕ → ℕ → ℕ
clear_from bits p zero = 0
clear_from bits p (suc n) = (if is_bit_set bits p then 0 else 1) + clear_from bits (p + 1) n

abbrev zeros_from : ℕ → ℕ → ℕ → ℕ
zeros_from byte b zero = 0
zeros_from byte b (suc n) = (if test_bit byte b then 0 else 1) + zeros_from byte (b + 1) n

clear_from-add :
    (bits : BitSet) (p m n : ℕ)
    → clear_from bits p (m + n) ≡ clear_from bits p m + clear_from bits (p + m) n
clear_from-add bits p zero n =
    ap₂ (clear_from bits) {x = p} {y = p + 0} {u = 0 + n} {v = n} (omega arith) (omega arith)
    ∙ omega arith
clear_from-add bits p (suc m) n =
    ap (clear_from bits p) {x = suc m + n} {y = suc (m + n)} (omega arith)
    ∙ omega (
      arith,
      clear_from-add bits (p + 1) m n,
      ap (λ i. clear_from bits i n) {x = p + 1 + m} {y = p + suc m} (omega arith),
    )

count_byte_lem :
    (left byte b count : ℕ)
    → count + left < 2 ^ 32
    → count_byte left byte b count ≡ count + zeros_from byte b left
unfolding count_byte
count_byte_lem zero byte b count h = omega arith
count_byte_lem (suc left) byte b count h = ground (
  arith,
  has-pow b byte,
  count_byte_lem left byte (b + 1) (count + 1),
  count_byte_lem left byte (b + 1) count,
  ap (count_byte left byte (b + 1)) {x = (count + 1) % 2 ^ 32} {y = count + 1} (omega arith),
)

zeros_from-le : (byte b n : ℕ) → zeros_from byte b n ≤ n
zeros_from-le byte b zero = omega arith
zeros_from-le byte b (suc n) = ground (arith, zeros_from-le byte (b + 1) n)

zeros_from-full : (b n : ℕ) → b + n ≤ 8 → zeros_from 255 b n ≡ 0
zeros_from-full b zero h = refl
zeros_from-full b (suc n) h =
    ground (arith, ones-test_bit 8 b (omega arith), zeros_from-full (b + 1) n (omega arith))

zeros_from-clear :
    (bits : BitSet) (offset b n : ℕ)
    → b + n ≤ 8
    → zeros_from (get_or bits offset 0) b n ≡ clear_from bits (offset * 8 + b) n
zeros_from-clear bits offset b zero h = refl
zeros_from-clear bits offset b (suc n) h = omega (
  arith,
  ap {B = ℕ} (λ (t : Bool). if t then 0 else 1) same,
  zeros_from-clear bits offset (b + 1) n (omega arith),
  ap (λ p. clear_from bits p n) {x = offset * 8 + (b + 1)} {y = offset * 8 + b + 1} (omega arith),
)
  where
    same : test_bit (get_or bits offset 0) b ≡ is_bit_set bits (offset * 8 + b)
    same = sym (
        is_bit_set_lem bits (offset * 8 + b)
        ∙ ap₂ (λ i k. test_bit (get_or bits i 0) k) {x = (offset * 8 + b) / 8} {y = offset}
            {u = (offset * 8 + b) % 8} {v = b} (omega arith) (omega arith))

-- One round of the outer loop counts the clear positions of one byte.
count_round :
    (bits : BitSet) (offset count : ℕ)
    → count + 8 < 2 ^ 32
    → (if not (get_or bits offset 0 == 255)
        then count_byte 8 (get_or bits offset 0) 0 count
        else count)
      ≡ count + clear_from bits (offset * 8) 8
count_round bits offset count h = elim (Bool-cases (get_or bits offset 0 == 255)) [
  | inl e ↦ rw e (
      omega (
        arith,
        zeros_from-full 0 8 (omega arith),
        ap (λ y. zeros_from y 0 8) ((==_iff (get_or bits offset 0) 255).0 e),
        clear,
      ))
  | inr n ↦
      rw n (omega (arith, count_byte_lem 8 (get_or bits offset 0) 0 count (omega arith), clear))
]
  where
    clear : zeros_from (get_or bits offset 0) 0 8 ≡ clear_from bits (offset * 8) 8
    clear =
        zeros_from-clear bits offset 0 8 (omega arith)
        ∙ ap (λ p. clear_from bits p 8) {x = offset * 8 + 0} {y = offset * 8} (omega arith)

clear_from-le : (bits : BitSet) (p n : ℕ) → clear_from bits p n ≤ n
clear_from-le bits p zero = omega arith
clear_from-le bits p (suc n) = ground (arith, clear_from-le bits (p + 1) n)

count_bytes_lem :
    (left : ℕ) (bits : BitSet) (offset count : ℕ)
    → count + left * 8 < 2 ^ 32
    → count_bytes left bits offset count ≡ count + clear_from bits (offset * 8) (left * 8)
unfolding count_bytes
count_bytes_lem zero bits offset count h = omega arith
count_bytes_lem (suc left) bits offset count h =
    ap (count_bytes left bits (offset + 1)) (count_round bits offset count (omega arith))
    ∙ count_bytes_lem left bits (offset + 1) (count + clear_from bits (offset * 8) 8)
        (omega (arith, clear_from-le bits (offset * 8) 8))
    ∙ omega (
      arith,
      clear_from-add bits (offset * 8) 8 (left * 8),
      ap (clear_from bits (offset * 8)) {x = 8 + left * 8} {y = suc left * 8} (omega arith),
      ap (λ p. clear_from bits p (left * 8)) {x = (offset + 1) * 8} {y = offset * 8 + 8}
          (omega arith),
    )

-- Get_Count_Of_ALL_Free_Bit returns, as a number that is not negative, how many positions are clear in the
-- bytes that hold `total` positions, for up to 2^31 - 8 positions.
pub get_count_of_all_free_bit_lem :
    (bits : BitSet) (total : ℕ)
    → total ≤ 2 ^ 31 - 8
    → get_count_of_all_free_bit bits total ≡ pos (clear_from bits 0 (num_bytes total * 8))
unfolding get_count_of_all_free_bit num_bytes word_to_int
get_count_of_all_free_bit_lem bits total h =
    let count = clear_from bits 0 (num_bytes total * 8) in
    let counted : count_bytes (num_bytes total) bits 0 0 ≡ count =
      count_bytes_lem (num_bytes total) bits 0 0 (ground arith) ∙ omega arith in
    let low : ltb count (2 ^ 31) ≡ true =
      lt→ltb count (2 ^ 31) (ground (arith, clear_from-le bits 0 (num_bytes total * 8))) in
    rw (counted, low) refl
