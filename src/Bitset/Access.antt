-- ===== src/Bitset/Access.antt =====
-- Set_Bit, Clear_Bit and Is_Bit_Set: the array of bytes is a set of positions.
use geekos.Base.{
  ◌==◌, ==_iff, Bool-cases, length, get_or, set, All, get_or-set_self, get_or-set_ne, All-set,
  All-get_or, ℕ, zero, suc, ◌-◌, ◌*◌, ◌/◌, ◌%◌, ◌^◌, ◌≤◌, ◌<◌, bit_and, bit_or, ◌≡◌, sym, ap, ◌∙◌,
  ◌≢◌, inl, inr, Bool, false, not, ◌&&◌, ◌||◌, arith,
}
use geekos.Base.Bits.{has-pow, test_bit, bit_or-lt, bit_and-le, test_bit-or_pow, test_bit-and_mask}
use geekos.Bitset.{BitSet, set_bit, clear_bit, is_bit_set}

-- Every element of the array is an unsigned char.
abbrev pub IsBytes : BitSet → Type 0
IsBytes = All (λ x. x < 2 ^ 8)

pub is_bit_set_lem :
    (bits : BitSet) (pos : ℕ) → is_bit_set bits pos ≡ test_bit (get_or bits (pos / 8) 0) (pos % 8)
unfolding is_bit_set
is_bit_set_lem bits pos = has-pow (pos % 8) (get_or bits (pos / 8) 0)

pub byte-lt : (bits : BitSet) (i : ℕ) → IsBytes bits → get_or bits i 0 < 2 ^ 8
byte-lt bits i h = All-get_or (λ x. x < 2 ^ 8) bits i 0 h (omega arith)

-- Writing byte `p / 8` changes at most the eight positions of that byte.
write_bit :
    (bits : BitSet) (p q x : ℕ) (b : Bool)
    → p / 8 < length bits
    → (p / 8 ≡ q / 8 → test_bit x (q % 8) ≡ b)
    → (p / 8 ≢ q / 8 → is_bit_set bits q ≡ b)
    → is_bit_set (set bits (p / 8) x) q ≡ b
write_bit bits p q x b h same other = elim (Bool-cases (p / 8 == q / 8)) [
  | inl e ↦
      let e' = (==_iff (p / 8) (q / 8)).0 e in
      is_bit_set_lem (set bits (p / 8) x) q
      ∙ ap (λ i. test_bit (get_or (set bits (p / 8) x) i 0) (q % 8)) (sym e')
      ∙ ap (λ y. test_bit y (q % 8)) (get_or-set_self bits (p / 8) x 0 h)
      ∙ same e'
  | inr n ↦
      let n' : p / 8 ≢ q / 8 = ground arith in
      is_bit_set_lem (set bits (p / 8) x) q
      ∙ ap (λ y. test_bit y (q % 8)) (get_or-set_ne bits (p / 8) (q / 8) x 0 n')
      ∙ sym (is_bit_set_lem bits q)
      ∙ other n'
]

same_position : (p q : ℕ) → p / 8 ≡ q / 8 → (p % 8 == q % 8) ≡ (p == q)
same_position p q e = ground arith

other_position : (p q : ℕ) → p / 8 ≢ q / 8 → (p == q) ≡ false
other_position p q n = ground arith

pow-lt_byte : (k : ℕ) → k < 8 → 2 ^ k < 2 ^ 8
pow-lt_byte zero h = omega arith
pow-lt_byte (suc zero) h = omega arith
pow-lt_byte (suc (suc zero)) h = omega arith
pow-lt_byte (suc (suc (suc zero))) h = omega arith
pow-lt_byte (suc (suc (suc (suc zero)))) h = omega arith
pow-lt_byte (suc (suc (suc (suc (suc zero))))) h = omega arith
pow-lt_byte (suc (suc (suc (suc (suc (suc zero)))))) h = omega arith
pow-lt_byte (suc (suc (suc (suc (suc (suc (suc zero))))))) h = omega arith
pow-lt_byte (suc (suc (suc (suc (suc (suc (suc (suc k)))))))) h = absurd (omega arith)

||-comm : (a b : Bool) → (a || b) ≡ (b || a)
||-comm a b = ground arith

&&-comm : (a b : Bool) → (a && b) ≡ (b && a)
&&-comm a b = ground arith

module _ (bits : BitSet) (p q : ℕ) (bytes : IsBytes bits) (inside : p < 8 * length bits) where
  -- After Set_Bit at `p`, Is_Bit_Set is true at `p` and unchanged at every other position, for an
  -- array of bytes and a `p` inside it.
  pub is_bit_set-set_bit : is_bit_set (set_bit bits p) q ≡ (p == q || is_bit_set bits q)
  unfolding set_bit
  is_bit_set-set_bit =
      write_bit bits p q (bit_or byte (2 ^ (p % 8)) % 2 ^ 8) (p == q || is_bit_set bits q)
        (omega arith)
        (λ e.
          ap (λ y. test_bit y (q % 8)) (omega (arith, small))
          ∙ test_bit-or_pow byte (p % 8) (q % 8)
          ∙ ||-comm (test_bit byte (q % 8)) (p % 8 == q % 8)
          ∙ ap (λ b. b || test_bit byte (q % 8)) (same_position p q e)
          ∙ ap (λ i. (p == q) || test_bit (get_or bits i 0) (q % 8)) e
          ∙ ap (λ b. (p == q) || b) (sym (is_bit_set_lem bits q)))
        (λ n. sym (ap (λ b. b || is_bit_set bits q) (other_position p q n)))
    where
      byte : ℕ
      byte = get_or bits (p / 8) 0

      small : bit_or byte (2 ^ (p % 8)) < 2 ^ 8
      small =
          bit_or-lt 8 byte (2 ^ (p % 8)) (byte-lt bits (p / 8) bytes)
            (pow-lt_byte (p % 8) (omega arith))

  -- After Clear_Bit at `p`, Is_Bit_Set is false at `p` and unchanged at every other position, for an
  -- array of bytes and a `p` inside it.
  pub is_bit_set-clear_bit : is_bit_set (clear_bit bits p) q ≡ (not (p == q) && is_bit_set bits q)
  unfolding clear_bit
  is_bit_set-clear_bit =
      write_bit bits p q (bit_and byte (2 ^ 32 - 1 - 2 ^ (p % 8)) % 2 ^ 8)
        (not (p == q) && is_bit_set bits q) (omega arith)
        (λ e.
          ap (λ y. test_bit y (q % 8)) (omega (arith, small, byte-lt bits (p / 8) bytes))
          ∙ test_bit-and_mask 32 byte (p % 8) (q % 8) (omega arith) (omega arith)
          ∙ &&-comm (test_bit byte (q % 8)) (not (p % 8 == q % 8))
          ∙ ap (λ b. not b && test_bit byte (q % 8)) (same_position p q e)
          ∙ ap (λ i. not (p == q) && test_bit (get_or bits i 0) (q % 8)) e
          ∙ ap (λ b. not (p == q) && b) (sym (is_bit_set_lem bits q)))
        (λ n. sym (ap (λ b. not b && is_bit_set bits q) (other_position p q n)))
    where
      byte : ℕ
      byte = get_or bits (p / 8) 0

      small : bit_and byte (2 ^ 32 - 1 - 2 ^ (p % 8)) ≤ byte
      small = bit_and-le byte (2 ^ 32 - 1 - 2 ^ (p % 8))

-- Set_Bit and Clear_Bit keep an array of bytes.
pub set_bit-IsBytes : (bits : BitSet) (p : ℕ) → IsBytes bits → IsBytes (set_bit bits p)
unfolding set_bit
set_bit-IsBytes bits p h = All-set (λ x. x < 2 ^ 8) bits (p / 8) _ h (omega arith)

pub clear_bit-IsBytes : (bits : BitSet) (p : ℕ) → IsBytes bits → IsBytes (clear_bit bits p)
unfolding clear_bit
clear_bit-IsBytes bits p h = All-set (λ x. x < 2 ^ 8) bits (p / 8) _ h (omega arith)
