-- ===== src/Bitset/Create.antt =====
-- Create_Bit_Set: the set that it returns is empty.
use geekos.Base.{
  length, replicate, length-replicate, get_or-replicate, ℕ, zero, suc, ◌*◌, ◌/◌, ◌%◌, ◌≤◌, ◌≡◌,
  refl, ap, ◌∙◌, false, Option, some, List, [], ◌∷◌, arith,
}
use geekos.Base.Bits.{test_bit, zero-test_bit}
use geekos.Bitset.{BitSet, num_bytes, create_bit_set, is_bit_set}
use geekos.Bitset.Access.{IsBytes, is_bit_set_lem}
use geekos.CString.Memory.{memset}

memset_zero : (s : List ℕ) (n : ℕ) → length s ≡ n → memset s 0 n ≡ replicate n 0
unfolding memset
memset_zero s zero h = length_zero s h
  where
    length_zero : (l : List ℕ) → length l ≡ 0 → l ≡ []
    length_zero [] e = refl
    length_zero (x ∷ l) e = absurd (omega (arith, e))
memset_zero [] (suc n) h = absurd (omega (arith, h))
memset_zero (x ∷ s) (suc n) h = ap (λ t. 0 ∷ t) (memset_zero s n (omega (arith, h)))

zeros-IsBytes : (n : ℕ) → IsBytes (replicate n 0)
zeros-IsBytes zero = tt
zeros-IsBytes (suc n) = (omega arith, zeros-IsBytes n)

-- The set for `n` bits.
pub record IsEmptySet (n : ℕ) (bits : BitSet) : Type 0 where
  pub bytes : IsBytes bits
  pub size : n ≤ 8 * length bits
  pub clear : (i : ℕ) → is_bit_set bits i ≡ false

zeros-IsEmptySet : (n : ℕ) → IsEmptySet n (replicate (num_bytes n) 0)
unfolding num_bytes
zeros-IsEmptySet n = record {
  bytes = zeros-IsBytes (num_bytes n);
  size = ground (arith, length-replicate {A = ℕ} (num_bytes n) 0);
  clear = λ i.
      is_bit_set_lem (replicate (num_bytes n) 0) i
      ∙ ap (λ x. test_bit x (i % 8)) (get_or-replicate (num_bytes n) (i / 8) 0)
      ∙ zero-test_bit (i % 8);
}

pub create_bit_set-IsEmptySet :
    (malloc : ℕ → Option (List ℕ)) (block : List ℕ) (n : ℕ)
    → malloc (num_bytes n) ≡ some block
    → length block ≡ num_bytes n
    → (bits : BitSet) × (create_bit_set malloc n ≡ some bits) × IsEmptySet n bits
unfolding create_bit_set
create_bit_set-IsEmptySet malloc block n e len = (
  replicate (num_bytes n) 0,
  rw (create_bit_set, e, memset_zero block (num_bytes n) len) refl,
  zeros-IsEmptySet n,
)
