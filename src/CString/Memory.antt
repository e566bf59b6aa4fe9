-- ===== src/CString/Memory.antt =====
-- memset and memcpy of src/common/string.c. A pointer is the list of the bytes from it to the end of
-- its object; writes past the end, which C leaves undefined, are dropped.
use geekos.Base.{
  ℕ, zero, suc, ◌≤◌, ◌%◌, ◌^◌, ◌≡◌, refl, ap, List, [], ◌∷◌, ◌++◌, arith, length, take, drop,
  replicate,
}

unfoldable pub memset : List ℕ → ℕ → ℕ → List ℕ
memset s c zero = s
memset [] c (suc n) = []
memset (x ∷ s) c (suc n) = (c % 2 ^ 8) ∷ memset s c n

-- The `n` bytes at `src` replace the first `n` at `dst`.
unfoldable pub memcpy : List ℕ → List ℕ → ℕ → List ℕ
memcpy dst src zero = dst
memcpy [] src (suc n) = []
memcpy (d ∷ dst) [] (suc n) = d ∷ dst
memcpy (d ∷ dst) (s ∷ src) (suc n) = s ∷ memcpy dst src n

-- memset fills `n` bytes and keeps what follows.
pub memset_lem :
    (s : List ℕ) (c n : ℕ) → n ≤ length s → memset s c n ≡ replicate n (c % 2 ^ 8) ++ drop n s
unfolding memset
memset_lem s c zero h = refl
memset_lem [] c (suc n) h = elim h [ ]
memset_lem (x ∷ s) c (suc n) h = ap (λ t. (c % 2 ^ 8) ∷ t) (memset_lem s c n (omega arith))

-- memcpy copies `n` bytes and keeps what follows.
pub memcpy_lem :
    (dst src : List ℕ) (n : ℕ)
    → n ≤ length dst
    → n ≤ length src
    → memcpy dst src n ≡ take n src ++ drop n dst
unfolding memcpy
memcpy_lem dst src zero h k = refl
memcpy_lem [] src (suc n) h k = elim h [ ]
memcpy_lem (d ∷ dst) [] (suc n) h k = elim k [ ]
memcpy_lem (d ∷ dst) (s ∷ src) (suc n) h k =
    ap (λ t. s ∷ t) (memcpy_lem dst src n (omega arith) (omega arith))
