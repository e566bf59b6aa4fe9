-- ===== src/Vfs/Paths.antt =====
-- What Unpack_Path makes of a path.
use geekos.Base.{
  ltb, ◌==◌, ==_ne, length, set, drop, All, length-append, take-append, drop-append, ℕ, suc, ◌≤◌,
  ◌<◌, ◌≡◌, refl, ap, ◌≢◌, false, ◌||◌, none, some, List, [], ◌∷◌, ◌++◌, arith,
}
use geekos.CString.{strchr}
use geekos.CString.Memory.{memcpy_lem}
use geekos.CString.Compare.{NonZero, nonzero, strlen-length}
use geekos.CString.Copy.{strcpy_lem}
use geekos.Vfs.{check_suffix, unpack_root, unpack_prefix, unpack_path}

-- Characters of one component of a path: neither nul nor a slash.
abbrev pub IsComponent : List ℕ → Type 0
IsComponent p = NonZero p × All (λ c. c ≢ 47) p

strchr-found :
    (p q : List ℕ)
    → NonZero p
    → All (λ c. c ≢ 47) p
    → strchr (p ++ 47 ∷ q) 47 ≡ some (some (length p))
unfolding strchr
strchr-found [] q h k = refl
strchr-found (x ∷ p) q (h, hs) (k, ks) = rw (nonzero x h, ==_ne x 47 k, strchr-found p q hs ks) refl

strchr-missing :
    (p r : List ℕ) → NonZero p → All (λ c. c ≢ 47) p → strchr (p ++ 0 ∷ r) 47 ≡ some none
unfolding strchr
strchr-missing [] r h k = refl
strchr-missing (x ∷ p) r (h, hs) (k, ks) =
    rw (nonzero x h, ==_ne x 47 k, strchr-missing p r hs ks) refl

set-drop :
    (p d : List ℕ)
    → length p < length d
    → set (p ++ drop (length p) d) (length p) 0 ≡ p ++ 0 ∷ drop (suc (length p)) d
set-drop p [] h = elim h [ ]
set-drop [] (x ∷ d) h = refl
set-drop (y ∷ p) (x ∷ d) h = ap (λ l. y ∷ l) (set-drop p d (omega arith))

fits : (n : ℕ) → 0 < n → n ≤ 16 → ((n == 0) || ltb 16 n) ≡ false
fits n h k = ground arith

-- A path "/p/q", where `p` has 1 to 16 characters, none a slash, is split into "p" and "/q", for a
-- prefix buffer that holds 17 characters.
pub unpack_path-splits :
    (p q prefix : List ℕ)
    → IsComponent p
    → 0 < length p
    → length p ≤ 16
    → length prefix ≡ 17
    → unpack_path (47 ∷ p ++ 47 ∷ q) prefix
      ≡ some (some (p ++ 0 ∷ drop (suc (length p)) prefix, 47 ∷ q))
unfolding unpack_path unpack_prefix check_suffix
unpack_path-splits p q prefix (h, k) pos len room =
    let buffer =
      memcpy_lem prefix (p ++ 47 ∷ q) (length p) (omega arith)
        (omega (arith, length-append p (47 ∷ q))) in
    rw
      (
        strchr-found p q h k,
        fits (length p) pos len,
        drop-append p (47 ∷ q),
        buffer,
        take-append p (47 ∷ q),
        set-drop p prefix (omega arith),
      )
      refl

-- A path "/p" is split into "p" and "/", under the same conditions.
pub unpack_path-root :
    (p r prefix : List ℕ)
    → IsComponent p
    → 0 < length p
    → length p ≤ 16
    → length prefix ≡ 17
    → unpack_path (47 ∷ p ++ 0 ∷ r) prefix
      ≡ some (some (p ++ 0 ∷ drop (suc (length p)) prefix, 47 ∷ 0 ∷ []))
unfolding unpack_path unpack_root check_suffix
unpack_path-root p r prefix (h, k) pos len room =
    rw
      (
        strchr-missing p r h k,
        strlen-length p r h,
        fits (length p) pos len,
        strcpy_lem p r prefix h (omega arith),
      )
      refl
