-- ===== src/CString/Compare.antt =====
-- Lengths and comparisons of strings.
use geekos.Base.{
  ◌==◌, ==_iff, ==_ne, Bool-cases, length, All, ℕ, ◌<◌, ◌≡◌, refl, sym, ap, ap₂, ◌∙◌, ◌≢◌, ◌↔◌, inl,
  inr, false, none, some, List, [], ◌∷◌, ◌++◌, arith,
}
use geekos.CString.{char_diff, strlen, memcmp_loop, memcmp, strcmp}

abbrev pub NonZero : List ℕ → Type 0
NonZero = All (λ c. (0 < c) × (c < 256))

-- strlen of a string of `length xs` characters, none of which is nul.
pub strlen-length : (xs rest : List ℕ) → NonZero xs → strlen (xs ++ 0 ∷ rest) ≡ some (length xs)
unfolding strlen
strlen-length [] rest h = refl
strlen-length (x ∷ xs) rest (h, hs) =
    rw (==_ne x 0 (λ e. omega (arith, e, h.0)), strlen-length xs rest hs) refl

pub char_diff_zero : (a b : ℕ) → a < 256 → b < 256 → char_diff a b ≡ 0 → a ≡ b
unfolding char_diff
char_diff_zero a b ha hb e = ground arith

pub char_diff_self : (a : ℕ) → a < 256 → char_diff a a ≡ 0
unfolding char_diff
char_diff_self a h = ground arith

abbrev head_or : ℕ → List ℕ → ℕ
head_or d [] = d
head_or d (x ∷ xs) = x

abbrev tail : List ℕ → List ℕ
tail [] = []
tail (x ∷ xs) = xs

pub nonzero : (x : ℕ) → (0 < x) × (x < 256) → (x == 0) ≡ false
nonzero x h = ==_ne x 0 (λ e. omega (arith, e, h.0))

-- strcmp of two strings returns, and the result is 0 exactly where they hold the same characters.
pub strcmp-zero_iff :
    (xs ys r q : List ℕ)
    → NonZero xs
    → NonZero ys
    → (n : ℕ) × (strcmp (xs ++ 0 ∷ r) (ys ++ 0 ∷ q) ≡ some n) × ((n ≡ 0) ↔ (xs ≡ ys))
unfolding strcmp
strcmp-zero_iff [] [] r q h k =
    (char_diff 0 0, ground arith, (λ e. refl, λ e. char_diff_self 0 (omega arith)))
strcmp-zero_iff [] (y ∷ ys) r q h (k, ks) = (
  char_diff 0 y,
  ground arith,
  (
    λ e. absurd (omega (arith, char_diff_zero 0 y (omega arith) k.1 e, k)),
    λ e. absurd (omega (arith, ap length e)),
  ),
)
strcmp-zero_iff (x ∷ xs) [] r q (h, hs) k = (
  char_diff x 0,
  ground arith,
  (
    λ e. absurd (omega (arith, char_diff_zero x 0 h.1 (omega arith) e, h)),
    λ e. absurd (omega (arith, ap length e)),
  ),
)
strcmp-zero_iff (x ∷ xs) (y ∷ ys) r q (h, hs) (k, ks) =
    let (n, e, same) = strcmp-zero_iff xs ys r q hs ks in
    elim (Bool-cases (char_diff x y == 0)) [
      | inl z ↦
          let xy = char_diff_zero x y h.1 k.1 ((==_iff (char_diff x y) 0).0 z) in
          rw (z, nonzero x h, nonzero y k)
            (n, e, (λ nil. ap₂ (λ a l. a ∷ l) xy (same.0 nil), λ lists. same.1 (ap tail lists)))
      | inr z ↦ rw z (
        char_diff x y,
        refl,
        (
          λ nil. absurd (differs z nil),
          λ lists. absurd (
              differs z
                (ap (λ a. char_diff x a) (sym (ap (head_or x) lists)) ∙ char_diff_self x h.1)),
        ),
      )
    ]
  where
    differs : (char_diff x y == 0) ≡ false → char_diff x y ≢ 0
    differs z nil = ground (arith, z, nil)

memcmp_loop_self : (xs : List ℕ) → All (λ c. c < 256) xs → memcmp_loop xs xs ≡ none
unfolding memcmp_loop
memcmp_loop_self [] h = refl
memcmp_loop_self (x ∷ xs) (h, hs) = rw (char_diff_self x h) (memcmp_loop_self xs hs)

-- The size that memcmp is given does not bound it: for every size but 0 it reads on to the first
-- difference, and so beyond the end of two objects that hold the same bytes.
pub memcmp-unbounded : (xs : List ℕ) (n : ℕ) → All (λ c. c < 256) xs → 0 < n → memcmp xs xs n ≡ none
unfolding memcmp
memcmp-unbounded xs n h pos = rw (==_ne n 0 (λ e. omega (arith, e, pos))) (memcmp_loop_self xs h)
