-- ===== src/Base/Bits.antt =====
-- The bits of a machine word: the laws of `&` and `|`, bit by bit and for every width.
use Prim.Native.Nat.{
  ℕ, zero, suc, ◌+◌, ◌-◌, ◌*◌, ◌/◌, ◌%◌, ◌^◌, ◌≤◌, ◌<◌, min, max, bit_and, bit_or, digits,
  bit_and-bitwise, bit_or-bitwise,
}
use mathlib.Core.Path.{◌≡◌, refl, ap, ◌∙◌}
use mathlib.Core.Bool.{Bool, true, false, not, ◌&&◌, ◌||◌}
use native.Mathlib.Omega.{arith}
use native.Mathlib.Nat.{pow-suc, mod-lt, mod-eq_of_lt, div-add-mod, add-mul-mod_self_left}
use mathlib.Core.Logic.{inl, inr}
use geekos.Base.Tests.{Bool-cases, ==_iff, ◌==◌, if◌then◌else◌}

-- An operation on the binary digits of its operands: `f` on two digits, `z` where the first operand
-- has run out of them.
module _ (z : ℕ → ℕ) (f : ℕ → ℕ → ℕ) (op : ℕ → ℕ → ℕ)
    (op_digits : (x y : ℕ) → op x y ≡ digits z f x x y)
    (z_half : (y : ℕ) → z y ≡ z (y / 2) * 2 + f 0 (y % 2)) where
  -- Rounds beyond the first operand change nothing.
  spare_rounds : (x y m n : ℕ) → x ≤ m → x ≤ n → digits z f m x y ≡ digits z f n x y
  spare_rounds (suc x) y (suc m) (suc n) lo hi =
      omega (arith, spare_rounds (suc x / 2) (y / 2) m n (omega arith) (omega arith))
  spare_rounds (suc x) y zero n lo hi = absurd (omega arith)
  spare_rounds (suc x) y (suc m) zero lo hi = absurd (omega arith)
  spare_rounds zero y (suc m) (suc n) lo hi = refl
  spare_rounds zero y (suc m) zero lo hi = refl
  spare_rounds zero y zero (suc n) lo hi = refl
  spare_rounds zero y zero zero lo hi = refl

  -- The lowest digit apart from the rest.
  op_step : (x y : ℕ) → op x y ≡ op (x / 2) (y / 2) * 2 + f (x % 2) (y % 2)
  op_step zero y = omega (arith, op_digits 0 y, op_digits 0 (y / 2), z_half y)
  op_step (suc x) y =
      let half = suc x / 2 in
      omega (
        arith,
        op_digits (suc x) y,
        op_digits half (y / 2),
        spare_rounds half (y / 2) x half (omega arith) (omega arith),
      )

pub bit_and_step : (x y : ℕ) → bit_and x y ≡ bit_and (x / 2) (y / 2) * 2 + min (x % 2) (y % 2)
bit_and_step = op_step (λ y. zero) min bit_and bit_and-bitwise (λ y. omega arith)

pub bit_or_step : (x y : ℕ) → bit_or x y ≡ bit_or (x / 2) (y / 2) * 2 + max (x % 2) (y % 2)
bit_or_step = op_step (λ y. y) max bit_or bit_or-bitwise (λ y. omega arith)

-- Bit `k` of `x`.
abbrev pub test_bit : ℕ → ℕ → Bool
test_bit x zero = x % 2 == 1
test_bit x (suc k) = test_bit (x / 2) k

pub test_bit-bit_or : (k a b : ℕ) → test_bit (bit_or a b) k ≡ (test_bit a k || test_bit b k)
test_bit-bit_or zero a b = ground (arith, bit_or_step a b)
test_bit-bit_or (suc k) a b =
    ap (λ t. test_bit t k) (omega (arith, bit_or_step a b)) ∙ test_bit-bit_or k (a / 2) (b / 2)

pub test_bit-bit_and : (k a b : ℕ) → test_bit (bit_and a b) k ≡ (test_bit a k && test_bit b k)
test_bit-bit_and zero a b = ground (arith, bit_and_step a b)
test_bit-bit_and (suc k) a b =
    ap (λ t. test_bit t k) (omega (arith, bit_and_step a b)) ∙ test_bit-bit_and k (a / 2) (b / 2)

bit_and-zero_below : (k x : ℕ) → x < k → bit_and x 0 ≡ 0
bit_and-zero_below zero x h = elim h [ ]
bit_and-zero_below (suc k) x h = elim (Bool-cases (x == 0)) [
  | inl z ↦ rw ((==_iff x 0).0 z) (bit_and-bitwise 0 0)
  | inr n ↦ omega (arith, bit_and_step x 0, bit_and-zero_below k (x / 2) (ground arith))
]

bit_and-zero : (x : ℕ) → bit_and x 0 ≡ 0
bit_and-zero x = bit_and-zero_below (suc x) x (omega arith)

-- `x & (1 << k)` is one bit of `x`, in its place.
pub bit_and-pow : (k x : ℕ) → bit_and x (2 ^ k) ≡ (if test_bit x k then 2 ^ k else 0)
bit_and-pow zero x = ground (arith, bit_and_step x 1, bit_and-zero (x / 2))
bit_and-pow (suc k) x = ground (
  arith,
  bit_and_step x (2 ^ suc k),
  bit_and-pow k (x / 2),
  pow-suc 2 k,
  ap (λ t. bit_and (x / 2) t) half,
)
  where
    half : 2 ^ suc k / 2 ≡ 2 ^ k
    half = omega (arith, pow-suc 2 k)

pub pow-pos : (k : ℕ) → 0 < 2 ^ k
pow-pos zero = omega arith
pow-pos (suc k) = omega (arith, pow-suc 2 k, pow-pos k)

-- `(x & m) != 0`
abbrev pub has : ℕ → ℕ → Bool
has x m = not (bit_and x m == 0)

pub has-pow : (k x : ℕ) → has x (2 ^ k) ≡ test_bit x k
has-pow k x = ground (arith, bit_and-pow k x, pow-pos k)

pub zero-test_bit : (k : ℕ) → test_bit 0 k ≡ false
zero-test_bit zero = refl
zero-test_bit (suc k) = zero-test_bit k

pub test_bit-pow : (j k : ℕ) → test_bit (2 ^ j) k ≡ (j == k)
test_bit-pow zero zero = refl
test_bit-pow zero (suc k) = zero-test_bit k ∙ ground arith
test_bit-pow (suc j) zero = ground (arith, pow-suc 2 j)
test_bit-pow (suc j) (suc k) =
    ap (λ t. test_bit t k) (omega (arith, pow-suc 2 j)) ∙ test_bit-pow j k ∙ ground arith

pub bit_or-lt : (w a b : ℕ) → a < 2 ^ w → b < 2 ^ w → bit_or a b < 2 ^ w
bit_or-lt zero a b p q = omega (
  arith,
  bit_or_step a b,
  bit_or-bitwise 0 0,
  ap (λ t. bit_or t (b / 2)) (a_zero a p),
  ap (λ t. bit_or 0 t) (a_zero b q),
)
  where
    a_zero : (x : ℕ) → x < 1 → x / 2 ≡ 0
    a_zero x h = omega arith
bit_or-lt (suc w) a b p q = omega (
  arith,
  pow-suc 2 w,
  bit_or_step a b,
  bit_or-lt w (a / 2) (b / 2) (omega (arith, pow-suc 2 w)) (omega (arith, pow-suc 2 w)),
)

bit_and-le_below : (k x y : ℕ) → x < k → bit_and x y ≤ x
bit_and-le_below zero x y h = elim h [ ]
bit_and-le_below (suc k) x y h = elim (Bool-cases (x == 0)) [
  | inl z ↦ rw ((==_iff x 0).0 z) (omega (arith, bit_and-bitwise 0 y))
  | inr n ↦ omega (arith, bit_and_step x y, bit_and-le_below k (x / 2) (y / 2) (ground arith))
]

pub bit_and-le : (x y : ℕ) → bit_and x y ≤ x
bit_and-le x y = bit_and-le_below (suc x) x y (omega arith)

pub ones-test_bit : (w k : ℕ) → k < w → test_bit (2 ^ w - 1) k ≡ true
ones-test_bit zero k h = elim h [ ]
ones-test_bit (suc w) zero h = ground (arith, pow-suc 2 w, pow-pos w)
ones-test_bit (suc w) (suc k) h =
    ap (λ t. test_bit t k) (omega (arith, pow-suc 2 w, pow-pos w)) ∙ ones-test_bit w k (omega arith)

pow-lt_pow : (j w : ℕ) → j < w → 2 ^ j < 2 ^ w
pow-lt_pow j zero h = elim h [ ]
pow-lt_pow zero (suc w) h = omega (arith, pow-suc 2 w, pow-pos w)
pow-lt_pow (suc j) (suc w) h = omega (arith, pow-suc 2 w, pow-suc 2 j, pow-lt_pow j w (omega arith))

-- The bits of `~(1 << j)` in a word of `w` bits.
pub test_bit_mask : (w j k : ℕ) → j < w → k < w → test_bit (2 ^ w - 1 - 2 ^ j) k ≡ not (j == k)
test_bit_mask zero j k p q = elim q [ ]
test_bit_mask (suc w) zero zero p q = ground (arith, pow-suc 2 w, pow-pos w)
test_bit_mask (suc w) zero (suc k) p q =
    ap (λ t. test_bit t k) (omega (arith, pow-suc 2 w, pow-pos w))
    ∙ ones-test_bit w k (omega arith)
    ∙ ground arith
test_bit_mask (suc w) (suc j) zero p q =
    ground (arith, pow-suc 2 w, pow-suc 2 j, pow-lt_pow j w (omega arith))
test_bit_mask (suc w) (suc j) (suc k) p q =
    ap (λ t. test_bit t k) (omega (arith, pow-suc 2 w, pow-suc 2 j, pow-lt_pow j w (omega arith)))
    ∙ test_bit_mask w j k (omega arith) (omega arith)
    ∙ ground arith

-- The word with bit `k` set, and with bit `k` cleared: `x |= 1 << k` and `x &= ~(1 << k)`.
pub test_bit-or_pow : (x j k : ℕ) → test_bit (bit_or x (2 ^ j)) k ≡ (test_bit x k || (j == k))
test_bit-or_pow x j k = test_bit-bit_or k x (2 ^ j) ∙ ap (λ t. test_bit x k || t) (test_bit-pow j k)

pub test_bit-and_mask :
    (w x j k : ℕ)
    → j < w
    → k < w
    → test_bit (bit_and x (2 ^ w - 1 - 2 ^ j)) k ≡ (test_bit x k && not (j == k))
test_bit-and_mask w x j k p q =
    test_bit-bit_and k x (2 ^ w - 1 - 2 ^ j) ∙ ap (λ t. test_bit x k && t) (test_bit_mask w j k p q)

-- A flag after `flags |= 1 << j` and after `flags &= ~(1 << j)`.
pub has-or_pow : (x j k : ℕ) → has (bit_or x (2 ^ j)) (2 ^ k) ≡ (has x (2 ^ k) || (j == k))
has-or_pow x j k = ground (arith, has-pow k (bit_or x (2 ^ j)), has-pow k x, test_bit-or_pow x j k)

pub has-and_mask :
    (x j k : ℕ)
    → j < 32
    → k < 32
    → has (bit_and x (2 ^ 32 - 1 - 2 ^ j)) (2 ^ k) ≡ (has x (2 ^ k) && not (j == k))
has-and_mask x j k p q =
    ground (
      arith,
      has-pow k (bit_and x (2 ^ 32 - 1 - 2 ^ j)),
      has-pow k x,
      test_bit-and_mask 32 x j k p q,
    )

-- A mask of `w` ones, and one that stands `k` places up.
pub bit_and_ones : (w x : ℕ) → bit_and x (2 ^ w - 1) ≡ x % 2 ^ w
bit_and_ones zero x = omega (arith, bit_and-zero x)
bit_and_ones (suc w) x = omega (
  arith,
  pow-suc 2 w,
  pow-pos w,
  bit_and_step x (2 ^ suc w - 1),
  bit_and_ones w (x / 2),
  ap (bit_and (x / 2)) halved,
  div_mod_two,
)
  where
    halved : (2 ^ suc w - 1) / 2 ≡ 2 ^ w - 1
    halved = omega (arith, pow-suc 2 w, pow-pos w)

    small : (x / 2) % 2 ^ w * 2 + x % 2 < 2 ^ suc w
    small = omega (arith, pow-suc 2 w, mod-lt (x / 2) (pow-pos w))

    split : x ≡ (x / 2) % 2 ^ w * 2 + x % 2 + 2 ^ suc w * (x / 2 / 2 ^ w)
    split = omega (
      arith,
      pow-suc 2 w,
      div-add-mod (x / 2) (2 ^ w),
      ap (λ t. t * (x / 2 / 2 ^ w)) (pow-suc 2 w),
    )

    div_mod_two : x % 2 ^ suc w ≡ (x / 2) % 2 ^ w * 2 + x % 2
    div_mod_two =
        ap (λ t. t % 2 ^ suc w) split
        ∙ add-mul-mod_self_left ((x / 2) % 2 ^ w * 2 + x % 2) (2 ^ suc w) (x / 2 / 2 ^ w)
        ∙ mod-eq_of_lt small

bit_and_double : (x m : ℕ) → bit_and x (m * 2) ≡ bit_and (x / 2) m * 2
bit_and_double x m =
    omega
      (arith, bit_and_step x (m * 2), ap (bit_and (x / 2)) {x = m * 2 / 2} {y = m} (omega arith))

-- `x & ~0xfff` on 32 bits.
pub bit_and_page_mask : (x : ℕ) → x < 2 ^ 32 → bit_and x (2 ^ 32 - 4096) ≡ x / 4096 * 4096
bit_and_page_mask x h = omega (
  arith,
  bit_and_double x (2 ^ 31 - 2048),
  bit_and_double (x / 2) (2 ^ 30 - 1024),
  bit_and_double (x / 2 / 2) (2 ^ 29 - 512),
  bit_and_double (x / 2 / 2 / 2) (2 ^ 28 - 256),
  bit_and_double (x / 2 / 2 / 2 / 2) (2 ^ 27 - 128),
  bit_and_double (x / 2 / 2 / 2 / 2 / 2) (2 ^ 26 - 64),
  bit_and_double (x / 2 / 2 / 2 / 2 / 2 / 2) (2 ^ 25 - 32),
  bit_and_double (x / 2 / 2 / 2 / 2 / 2 / 2 / 2) (2 ^ 24 - 16),
  bit_and_double (x / 2 / 2 / 2 / 2 / 2 / 2 / 2 / 2) (2 ^ 23 - 8),
  bit_and_double (x / 2 / 2 / 2 / 2 / 2 / 2 / 2 / 2 / 2) (2 ^ 22 - 4),
  bit_and_double (x / 2 / 2 / 2 / 2 / 2 / 2 / 2 / 2 / 2 / 2) (2 ^ 21 - 2),
  bit_and_double (x / 2 / 2 / 2 / 2 / 2 / 2 / 2 / 2 / 2 / 2 / 2) (2 ^ 20 - 1),
  bit_and_ones 20 (x / 2 / 2 / 2 / 2 / 2 / 2 / 2 / 2 / 2 / 2 / 2 / 2),
)

-- `x & 0xfff`
pub bit_and_page_offset : (x : ℕ) → bit_and x 4095 ≡ x % 4096
bit_and_page_offset x = bit_and_ones 12 x
