-- ===== src/Bufcache/Flags.antt =====
-- The two flags of a buffer, set and cleared independently.
use geekos.Base.{ℕ, ◌≡◌, true, false, arith}
use geekos.Base.Bits.{has, has-pow, test_bit-or_pow, test_bit-and_mask}
use geekos.Bufcache.{dirty, in_use, set_flag, clear_flag}

pub clear_dirty : (f : ℕ) → has (clear_flag f dirty) dirty ≡ false
clear_dirty f =
    ground (
      arith,
      has-pow 0 (clear_flag f dirty),
      test_bit-and_mask 32 f 0 0 (omega arith) (omega arith),
    )

pub set_in_use : (f : ℕ) → has (set_flag f in_use) in_use ≡ true
set_in_use f = ground (arith, has-pow 1 (set_flag f in_use), test_bit-or_pow f 1 1)

pub set_in_use-dirty : (f : ℕ) → has (set_flag f in_use) dirty ≡ has f dirty
set_in_use-dirty f =
    ground (arith, has-pow 0 (set_flag f in_use), has-pow 0 f, test_bit-or_pow f 1 0)

pub set_dirty : (f : ℕ) → has (set_flag f dirty) dirty ≡ true
set_dirty f = ground (arith, has-pow 0 (set_flag f dirty), test_bit-or_pow f 0 0)

pub set_dirty-in_use : (f : ℕ) → has (set_flag f dirty) in_use ≡ has f in_use
set_dirty-in_use f =
    ground (arith, has-pow 1 (set_flag f dirty), has-pow 1 f, test_bit-or_pow f 0 1)

pub clear_in_use : (f : ℕ) → has (clear_flag f in_use) in_use ≡ false
clear_in_use f =
    ground (
      arith,
      has-pow 1 (clear_flag f in_use),
      test_bit-and_mask 32 f 1 1 (omega arith) (omega arith),
    )

pub clear_in_use-dirty : (f : ℕ) → has (clear_flag f in_use) dirty ≡ has f dirty
clear_in_use-dirty f = ground (
  arith,
  has-pow 0 (clear_flag f in_use),
  has-pow 0 f,
  test_bit-and_mask 32 f 1 0 (omega arith) (omega arith),
)
