-- ===== src/Bitset.antt =====
-- src/geekos/bitset.c: a bit set is an array of bytes. Reads and writes outside the array, which C
-- leaves undefined, read 0 and write nothing here; the theorems ask for positions inside it.
pub mod Access
pub mod Create
pub mod FirstFree
pub mod Runs
pub mod Count
mod Tests
use geekos.Base.{
  ltb, ◌==◌, if◌then◌else◌, get_or, set, ℕ, zero, suc, ◌+◌, ◌-◌, ◌*◌, ◌/◌, ◌%◌, ◌^◌, bit_and,
  bit_or, Bool, not, Option, none, some, List,
}
use geekos.Base.Bits.{has}
use geekos.CString.Memory.{memset}

abbrev pub BitSet : Type 0
BitSet = List ℕ

-- FIND_NUM_BYTES
unfoldable pub num_bytes : ℕ → ℕ
num_bytes total_bits = total_bits / 8 + (if not (total_bits % 8 == 0) then 1 else 0)

-- `malloc n` is the block of `n` bytes that the allocator returns, or `none` for a null pointer.
unfoldable pub create_bit_set : (ℕ → Option (List ℕ)) → ℕ → Option BitSet
create_bit_set malloc total_bits = elim (malloc (num_bytes total_bits)) [
  | none ↦ none
  | some block ↦ some (memset block 0 (num_bytes total_bits))
]

unfoldable pub set_bit : BitSet → ℕ → BitSet
set_bit bits pos =
    let offset = pos / 8 in
    let bit = pos % 8 in set bits offset (bit_or (get_or bits offset 0) (2 ^ bit) % 2 ^ 8)

-- `~` works on a 32-bit int; the result is stored in an unsigned char.
unfoldable pub clear_bit : BitSet → ℕ → BitSet
clear_bit bits pos =
    let offset = pos / 8 in
    let bit = pos % 8 in
    set bits offset (bit_and (get_or bits offset 0) (2 ^ 32 - 1 - 2 ^ bit) % 2 ^ 8)

unfoldable pub is_bit_set : BitSet → ℕ → Bool
is_bit_set bits pos = has (get_or bits (pos / 8) 0) (2 ^ (pos % 8))

-- What a search comes to: an int that is not negative, -1, another negative int, given by its 32-bit word,
-- or a failed KASSERT.
pub data Found : Type 0 where
  at : ℕ → Found
  minus_one : Found
  negative : ℕ → Found
  assert_failed : Found

-- A 32-bit word that is returned as an int.
unfoldable pub return_int : ℕ → Found
return_int w = if ltb w (2 ^ 31) then at w else (if w == 2 ^ 32 - 1 then minus_one else negative w)

-- The inner loop of Find_First_Free_Bit, with `left` rounds to go.
unfoldable pub scan_byte : ℕ → ℕ → ℕ → Option ℕ
scan_byte zero byte bit = none
scan_byte (suc left) byte bit =
    let rest = scan_byte left byte (bit + 1) in
    if bit_and byte (2 ^ bit) == 0 then some bit else rest

-- The outer loop, with `left` bytes to go.
unfoldable pub scan_bytes : ℕ → BitSet → ℕ → Found
scan_bytes zero bits offset = minus_one
scan_bytes (suc left) bits offset =
    let rest = scan_bytes left bits (offset + 1) in
    let byte = get_or bits offset 0 in
    if not (byte == 255)
    then elim (scan_byte 8 byte 0) [
      | some bit ↦ return_int ((offset * 8 + bit) % 2 ^ 32)
      | none ↦ assert_failed
    ]
    else rest

unfoldable pub find_first_free_bit : BitSet → ℕ → Found
find_first_free_bit bits total_bits = scan_bytes (num_bytes total_bits) bits 0

-- The inner loop of Find_First_N_Free: `j` when it stops, with `left` rounds to go.
unfoldable pub run_end : ℕ → BitSet → ℕ → ℕ → ℕ
run_end zero bits i j = j
run_end (suc left) bits i j =
    let rest = run_end left bits i (j + 1) in if is_bit_set bits ((i + j) % 2 ^ 32) then j else rest

-- The outer loop, with `left` values of `i` to go.
unfoldable pub scan_runs : ℕ → BitSet → ℕ → ℕ → Found
scan_runs zero bits run_length i = minus_one
scan_runs (suc left) bits run_length i =
    let rest = scan_runs left bits run_length (i + 1) in
    if not (is_bit_set bits i)
    then (if run_end (run_length - 1) bits i 1 == run_length then return_int i else rest)
    else rest

-- The bound `totalBits - runLength` is a difference of unsigned longs.
unfoldable pub find_first_n_free : BitSet → ℕ → ℕ → Found
find_first_n_free bits run_length total_bits =
    scan_runs ((total_bits + 2 ^ 32 - run_length) % 2 ^ 32) bits run_length 0

-- The inner loop of Get_Count_Of_ALL_Free_Bit.
unfoldable pub count_byte : ℕ → ℕ → ℕ → ℕ → ℕ
count_byte zero byte bit count = count
count_byte (suc left) byte bit count =
    count_byte left byte (bit + 1)
      (if bit_and byte (2 ^ bit) == 0 then (count + 1) % 2 ^ 32 else count)

unfoldable pub count_bytes : ℕ → BitSet → ℕ → ℕ → ℕ
count_bytes zero bits offset count = count
count_bytes (suc left) bits offset count =
    let byte = get_or bits offset 0 in
    count_bytes left bits (offset + 1)
      (if not (byte == 255) then count_byte 8 byte 0 count else count)

-- `negsuc n` is -(n + 1).
pub data ℤ : Type 0 where
  pos : ℕ → ℤ
  negsuc : ℕ → ℤ

-- The int that a 32-bit word stands for.
unfoldable pub word_to_int : ℕ → ℤ
word_to_int w = if ltb w (2 ^ 31) then pos w else negsuc (2 ^ 32 - 1 - w)

-- The unsigned counter is returned as an int.
unfoldable pub get_count_of_all_free_bit : BitSet → ℕ → ℤ
get_count_of_all_free_bit bits total_bits =
    word_to_int (count_bytes (num_bytes total_bits) bits 0 0)
