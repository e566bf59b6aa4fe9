-- ===== src/Argblock/Fits.antt =====
-- The argument block holds the arguments of the command, and has the size computed for it.
use geekos.Base.{
  length, get_elem?, drop, length-append, ℕ, zero, suc, ◌+◌, ◌*◌, ◌%◌, ◌^◌, ◌<◌, ◌≡◌, refl, ap, ◌∙◌,
  Option, none, some, List, [], ◌∷◌, ◌++◌, arith,
}
use geekos.CString.{map_option}
use geekos.Argblock.{get_argument_block_size, Block, format_argument_block}
use geekos.Argblock.Layout.{
  IsCommand, vector, packed, space_for, size_loop-counts, format_loop-writes,
}

length-vector :
    (args : List (List ℕ)) (ua offset : ℕ) → length (vector ua offset args) ≡ length args + 1
length-vector [] ua offset = refl
length-vector (a ∷ args) ua offset = omega (arith, length-vector args ua (offset + length a + 1))

length-packed :
    (args : List (List ℕ)) → length (packed args) + 4 * (length args + 1) ≡ space_for args
length-packed [] = refl
length-packed (a ∷ args) = omega (arith, length-packed args, length-append a (0 ∷ packed args))

-- The block of a command with the arguments `args` at a user address.
abbrev pub block_of : ℕ → List (List ℕ) → Block
block_of user_address args = record {
  argc = length args;
  argv_address = (user_address + 8) % 2 ^ 32;
  argv = vector user_address (8 + (length args + 1) * 4) args;
  strings = packed args;
}

-- For a command with the arguments `args`, Get_Argument_Block_Size returns their number and a size, and
-- Format_Argument_Block with that number ends and writes a block of exactly this size that holds them,
-- each with a nul, and the vector of their addresses, with a null pointer behind it. For fuel above the
-- number of arguments and a size below 2^32.
pub format_argument_block-fits :
    (command : List ℕ) (args : List (List ℕ)) (fuel user_address : ℕ)
    → IsCommand command args
    → length args < fuel
    → 8 + space_for args < 2 ^ 32
    → (size : ℕ) × (get_argument_block_size fuel command ≡ some (length args, size))
      × (format_argument_block fuel (length args) user_address command
          ≡ some (block_of user_address args))
      × (8
            + 4 * length (block_of user_address args).argv
            + length (block_of user_address args).strings
          ≡ size)
unfolding get_argument_block_size format_argument_block
format_argument_block-fits command args fuel ua h lt bound = (
  8 + space_for args,
  size_loop-counts args fuel command 8 0 h lt (omega arith) bound
      ∙ ap (λ n. some (n, 8 + space_for args)) {x = 0 + length args} {y = length args}
          (omega arith),
  ap
      (map_option (λ (r : List ℕ × List ℕ). record {
        argc = length args;
        argv_address = (ua + 8) % 2 ^ 32;
        argv = r.0;
        strings = r.1;
      }))
      (format_loop-writes args fuel command ua (8 + (length args + 1) * 4) h lt),
  omega (arith, length-packed args, length-vector args ua (8 + (length args + 1) * 4)),
)

drop-past : (a : List ℕ) (d : ℕ) (s : List ℕ) → drop (length a + 1 + d) (a ++ 0 ∷ s) ≡ drop d s
drop-past [] d s = ap (λ n. drop n (0 ∷ s)) {x = 0 + 1 + d} {y = suc d} (omega arith)
drop-past (x ∷ a) d s =
    ap (λ n. drop n (x ∷ (a ++ 0 ∷ s))) {x = length (x ∷ a) + 1 + d} {y = suc (length a + 1 + d)}
      (omega arith)
    ∙ drop-past a d s

abbrev from_some : List ℕ → Option (List ℕ) → List ℕ
from_some b none = b
from_some b (some a) = a

vector-points :
    (args : List (List ℕ)) (user_address offset i : ℕ) (a : List ℕ)
    → get_elem? args i ≡ some a
    → (d : ℕ) × (rest : List ℕ) × (get_elem? (vector user_address offset args) i
        ≡ some ((user_address + (offset + d)) % 2 ^ 32))
      × (drop d (packed args) ≡ a ++ 0 ∷ rest)
vector-points [] ua offset i a h = ground (arith, h)
vector-points (b ∷ args) ua offset zero a h = (
  0,
  packed args,
  ap (λ n. some ((ua + n) % 2 ^ 32)) {x = offset} {y = offset + 0} (omega arith),
  ap (λ l. l ++ 0 ∷ packed args) (ap (from_some b) h),
)
vector-points (b ∷ args) ua offset (suc i) a h =
    let (d, rest, e, s) = vector-points args ua (offset + length b + 1) i a h in
    (
      length b + 1 + d,
      rest,
      e
          ∙ ap (λ n. some ((ua + n) % 2 ^ 32)) {x = offset + length b + 1 + d}
              {y = offset + (length b + 1 + d)} (omega arith),
      drop-past b d (packed args) ∙ s,
    )

-- For a command with the arguments `args`, entry `i` of the vector that Format_Argument_Block writes is
-- the user address at which argument `i` stands in the block, with a nul behind it.
pub format_argument_block-points :
    (command : List ℕ) (args : List (List ℕ)) (fuel user_address i : ℕ) (a : List ℕ)
    → IsCommand command args
    → length args < fuel
    → 8 + space_for args < 2 ^ 32
    → get_elem? args i ≡ some a
    → (block : Block) × (d : ℕ) × (rest : List ℕ) × (format_argument_block fuel
          (length args)
          user_address
          command
        ≡ some block)
      × (get_elem? block.argv i ≡ some ((user_address + (8 + 4 * length block.argv + d)) % 2 ^ 32))
      × (drop d block.strings ≡ a ++ 0 ∷ rest)
format_argument_block-points command args fuel ua i a h lt bound e =
    let (size, counted, written, exact) =
      format_argument_block-fits command args fuel ua h lt bound in
    let (d, rest, entry, string) = vector-points args ua (8 + (length args + 1) * 4) i a e in
    let start : 8 + (length args + 1) * 4 + d ≡ 8 + 4 * length (block_of ua args).argv + d =
      omega (arith, length-vector args ua (8 + (length args + 1) * 4)) in
    (block_of ua args, d, rest, written, entry ∙ ap (λ n. some ((ua + n) % 2 ^ 32)) start, string)
