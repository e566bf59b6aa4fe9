-- ===== src/Argblock.antt =====
-- src/geekos/argblock.c: the argument block of a process.
-- The command is the list of the bytes up to the end of its object; `none` is a read beyond it, or a
-- loop that does not end within the fuel.
pub mod Layout
pub mod Fits
mod Tests
use geekos.Base.{
  ◌==◌, if◌then◌else◌, get_or, take, drop, ℕ, zero, suc, ◌+◌, ◌*◌, ◌%◌, ◌^◌, Bool, not, ◌&&◌, ◌||◌,
  Option, none, some, List, [], ◌∷◌, ◌++◌,
}
use geekos.CString.{map_option}

unfoldable pub is_space : ℕ → Bool
is_space c = (c == 32) || (c == 9) || (c == 10) || (c == 13)

unfoldable pub skip_whitespace : List ℕ → Option (List ℕ)
skip_whitespace [] = none
skip_whitespace (c ∷ s) = let rest = skip_whitespace s in if is_space c then rest else some (c ∷ s)

unfoldable pub get_argument_len : List ℕ → Option ℕ
get_argument_len [] = none
get_argument_len (c ∷ s) =
    let rest = get_argument_len s in
    if not (c == 0) && not (is_space c) then map_option suc rest else some 0

-- The loop of Get_Argument_Block_Size, with the size and the number of arguments so far.
unfoldable pub size_loop : ℕ → List ℕ → ℕ → ℕ → Option (ℕ × ℕ)
size_loop zero s size count = none
size_loop (suc fuel) s size count = elim (skip_whitespace s) [
  | none ↦ none
  | some t ↦ elim (get_argument_len t) [
    | none ↦ none
    | some len ↦
        let rest =
          size_loop fuel (drop len t) ((size + 4 + (len + 1)) % 2 ^ 32) ((count + 1) % 2 ^ 32) in
        if get_or t 0 0 == 0 then some (count, (size + 4) % 2 ^ 32) else rest
  ]
]

-- The number of arguments and the size of the block.
unfoldable pub get_argument_block_size : ℕ → List ℕ → Option (ℕ × ℕ)
get_argument_block_size fuel command = size_loop fuel command 8 0

-- What is written, in the order of the addresses: two words, the argument vector and the strings.
pub record Block : Type 0 where
  pub argc : ℕ
  pub argv_address : ℕ
  pub argv : List ℕ
  pub strings : List ℕ

-- The loop of Format_Argument_Block, with `offset` for `dst - argBlock`: the words of the vector and the
-- bytes of the strings that are still to be written.
unfoldable pub format_loop : ℕ → List ℕ → ℕ → ℕ → Option (List ℕ × List ℕ)
format_loop zero s user_address offset = none
format_loop (suc fuel) s user_address offset = elim (skip_whitespace s) [
  | none ↦ none
  | some t ↦ elim (get_argument_len t) [
    | none ↦ none
    | some len ↦
        let rest = format_loop fuel (drop len t) user_address (offset + len + 1) in
        if get_or t 0 0 == 0
        then some (0 ∷ [], [])
        else map_option (λ r. ((user_address + offset) % 2 ^ 32 ∷ r.0, take len t ++ 0 ∷ r.1)) rest
  ]
]

unfoldable pub format_argument_block : ℕ → ℕ → ℕ → List ℕ → Option Block
format_argument_block fuel num_args user_address command =
    map_option
      (λ r. record {
        argc = num_args;
        argv_address = (user_address + 8) % 2 ^ 32;
        argv = r.0;
        strings = r.1;
      })
      (format_loop fuel command user_address (8 + (num_args + 1) * 4))
