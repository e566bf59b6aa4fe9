-- ===== src/Argblock/Tests.antt =====
-- The command " ls  -l".
use geekos.Base.{length, ℕ, ◌+◌, ◌*◌, ◌≡◌, refl, some, List, [], ◌∷◌, arith}
use geekos.Argblock.{is_space, get_argument_block_size, format_argument_block}
use geekos.Argblock.Layout.{IsCommand}
use geekos.Argblock.Fits.{block_of, format_argument_block-fits}

abbrev command : List ℕ
command = 32 ∷ 108 ∷ 115 ∷ 32 ∷ 32 ∷ 45 ∷ 108 ∷ 0 ∷ []

abbrev args : List (List ℕ)
args = (108 ∷ 115 ∷ []) ∷ (45 ∷ 108 ∷ []) ∷ []

command-IsCommand : IsCommand command args
unfolding is_space
command-IsCommand = (
  32 ∷ [],
  108,
  115 ∷ [],
  32,
  32 ∷ 45 ∷ 108 ∷ 0 ∷ [],
  (refl, tt),
  refl,
  (refl, (refl, tt)),
  refl,
  refl,
  second,
)
  where
    second : IsCommand (32 ∷ 32 ∷ 45 ∷ 108 ∷ 0 ∷ []) ((45 ∷ 108 ∷ []) ∷ [])
    second = (
      32 ∷ 32 ∷ [],
      45,
      108 ∷ [],
      0,
      [],
      (refl, (refl, tt)),
      refl,
      (refl, (refl, tt)),
      refl,
      refl,
      ([], [], tt, refl),
    )

format_argument_block-fits_example :
    (size : ℕ) × (get_argument_block_size 3 command ≡ some (2, size))
    × (format_argument_block 3 2 4096 command ≡ some (block_of 4096 args))
    × (8 + 4 * length (block_of 4096 args).argv + length (block_of 4096 args).strings ≡ size)
format_argument_block-fits_example =
    format_argument_block-fits command args 3 4096 command-IsCommand (omega arith) (omega arith)
