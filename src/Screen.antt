-- ===== src/Screen.antt =====
-- src/geekos/screen.c and include/geekos/screen.h: the text console.
-- The video memory is the sequence of its cells, a character and an attribute each; a double word is two
-- of them. The arguments of escape sequences are the 32-bit words of ints. A character is its unsigned
-- byte. The functions run with interrupts disabled. The hardware's cursor and the debug port, to which
-- bytes are only written, are left out.

pub mod Valid
pub mod Commands
pub mod Escape
pub mod Cursor
pub mod Scrolling
mod Tests
use geekos.Base.{
  ltb, leb, ◌==◌, if◌then◌else◌, length, get_elem?, get_or, set, ℕ, zero, suc, ◌+◌, ◌-◌, ◌*◌, ◌/◌,
  ◌%◌, ◌^◌, bit_and, bit_or, Bool, true, false, ◌&&◌, ◌||◌, List, [], ◌∷◌,
}
use geekos.Base.Reasons.{Run, done, stop, ◌>>=◌, ◌>>◌, kassert, in_bounds, out_of_bounds}

abbrev pub num_rows : ℕ
num_rows = 25

abbrev pub num_cols : ℕ
num_cols = 80

abbrev pub tab_width : ℕ
tab_width = 8

-- BRIGHT
abbrev pub bright : ℕ
bright = 8

-- ATTRIB(BLACK, GRAY)
abbrev pub default_attribute : ℕ
default_attribute = 7

abbrev pub max_args : ℕ
max_args = 8

pub record Cell : Type 0 where
  pub char : ℕ
  pub attr : ℕ

-- S_NORMAL, S_ESC, S_ESC2, S_ARG and S_CMD
pub data State : Type 0 where
  normal esc esc2 scan_arg cmd : State

pub record Console : Type 0 where
  pub row : ℕ
  pub col : ℕ
  pub save_row : ℕ
  pub save_col : ℕ
  pub current_attr : ℕ
  pub state : State
  pub arg_list : List ℕ
  pub num_args : ℕ
  pub vidmem : List Cell

abbrev pub get_cell : List Cell → ℕ → Run Cell
get_cell m i = in_bounds (get_elem? m i)

unfoldable pub put_cell : List Cell → ℕ → Cell → Run (List Cell)
put_cell m i c = if ltb i (length m) then done (set m i c) else stop out_of_bounds

-- A double word, at the index `v` of double words.
unfoldable pub put_dword : List Cell → ℕ → Cell → Cell → Run (List Cell)
put_dword m v a b = do m' ← put_cell m (2 * v) a; put_cell m' (2 * v + 1) b

-- The first loop of Scroll, with `left` rounds to go.
unfoldable pub move_lines : ℕ → List Cell → ℕ → Run (List Cell)
move_lines zero m v = done m
move_lines (suc left) m v = do
  a ← get_cell m (2 * (v + num_cols / 2))
  b ← get_cell m (2 * (v + num_cols / 2) + 1)
  m' ← put_dword m v a b
  move_lines left m' (v + 1)

-- The loops that store FILL_DWORD.
unfoldable pub fill_dwords : ℕ → List Cell → ℕ → Cell → Run (List Cell)
fill_dwords zero m v blank = done m
fill_dwords (suc left) m v blank = do
  m' ← put_dword m v blank blank
  fill_dwords left m' (v + 1) blank

-- ' ' with the current attribute
abbrev pub blank_cell : Console → Cell
blank_cell s = record { char = 32; attr = s.current_attr }

-- NUM_SCREEN_DWORDS, NUM_SCROLL_DWORDS and NUM_DWORDS_PER_LINE are 1000, 960 and 40.
unfoldable pub scroll : Console → Run Console
scroll s = do
  m ← move_lines 960 s.vidmem 0
  m' ← fill_dwords 40 m 960 (blank_cell s)
  done (record s { vidmem = m' })

unfoldable pub clear_screen : Console → Run Console
clear_screen s = do m ← fill_dwords 1000 s.vidmem 0 (blank_cell s); done (record s { vidmem = m })

-- The loop of Clear_To_EOL, with `n` cells to go.
unfoldable pub clear_cells : ℕ → List Cell → ℕ → Cell → Run (List Cell)
clear_cells zero m i blank = done m
clear_cells (suc n) m i blank = do m' ← put_cell m i blank; clear_cells n m' (i + 1) blank

unfoldable pub clear_to_eol : Console → Run Console
clear_to_eol s = do
  m ← clear_cells (num_cols - s.col) s.vidmem (s.row * num_cols + s.col) (blank_cell s)
  done (record s { vidmem = m })

unfoldable pub newline : Console → Run Console
newline s =
    let s' = record s { row = s.row + 1; col = 0 } in
    if s'.row == num_rows
    then (do t ← scroll s'; done (record t { row = num_rows - 1 }))
    else done s'

unfoldable pub put_graphic_char : Console → ℕ → Run Console
put_graphic_char s c = do
  m ←
      put_cell s.vidmem (s.row * num_cols + s.col)
        (record { char = c % 2 ^ 8; attr = s.current_attr })
  let s' = record s { vidmem = m }
  if ltb s'.col (num_cols - 1) then done (record s' { col = s'.col + 1 }) else newline s'

unfoldable pub put_spaces : ℕ → Console → Run Console
put_spaces zero s = done s
put_spaces (suc n) s = do s' ← put_graphic_char s 32; put_spaces n s'

unfoldable pub output_literal_character : Console → ℕ → Run Console
output_literal_character s c =
    if c == 10
    then (do s' ← clear_to_eol s; newline s')
    else (if c == 9 then put_spaces (tab_width - s.col % tab_width) s else put_graphic_char s c)

-- x < 0 of an int
abbrev pub is_negative : ℕ → Bool
is_negative x = leb (2 ^ 31) x

-- A coordinate, stopped at the borders.
unfoldable pub clip : ℕ → ℕ → ℕ
clip x n = if is_negative x then 0 else (if leb n x then n - 1 else x)

unfoldable pub move_cursor : Console → ℕ → ℕ → Console
move_cursor s row col = record s { row = clip row num_rows; col = clip col num_cols }

abbrev pub ansi_to_vga_color : List ℕ
ansi_to_vga_color = 0 ∷ 4 ∷ 2 ∷ 6 ∷ 1 ∷ 5 ∷ 3 ∷ 7 ∷ []

-- The attribute after one argument.
unfoldable pub update_attribute : ℕ → ℕ → ℕ
update_attribute attr value =
    if value == 0
    then default_attribute
    else (if value == 1
        then bit_or attr bright
        else (if leb 30 value && leb value 37
            then bit_or (bit_and attr (2 ^ 32 - 1 - 7)) (get_or ansi_to_vga_color (value - 30) 0)
            else (if leb 40 value && leb value 47
                then bit_or (bit_and attr (2 ^ 32 - 1 - 112))
                    (get_or ansi_to_vga_color (value - 40) 0 * 16)
                else attr)))

-- The loop of Update_Attributes, from the argument `i` on, with `left` to go.
unfoldable pub update_loop : ℕ → List ℕ → ℕ → ℕ → Run ℕ
update_loop zero args i attr = done attr
update_loop (suc left) args i attr = do
  value ← in_bounds (get_elem? args i)
  update_loop left args (i + 1) (update_attribute attr value)

unfoldable pub update_attributes : Console → Run Console
update_attributes s = do
  attr ← update_loop s.num_args s.arg_list 0 (bit_and s.current_attr (2 ^ 32 - 1 - bright))
  done (record s { current_attr = attr % 2 ^ 8 })

abbrev pub reset : Console → Console
reset s = record s { state = normal; num_args = 0 }

abbrev pub start_escape : Console → Console
start_escape s = record s { state = esc; num_args = 0 }

unfoldable pub start_arg : Console → ℕ → Run Console
start_arg s n = do
  kassert (s.num_args == n)
  done (record s {
    num_args = s.num_args + 1;
    state = scan_arg;
    arg_list = if ltb n max_args then set s.arg_list n 0 else s.arg_list;
  })

unfoldable pub is_digit : ℕ → Bool
is_digit c = leb 48 c && leb c 57

abbrev pub add_word : ℕ → ℕ → ℕ
add_word a b = (a + b) % 2 ^ 32

abbrev pub sub_word : ℕ → ℕ → ℕ
sub_word a b = (a + 2 ^ 32 - b) % 2 ^ 32

-- `argNum` is -1, a place outside the list, where no argument has been started.
unfoldable pub add_digit : Console → ℕ → Run Console
add_digit s c = do
  kassert (is_digit c)
  let arg_num = sub_word s.num_args 1
  if ltb s.num_args max_args
      then (do
        value ← in_bounds (get_elem? s.arg_list arg_num)
        done (record s { arg_list = set s.arg_list arg_num ((value * 10 + (c - 48)) % 2 ^ 32) }))
      else done s

unfoldable pub get_arg : Console → ℕ → ℕ
get_arg s n = if ltb n s.num_args then get_or s.arg_list n 0 else 0

-- The cases of S_CMD.
unfoldable pub run_command : Console → ℕ → Run Console
run_command s c =
    if c == 75
    then clear_to_eol s
    else (if c == 115
        then done (record s { save_row = s.row; save_col = s.col })
        else (if c == 117
            then done (record s { row = s.save_row; col = s.save_col })
            else (if c == 65
                then done (move_cursor s (sub_word s.row (get_arg s 0)) s.col)
                else (if c == 66
                    then done (move_cursor s (add_word s.row (get_arg s 0)) s.col)
                    else (if c == 67
                        then done (move_cursor s s.row (add_word s.col (get_arg s 0)))
                        else (if c == 68
                            then done (move_cursor s s.row (sub_word s.col (get_arg s 0)))
                            else (if c == 109
                                then update_attributes s
                                else (if (c == 102) || (c == 72)
                                    then done (
                                        if s.num_args == 2
                                        then move_cursor s (sub_word (get_arg s 0) 1)
                                            (sub_word (get_arg s 1) 1)
                                        else s)
                                    else (if c == 74
                                        then (if (s.num_args == 1) && (get_arg s 0 == 2)
                                            then (do
                                              t ← clear_screen s
                                              done (record t { row = 0; col = 0 }))
                                            else done s)
                                        else done s)))))))))

-- The state S_CMD, also after `goto again`.
unfoldable pub put_cmd : Console → ℕ → Run Console
put_cmd s c = do s' ← run_command s c; done (reset s')

-- The state S_ARG.
unfoldable pub put_arg : Console → ℕ → Run Console
put_arg s c =
    if is_digit c
    then add_digit s c
    else (if c == 59 then start_arg s s.num_args else put_cmd (record s { state = cmd }) c)

-- The state S_ESC2.
unfoldable pub put_esc2 : Console → ℕ → Run Console
put_esc2 s c =
    if is_digit c
    then (do s' ← start_arg s 0; put_arg s' c)
    else (if c == 59
        then (do s₁ ← start_arg s 0; s₂ ← add_digit s₁ 49; start_arg s₂ 1)
        else put_cmd (record s { state = cmd }) c)

unfoldable pub put_char_imp : Console → ℕ → Run Console
put_char_imp s c = elim s.state as (λ x. Run Console) [
  | normal ↦ if c == 27 then done (start_escape s) else output_literal_character s c
  | esc ↦ done (if c == 91 then record s { state = esc2 } else reset s)
  | esc2 ↦ put_esc2 s c
  | scan_arg ↦ put_arg s c
  | cmd ↦ put_cmd s c
]

-- The loop of Put_Buf; that of Put_String is the same on the characters before the nul.
unfoldable pub put_buf : Console → List ℕ → Run Console
put_buf s [] = done s
put_buf s (c ∷ cs) = do s' ← put_char_imp s c; put_buf s' cs

-- False, and no change, for a position that is not on the screen.
unfoldable pub put_cursor : Console → ℕ → ℕ → Bool × Console
put_cursor s row col =
    if is_negative row || leb num_rows row || is_negative col || leb num_cols col
    then (false, s)
    else (true, record s { row = row; col = col })

unfoldable pub init_screen : Console → Run Console
init_screen s = clear_screen (record s { row = 0; col = 0; current_attr = default_attribute })
