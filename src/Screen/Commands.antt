-- ===== src/Screen/Commands.antt =====
-- src/geekos/screen.c: the commands at the end of escape sequences stay within the screen.
use geekos.Base.{
  ◌==◌, if◌then◌else◌, length, get_elem?, ℕ, zero, suc, ◌+◌, ◌-◌, ◌%◌, ◌^◌, ◌≤◌, ◌<◌, bit_and, ◌≡◌,
  refl, Bool, true, false, ◌&&◌, ◌||◌, some, List, [], ◌∷◌, arith,
}
use geekos.Base.Reasons.{Run, done, stop, ◌>>=◌, Total, Total-bind}
use geekos.Screen.{
  num_rows, num_cols, Console, clear_screen, clear_to_eol, clip, move_cursor, update_loop,
  update_attribute, update_attributes, get_arg, run_command,
}
use geekos.Screen.Valid.{
  OnScreen, Redrawn, Kept, redraw, moved, clear_screen-Redrawn, clear_to_eol-Kept,
}

clip-lt : (x n : ℕ) → 0 < n → clip x n < n
unfolding clip
clip-lt x n h = ground arith

move_cursor-OnScreen : (s : Console) (r c : ℕ) → OnScreen s → OnScreen (move_cursor s r c)
unfolding move_cursor
move_cursor-OnScreen s r c v =
    moved s (clip r num_rows) (clip c num_cols) v (clip-lt r num_rows (omega arith))
      (clip-lt c num_cols (omega arith))

pub get_elem?-some : (xs : List ℕ) (i : ℕ) → i < length xs → (x : ℕ) × (get_elem? xs i ≡ some x)
get_elem?-some [] i h = absurd (omega (arith, h))
get_elem?-some (x ∷ xs) zero h = (x, refl)
get_elem?-some (x ∷ xs) (suc i) h = get_elem?-some xs i (omega (arith, h))

update_loop-Total :
    (left : ℕ) (args : List ℕ) (i attr : ℕ)
    → i + left ≤ length args
    → Total (λ a. Unit) (update_loop left args i attr)
unfolding update_loop
update_loop-Total zero args i attr h = tt
update_loop-Total (suc left) args i attr h =
    let (x, e) = get_elem?-some args i (omega (arith, h)) in
    rw e (update_loop-Total left args (i + 1) (update_attribute attr x) (omega (arith, h)))

same_place : (s : Console) (a : ℕ) → OnScreen s → OnScreen (record s { current_attr = a })
same_place s a v = record {
  in_rows = v.in_rows;
  in_cols = v.in_cols;
  saved_row = v.saved_row;
  saved_col = v.saved_col;
  cells = v.cells;
  args = v.args;
}

update_attributes-OnScreen :
    (s : Console) → OnScreen s → s.num_args ≤ 8 → Total OnScreen (update_attributes s)
unfolding update_attributes
update_attributes-OnScreen s v few =
    Total-bind (λ a. Unit) OnScreen
      (update_loop s.num_args s.arg_list 0 (bit_and s.current_attr (2 ^ 32 - 1 - 8))) _
      (update_loop-Total s.num_args s.arg_list 0 (bit_and s.current_attr (2 ^ 32 - 1 - 8))
        (omega (arith, few, v.args)))
      (λ a u. same_place s (a % 2 ^ 8) v)

Kept-OnScreen : (s : Console) (m : Run Console) → Total (Kept s) m → Total OnScreen m
Kept-OnScreen s (done t) h = h.0
Kept-OnScreen s (stop r) h = h

clear_home :
    (s : Console)
    → OnScreen s
    → Total OnScreen (clear_screen s >>= λ t. done (record t { row = 0; col = 0 }))
clear_home s v =
    Total-bind (Redrawn s) OnScreen (clear_screen s) _ (clear_screen-Redrawn s v.cells)
      (λ t h. moved t 0 0 (redraw s t v h).0 (omega arith) (omega arith))

-- A test and its two branches.
if-Total :
    (P : Console → Type 0) (b : Bool) (m n : Run Console)
    → Total P m
    → Total P n
    → Total P (if b then m else n)
if-Total P true m n h k = h
if-Total P false m n h k = k

pub if-OnScreen :
    (b : Bool) (s t : Console) → OnScreen s → OnScreen t → OnScreen (if b then s else t)
if-OnScreen true s t h k = h
if-OnScreen false s t h k = k

pub run_command-OnScreen :
    (s : Console) (c : ℕ) → OnScreen s → s.num_args ≤ 8 → Total OnScreen (run_command s c)
unfolding run_command
run_command-OnScreen s c v few =
    if-Total OnScreen (c == 75) _ _ (Kept-OnScreen s (clear_to_eol s) (clear_to_eol-Kept s v)) (
      if-Total OnScreen (c == 115) _ _
        (record {
          in_rows = v.in_rows;
          in_cols = v.in_cols;
          saved_row = v.in_rows;
          saved_col = v.in_cols;
          cells = v.cells;
          args = v.args;
        })
        (if-Total OnScreen (c == 117) _ _ (moved s s.save_row s.save_col v v.saved_row v.saved_col)
          (if-Total OnScreen (c == 65) _ _ (move_cursor-OnScreen s _ s.col v) (
            if-Total OnScreen (c == 66) _ _ (move_cursor-OnScreen s _ s.col v) (
              if-Total OnScreen (c == 67) _ _ (move_cursor-OnScreen s s.row _ v) (
                if-Total OnScreen (c == 68) _ _ (move_cursor-OnScreen s s.row _ v) (
                  if-Total OnScreen (c == 109) _ _ (update_attributes-OnScreen s v few) (
                    if-Total OnScreen ((c == 102) || (c == 72)) _ _
                      (if-OnScreen (s.num_args == 2) _ s (move_cursor-OnScreen s _ _ v) v)
                      (if-Total OnScreen (c == 74) _ _
                        (if-Total OnScreen ((s.num_args == 1) && (get_arg s 0 == 2)) _ _
                          (clear_home s v) v)
                        v)))))))))
