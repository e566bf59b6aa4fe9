-- ===== src/Screen/Tests.antt =====
-- The console at the lower right corner of the screen.
use geekos.Base.{length, replicate, length-replicate, ℕ, ◌≡◌, refl, List, [], ◌∷◌, arith}
use geekos.Base.Reasons.{done, Total}
use geekos.Screen.{Cell, Console, normal, put_buf, scroll, is_digit}
use geekos.Screen.Valid.{OnScreen}
use geekos.Screen.Escape.{put_buf-OnScreen}
use geekos.Screen.Scrolling.{ScrolledUp, scroll-ScrolledUp}
use geekos.Screen.Cursor.{put_buf-sets_cursor}

abbrev corner : Console
corner = record {
  row = 24;
  col = 79;
  save_row = 0;
  save_col = 0;
  current_attr = 7;
  state = normal;
  arg_list = replicate 8 0;
  num_args = 0;
  vidmem = replicate 2000 (record { char = 46; attr = 7 });
}

corner-cells : length corner.vidmem ≡ 2000
corner-cells = length-replicate {A = Cell} 2000 (record { char = 46; attr = 7 })

corner-OnScreen : OnScreen corner
corner-OnScreen = record {
  in_rows = omega arith;
  in_cols = omega arith;
  saved_row = omega arith;
  saved_col = omega arith;
  cells = corner-cells;
  args = refl;
}

-- "A", "ESC [ 3 1 ; 1 m" and a newline.
abbrev text : List ℕ
text = 65 ∷ 27 ∷ 91 ∷ 51 ∷ 49 ∷ 59 ∷ 49 ∷ 109 ∷ 10 ∷ []

put_buf-OnScreen_example : Total OnScreen (put_buf corner text)
put_buf-OnScreen_example = put_buf-OnScreen corner text corner-OnScreen refl (omega arith) refl

scroll-ScrolledUp_example : Total (ScrolledUp corner) (scroll corner)
scroll-ScrolledUp_example = scroll-ScrolledUp corner corner-cells

-- "ESC [ 5 ; 1 0 0 H": the column is stopped at the border.
put_buf-sets_cursor_example :
    (args : List ℕ) × (put_buf corner (27 ∷ 91 ∷ 53 ∷ 59 ∷ 49 ∷ 48 ∷ 48 ∷ 72 ∷ [])
      ≡ done (record corner { row = 4; col = 79; state = normal; num_args = 0; arg_list = args }))
unfolding is_digit
put_buf-sets_cursor_example =
    put_buf-sets_cursor corner 53 [] (49 ∷ 48 ∷ 48 ∷ []) refl refl (refl, tt)
      (refl, (refl, (refl, tt))) (omega arith) (omega arith)
