-- ===== src/Screen/Valid.antt =====
-- src/geekos/screen.c: the console stays within the screen.
use geekos.Base.{
  ltb, ◌==◌, lt→ltb, Bool-cases, Option-cases, length, get_elem?, length-set, ℕ, zero, suc, ◌+◌,
  ◌-◌, ◌*◌, ◌%◌, ◌^◌, ◌≤◌, ◌<◌, ◌≡◌, refl, sym, subst, ◌∙◌, ◌≢◌, inl, inr, none, List, [], ◌∷◌,
  arith,
}
use geekos.Base.Reasons.{Run, done, stop, ◌>>=◌, Total, Total-bind}
use geekos.Screen.{
  num_rows, num_cols, tab_width, max_args, Cell, Console, get_cell, put_cell, put_dword, move_lines,
  fill_dwords, blank_cell, scroll, clear_screen, clear_cells, clear_to_eol, newline,
  put_graphic_char, put_spaces, output_literal_character,
}

-- The cursor and the saved cursor lie on the screen, and the memory and the arguments have all their
-- places.
pub record OnScreen (s : Console) : Type 0 where
  pub in_rows : s.row < num_rows
  pub in_cols : s.col < num_cols
  pub saved_row : s.save_row < num_rows
  pub saved_col : s.save_col < num_cols
  pub cells : length s.vidmem ≡ 2000
  pub args : length s.arg_list ≡ max_args

abbrev pub Full : List Cell → Type 0
Full m = length m ≡ 2000

put_cell-Full : (m : List Cell) (i : ℕ) (c : Cell) → i < 2000 → Full m → Total Full (put_cell m i c)
unfolding put_cell
put_cell-Full m i c h full =
    rw (lt→ltb i (length m) (omega (arith, h, full))) (length-set m i c ∙ full)

put_dword-Full :
    (m : List Cell) (v : ℕ) (a b : Cell) → v < 1000 → Full m → Total Full (put_dword m v a b)
unfolding put_dword
put_dword-Full m v a b h full =
    Total-bind Full Full (put_cell m (2 * v) a) _ (put_cell-Full m (2 * v) a (omega arith) full)
      (λ m' f. put_cell-Full m' (2 * v + 1) b (omega (arith, h)) f)

get_cell-Full : (m : List Cell) (i : ℕ) → i < 2000 → Full m → Total (λ c. Unit) (get_cell m i)
get_cell-Full m i h full = elim (Option-cases (get_elem? m i)) [
  | inl out ↦ absurd (inside m i (omega (arith, h, full)) out)
  | inr (c, e) ↦ rw e tt
]
  where
    inside : (xs : List Cell) (k : ℕ) → k < length xs → get_elem? xs k ≢ none
    inside [] k h = λ e. absurd (omega (arith, h))
    inside (x ∷ xs) zero h = λ e. absurd cc
    inside (x ∷ xs) (suc k) h = inside xs k (omega (arith, h))

move_lines-Full :
    (left : ℕ) (m : List Cell) (v : ℕ) → v + left ≤ 960 → Full m → Total Full (move_lines left m v)
unfolding move_lines
move_lines-Full zero m v h full = full
move_lines-Full (suc left) m v h full =
    Total-bind (λ c. Unit) Full (get_cell m (2 * (v + 40))) _
      (get_cell-Full m (2 * (v + 40)) (omega (arith, h)) full)
      (λ a u.
        Total-bind (λ c. Unit) Full (get_cell m (2 * (v + 40) + 1)) _
          (get_cell-Full m (2 * (v + 40) + 1) (omega (arith, h)) full)
          (λ b w.
            Total-bind Full Full (put_dword m v a b) _
              (put_dword-Full m v a b (omega (arith, h)) full)
              (λ m' f. move_lines-Full left m' (v + 1) (omega (arith, h)) f)))

fill_dwords-Full :
    (left : ℕ) (m : List Cell) (v : ℕ) (blank : Cell)
    → v + left ≤ 1000
    → Full m
    → Total Full (fill_dwords left m v blank)
unfolding fill_dwords
fill_dwords-Full zero m v blank h full = full
fill_dwords-Full (suc left) m v blank h full =
    Total-bind Full Full (put_dword m v blank blank) _
      (put_dword-Full m v blank blank (omega (arith, h)) full)
      (λ m' f. fill_dwords-Full left m' (v + 1) blank (omega (arith, h)) f)

clear_cells-Full :
    (n : ℕ) (m : List Cell) (i : ℕ) (blank : Cell)
    → i + n ≤ 2000
    → Full m
    → Total Full (clear_cells n m i blank)
unfolding clear_cells
clear_cells-Full zero m i blank h full = full
clear_cells-Full (suc n) m i blank h full =
    Total-bind Full Full (put_cell m i blank) _ (put_cell-Full m i blank (omega (arith, h)) full)
      (λ m' f. clear_cells-Full n m' (i + 1) blank (omega (arith, h)) f)

-- Only the memory has changed.
abbrev pub Redrawn : Console → Console → Type 0
Redrawn s t = (t ≡ record s { vidmem = t.vidmem }) × Full t.vidmem

scroll-Redrawn : (s : Console) → Full s.vidmem → Total (Redrawn s) (scroll s)
unfolding scroll
scroll-Redrawn s full =
    Total-bind Full (Redrawn s) (move_lines 960 s.vidmem 0) _
      (move_lines-Full 960 s.vidmem 0 (omega arith) full)
      (λ m f.
        Total-bind Full (Redrawn s) (fill_dwords 40 m 960 (blank_cell s)) _
          (fill_dwords-Full 40 m 960 (blank_cell s) (omega arith) f) (λ m' g. (refl, g)))

pub clear_screen-Redrawn : (s : Console) → Full s.vidmem → Total (Redrawn s) (clear_screen s)
unfolding clear_screen
clear_screen-Redrawn s full =
    Total-bind Full (Redrawn s) (fill_dwords 1000 s.vidmem 0 (blank_cell s)) _
      (fill_dwords-Full 1000 s.vidmem 0 (blank_cell s) (omega arith) full) (λ m f. (refl, f))

clear_to_eol-Redrawn : (s : Console) → OnScreen s → Total (Redrawn s) (clear_to_eol s)
unfolding clear_to_eol
clear_to_eol-Redrawn s v =
    Total-bind Full (Redrawn s)
      (clear_cells (80 - s.col) s.vidmem (s.row * 80 + s.col) (blank_cell s)) _
      (clear_cells-Full (80 - s.col) s.vidmem (s.row * 80 + s.col) (blank_cell s)
        (omega (arith, v.in_rows, v.in_cols)) v.cells)
      (λ m f. (refl, f))

-- The console is on the screen, in the same place of an escape sequence.
abbrev pub Kept : Console → Console → Type 0
Kept s t = OnScreen t × (t.state ≡ s.state) × (t.num_args ≡ s.num_args)

pub redraw : (s t : Console) → OnScreen s → Redrawn s t → Kept s t
redraw s t v (e, f) = subst (Kept s) (sym e) (
  record {
    in_rows = v.in_rows;
    in_cols = v.in_cols;
    saved_row = v.saved_row;
    saved_col = v.saved_col;
    cells = f;
    args = v.args;
  },
  refl,
  refl,
)

-- The cursor in another place of the screen.
pub moved :
    (s : Console) (r c : ℕ)
    → OnScreen s
    → r < num_rows
    → c < num_cols
    → OnScreen (record s { row = r; col = c })
moved s r c v h k = record {
  in_rows = h;
  in_cols = k;
  saved_row = v.saved_row;
  saved_col = v.saved_col;
  cells = v.cells;
  args = v.args;
}

newline-Kept : (s : Console) → OnScreen s → Total (Kept s) (newline s)
unfolding newline
newline-Kept s v = elim (Bool-cases (s.row + 1 == num_rows)) [
  | inl last ↦ rw last (
      Total-bind (Redrawn (record s { row = s.row + 1; col = 0 })) (Kept s)
        (scroll (record s { row = s.row + 1; col = 0 })) _
        (scroll-Redrawn (record s { row = s.row + 1; col = 0 }) v.cells)
        (λ t (e, f).
          subst (λ x. Kept s (record x { row = num_rows - 1 })) (sym e)
            (
              record {
                in_rows = omega arith;
                in_cols = omega arith;
                saved_row = v.saved_row;
                saved_col = v.saved_col;
                cells = f;
                args = v.args;
              },
              refl,
              refl,
            )))
  | inr more ↦
      rw more (moved s (s.row + 1) 0 v (ground (arith, more, v.in_rows)) (omega arith), refl, refl)
]

-- A console that is kept, then kept again.
Kept-trans : (s t u : Console) → Kept s t → Kept t u → Kept s u
Kept-trans s t u h k = (k.0, k.1 ∙ h.1, k.2 ∙ h.2)

Kept-bind :
    (s : Console) (m : Run Console) (f : Console → Run Console)
    → Total (Kept s) m
    → ((t : Console) → OnScreen t → Total (Kept t) (f t))
    → Total (Kept s) (m >>= f)
Kept-bind s (done t) f h k = weaken (f t) (k t h.0)
  where
    weaken : (m : Run Console) → Total (Kept t) m → Total (Kept s) m
    weaken (done u) g = Kept-trans s t u h g
    weaken (stop r) g = g
Kept-bind s (stop r) f h k = h

put_graphic_char-Kept : (s : Console) (c : ℕ) → OnScreen s → Total (Kept s) (put_graphic_char s c)
unfolding put_graphic_char
put_graphic_char-Kept s c v =
    Total-bind Full (Kept s)
      (put_cell s.vidmem (s.row * 80 + s.col) (record { char = c % 2 ^ 8; attr = s.current_attr }))
      _
      (put_cell-Full s.vidmem (s.row * 80 + s.col)
        (record { char = c % 2 ^ 8; attr = s.current_attr }) (omega (arith, v.in_rows, v.in_cols))
        v.cells)
      (λ m f.
        let w : OnScreen (record s { vidmem = m }) = record {
          in_rows = v.in_rows;
          in_cols = v.in_cols;
          saved_row = v.saved_row;
          saved_col = v.saved_col;
          cells = f;
          args = v.args;
        } in
        elim (Bool-cases (ltb s.col (num_cols - 1))) [
          | inl room ↦ rw room (
            moved (record s { vidmem = m }) s.row (s.col + 1) w v.in_rows (ground (arith, room)),
            refl,
            refl,
          )
          | inr at_end ↦ rw at_end (newline-Kept (record s { vidmem = m }) w)
        ])

put_spaces-Kept : (n : ℕ) (s : Console) → OnScreen s → Total (Kept s) (put_spaces n s)
unfolding put_spaces
put_spaces-Kept zero s v = (v, refl, refl)
put_spaces-Kept (suc n) s v =
    Kept-bind s (put_graphic_char s 32) _ (put_graphic_char-Kept s 32 v)
      (λ t w. put_spaces-Kept n t w)

pub clear_to_eol-Kept : (s : Console) → OnScreen s → Total (Kept s) (clear_to_eol s)
clear_to_eol-Kept s v = go (clear_to_eol s) (clear_to_eol-Redrawn s v)
  where
    go : (m : Run Console) → Total (Redrawn s) m → Total (Kept s) m
    go (done t) h = redraw s t v h
    go (stop r) h = h

pub output_literal_character-Kept :
    (s : Console) (c : ℕ) → OnScreen s → Total (Kept s) (output_literal_character s c)
unfolding output_literal_character
output_literal_character-Kept s c v = elim (Bool-cases (c == 10)) [
  | inl line ↦
      rw line (Kept-bind s (clear_to_eol s) _ (clear_to_eol-Kept s v) (λ t w. newline-Kept t w))
  | inr other ↦ elim (Bool-cases (c == 9)) [
    | inl tab ↦ rw (other, tab) (put_spaces-Kept (tab_width - s.col % tab_width) s v)
    | inr plain ↦ rw (other, plain) (put_graphic_char-Kept s c v)
  ]
]
