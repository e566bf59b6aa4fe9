-- ===== src/Screen/Escape.antt =====
-- src/geekos/screen.c: escape sequences, and every text that is put on the console.
use geekos.Base.{
  ltb, ◌==◌, if◌then◌else◌, ltb→lt, ==-self, Bool-cases, length, set, length-set, ℕ, ◌+◌, ◌≤◌, ◌<◌,
  ◌≡◌, refl, ◌∙◌, inl, inr, Bool, true, false, List, [], ◌∷◌, arith,
}
use geekos.Base.Reasons.{Run, done, stop, ◌>>=◌, Total, Total-bind}
use geekos.Screen.{
  max_args, State, normal, esc, esc2, scan_arg, cmd, Console, output_literal_character, reset,
  start_escape, start_arg, sub_word, is_digit, add_digit, run_command, put_cmd, put_arg, put_esc2,
  put_char_imp, put_buf,
}
use geekos.Screen.Valid.{OnScreen, Kept, output_literal_character-Kept}
use geekos.Screen.Commands.{run_command-OnScreen, get_elem?-some}

-- The console is on the screen, it has at most `p` arguments, none before the first character of one, and
-- at least one while one is read.
abbrev pub Valid : ℕ → Console → Type 0
Valid p s =
    OnScreen s
    × (s.state ≡ esc → s.num_args ≡ 0)
    × (s.state ≡ esc2 → s.num_args ≡ 0)
    × (s.num_args ≤ p)
    × (s.state ≡ scan_arg → 0 < s.num_args)

abbrev pub semicolons : List ℕ → ℕ
semicolons [] = 0
semicolons (c ∷ cs) = (if c == 59 then 1 else 0) + semicolons cs

abbrev one_more : ℕ → ℕ → ℕ
one_more p c = p + (if c == 59 then 1 else 0)

Valid-le : (s : Console) (p q : ℕ) → p ≤ q → Valid p s → Valid q s
Valid-le s p q h (v, a, b, c, d) = (v, a, b, omega (arith, c, h), d)

put_cmd-Valid :
    (p : ℕ) (s : Console) (c : ℕ) → OnScreen s → s.num_args ≤ 8 → Total (Valid p) (put_cmd s c)
unfolding put_cmd
put_cmd-Valid p s c v few =
    Total-bind OnScreen (Valid p) (run_command s c) _ (run_command-OnScreen s c v few) (λ t w. (
      record {
        in_rows = w.in_rows;
        in_cols = w.in_cols;
        saved_row = w.saved_row;
        saved_col = w.saved_col;
        cells = w.cells;
        args = w.args;
      },
      λ e. refl,
      λ e. refl,
      omega arith,
      λ e. absurd cc,
    ))

-- Another list of arguments, and another state.
re_args :
    (s : Console) (st : State) (n : ℕ) (l : List ℕ)
    → OnScreen s
    → length l ≡ max_args
    → OnScreen (record s { state = st; num_args = n; arg_list = l })
re_args s st n l v h = record {
  in_rows = v.in_rows;
  in_cols = v.in_cols;
  saved_row = v.saved_row;
  saved_col = v.saved_col;
  cells = v.cells;
  args = h;
}

-- In S_ARG, with `n` arguments.
abbrev Scanning : ℕ → Console → Type 0
Scanning n s = OnScreen s × (s.state ≡ scan_arg) × (s.num_args ≡ n) × (0 < n)

Scanning-Valid : (p : ℕ) (s : Console) → Scanning p s → Valid p s
Scanning-Valid p s (v, e, h, pos) =
    (v, λ k. absurd cc, λ k. absurd cc, omega (arith, h), λ k. omega (arith, h, pos))

start_arg-Scanning :
    (s : Console) (n : ℕ) → OnScreen s → s.num_args ≡ n → Total (Scanning (n + 1)) (start_arg s n)
unfolding start_arg
start_arg-Scanning s n v e =
    rw (e, ==-self n)
      (
        re_args s scan_arg (n + 1) (if ltb n max_args then set s.arg_list n 0 else s.arg_list) v
            (still (ltb n max_args)),
        refl,
        refl,
        omega arith,
      )
  where
    still : (b : Bool) → length (if b then set s.arg_list n 0 else s.arg_list) ≡ max_args
    still true = length-set s.arg_list n 0 ∙ v.args
    still false = v.args

add_digit-Scanning :
    (p : ℕ) (s : Console) (c : ℕ)
    → Scanning p s
    → is_digit c ≡ true
    → Total (Scanning p) (add_digit s c)
unfolding add_digit
add_digit-Scanning p s c (v, e, h, pos) digit = elim (Bool-cases (ltb s.num_args max_args)) [
  | inl room ↦
      let few = ltb→lt s.num_args max_args room in
      let (x, at_x) =
        get_elem?-some s.arg_list (sub_word s.num_args 1) (omega (arith, few, v.args, h, pos)) in
      rw (digit, room, at_x)
        (
          re_args s s.state s.num_args _ v
              (length-set s.arg_list (sub_word s.num_args 1) _ ∙ v.args),
          e,
          h,
          pos,
        )
  | inr full ↦ rw (digit, full) (v, e, h, pos)
]

Scanning-bind :
    (p q : ℕ) (m : Run Console) (f : Console → Run Console)
    → Total (Scanning p) m
    → ((t : Console) → Scanning p t → Total (Valid q) (f t))
    → Total (Valid q) (m >>= f)
Scanning-bind p q m f h k = Total-bind (Scanning p) (Valid q) m f h k

weaken : (p q : ℕ) (m : Run Console) → p ≤ q → Total (Scanning p) m → Total (Valid q) m
weaken p q (done t) le h = Valid-le t p q le (Scanning-Valid p t h)
weaken p q (stop r) le h = h

put_arg-Valid :
    (n p : ℕ) (s : Console) (c : ℕ)
    → Scanning n s
    → n ≤ p
    → p ≤ 8
    → Total (Valid (one_more p c)) (put_arg s c)
unfolding put_arg
put_arg-Valid n p s c (v, e, h, pos) le few = elim (Bool-cases (is_digit c)) [
  | inl digit ↦ rw digit (
      weaken n (one_more p c) (add_digit s c) (omega (arith, le))
        (add_digit-Scanning n s c (v, e, h, pos) digit))
  | inr other ↦ elim (Bool-cases (c == 59)) [
    | inl semi ↦
        rw (other, semi)
          (weaken (s.num_args + 1) (p + 1) (start_arg s s.num_args) (omega (arith, h, le))
            (start_arg-Scanning s s.num_args v refl))
    | inr plain ↦
        rw (other, plain)
          (put_cmd-Valid (p + 0) (record s { state = cmd }) c
            (re_args s cmd s.num_args s.arg_list v v.args) (omega (arith, h, le, few)))
  ]
]

is_digit_one : is_digit 49 ≡ true
unfolding is_digit
is_digit_one = refl

put_esc2-Valid :
    (p : ℕ) (s : Console) (c : ℕ)
    → OnScreen s
    → s.num_args ≡ 0
    → 1 ≤ p
    → p ≤ 8
    → Total (Valid (one_more p c)) (put_esc2 s c)
unfolding put_esc2
put_esc2-Valid p s c v none_yet pos few = elim (Bool-cases (is_digit c)) [
  | inl digit ↦ rw digit (
      Total-bind (Scanning 1) (Valid (one_more p c)) (start_arg s 0) _
        (start_arg-Scanning s 0 v none_yet) (λ t h. put_arg-Valid 1 p t c h pos few))
  | inr other ↦ elim (Bool-cases (c == 59)) [
    | inl semi ↦
        rw (other, semi)
          (Total-bind (Scanning 1) (Valid (p + 1)) (start_arg s 0) _
            (start_arg-Scanning s 0 v none_yet)
            (λ t h.
              Total-bind (Scanning 1) (Valid (p + 1)) (add_digit t 49) _
                (add_digit-Scanning 1 t 49 h one_digit)
                (λ u k.
                  weaken 2 (p + 1) (start_arg u 1) (omega (arith, pos))
                    (start_arg-Scanning u 1 k.0 k.2))))
    | inr plain ↦
        rw (other, plain)
          (put_cmd-Valid (p + 0) (record s { state = cmd }) c
            (re_args s cmd s.num_args s.arg_list v v.args) (omega (arith, none_yet)))
  ]
]
  where
    one_digit : is_digit 49 ≡ true
    one_digit = is_digit_one

literal-Valid :
    (p : ℕ) (s : Console) (c : ℕ)
    → Valid p s
    → s.state ≡ normal
    → Total (Valid p) (output_literal_character s c)
literal-Valid p s c (v, a, b, few, d) at_normal =
    go (output_literal_character s c) (output_literal_character-Kept s c v)
  where
    go : (m : Run Console) → Total (Kept s) m → Total (Valid p) m
    go (done t) (w, st, n) =
        (w, λ e. absurd cc, λ e. absurd cc, omega (arith, n, few), λ e. absurd cc)
    go (stop r) h = h

put_char_imp-Valid :
    (p : ℕ) (s : Console) (c : ℕ)
    → Valid p s
    → 1 ≤ p
    → p ≤ 8
    → Total (Valid (one_more p c)) (put_char_imp s c)
unfolding put_char_imp
put_char_imp-Valid p s c h pos few = go s.state refl
  where
    more : (m : Run Console) → Total (Valid p) m → Total (Valid (one_more p c)) m
    more (done t) k = Valid-le t p (one_more p c) (omega arith) k
    more (stop r) k = k

    go :
        (st : State)
        → s.state ≡ st
        → Total (Valid (one_more p c)) (elim st as (λ x. Run Console) [
          | normal ↦ if c == 27 then done (start_escape s) else output_literal_character s c
          | esc ↦ done (if c == 91 then record s { state = esc2 } else reset s)
          | esc2 ↦ put_esc2 s c
          | scan_arg ↦ put_arg s c
          | cmd ↦ put_cmd s c
        ])
    go normal e = elim (Bool-cases (c == 27)) [
      | inl start ↦ rw start (
        re_args s esc 0 s.arg_list h.0 h.0.args,
        λ k. refl,
        λ k. refl,
        omega arith,
        λ k. absurd cc,
      )
      | inr other ↦ rw other (more (output_literal_character s c) (literal-Valid p s c h e))
    ]
    go esc e = elim (Bool-cases (c == 91)) [
      | inl bracket ↦ rw bracket (
        re_args s esc2 s.num_args s.arg_list h.0 h.0.args,
        λ k. absurd cc,
        λ k. h.1 e,
        omega (arith, h.3),
        λ k. absurd cc,
      )
      | inr other ↦ rw other (
        re_args s normal 0 s.arg_list h.0 h.0.args,
        λ k. refl,
        λ k. refl,
        omega arith,
        λ k. absurd cc,
      )
    ]
    go esc2 e = put_esc2-Valid p s c h.0 (h.2 e) pos few
    go scan_arg e = put_arg-Valid s.num_args p s c (h.0, e, refl, h.4 e) h.3 few
    go cmd e = put_cmd-Valid (one_more p c) s c h.0 (omega (arith, h.3, few))

put_buf-Valid :
    (cs : List ℕ) (p : ℕ) (s : Console)
    → Valid p s
    → 1 ≤ p
    → p + semicolons cs ≤ 8
    → Total OnScreen (put_buf s cs)
unfolding put_buf
put_buf-Valid [] p s h pos few = h.0
put_buf-Valid (c ∷ cs) p s h pos few =
    Total-bind (Valid (one_more p c)) OnScreen (put_char_imp s c) _
      (put_char_imp-Valid p s c h pos (omega (arith, few)))
      (λ t k. put_buf-Valid cs (one_more p c) t k (omega (arith, pos)) (omega (arith, few)))

-- Any text of at most seven semicolons can be put on the console: no character of it makes the code read
-- or write outside the video memory or the list of arguments or fail an assertion, and afterwards the
-- cursor and the saved cursor lie on the screen. For a console that is on the screen and in no escape
-- sequence.
pub put_buf-OnScreen :
    (s : Console) (cs : List ℕ)
    → OnScreen s
    → s.state ≡ normal
    → semicolons cs ≤ 7
    → s.num_args ≡ 0
    → Total OnScreen (put_buf s cs)
put_buf-OnScreen s cs v at_normal few none_yet =
    put_buf-Valid cs 1 s (v, λ e. none_yet, λ e. none_yet, omega (arith, none_yet), λ e. absurd cc)
      (omega arith) (omega (arith, few))
