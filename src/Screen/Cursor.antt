-- ===== src/Screen/Cursor.antt =====
-- src/geekos/screen.c: the escape sequence that sets the cursor.
use geekos.Base.{
  ltb, if◌then◌else◌, lt→ltb, length, get_elem?, get_or, set, All, length-set, get_or-set_self,
  get_or-set_ne, get_elem?-set_self, ℕ, zero, suc, ◌+◌, ◌-◌, ◌*◌, ◌%◌, ◌^◌, ◌≤◌, ◌<◌, ◌≡◌, refl,
  sym, ap, ap₂, ◌∙◌, true, some, List, [], ◌∷◌, ◌++◌, arith,
}
use geekos.Base.Reasons.{done}
use geekos.Screen.{
  max_args, normal, esc2, scan_arg, Console, clip, move_cursor, reset, start_escape, start_arg,
  is_digit, add_digit, get_arg, run_command, put_cmd, put_arg, put_esc2, put_char_imp, put_buf,
  sub_word,
}

abbrev pub Digits : List ℕ → Type 0
Digits ds = All (λ c. is_digit c ≡ true) ds

-- The 32-bit word that the code makes of decimal digits, behind those that make up `v`.
abbrev number : ℕ → List ℕ → ℕ
number v [] = v
number v (c ∷ cs) = number ((v * 10 + (c - 48)) % 2 ^ 32) cs

-- In S_ARG, where the last of `k + 1` arguments, fewer than eight, is `v`.
record Scans (s : Console) (k v : ℕ) : Type 0 where
  in_arg : s.state ≡ scan_arg
  count : s.num_args ≡ k + 1
  few : k + 1 < max_args
  value : get_elem? s.arg_list k ≡ some v

below : (xs : List ℕ) (i x : ℕ) → get_elem? xs i ≡ some x → i < length xs
below [] i x h = absurd cc
below (y ∷ xs) zero x h = omega arith
below (y ∷ xs) (suc i) x h = omega (arith, below xs i x h)

set-same : (xs : List ℕ) (i v : ℕ) → get_elem? xs i ≡ some v → set xs i v ≡ xs
set-same [] i v h = refl
set-same (x ∷ xs) zero v h = ap (λ y. y ∷ xs) (inj h)
  where
    inj : some x ≡ some v → v ≡ x
    inj e = cc
set-same (x ∷ xs) (suc i) v h = ap (λ l. x ∷ l) (set-same xs i v h)

set-set : (xs : List ℕ) (i v w : ℕ) → set (set xs i v) i w ≡ set xs i w
set-set [] i v w = refl
set-set (x ∷ xs) zero v w = refl
set-set (x ∷ xs) (suc i) v w = ap (λ l. x ∷ l) (set-set xs i v w)

-- The console with another value of an argument.
abbrev with_arg : Console → ℕ → ℕ → Console
with_arg s k v = record s { arg_list = set s.arg_list k v }

digit_step :
    (s : Console) (k v c : ℕ)
    → is_digit c ≡ true
    → Scans s k v
    → put_char_imp s c ≡ done (with_arg s k ((v * 10 + (c - 48)) % 2 ^ 32))
unfolding put_char_imp put_arg add_digit
digit_step s k v c digit sc =
    let last : sub_word (k + 1) 1 ≡ k = omega (arith, sc.few) in
    rw (sc.in_arg, digit, sc.count, lt→ltb (k + 1) 8 sc.few, last, sc.value) refl

-- Further digits.
put_buf-number :
    (ds rest : List ℕ) (s : Console) (k v : ℕ)
    → Digits ds
    → Scans s k v
    → put_buf s (ds ++ rest) ≡ put_buf (with_arg s k (number v ds)) rest
unfolding put_buf
put_buf-number [] rest s k v h sc =
    ap (λ l. put_buf (record s { arg_list = l }) rest) (sym (set-same s.arg_list k v sc.value))
put_buf-number (c ∷ cs) rest s k v (h, hs) sc =
    let v' = (v * 10 + (c - 48)) % 2 ^ 32 in
    let again : Scans (with_arg s k v') k v' = record {
      in_arg = sc.in_arg;
      count = sc.count;
      few = sc.few;
      value = get_elem?-set_self s.arg_list k v' (below s.arg_list k v sc.value);
    } in
    rw (digit_step s k v c h sc) (
      put_buf-number cs rest (with_arg s k v') k v' hs again
      ∙ ap (λ l. put_buf (record s { arg_list = l }) rest) (set-set s.arg_list k v' (number v' cs)))

abbrev bracketed : Console → Console
bracketed s = record (start_escape s) { state = esc2 }

-- The console at the start of the first argument, and of the second.
abbrev first_arg : Console → Console
first_arg s = record s { num_args = 1; state = scan_arg; arg_list = set s.arg_list 0 0 }

abbrev second_arg : Console → Console
second_arg s = record s { num_args = 2; state = scan_arg; arg_list = set s.arg_list 1 0 }

to_first_arg :
    (s : Console) (d : ℕ) (rest : List ℕ)
    → s.state ≡ normal
    → is_digit d ≡ true
    → put_buf s (27 ∷ 91 ∷ d ∷ rest) ≡ put_buf (first_arg s) (d ∷ rest)
unfolding put_buf put_char_imp put_esc2 start_arg
to_first_arg s d rest at_normal digit = rw (at_normal, digit) refl

to_second_arg :
    (s : Console) (rest : List ℕ)
    → s.state ≡ scan_arg
    → s.num_args ≡ 1
    → put_buf s (59 ∷ rest) ≡ put_buf (second_arg s) rest
unfolding put_buf put_char_imp put_arg start_arg is_digit
to_second_arg s rest in_arg one = rw (in_arg, one) refl

-- The cursor is set, and the escape sequence is over.
abbrev placed : Console → ℕ → ℕ → List ℕ → Console
placed s n m args = record (reset (move_cursor s (sub_word n 1) (sub_word m 1))) { arg_list = args }

to_place :
    (s : Console)
    → s.state ≡ scan_arg
    → s.num_args ≡ 2
    → put_buf s (72 ∷ [])
      ≡ done (placed s (get_or s.arg_list 0 0) (get_or s.arg_list 1 0) s.arg_list)
unfolding put_buf put_char_imp put_arg put_cmd run_command is_digit get_arg move_cursor
to_place s in_arg two = rw (in_arg, two) refl

put_buf-placed :
    (s : Console) (d : ℕ) (ds es : List ℕ)
    → s.state ≡ normal
    → length s.arg_list ≡ max_args
    → Digits (d ∷ ds)
    → Digits es
    → (args : List ℕ) × (put_buf s (27 ∷ 91 ∷ ((d ∷ ds) ++ (59 ∷ (es ++ (72 ∷ [])))))
        ≡ done (placed s (number 0 (d ∷ ds)) (number 0 es) args))
unfolding move_cursor
put_buf-placed s d ds es at_normal room (h, hs) ks =
    let n = number 0 (d ∷ ds) in
    let m = number 0 es in
    let s₁ = first_arg s in
    let first : Scans s₁ 0 0 = record {
      in_arg = refl;
      count = refl;
      few = omega arith;
      value = get_elem?-set_self s.arg_list 0 0 (omega (arith, room));
    } in
    let s₂ = with_arg s₁ 0 n in
    let s₃ = second_arg s₂ in
    let second : Scans s₃ 1 0 = record {
      in_arg = refl;
      count = refl;
      few = omega arith;
      value =
          get_elem?-set_self s₂.arg_list 1 0
            (omega (arith, room, length-set (set s.arg_list 0 0) 0 n, length-set s.arg_list 0 0));
    } in
    let s₄ = with_arg s₃ 1 m in
    let one : get_or s₄.arg_list 0 0 ≡ n =
      get_or-set_ne s₃.arg_list 1 0 m 0 (λ e. absurd (omega (arith, e)))
      ∙ get_or-set_ne s₂.arg_list 1 0 0 0 (λ e. absurd (omega (arith, e)))
      ∙ get_or-set_self s₁.arg_list 0 n 0 (omega (arith, room, length-set s.arg_list 0 0)) in
    let two : get_or s₄.arg_list 1 0 ≡ m = get_or-set_self s₃.arg_list 1 m 0 (
      omega (
        arith,
        room,
        length-set s₂.arg_list 1 0,
        length-set (set s.arg_list 0 0) 0 n,
        length-set s.arg_list 0 0,
      )) in
    (
      s₄.arg_list,
      to_first_arg s d (ds ++ (59 ∷ (es ++ (72 ∷ [])))) at_normal h
          ∙ put_buf-number (d ∷ ds) (59 ∷ (es ++ (72 ∷ []))) s₁ 0 0 (h, hs) first
          ∙ to_second_arg s₂ (es ++ 72 ∷ []) refl refl
          ∙ put_buf-number es (72 ∷ []) s₃ 1 0 ks second
          ∙ to_place s₄ refl refl
          ∙ ap₂ (λ i j. done (placed s i j s₄.arg_list)) one two,
    )

-- The number that decimal digits stand for, behind those of `v`, with no limit to its size.
abbrev pub decimal : ℕ → List ℕ → ℕ
decimal v [] = v
decimal v (c ∷ cs) = decimal (v * 10 + (c - 48)) cs

decimal-ge : (v : ℕ) (cs : List ℕ) → v ≤ decimal v cs
decimal-ge v [] = omega arith
decimal-ge v (c ∷ cs) = omega (arith, decimal-ge (v * 10 + (c - 48)) cs)

-- No number on the way to a small one wraps.
number-decimal : (v : ℕ) (cs : List ℕ) → decimal v cs < 2 ^ 31 → number v cs ≡ decimal v cs
number-decimal v [] small = refl
number-decimal v (c ∷ cs) small =
    let next = v * 10 + (c - 48) in
    ap (λ n. number n cs) {x = next % 2 ^ 32} {y = next} (omega (arith, small, decimal-ge next cs))
    ∙ number-decimal next cs small

-- The coordinate, from 0, of the place `n`, counted from 1, of `size` places: the nearest one where there
-- is no such place.
abbrev pub nearest : ℕ → ℕ → ℕ
nearest size zero = 0
nearest size (suc n) = if ltb n size then n else size - 1

clip-nearest : (n size : ℕ) → n < 2 ^ 31 → 0 < size → clip (sub_word n 1) size ≡ nearest size n
unfolding clip
clip-nearest zero size small some_place = refl
clip-nearest (suc n) size small some_place =
    let before : sub_word (suc n) 1 ≡ n = omega (arith, small) in
    rw before (ground (arith, small, some_place))

-- "ESC [ n ; m H", with decimal digits for n and m, at least one for n, and both below 2^31: the cursor is
-- set to row n - 1 and column m - 1 of the 25 rows and 80 columns, a row or column beyond the border of
-- the screen becoming the one at the border; the sequence is over, and nothing else of the console
-- changes but the list of arguments. For a console that is in no escape sequence.
pub put_buf-sets_cursor :
    (s : Console) (d : ℕ) (ds es : List ℕ)
    → s.state ≡ normal
    → length s.arg_list ≡ max_args
    → Digits (d ∷ ds)
    → Digits es
    → decimal 0 (d ∷ ds) < 2 ^ 31
    → decimal 0 es < 2 ^ 31
    → (args : List ℕ) × (put_buf s (27 ∷ 91 ∷ ((d ∷ ds) ++ (59 ∷ (es ++ (72 ∷ [])))))
        ≡ done (record s {
          row = nearest 25 (decimal 0 (d ∷ ds));
          col = nearest 80 (decimal 0 es);
          state = normal;
          num_args = 0;
          arg_list = args;
        }))
unfolding move_cursor
put_buf-sets_cursor s d ds es at_normal room hs ks row_small col_small =
    let (args, e) = put_buf-placed s d ds es at_normal room hs ks in
    let row_num = number-decimal 0 (d ∷ ds) row_small in
    let col_num = number-decimal 0 es col_small in
    (
      args,
      e
          ∙ ap₂
              (λ r c.
                done (record s { row = r; col = c; state = normal; num_args = 0; arg_list = args }))
              (ap (λ n. clip (sub_word n 1) 25) row_num
                ∙ clip-nearest (decimal 0 (d ∷ ds)) 25 row_small (omega arith))
              (ap (λ n. clip (sub_word n 1) 80) col_num
                ∙ clip-nearest (decimal 0 es) 80 col_small (omega arith)),
    )
