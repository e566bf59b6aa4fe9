-- ===== src/Argblock/Layout.antt =====
-- The loops of the two functions on a command, in terms of its arguments.
use geekos.Base.{
  ◌==◌, length, All, take-append, drop-append, ℕ, zero, suc, ◌+◌, ◌%◌, ◌^◌, ◌≤◌, ◌<◌, ◌≡◌, refl,
  sym, ap, ap₂, ◌∙◌, true, false, ◌||◌, some, List, [], ◌∷◌, ◌++◌, arith,
}
use geekos.Argblock.{is_space, skip_whitespace, get_argument_len, size_loop, format_loop}

abbrev pub IsGap : List ℕ → Type 0
IsGap = All (λ c. is_space c ≡ true)

abbrev pub IsWord : List ℕ → Type 0
IsWord = All (λ c. (is_space c || (c == 0)) ≡ false)

-- The command `s` has the arguments `args`: gaps of white space between words, up to a nul.
abbrev pub IsCommand : List ℕ → List (List ℕ) → Type 0
IsCommand s [] = (gap : List ℕ) × (r : List ℕ) × IsGap gap × (s ≡ gap ++ 0 ∷ r)
IsCommand s (a ∷ args) =
    (gap : List ℕ) × (x : ℕ) × (w : List ℕ) × (c : ℕ) × (t : List ℕ) × IsGap gap
    × (a ≡ x ∷ w)
    × IsWord (x ∷ w)
    × ((is_space c || (c == 0)) ≡ true)
    × (s ≡ gap ++ (x ∷ (w ++ c ∷ t)))
    × IsCommand (c ∷ t) args

-- The argument vector for strings from `offset` on, the strings, and the bytes for both.
abbrev pub vector : ℕ → ℕ → List (List ℕ) → List ℕ
vector user_address offset [] = 0 ∷ []
vector user_address offset (a ∷ args) =
    (user_address + offset) % 2 ^ 32 ∷ vector user_address (offset + length a + 1) args

abbrev pub packed : List (List ℕ) → List ℕ
packed [] = []
packed (a ∷ args) = a ++ 0 ∷ packed args

abbrev pub space_for : List (List ℕ) → ℕ
space_for [] = 4
space_for (a ∷ args) = 4 + (length a + 1) + space_for args

space_for-pos : (args : List (List ℕ)) → 0 < space_for args
space_for-pos [] = omega arith
space_for-pos (a ∷ args) = omega (arith, space_for-pos args)

skip-gap :
    (gap : List ℕ) (c : ℕ) (t : List ℕ)
    → IsGap gap
    → is_space c ≡ false
    → skip_whitespace (gap ++ c ∷ t) ≡ some (c ∷ t)
unfolding skip_whitespace
skip-gap [] c t h k = rw k refl
skip-gap (x ∷ gap) c t (h, hs) k = rw h (skip-gap gap c t hs k)

len-word :
    (w : List ℕ) (c : ℕ) (t : List ℕ)
    → IsWord w
    → (is_space c || (c == 0)) ≡ true
    → get_argument_len (w ++ c ∷ t) ≡ some (length w)
unfolding get_argument_len
len-word [] c t h e = ground arith
len-word (x ∷ w) c t (h, hs) e = rw (len-word w c t hs e) (ground arith)

at_end : (gap r s : List ℕ) → IsGap gap → s ≡ gap ++ 0 ∷ r → skip_whitespace s ≡ some (0 ∷ r)
unfolding is_space
at_end gap r s g e = ap skip_whitespace e ∙ skip-gap gap 0 r g refl

len_at_end : (r : List ℕ) → get_argument_len (0 ∷ r) ≡ some 0
unfolding is_space
len_at_end r = len-word [] 0 r tt refl

at_word :
    (gap w s t : List ℕ) (x c : ℕ)
    → IsGap gap
    → IsWord (x ∷ w)
    → s ≡ gap ++ (x ∷ (w ++ c ∷ t))
    → skip_whitespace s ≡ some (x ∷ (w ++ c ∷ t))
at_word gap w s t x c g h e =
    ap skip_whitespace e ∙ skip-gap gap x (w ++ c ∷ t) g (ground (arith, h.0))

not_nul : (x : ℕ) (w : List ℕ) → IsWord (x ∷ w) → (x == 0) ≡ false
not_nul x w h = ground (arith, h.0)

len_at_word :
    (x : ℕ) (w : List ℕ) (c : ℕ) (t : List ℕ)
    → IsWord (x ∷ w)
    → (is_space c || (c == 0)) ≡ true
    → get_argument_len (x ∷ (w ++ c ∷ t)) ≡ some (suc (length w))
len_at_word x w c t h e = len-word (x ∷ w) c t h e

pub size_loop-counts :
    (args : List (List ℕ)) (fuel : ℕ) (s : List ℕ) (size count : ℕ)
    → IsCommand s args
    → length args < fuel
    → count ≤ size
    → size + space_for args < 2 ^ 32
    → size_loop fuel s size count ≡ some (count + length args, size + space_for args)
unfolding size_loop
size_loop-counts args zero s size count h lt le bound = elim lt [ ]
size_loop-counts [] (suc fuel) s size count (gap, r, g, e) lt le bound =
    let wrap : (size + 4) % 2 ^ 32 ≡ size + 4 = omega (arith, bound) in
    let same : count ≡ count + 0 = omega arith in
    rw (size_loop, at_end gap r s g e, len_at_end r, wrap) (ap (λ n. some (n, size + 4)) same)
size_loop-counts (a ∷ args) (suc fuel) s size count (gap, x, w, c, t, g, ea, word, ends, e, rest) lt
      le bound =
    let len : length a ≡ suc (length w) = ap length ea in
    let some_space = space_for-pos args in
    let wrap : (size + 4 + (suc (length w) + 1)) % 2 ^ 32 ≡ size + 4 + (suc (length w) + 1) =
      omega (arith, bound, len, some_space) in
    let wrap_count : (count + 1) % 2 ^ 32 ≡ count + 1 = omega (arith, bound, len, le, some_space) in
    let ih =
      size_loop-counts args fuel (c ∷ t) (size + 4 + (suc (length w) + 1)) (count + 1) rest
        (omega arith) (omega (arith, le)) (omega (arith, bound, len)) in
    let n : count + 1 + length args ≡ count + suc (length args) = omega arith in
    let total : size + 4 + (suc (length w) + 1) + space_for args
        ≡ size + (4 + (length a + 1) + space_for args) =
      omega (arith, len) in
    rw
      (
        size_loop,
        at_word gap w s t x c g word e,
        len_at_word x w c t word ends,
        not_nul x w word,
        drop-append w (c ∷ t),
        wrap,
        wrap_count,
        ih,
      )
      (ap₂ (λ k m. some (k, m)) n total)

pub format_loop-writes :
    (args : List (List ℕ)) (fuel : ℕ) (s : List ℕ) (user_address offset : ℕ)
    → IsCommand s args
    → length args < fuel
    → format_loop fuel s user_address offset ≡ some (vector user_address offset args, packed args)
unfolding format_loop
format_loop-writes args zero s ua offset h lt = elim lt [ ]
format_loop-writes [] (suc fuel) s ua offset (gap, r, g, e) lt =
    rw (format_loop, at_end gap r s g e, len_at_end r) refl
format_loop-writes (a ∷ args) (suc fuel) s ua offset (gap, x, w, c, t, g, ea, word, ends, e, rest)
      lt =
    let ih =
      format_loop-writes args fuel (c ∷ t) ua (offset + suc (length w) + 1) rest (omega arith) in
    rw
      (
        format_loop,
        at_word gap w s t x c g word e,
        len_at_word x w c t word ends,
        not_nul x w word,
        drop-append w (c ∷ t),
        ih,
        take-append w (c ∷ t),
      )
      (ap (λ b. some (vector ua offset (b ∷ args), packed (b ∷ args))) (sym ea))
