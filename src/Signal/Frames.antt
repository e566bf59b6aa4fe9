-- ===== src/Signal/Frames.antt =====
-- Words in memory, and the frame that stands there.
use geekos.Base.{
  ◌==◌, ==_ne, length, length-append, ℕ, zero, suc, ◌+◌, ◌*◌, ◌≤◌, ◌<◌, ◌≡◌, refl, sym, ap, ap₂,
  ◌∙◌, ◌≢◌, ◌⊎◌, inl, inr, true, List, [], ◌∷◌, ◌++◌, append_assoc, arith,
}
use geekos.Signal.{Frame, store, store_words, load_words, words, frame_at}

pub store_words-outside :
    (mem : ℕ → ℕ) (a b : ℕ) (xs : List ℕ)
    → (b < a) ⊎ (a + 4 * length xs ≤ b)
    → store_words mem a xs b ≡ mem b
store_words-outside mem a b [] h = refl
store_words-outside mem a b (x ∷ xs) h =
    store_words-outside (store mem a x) (a + 4) b xs (shift h) ∙ rw (==_ne b a (apart h)) refl
  where
    shift : (b < a) ⊎ (a + 4 * length (x ∷ xs) ≤ b) → (b < a + 4) ⊎ (a + 4 + 4 * length xs ≤ b)
    shift (inl l) = inl (omega arith)
    shift (inr r) = inr (omega (arith, r))

    apart : (b < a) ⊎ (a + 4 * length (x ∷ xs) ≤ b) → b ≢ a
    apart (inl l) e = omega (arith, l, e)
    apart (inr r) e = omega (arith, r, e)

store_words-append :
    (mem : ℕ → ℕ) (a : ℕ) (xs ys : List ℕ)
    → store_words mem a (xs ++ ys) ≡ store_words (store_words mem a xs) (a + 4 * length xs) ys
store_words-append mem a [] ys = ap (λ b. store_words mem b ys) (omega arith)
store_words-append mem a (x ∷ xs) ys =
    store_words-append (store mem a x) (a + 4) xs ys
    ∙ ap (λ b. store_words (store_words (store mem a x) (a + 4) xs) b ys) (omega arith)

load_words-store_words :
    (mem : ℕ → ℕ) (a : ℕ) (xs : List ℕ) → load_words (store_words mem a xs) a (length xs) ≡ xs
load_words-store_words mem a [] = refl
load_words-store_words mem a (x ∷ xs) =
    ap₂ (λ y l. y ∷ l)
      (store_words-outside (store mem a x) (a + 4) a xs (inl (omega arith)) ∙ rw (==_self a) refl)
      (load_words-store_words (store mem a x) (a + 4) xs)
  where
    ==_self : (n : ℕ) → (n == n) ≡ true
    ==_self n = ground arith

-- Words that two memories share.
abbrev pub Agree : (ℕ → ℕ) → (ℕ → ℕ) → ℕ → ℕ → Type 0
Agree m m' a n = (b : ℕ) → a ≤ b → b < a + 4 * n → m b ≡ m' b

load_words-ext : (m m' : ℕ → ℕ) (a n : ℕ) → Agree m m' a n → load_words m a n ≡ load_words m' a n
load_words-ext m m' a zero h = refl
load_words-ext m m' a (suc n) h =
    ap₂ (λ y l. y ∷ l) (h a (omega arith) (omega arith))
      (load_words-ext m m' (a + 4) n (λ b l r. h b (omega arith) (omega arith)))

Frame-eq :
    (f g : Frame)
    → f.registers ≡ g.registers
    → f.eip ≡ g.eip
    → f.cs ≡ g.cs
    → f.eflags ≡ g.eflags
    → f.user_esp ≡ g.user_esp
    → f.user_ss ≡ g.user_ss
    → f ≡ g
Frame-eq f g p q r s t u = λ i. record {
  registers = p i;
  eip = q i;
  cs = r i;
  eflags = s i;
  user_esp = t i;
  user_ss = u i;
}

pub frame_at-ext : (m m' : ℕ → ℕ) (a : ℕ) → Agree m m' a 18 → frame_at m a ≡ frame_at m' a
unfolding frame_at
frame_at-ext m m' a h =
    Frame-eq (frame_at m a) (frame_at m' a)
      (load_words-ext m m' a 13 (λ b l r. h b l (omega arith)))
      (h (a + 52) (omega arith) (omega arith)) (h (a + 56) (omega arith) (omega arith))
      (h (a + 60) (omega arith) (omega arith)) (h (a + 64) (omega arith) (omega arith))
      (h (a + 68) (omega arith) (omega arith))

store_words-get :
    (mem : ℕ → ℕ) (a i : ℕ) (xs ys : List ℕ) (y : ℕ)
    → length xs ≡ i
    → store_words mem a (xs ++ y ∷ ys) (a + 4 * i) ≡ y
store_words-get mem a i xs ys y h =
    ap (λ m. m (a + 4 * i)) (store_words-append mem a xs (y ∷ ys))
    ∙ ap (λ b. store_words (store_words mem a xs) b (y ∷ ys) (a + 4 * i)) {x = a + 4 * length xs}
        {y = a + 4 * i} (omega (arith, h))
    ∙ ap (λ l. head_of y l) (load_words-store_words (store_words mem a xs) (a + 4 * i) (y ∷ ys))
  where
    head_of : ℕ → List ℕ → ℕ
    head_of d [] = d
    head_of d (x ∷ l) = x

load_prefix :
    (m : ℕ → ℕ) (p n : ℕ) (xs ys : List ℕ)
    → length xs ≡ n
    → load_words (store_words m p (xs ++ ys)) p n ≡ xs
load_prefix m p n xs ys h =
    load_words-ext (store_words m p (xs ++ ys)) (store_words m p xs) p n (λ b l r.
      ap (λ f. f b) (store_words-append m p xs ys)
      ∙ store_words-outside (store_words m p xs) (p + 4 * length xs) b ys
          (inl (omega (arith, h, r))))
    ∙ ap (load_words (store_words m p xs) p) (sym h)
    ∙ load_words-store_words m p xs

-- A frame whose words were stored at `p`, below its stack pointer and stack segment.
pub stored_frame :
    (m : ℕ → ℕ) (p : ℕ) (f : Frame)
    → length f.registers ≡ 13
    → m (p + 64) ≡ f.user_esp
    → m (p + 68) ≡ f.user_ss
    → frame_at (store_words m p (words f)) p ≡ f
unfolding frame_at
stored_frame m p f len esp ss =
    Frame-eq (frame_at (store_words m p (words f)) p) f
      (load_prefix m p 13 f.registers (f.eip ∷ f.cs ∷ f.eflags ∷ []) len)
      (store_words-get m p 13 f.registers (f.cs ∷ f.eflags ∷ []) f.eip len)
      (ap (λ l. store_words m p l (p + 56))
          (sym (append_assoc f.registers (f.eip ∷ []) (f.cs ∷ f.eflags ∷ [])))
        ∙ store_words-get m p 14 (f.registers ++ f.eip ∷ []) (f.eflags ∷ []) f.cs
            (omega (arith, len, length-append f.registers (f.eip ∷ []))))
      (ap (λ l. store_words m p l (p + 60))
          (sym (append_assoc f.registers (f.eip ∷ f.cs ∷ []) (f.eflags ∷ [])))
        ∙ store_words-get m p 15 (f.registers ++ f.eip ∷ f.cs ∷ []) [] f.eflags
            (omega (arith, len, length-append f.registers (f.eip ∷ f.cs ∷ []))))
      (above 64 (omega arith) ∙ esp) (above 68 (omega arith) ∙ ss)
  where
    size : length (words f) ≡ 16
    size = omega (arith, length-append f.registers (f.eip ∷ f.cs ∷ f.eflags ∷ []), len)

    above : (k : ℕ) → 64 ≤ k → store_words m p (words f) (p + k) ≡ m (p + k)
    above k h = store_words-outside m p (p + k) (words f) (inr (omega (arith, size)))
