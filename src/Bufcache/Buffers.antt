-- ===== src/Bufcache/Buffers.antt =====
-- The list of buffers: search, replacement and removal of a struct by its address.
use geekos.Base.{
  ◌==◌, if◌then◌else◌, ==_iff, ==-self, ==_ne, Bool-cases, length, All, ℕ, suc, ◌≡◌, refl, sym, ap,
  subst, ◌∙◌, ◌≢◌, ◌⊎◌, inl, inr, Bool, true, false, not, Option, none, some, List, [], ◌∷◌, arith,
}
use geekos.Base.Bits.{has}
use geekos.Bufcache.{Buffer, in_use, Scan, hit, miss, scan, put, remove, find}

abbrev pub In : Buffer → List Buffer → Type 0
In b [] = ⊥
In b (x ∷ xs) = (x ≡ b) ⊎ In b xs

-- No two buffers agree in `f`.
abbrev pub Unique : (Buffer → ℕ) → List Buffer → Type 0
Unique f [] = Unit
Unique f (b ∷ bs) = All (λ x. f x ≢ f b) bs × Unique f bs

pub All-In : (P : Buffer → Type 0) (b : Buffer) (bs : List Buffer) → All P bs → In b bs → P b
All-In P b [] h m = elim m [ ]
All-In P b (x ∷ xs) h (inl e) = subst P e h.0
All-In P b (x ∷ xs) h (inr m) = All-In P b xs h.1 m

pub All-map :
    (P Q : Buffer → Type 0) (bs : List Buffer) → ((b : Buffer) → P b → Q b) → All P bs → All Q bs
All-map P Q [] f h = tt
All-map P Q (b ∷ bs) f h = (f b h.0, All-map P Q bs f h.1)

-- A buffer of the list is the only one at its address.
pub Unique-In :
    (b : Buffer) (bs : List Buffer)
    → Unique (λ x. x.addr) bs
    → In b bs
    → All (λ x. x.addr ≡ b.addr → x ≡ b) bs
Unique-In b [] u m = elim m [ ]
Unique-In b (x ∷ xs) u (inl e) = (
  λ h. e,
  All-map (λ y. y.addr ≢ x.addr) (λ y. y.addr ≡ b.addr → y ≡ b) xs
      (λ y ne same. absurd (ne (same ∙ ap (λ (z : Buffer). z.addr) (sym e)))) u.0,
)
Unique-In b (x ∷ xs) u (inr m) =
    (λ same. absurd (All-In (λ y. y.addr ≢ x.addr) b xs u.0 m (sym same)), Unique-In b xs u.1 m)

pub All-put :
    (P : Buffer → Type 0) (buf : Buffer) (bs : List Buffer) → P buf → All P bs → All P (put buf bs)
unfolding put
All-put P buf [] p h = tt
All-put P buf (b ∷ bs) p h = (choose (b.addr == buf.addr), All-put P buf bs p h.1)
  where
    choose : (t : Bool) → P (if t then buf else b)
    choose true = p
    choose false = h.0

pub length-put : (buf : Buffer) (bs : List Buffer) → length (put buf bs) ≡ length bs
unfolding put
length-put buf [] = refl
length-put buf (b ∷ bs) = ap suc (length-put buf bs)

put-same :
    (f : Buffer → ℕ) (P : ℕ → Type 0) (buf : Buffer) (bs : List Buffer)
    → All (λ x. x.addr ≡ buf.addr → f x ≡ f buf) bs
    → All (λ x. P (f x)) bs
    → All (λ x. P (f x)) (put buf bs)
unfolding put
put-same f P buf [] keeps h = tt
put-same f P buf (b ∷ bs) keeps h = elim (Bool-cases (b.addr == buf.addr)) [
  | inl e ↦
      rw e (subst P (keeps.0 ((==_iff b.addr buf.addr).0 e)) h.0, put-same f P buf bs keeps.1 h.1)
  | inr n ↦ rw n (h.0, put-same f P buf bs keeps.1 h.1)
]

-- Replacing a struct by one that agrees in `f` keeps `f` unique.
pub Unique-put :
    (f : Buffer → ℕ) (buf : Buffer) (bs : List Buffer)
    → All (λ x. x.addr ≡ buf.addr → f x ≡ f buf) bs
    → Unique f bs
    → Unique f (put buf bs)
unfolding put
Unique-put f buf [] keeps u = tt
Unique-put f buf (b ∷ bs) keeps u = elim (Bool-cases (b.addr == buf.addr)) [
  | inl e ↦ rw e (
    put-same f (λ n. n ≢ f buf) buf bs keeps.1
        (subst (λ n. All (λ x. f x ≢ n) bs) (keeps.0 ((==_iff b.addr buf.addr).0 e)) u.0),
    Unique-put f buf bs keeps.1 u.1,
  )
  | inr n ↦ rw n (put-same f (λ n. n ≢ f b) buf bs keeps.1 u.0, Unique-put f buf bs keeps.1 u.1)
]

pub All-remove : (P : Buffer → Type 0) (a : ℕ) (bs : List Buffer) → All P bs → All P (remove a bs)
unfolding remove
All-remove P a [] h = tt
All-remove P a (b ∷ bs) h = elim (Bool-cases (b.addr == a)) [
  | inl e ↦ rw e h.1
  | inr n ↦ rw n (h.0, All-remove P a bs h.1)
]

pub Unique-remove :
    (f : Buffer → ℕ) (a : ℕ) (bs : List Buffer) → Unique f bs → Unique f (remove a bs)
unfolding remove
Unique-remove f a [] u = tt
Unique-remove f a (b ∷ bs) u = elim (Bool-cases (b.addr == a)) [
  | inl e ↦ rw e u.1
  | inr n ↦ rw n (All-remove (λ x. f x ≢ f b) a bs u.0, Unique-remove f a bs u.1)
]

pub length-remove :
    (b : Buffer) (bs : List Buffer)
    → Unique (λ x. x.addr) bs
    → In b bs
    → suc (length (remove b.addr bs)) ≡ length bs
unfolding remove
length-remove b [] u m = elim m [ ]
length-remove b (x ∷ xs) u (inl e) = ground (arith, ap (λ (z : Buffer). z.addr) e)
length-remove b (x ∷ xs) u (inr m) =
    rw (==_ne x.addr b.addr (λ e. All-In (λ y. y.addr ≢ x.addr) b xs u.0 m (sym e)))
      (ap suc (length-remove b xs u.1 m))

-- What is left differs from the removed buffer wherever the list was unique.
pub remove-differs :
    (f : Buffer → ℕ) (b : Buffer) (bs : List Buffer)
    → Unique f bs
    → Unique (λ x. x.addr) bs
    → In b bs
    → All (λ x. f x ≢ f b) (remove b.addr bs)
unfolding remove
remove-differs f b [] u v m = elim m [ ]
remove-differs f b (x ∷ xs) u v (inl e) =
    rw (ap (λ (z : Buffer). z.addr) e, ==-self b.addr)
      (subst (λ (z : Buffer). All (λ y. f y ≢ f z) xs) e u.0)
remove-differs f b (x ∷ xs) u v (inr m) =
    rw (==_ne x.addr b.addr (λ e. All-In (λ y. y.addr ≢ x.addr) b xs v.0 m (sym e)))
      (λ e. All-In (λ y. f y ≢ f x) b xs u.0 m (sym e), remove-differs f b xs u.1 v.1 m)

-- What the search of Get_Buffer may find in `bs`, given the candidate `lru` from before.
abbrev pub ScanOf : List Buffer → ℕ → Option Buffer → Scan → Type 0
ScanOf bs n lru (hit b) = In b bs × (b.block_num ≡ n)
ScanOf bs n lru (miss none) = All (λ x. x.block_num ≢ n) bs × (lru ≡ none)
ScanOf bs n lru (miss (some b)) =
    All (λ x. x.block_num ≢ n) bs × ((In b bs × (has b.flags in_use ≡ false)) ⊎ (lru ≡ some b))

scan-step :
    (x : Buffer) (bs : List Buffer) (n : ℕ) (lru : Option Buffer) (r : Scan)
    → x.block_num ≢ n
    → ScanOf bs n (if not (has x.flags in_use) then some x else lru) r
    → ScanOf (x ∷ bs) n lru r
scan-step x bs n lru (hit b) ne h = (inr h.0, h.1)
scan-step x bs n lru (miss none) ne h = ((ne, h.0), none_before (has x.flags in_use) h.1)
  where
    none_before : (t : Bool) → (if not t then some x else lru) ≡ none → lru ≡ none
    none_before true e = e
    none_before false e = cc
scan-step x bs n lru (miss (some b)) ne (h, inl m) = ((ne, h), inl (inr m.0, m.1))
scan-step x bs n lru (miss (some b)) ne (h, inr e) = ((ne, h), this (has x.flags in_use) refl e)
  where
    this :
        (t : Bool)
        → has x.flags in_use ≡ t
        → (if not t then some x else lru) ≡ some b
        → (In b (x ∷ bs) × (has b.flags in_use ≡ false)) ⊎ (lru ≡ some b)
    this true free e' = inr e'
    this false free e' =
        let same : x ≡ b = cc in
        inl (inl same, ap (λ (z : Buffer). has z.flags in_use) (sym same) ∙ free)

pub scan-ScanOf : (bs : List Buffer) (n : ℕ) (lru : Option Buffer) → ScanOf bs n lru (scan bs n lru)
unfolding scan
scan-ScanOf [] n none = (tt, refl)
scan-ScanOf [] n (some b) = (tt, inr refl)
scan-ScanOf (x ∷ bs) n lru = elim (Bool-cases (x.block_num == n)) [
  | inl e ↦ rw e (inl refl, (==_iff x.block_num n).0 e)
  | inr ne ↦ rw ne (
      scan-step x bs n lru (scan bs n (if not (has x.flags in_use) then some x else lru))
        (ground arith) (scan-ScanOf bs n (if not (has x.flags in_use) then some x else lru)))
]

pub find-In : (a : ℕ) (bs : List Buffer) (b : Buffer) → find a bs ≡ some b → In b bs × (b.addr ≡ a)
unfolding find
find-In a [] b e = cc
find-In a (x ∷ xs) b e = elim (Bool-cases (x.addr == a)) [
  | inl h ↦
      let found : some x ≡ some b = ap (λ t. if t then some x else find a xs) (sym h) ∙ e in
      let same : x ≡ b = cc found in
      (inl same, ap (λ (z : Buffer). z.addr) (sym same) ∙ (==_iff x.addr a).0 h)
  | inr h ↦
      let (m, k) = find-In a xs b (ap (λ t. if t then some x else find a xs) (sym h) ∙ e) in
      (inr m, k)
]
