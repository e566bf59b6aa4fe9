-- ===== src/Gosfs/Matches.antt =====
-- src/geekos/gosfs.c: the search of Do_GOSFS_Lookup through the entries of a directory.
use geekos.Base.{
  ◌==◌, if◌then◌else◌, ==_iff, ℕ, zero, suc, ◌+◌, ◌≡◌, refl, ap, ◌≢◌, ◌↔◌, ◌⊎◌, Bool, true, false,
  ◌&&◌, ◌||◌, List, [], ◌∷◌, ◌++◌, arith,
}
use geekos.CString.Compare.{NonZero, strcmp-zero_iff}
use geekos.Gosfs.{
  DirEntry, hit, missing, equal, is_match, find_entry, direntry_used, direntry_is_directory,
  minus_one_word, is_free,
}
use geekos.Base.Reasons.{done}

-- The name of an entry is a string.
abbrev pub Named : DirEntry → List ℕ → Type 0
Named e xs = NonZero xs × (r : List ℕ) × (e.filename ≡ xs ++ 0 ∷ r)

-- Flags with which an entry may stand for a component, the last one or not.
abbrev pub can_stand : DirEntry → Bool → Bool
can_stand e last = ((e.flags == direntry_used) && last) || (e.flags == direntry_is_directory)

-- The first entry for the component `c` is `e`, at the index `k`.
abbrev pub First : List DirEntry → List ℕ → Bool → ℕ → DirEntry → Type 0
First [] c last k e = ⊥
First (x ∷ xs) c last zero e = Named x c × (can_stand x last ≡ true) × (x ≡ e)
First (x ∷ xs) c last (suc k) e =
    ((ys : List ℕ) × Named x ys × ((ys ≢ c) ⊎ (can_stand x last ≡ false))) × First xs c last k e

-- No entry is one for the component `c`.
abbrev pub Absent : List DirEntry → List ℕ → Bool → Type 0
Absent [] c last = Unit
Absent (x ∷ xs) c last =
    ((ys : List ℕ) × Named x ys × ((ys ≢ c) ⊎ (can_stand x last ≡ false))) × Absent xs c last

equal_lem :
    (x : DirEntry) (ys c q : List ℕ)
    → Named x ys
    → NonZero c
    → (b : Bool) × (equal x.filename (c ++ 0 ∷ q) ≡ done b) × ((b ≡ true) ↔ (ys ≡ c))
equal_lem x ys c q (h, r, e) k =
    let (n, f, z) = strcmp-zero_iff ys c r q h k in
    (n == 0, rw (e, f) refl, (λ t. z.0 ((==_iff n 0).0 t), λ s. (==_iff n 0).1 (z.1 s)))

skipped :
    (x : DirEntry) (ys c q : List ℕ) (last : Bool)
    → Named x ys
    → NonZero c
    → (ys ≢ c) ⊎ (can_stand x last ≡ false)
    → (b : Bool) × (equal x.filename (c ++ 0 ∷ q) ≡ done b) × (is_match x b last ≡ false)
unfolding is_match
skipped x ys c q last named k reason =
    let (b, f, z) = equal_lem x ys c q named k in (b, f, ground arith)

abbrev pub next_free : DirEntry → ℕ → ℕ → ℕ
next_free x i f = if (f == minus_one_word) && is_free x then i else f

-- The search ends at the first entry for the component.
pub find_entry-First :
    (es : List DirEntry) (c q : List ℕ) (last : Bool) (k : ℕ) (e : DirEntry) (i f : ℕ)
    → NonZero c
    → First es c last k e
    → find_entry es (c ++ 0 ∷ q) last i f ≡ done (hit (i + k) e)
unfolding find_entry is_match
find_entry-First [] c q last k e i f h first = elim first [ ]
find_entry-First (x ∷ xs) c q last zero e i f h (named, stands, same) =
    let (b, g, z) = equal_lem x c c q named h in
    rw (g, z.1 refl, stands, same) (ap (λ j. done (hit j e)) {x = i} {y = i + 0} (omega arith))
find_entry-First (x ∷ xs) c q last (suc k) e i f h ((ys, named, reason), rest) =
    let (b, g, no_match) = skipped x ys c q last named h reason in
    rw (g, no_match, find_entry-First xs c q last k e (i + 1) (next_free x i f) h rest)
      (ap (λ j. done (hit j e)) {x = i + 1 + k} {y = i + suc k} (omega arith))

-- The first free slot from the index `i` on.
abbrev pub free_slot : List DirEntry → ℕ → ℕ → ℕ
free_slot [] i f = f
free_slot (x ∷ xs) i f = free_slot xs (i + 1) (next_free x i f)

pub find_entry-Absent :
    (es : List DirEntry) (c q : List ℕ) (last : Bool) (i f : ℕ)
    → NonZero c
    → Absent es c last
    → find_entry es (c ++ 0 ∷ q) last i f ≡ done (missing (free_slot es i f))
unfolding find_entry is_match
find_entry-Absent [] c q last i f h absent = refl
find_entry-Absent (x ∷ xs) c q last i f h ((ys, named, reason), rest) =
    let (b, g, no_match) = skipped x ys c q last named h reason in
    rw (g, no_match) (find_entry-Absent xs c q last (i + 1) (next_free x i f) h rest)
