-- ===== src/Gosfs/Slots.antt =====
-- The slots of a GOSFS directory, as the search of Do_GOSFS_Lookup finds them.
use geekos.Base.{
  ==_ne, Bool-cases, length, get_elem?, set, ℕ, zero, suc, ◌+◌, ◌≤◌, ◌<◌, ◌≡◌, refl, sym, ap, ◌∙◌,
  ◌≢◌, inl, inr, true, false, some, List, [], ◌∷◌, arith,
}
use geekos.Gosfs.{DirEntry, is_free, minus_one_word, direntry_is_directory}
use geekos.Gosfs.Matches.{Named, can_stand, First, Absent, free_slot}
use geekos.Base.Bits.{has}

some_inj : {x y : DirEntry} → some x ≡ some y → x ≡ y
some_inj {x} {y} e = cc

directory_taken : (z : DirEntry) → can_stand z false ≡ true → is_free z ≡ true → ⊥
unfolding is_free
directory_taken z stands free = ground (arith, flag_cases z.flags)
  where
    flag_cases : (f : ℕ) → f ≡ direntry_is_directory → has f direntry_is_directory ≡ true
    flag_cases f e = rw e refl

free_slot-found : (es : List DirEntry) (i f : ℕ) → f ≢ minus_one_word → free_slot es i f ≡ f
free_slot-found [] i f h = refl
free_slot-found (x ∷ xs) i f h = rw (==_ne f minus_one_word h) (free_slot-found xs (i + 1) f h)

slot_here :
    (y : DirEntry) (ys : List DirEntry) (i : ℕ)
    → i < minus_one_word
    → is_free y ≡ true
    → free_slot (y ∷ ys) i minus_one_word ≡ i
slot_here y ys i h free = rw free (free_slot-found ys (i + 1) i (λ e. omega (arith, e, h)))

slot_later :
    (y : DirEntry) (ys : List DirEntry) (i : ℕ)
    → is_free y ≡ false
    → free_slot (y ∷ ys) i minus_one_word ≡ free_slot ys (i + 1) minus_one_word
slot_later y ys i taken = rw taken refl

free_slot-above :
    (es : List DirEntry) (i : ℕ)
    → i + length es < minus_one_word
    → i ≤ free_slot es i minus_one_word
free_slot-above [] i h = omega (arith, h)
free_slot-above (y ∷ ys) i h = elim (Bool-cases (is_free y)) [
  | inl free ↦ omega (arith, slot_here y ys i (omega (arith, h)) free)
  | inr taken ↦
      omega (arith, slot_later y ys i taken, free_slot-above ys (i + 1) (omega (arith, h)))
]

-- The entry at the first free slot, if there is one, is free.
pub free_slot-IsFree :
    (es : List DirEntry) (i j : ℕ) (x : DirEntry)
    → i + length es < minus_one_word
    → free_slot es i minus_one_word ≡ i + j
    → get_elem? es j ≡ some x
    → is_free x ≡ true
free_slot-IsFree [] i j x h e g = cc
free_slot-IsFree (y ∷ ys) i zero x h e g = elim (Bool-cases (is_free y)) [
  | inl free ↦ ap is_free (sym (some_inj g)) ∙ free
  | inr taken ↦
      absurd
        (omega (arith, slot_later y ys i taken, e, free_slot-above ys (i + 1) (omega (arith, h))))
]
free_slot-IsFree (y ∷ ys) i (suc j) x h e g = elim (Bool-cases (is_free y)) [
  | inl free ↦ absurd (omega (arith, slot_here y ys i (omega (arith, h)) free, e))
  | inr taken ↦
      free_slot-IsFree ys (i + 1) j x (omega (arith, h)) (omega (arith, slot_later y ys i taken, e))
        g
]

-- A new file in a free slot hides no directory.
pub First-set :
    (es : List DirEntry) (c : List ℕ) (k j : ℕ) (e x new : DirEntry) (ys : List ℕ)
    → First es c false k e
    → get_elem? es j ≡ some x
    → is_free x ≡ true
    → Named new ys
    → can_stand new false ≡ false
    → First (set es j new) c false k e
First-set [] c k j e x new ys first at_j free named no_dir = first
First-set (z ∷ zs) c zero zero e x new ys (named_z, stands, same) at_j free named no_dir =
    absurd (directory_taken z stands (ap is_free (some_inj at_j) ∙ free))
First-set (z ∷ zs) c zero (suc j) e x new ys first at_j free named no_dir = first
First-set (z ∷ zs) c (suc k) zero e x new ys (skip, first) at_j free named no_dir =
    ((ys, named, inr no_dir), first)
First-set (z ∷ zs) c (suc k) (suc j) e x new ys (skip, first) at_j free named no_dir =
    (skip, First-set zs c k j e x new ys first at_j free named no_dir)

-- In a directory where a component was missing, a new entry for it is the first.
pub Absent-set :
    (es : List DirEntry) (c : List ℕ) (j : ℕ) (x new : DirEntry)
    → Absent es c true
    → get_elem? es j ≡ some x
    → Named new c
    → can_stand new true ≡ true
    → First (set es j new) c true j new
Absent-set [] c j x new absent at_j named stands = cc
Absent-set (z ∷ zs) c zero x new absent at_j named stands = (named, stands, refl)
Absent-set (z ∷ zs) c (suc j) x new (skip, absent) at_j named stands =
    (skip, Absent-set zs c j x new absent at_j named stands)
