-- ===== src/Gosfs/NextEntry.antt =====
-- src/geekos/gosfs.c: the loop of GOSFS_Read_Entry.
use geekos.Base.{
  ltb, if◌then◌else◌, lt→ltb, Bool-cases, length, get_elem?, drop, ℕ, zero, suc, ◌+◌, ◌*◌, ◌/◌, ◌%◌,
  ◌^◌, ◌≤◌, ◌<◌, ◌≡◌, refl, ap, ◌∙◌, inl, inr, true, false, Option, none, some, List, [], ◌∷◌, ◌++◌,
  arith,
}
use geekos.Gosfs.{DirEntry}
use geekos.Gosfs.Entries.{is_listed, entry_size, next_entry}
use geekos.Base.Reasons.{done}

-- The first entry that is listed, with its index.
abbrev pub first_listed : List DirEntry → ℕ → Option (ℕ × DirEntry)
first_listed [] i = none
first_listed (e ∷ es) i = if is_listed e then some (i, e) else first_listed es (i + 1)

-- What the loop ends with: that entry and the position behind it, or a position behind the block.
abbrev pub Stops : Option (ℕ × DirEntry) → DirEntry × ℕ → Type 0
Stops none r = 4096 ≤ r.1
Stops (some (j, e)) r = (r.0 ≡ e) × (r.1 ≡ (j + 1) * entry_size)

drop-cons :
    (l : List DirEntry) (i : ℕ) (x : DirEntry) (m : List DirEntry)
    → drop i l ≡ x ∷ m
    → (get_elem? l i ≡ some x) × (drop (suc i) l ≡ m)
drop-cons [] zero x m h = absurd cc
drop-cons [] (suc i) x m h = absurd cc
drop-cons (y ∷ l) zero x m h = (cc, cc)
drop-cons (y ∷ l) (suc i) x m h = drop-cons l i x m h

next_step :
    (all : List DirEntry) (d e : DirEntry) (i fuel : ℕ)
    → i < 19
    → get_elem? all i ≡ some e
    → next_entry (suc fuel) all d (i * entry_size) 4096 ≡ (
        if is_listed e
        then done (e, (i + 1) * entry_size)
        else next_entry fuel all e ((i + 1) * entry_size) 4096)
unfolding next_entry
next_step all d e i fuel small at_i =
    let inside : ltb (i * entry_size) 4096 ≡ true =
      lt→ltb (i * entry_size) 4096 (omega (arith, small)) in
    let index : i * entry_size / entry_size ≡ i = omega arith in
    let after : (i * entry_size + entry_size) % 2 ^ 32 ≡ (i + 1) * entry_size =
      omega (arith, small) in
    rw (inside, index, at_i, after) refl

next_stop :
    (all : List DirEntry) (d : DirEntry) (pos fuel : ℕ)
    → 4096 ≤ pos
    → next_entry (suc fuel) all d pos 4096 ≡ done (d, pos)
unfolding next_entry
next_stop all d pos fuel h = let past : ltb pos 4096 ≡ false = ground (arith, h) in rw past refl

pub next_entry-Stops :
    (rest all : List DirEntry) (slack d : DirEntry) (i fuel : ℕ)
    → drop i all ≡ rest ++ slack ∷ []
    → i + length rest ≡ 18
    → length rest + 1 < fuel
    → (r : DirEntry × ℕ) × (next_entry fuel all d (i * entry_size) 4096 ≡ done r)
      × Stops (first_listed rest i) r
next_entry-Stops rest all slack d i zero at_i len enough = absurd (omega (arith, enough))
next_entry-Stops rest all slack d i (suc zero) at_i len enough = absurd (omega (arith, enough))
next_entry-Stops [] all slack d i (suc (suc fuel)) at_i len enough =
    let step =
      next_step all d slack i (suc fuel) (omega (arith, len)) (drop-cons all i slack [] at_i).0 in
    let far : 4096 ≤ (i + 1) * entry_size = omega (arith, len) in
    elim (Bool-cases (is_listed slack)) [
      | inl listed ↦ ((slack, (i + 1) * entry_size), step ∙ rw listed refl, far)
      | inr skip ↦ (
        (slack, (i + 1) * entry_size),
        step ∙ rw skip (next_stop all slack ((i + 1) * entry_size) fuel far),
        far,
      )
    ]
next_entry-Stops (x ∷ rest) all slack d i (suc (suc fuel)) at_i len enough =
    let (here, after) = drop-cons all i x (rest ++ slack ∷ []) at_i in
    let step = next_step all d x i (suc fuel) (omega (arith, len)) here in
    elim (Bool-cases (is_listed x)) [
      | inl listed ↦ ((x, (i + 1) * entry_size), step ∙ rw listed refl, rw listed (refl, refl))
      | inr skip ↦
          let (r, e, stops) =
            next_entry-Stops rest all slack x (i + 1) (suc fuel)
              (ap (λ n. drop n all) {x = i + 1} {y = suc i} (omega arith) ∙ after)
              (omega (arith, len)) (omega (arith, enough)) in
          (r, step ∙ rw skip e, rw skip stops)
    ]
