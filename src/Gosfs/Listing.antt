-- ===== src/Gosfs/Listing.antt =====
-- src/geekos/gosfs.c: what a sequence of calls of GOSFS_Read_Entry lists.
use geekos.Base.{
  leb, ◌==◌, ==_iff, Bool-cases, Option-cases, All, length, set, drop, length-drop, ℕ, zero, suc,
  ◌+◌, ◌*◌, ◌≤◌, ◌<◌, ◌≡◌, refl, sym, ap, ap₂, subst, ◌∙◌, ◌⊎◌, inl, inr, true, false, Option, none,
  some, List, [], ◌∷◌, ◌++◌, arith,
}
use geekos.Base.Bits.{test_bit, has-pow}
use geekos.CString.{strncpy}
use geekos.CString.Memory.{memcpy}
use geekos.Gosfs.{DirEntry, Instance, Env, first_block}
use geekos.Gosfs.Files.{File, copy_stat, entry_of}
use geekos.Gosfs.Entries.{
  EntryRead, no_more, entry, is_listed, entry_size, next_entry, give_entry, gosfs_read_entry,
}
use geekos.Base.Reasons.{Run, done, ◌>>=◌, in_bounds}
use geekos.Gosfs.NextEntry.{first_listed, Stops, next_entry-Stops}
use geekos.Gosfs.Releases.{held_release}
use geekos.Gosfs.Walk.{Ready, take_buffer-gives}

-- What a call gives for the entry that comes next, in the terms of the code.
abbrev Lists :
    List ℕ
    → List ℕ
    → Option (ℕ × DirEntry)
    → File
    → Run (EntryRead × File × Instance)
    → Instance
    → Type 0
Lists name acls none dir m inst =
    (pos : ℕ) × (m ≡ done (no_more, record dir { file_pos = pos }, inst)) × (4096 ≤ pos)
Lists name acls (some (j, e)) dir m inst = m ≡ (
    in_bounds (strncpy name e.filename 128) >>= λ copy. done (
      entry (set copy 128 0) (copy_stat e acls),
      record dir { file_pos = (j + 1) * entry_size },
      inst,
    ))

drop-append_le :
    (i : ℕ) (xs ys : List DirEntry) → i ≤ length xs → drop i (xs ++ ys) ≡ drop i xs ++ ys
drop-append_le zero xs ys h = refl
drop-append_le (suc i) [] ys h = absurd (omega (arith, h))
drop-append_le (suc i) (x ∷ xs) ys h = drop-append_le i xs ys (omega (arith, h))

first_listed-below :
    (es : List DirEntry) (i j : ℕ) (e : DirEntry)
    → first_listed es i ≡ some (j, e)
    → j < i + length es
first_listed-below [] i j e h = absurd cc
first_listed-below (x ∷ es) i j e h = elim (Bool-cases (is_listed x)) [
  | inl listed ↦ omega (arith, index_of (i, x) (j, e) (rw listed at h))
  | inr skip ↦ omega (arith, first_listed-below es (i + 1) j e (rw skip at h))
]
  where
    index_of : (p q : ℕ × DirEntry) → some p ≡ some q → p.0 ≡ q.0
    index_of p q same = cc

-- The end of a call, from what the loop ends with.
abbrev finish_read :
    File → List ℕ → List ℕ → Instance → DirEntry × ℕ → Run (EntryRead × File × Instance)
finish_read dir name acls inst r = give_entry dir name acls r >>= λ g. done (g.0, g.1, inst)

finish_read-Lists :
    (dir : File) (name acls : List ℕ) (inst : Instance) (r : DirEntry × ℕ)
    (o : Option (ℕ × DirEntry))
    → dir.end_pos ≡ 4096
    → ((j : ℕ) (e : DirEntry) → o ≡ some (j, e) → j < 18)
    → Stops o r
    → Lists name acls o dir (finish_read dir name acls inst r) inst
unfolding give_entry
finish_read-Lists dir name acls inst r none end_pos below far =
    let past : leb dir.end_pos r.1 ≡ true = ground (arith, end_pos, far) in (r.1, rw past refl, far)
finish_read-Lists dir name acls inst r (some (j, e)) end_pos below (same, at_pos) =
    let inside : leb dir.end_pos r.1 ≡ false = ground (arith, end_pos, at_pos, below j e refl) in
    elim (Option-cases (strncpy name e.filename 128)) [
      | inl out ↦ rw (inside, same, out) refl
      | inr (copy, copied) ↦ rw (inside, same, copied, at_pos) refl
    ]

read_entry-first :
    (fuel : ℕ) (env : Env) (inst : Instance) (slack d : DirEntry) (dir : File) (name acls : List ℕ)
    (i : ℕ)
    → entry_of env inst dir.gosfs_file ≡ done (d, inst)
    → Ready env inst (first_block d)
    → length (inst.blocks (first_block d)) ≡ 18
    → i ≤ 18
    → dir.file_pos ≡ i * entry_size
    → dir.end_pos ≡ 4096
    → 20 ≤ fuel
    → Lists name acls
        (first_listed (drop i (inst.blocks (first_block d))) i)
        dir
        (gosfs_read_entry fuel env inst slack dir name acls)
        inst
unfolding gosfs_read_entry
read_entry-first fuel env inst slack d dir name acls i at_dir ready len small pos end_pos enough =
    let es = inst.blocks (first_block d) in
    let long = length-drop i es in
    let (r, e, stops) =
      next_entry-Stops (drop i es) (es ++ slack ∷ []) slack d i fuel
        (drop-append_le i es (slack ∷ []) (omega (arith, len, small)))
        (omega (arith, long, len, small)) (omega (arith, long, len, enough)) in
    let found : next_entry fuel (es ++ slack ∷ []) d dir.file_pos dir.end_pos ≡ done r =
      ap₂ (λ a b. next_entry fuel (es ++ slack ∷ []) d a b) pos end_pos ∙ e in
    let run : gosfs_read_entry fuel env inst slack dir name acls
        ≡ finish_read dir name acls inst r =
      rw
        (
          at_dir,
          take_buffer-gives env inst (first_block d) ready,
          found,
          held_release inst (first_block d),
        )
        refl in
    subst (λ m. Lists name acls (first_listed (drop i es) i) dir m inst) (sym run)
      (finish_read-Lists dir name acls inst r (first_listed (drop i es) i) end_pos
        (λ j x h. omega (arith, first_listed-below (drop i es) i j x h, long, len, small)) stops)

-- The flags of the entry are those of a file, of a directory or of a setuid file, alone: 1, 2 or 4.
abbrev pub HasOneFlag : DirEntry → Type 0
HasOneFlag e = (e.flags ≡ 1) ⊎ ((e.flags ≡ 2) ⊎ (e.flags ≡ 4))

-- The entries of which a call looks for the first with one flag, and the position of the first of them.
-- Either none has one flag, and the call reports the end of the directory; or it gives the first that
-- has, by its name, as strncpy copies it into the caller's array with a nul behind the 128 bytes, its size,
-- whether it is a directory, and what memcpy leaves in the list of permissions; and the position is
-- behind it.
abbrev pub Gives :
    List DirEntry
    → ℕ
    → List ℕ
    → List ℕ
    → File
    → Run (EntryRead × File × Instance)
    → Instance
    → Type 0
Gives rest i name acls dir m inst =
    (All (λ x. ¬ HasOneFlag x) rest
      × ((pos : ℕ) × (m ≡ done (no_more, record dir { file_pos = pos }, inst)) × (4096 ≤ pos)))
    ⊎ ((before : List DirEntry) × (e : DirEntry) × (after : List DirEntry) × (rest
          ≡ before ++ e ∷ after)
        × All (λ x. ¬ HasOneFlag x) before
        × HasOneFlag e
        × (m ≡ (
            in_bounds (strncpy name e.filename 128) >>= λ copy. done (
              entry (set copy 128 0) (record {
                size = e.size;
                is_directory = test_bit e.flags 1;
                is_setuid = false;
                acls = memcpy acls e.acl 10;
              }),
              record dir { file_pos = (i + length before + 1) * 216 },
              inst,
            ))))

is_listed-cases :
    (e : DirEntry)
    → (HasOneFlag e × (is_listed e ≡ true)) ⊎ ((¬ HasOneFlag e) × (is_listed e ≡ false))
unfolding is_listed
is_listed-cases e = elim (Bool-cases (e.flags == 1)) [
  | inl one ↦ inl (inl ((==_iff e.flags 1).0 one), rw one refl)
  | inr a ↦ elim (Bool-cases (e.flags == 2)) [
    | inl two ↦ inl (inr (inl ((==_iff e.flags 2).0 two)), rw (a, two) refl)
    | inr b ↦ elim (Bool-cases (e.flags == 4)) [
      | inl four ↦ inl (inr (inr ((==_iff e.flags 4).0 four)), rw (a, b, four) refl)
      | inr c ↦ inr (λ h. ground (arith, a, b, c), rw (a, b, c) refl)
    ]
  ]
]

-- The first entry with one flag, and how the code finds it.
first_listed-splits :
    (rest : List DirEntry) (i : ℕ)
    → (All (λ x. ¬ HasOneFlag x) rest × (first_listed rest i ≡ none))
      ⊎ ((before : List DirEntry) × (e : DirEntry) × (after : List DirEntry) × (rest
            ≡ before ++ e ∷ after)
          × All (λ x. ¬ HasOneFlag x) before
          × HasOneFlag e
          × (first_listed rest i ≡ some (i + length before, e)))
first_listed-splits [] i = inl (tt, refl)
first_listed-splits (x ∷ rest) i = elim (is_listed-cases x) [
  | inl (h, listed) ↦ inr (
    [],
    x,
    rest,
    refl,
    tt,
    h,
    rw listed (ap (λ j. some (j, x)) {x = i} {y = i + 0} (omega arith)),
  )
  | inr (h, skip) ↦ elim (first_listed-splits rest (i + 1)) [
    | inl (all, e) ↦ inl ((h, all), rw skip e)
    | inr (before, e, after, split, all, one, found) ↦ inr (
      x ∷ before,
      e,
      after,
      ap (λ l. x ∷ l) split,
      (h, all),
      one,
      rw skip (
          found
          ∙ ap (λ j. some (j, e)) {x = i + 1 + length before} {y = i + suc (length before)}
              (omega arith)),
    )
  ]
]

copy_stat_lem :
    (e : DirEntry) (acls : List ℕ)
    → copy_stat e acls ≡ record {
      size = e.size;
      is_directory = test_bit e.flags 1;
      is_setuid = false;
      acls = memcpy acls e.acl 10;
    }
unfolding copy_stat
copy_stat_lem e acls =
    ap
      (λ b. record {
        size = e.size;
        is_directory = b;
        is_setuid = false;
        acls = memcpy acls e.acl 10;
      })
      (has-pow 1 e.flags)

-- GOSFS_Read_Entry at the position of the entry `i` of a directory gives the first entry from there on
-- whose flags are 1, 2 or 4 (an entry that has two of these flags is skipped): its name, its size, whether
-- it is a directory, and the list of permissions as the copy of 10 bytes leaves it; the position moves
-- behind that entry. Where there is no such entry it reports the end, with the position behind the block.
-- No buffer is kept, and nothing of the instance changes. For a directory of 18 entries whose block and
-- whose own entry's block can be had.
pub gosfs_read_entry-Gives :
    (fuel : ℕ) (env : Env) (inst : Instance) (slack d : DirEntry) (dir : File) (name acls : List ℕ)
    (i : ℕ)
    → entry_of env inst dir.gosfs_file ≡ done (d, inst)
    → Ready env inst (first_block d)
    → length (inst.blocks (first_block d)) ≡ 18
    → i ≤ 18
    → dir.file_pos ≡ i * 216
    → dir.end_pos ≡ 4096
    → 20 ≤ fuel
    → Gives
        (drop i (inst.blocks (first_block d)))
        i
        name
        acls
        dir
        (gosfs_read_entry fuel env inst slack dir name acls)
        inst
gosfs_read_entry-Gives fuel env inst slack d dir name acls i at_dir ready len small pos end_pos
      enough =
    let es = drop i (inst.blocks (first_block d)) in
    let m = gosfs_read_entry fuel env inst slack dir name acls in
    let run =
      read_entry-first fuel env inst slack d dir name acls i at_dir ready len small pos end_pos
        enough in
    elim (first_listed-splits es i) [
      | inl (all, e) ↦ inl (all, subst (λ o. Lists name acls o dir m inst) e run)
      | inr (before, e, after, split, all, one, found) ↦ inr (
        before,
        e,
        after,
        split,
        all,
        one,
        subst
            (λ st. m ≡ (
              in_bounds (strncpy name e.filename 128) >>= λ copy. done (
                entry (set copy 128 0) st,
                record dir { file_pos = (i + length before + 1) * entry_size },
                inst,
              )))
            (copy_stat_lem e acls) (subst (λ o. Lists name acls o dir m inst) found run),
      )
    ]
