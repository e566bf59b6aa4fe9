-- ===== src/Gosfs/Misses.antt =====
-- src/geekos/gosfs.c: Do_GOSFS_Lookup on a path whose last component does not exist.
use geekos.Errno.{Rc, eunspecified}
use geekos.Base.{
  ==_ne, length, drop, All, ℕ, zero, suc, ◌≤◌, ◌<◌, ◌≡◌, refl, sym, ◌∙◌, ◌≢◌, true, false, List, [],
  ◌∷◌, ◌++◌, arith,
}
use geekos.CString.Copy.{strcpy_lem}
use geekos.Gosfs.{
  DirEntry, DirEntryPtr, PathInfo, Instance, Env, finished, prev_dir, visit_missing, visit,
  lookup_round, lookup_loop, do_gosfs_lookup, first_block, equal, minus_one_word, slash,
}
use geekos.Base.Reasons.{Run, done}
use geekos.Gosfs.Releases.{held_release}
use geekos.Gosfs.Matches.{First, Absent, free_slot, find_entry-Absent}
use geekos.Gosfs.Walk.{
  Ready, IsName, path_of, take_buffer-gives, not_slash, unpack_first, slash_last, reached,
  round-hit, length-copied,
}

-- All components but the last lead to a directory, in block `ptr.base`, where no entry matches the last;
-- the offset is the first free slot there.
abbrev pub Misses : Env → Instance → ℕ → List (List ℕ) → DirEntryPtr → Type 0
Misses env inst base [] ptr = ⊥
Misses env inst base (c ∷ []) ptr =
    Ready env inst base
    × Absent (inst.blocks base) c true
    × (ptr ≡ record { base = base; offset = free_slot (inst.blocks base) 0 minus_one_word })
Misses env inst base (c ∷ d ∷ cs) ptr =
    (k : ℕ) × (e : DirEntry) × Ready env inst base
    × First (inst.blocks base) c false k e
    × (k ≢ prev_dir)
    × Misses env inst (first_block e) (d ∷ cs) ptr

abbrev pub last_of : List ℕ → List (List ℕ) → List ℕ
last_of c [] = c
last_of c (d ∷ cs) = last_of d cs

round-missing :
    (env : Env) (inst : Instance) (base : ℕ) (c q : List ℕ) (info : PathInfo)
    → IsName c
    → Ready env inst base
    → Absent (inst.blocks base) c true
    → length c < length info.suffix
    → lookup_round env inst (c ++ 0 ∷ q) slash base info
      ≡ done (
        finished eunspecified (
            reached info c q
              (record { base = base; offset = free_slot (inst.blocks base) 0 minus_one_word })),
        inst,
      )
unfolding lookup_round visit visit_missing
round-missing env inst base c q info h ready absent room =
    rw
      (
        ==_ne base 0 ready.0,
        take_buffer-gives env inst base ready,
        slash_last [] tt,
        find_entry-Absent (inst.blocks base) c q true 0 minus_one_word h.0.0 absent,
        strcpy_lem c q info.suffix h.0.0 room,
        held_release inst base,
      )
      refl

-- The result of a lookup that misses the last component.
abbrev pub Missed : Instance → List ℕ → DirEntryPtr → Run (Rc × PathInfo × Instance) → Type 0
Missed inst name ptr m =
    (info : PathInfo) × (r : List ℕ) × (m ≡ done (eunspecified, info, inst))
    × (info.dir_entry_ptr ≡ ptr)
    × (info.suffix ≡ name ++ 0 ∷ r)

lookup_loop-Misses :
    (cs : List (List ℕ)) (c : List ℕ) (fuel : ℕ) (env : Env) (inst : Instance)
    (prefix suffix : List ℕ) (base : ℕ) (info : PathInfo) (ptr : DirEntryPtr)
    → All IsName (c ∷ cs)
    → length cs < fuel
    → length prefix ≡ 17
    → 17 ≤ length info.suffix
    → equal suffix slash ≡ done false
    → Misses env inst base (c ∷ cs) ptr
    → Missed inst
        (last_of c cs)
        ptr
        (lookup_loop fuel env inst (path_of (c ∷ cs)) prefix suffix base info)
unfolding lookup_loop
lookup_loop-Misses cs c zero env inst prefix suffix base info ptr h enough room space start misses =
    absurd (omega (arith, enough))
lookup_loop-Misses [] c (suc fuel) env inst prefix suffix base info ptr h enough room space start
      (ready, absent, at_ptr) =
    (
      reached info c (drop (suc (length c)) prefix)
          (record { base = base; offset = free_slot (inst.blocks base) 0 minus_one_word }),
      drop (suc (length c)) info.suffix,
      rw
          (
            start,
            unpack_first c [] prefix h.0 room,
            round-missing env inst base c (drop (suc (length c)) prefix) info h.0 ready absent
                (omega (arith, h.0.2, space)),
          )
          refl,
      sym at_ptr,
      refl,
    )
lookup_loop-Misses (d ∷ cs) c (suc fuel) env inst prefix suffix base info ptr h enough room space
      start (k, e, ready, first, k_ne, more) =
    let p = c ++ 0 ∷ drop (suc (length c)) prefix in
    let info₁ =
      reached info c (drop (suc (length c)) prefix) (record { base = base; offset = k }) in
    rw
      (
        start,
        unpack_first c (d ∷ cs) prefix h.0 room,
        round-hit env inst base c (drop (suc (length c)) prefix) (d ∷ cs) k e info h ready first
            k_ne (omega (arith, h.0.2, space)),
      )
      (lookup_loop-Misses cs d fuel env inst p (path_of (d ∷ cs)) (first_block e) info₁ ptr h.1
        (omega arith) (length-copied c prefix (omega (arith, h.0.2, room)) ∙ room)
        (omega (arith, h.0.2, space, length-copied c info.suffix)) (slash_last (d ∷ cs) h.1) more)

-- Where only the last component of a path is missing, Do_GOSFS_Lookup returns EUNSPECIFIED with the
-- directory, its first free slot and the missing name, and leaves the instance as it was. Under the
-- same conditions.
pub do_gosfs_lookup-Misses :
    (c : List ℕ) (cs : List (List ℕ)) (fuel : ℕ) (env : Env) (inst : Instance) (info : PathInfo)
    (ptr : DirEntryPtr)
    → All IsName (c ∷ cs)
    → length cs < fuel
    → length env.prefix ≡ 17
    → 17 ≤ length info.suffix
    → equal env.address_zero slash ≡ done false
    → Misses env inst inst.root_directory_pointer (c ∷ cs) ptr
    → Missed inst (last_of c cs) ptr (do_gosfs_lookup fuel env inst (path_of (c ∷ cs)) info)
unfolding do_gosfs_lookup
do_gosfs_lookup-Misses c cs fuel env inst info ptr h enough room space start misses =
    rw (not_slash c (path_of cs) h.0) (
      lookup_loop-Misses cs c fuel env inst env.prefix env.address_zero inst.root_directory_pointer
        info ptr h enough room space start misses)
