-- ===== src/Gosfs/Delete.antt =====
-- src/geekos/gosfs.c: GOSFS_Delete on files and on directories that are not empty.
use geekos.Base.{
  ◌==◌, ==_iff, ==-self, ==_ne, Bool-cases, Option-cases, length, get_elem?, set, All, ℕ, zero, suc,
  ◌+◌, ◌≤◌, ◌<◌, ◌≡◌, refl, sym, ap, ◌∙◌, ◌≢◌, inl, inr, true, false, none, some, List, [], ◌∷◌,
  arith,
}
use geekos.Base.Bits.{has}
use geekos.Bitset.{clear_bit}
use geekos.Errno.{ok, eunspecified}
use geekos.Gosfs.{
  DirEntry, DirEntryPtr, Instance, Env, is_held, drop_held, equal, slash, first_block,
  release_buffer, take_buffer, get_entry_by_ptr, direntry_used, direntry_is_directory,
}
use geekos.Gosfs.Files.{init_path_info, write_block, store_entry, take_entry}
use geekos.Gosfs.Change.{
  zero_entry, zero_block, check_empty, check_directory, erase, delete_found, gosfs_delete,
}
use geekos.Base.Reasons.{done}
use geekos.Gosfs.Releases.{held_release, hold}
use geekos.Gosfs.Walk.{Ready, Leads, IsName, path_of, take_buffer-gives, do_gosfs_lookup-Leads}

-- The instance without the file of an entry.
abbrev pub without_file : Instance → DirEntryPtr → ℕ → Instance
without_file inst ptr n =
    let blocks = write_block inst.blocks n zero_block in
    record inst {
      bitmap = clear_bit inst.bitmap n;
      blocks = write_block blocks ptr.base (set (blocks ptr.base) ptr.offset zero_entry);
    }

-- The last buffer is released below the one on top.
release_below :
    (inst : Instance) (m n : ℕ)
    → m ≢ n
    → release_buffer (hold m (hold n inst)) n ≡ done (hold m inst)
unfolding release_buffer is_held drop_held
release_below inst m n h = rw (==_ne m n h, ==-self n) refl

take_above :
    (env : Env) (inst : Instance) (m n : ℕ)
    → Ready env inst m
    → n ≢ m
    → take_buffer env (hold n inst) m ≡ done (true, hold m (hold n inst))
unfolding take_buffer is_held
take_above env inst m n (h, k, l) ne = rw (==_ne n m ne, k, l) refl

module _ (env : Env) (inst : Instance) (ptr : DirEntryPtr) (x : DirEntry)
    (ready : Ready env inst ptr.base) (ready_block : Ready env inst (first_block x))
    (apart : ptr.base ≢ first_block x)
    (here : get_elem? (inst.blocks ptr.base) ptr.offset ≡ some x) where
  delete_found_lem :
      has x.flags direntry_used ≡ true
      → delete_found env inst ptr ≡ done (ok, without_file inst ptr (first_block x))
  unfolding delete_found take_entry check_directory erase store_entry
  delete_found_lem used =
      rw
        (
          take_buffer-gives env inst ptr.base ready,
          here,
          used,
          take_above env (record inst { bitmap = clear_bit inst.bitmap (first_block x) })
              (first_block x) ptr.base ready_block apart,
          release_below (without_file inst ptr (first_block x)) (first_block x) ptr.base
              (λ e. apart (sym e)),
          held_release (without_file inst ptr (first_block x)) (first_block x),
        )
        refl

get_elem?-inside : (es : List DirEntry) (i : ℕ) → i < length es → get_elem? es i ≢ none
get_elem?-inside [] i h = λ e. absurd (omega (arith, h))
get_elem?-inside (x ∷ es) zero h = λ e. absurd cc
get_elem?-inside (x ∷ es) (suc i) h = get_elem?-inside es i (omega (arith, h))

some_inj : {x y : DirEntry} → some x ≡ some y → x ≡ y
some_inj {x} {y} e = cc

get_elem?-below :
    (es : List DirEntry) (i : ℕ) (y : DirEntry) → get_elem? es i ≡ some y → i < length es
get_elem?-below [] i y h = absurd cc
get_elem?-below (x ∷ es) zero y h = omega arith
get_elem?-below (x ∷ es) (suc i) y h = omega (arith, get_elem?-below es i y h)

check_empty-used :
    (left : ℕ) (es : List DirEntry) (i j : ℕ) (y : DirEntry)
    → i ≤ j
    → j < i + left
    → i + left ≤ length es
    → get_elem? es j ≡ some y
    → y.flags ≢ 0
    → check_empty left es i ≡ done false
unfolding check_empty
check_empty-used zero es i j y lo hi len at_j used = absurd (omega (arith, lo, hi))
check_empty-used (suc left) es i j y lo hi len at_j used = elim (Option-cases (get_elem? es i)) [
  | inl out ↦ absurd (get_elem?-inside es i (omega (arith, len)) out)
  | inr (e, at_i) ↦ elim (Bool-cases (e.flags == 0)) [
    | inl clear ↦
        rw (at_i, clear)
          (check_empty-used left es (i + 1) j y (next_index e at_i clear) (omega (arith, hi))
            (omega (arith, len)) at_j used)
    | inr taken ↦ rw (at_i, taken) refl
  ]
]
  where
    next_index : (e : DirEntry) → get_elem? es i ≡ some e → (e.flags == 0) ≡ true → i + 1 ≤ j
    next_index e at_i clear = elim (Bool-cases (i == j)) [
      | inl same ↦ absurd (
          used (
            ap (λ z. z.flags)
              (some_inj (sym at_j ∙ ap (get_elem? es) (sym ((==_iff i j).0 same)) ∙ at_i))
            ∙ (==_iff e.flags 0).0 clear))
      | inr other ↦ ground (arith, lo, other)
    ]

delete_not_empty_lem :
    (env : Env) (inst : Instance) (ptr : DirEntryPtr) (x y : DirEntry) (j : ℕ)
    → Ready env inst ptr.base
    → Ready env inst (first_block x)
    → ptr.base ≢ first_block x
    → get_elem? (inst.blocks ptr.base) ptr.offset ≡ some x
    → x.flags ≡ direntry_is_directory
    → length (inst.blocks (first_block x)) ≡ 18
    → 2 ≤ j
    → get_elem? (inst.blocks (first_block x)) j ≡ some y
    → y.flags ≢ 0
    → delete_found env inst ptr ≡ done (eunspecified, inst)
unfolding delete_found take_entry check_directory get_entry_by_ptr
delete_not_empty_lem env inst ptr x y j ready ready_block apart here dir len lo at_j used =
    let inside = get_elem?-below (inst.blocks (first_block x)) j y at_j in
    let checked =
      check_empty-used 16 (inst.blocks (first_block x)) 2 j y lo (omega (arith, inside, len))
        (omega (arith, len)) at_j used in
    rw
      (
        take_buffer-gives env inst ptr.base ready,
        here,
        dir,
        ==_ne (first_block x) 0 ready_block.0,
        take_above env inst (first_block x) ptr.base ready_block apart,
        held_release (hold ptr.base inst) (first_block x),
        checked,
        held_release inst ptr.base,
      )
      refl

-- GOSFS_Delete of a file: where a path leads to an entry that is in use, whose block is another one than
-- that of the entry and can be had, it returns 0, the block of the file is marked free and filled with
-- zeros, the entry is filled with zeros, and no buffer is left in use. Under the conditions of the lookup.
pub gosfs_delete-frees :
    (c : List ℕ) (cs : List (List ℕ)) (fuel : ℕ) (env : Env) (inst : Instance) (ptr : DirEntryPtr)
    (x : DirEntry)
    → All IsName (c ∷ cs)
    → length cs + 1 < fuel
    → length env.prefix ≡ 17
    → 17 ≤ length env.path_info.suffix
    → equal env.address_zero slash ≡ done false
    → Leads env inst inst.root_directory_pointer (c ∷ cs) ptr
    → Ready env inst ptr.base
    → Ready env inst (first_block x)
    → ptr.base ≢ first_block x
    → get_elem? (inst.blocks ptr.base) ptr.offset ≡ some x
    → has x.flags direntry_used ≡ true
    → gosfs_delete fuel env inst (path_of (c ∷ cs))
      ≡ done (ok, without_file inst ptr (first_block x))
unfolding gosfs_delete
gosfs_delete-frees c cs fuel env inst ptr x h enough room space start leads ready ready_block apart
      here used =
    let (info, found, at_ptr) =
      do_gosfs_lookup-Leads c cs fuel env inst (init_path_info env) ptr h enough room space start
        leads in
    rw (found, at_ptr, delete_found_lem env inst ptr x ready ready_block apart here used) refl

-- GOSFS_Delete of a directory that holds an entry besides "." and ".." returns EUNSPECIFIED and changes
-- nothing. Under the same conditions, for a directory of 18 entries.
pub gosfs_delete-not_empty :
    (c : List ℕ) (cs : List (List ℕ)) (fuel : ℕ) (env : Env) (inst : Instance) (ptr : DirEntryPtr)
    (x y : DirEntry) (j : ℕ)
    → All IsName (c ∷ cs)
    → length cs + 1 < fuel
    → length env.prefix ≡ 17
    → 17 ≤ length env.path_info.suffix
    → equal env.address_zero slash ≡ done false
    → Leads env inst inst.root_directory_pointer (c ∷ cs) ptr
    → Ready env inst ptr.base
    → Ready env inst (first_block x)
    → ptr.base ≢ first_block x
    → get_elem? (inst.blocks ptr.base) ptr.offset ≡ some x
    → x.flags ≡ direntry_is_directory
    → length (inst.blocks (first_block x)) ≡ 18
    → 2 ≤ j
    → get_elem? (inst.blocks (first_block x)) j ≡ some y
    → y.flags ≢ 0
    → gosfs_delete fuel env inst (path_of (c ∷ cs)) ≡ done (eunspecified, inst)
unfolding gosfs_delete
gosfs_delete-not_empty c cs fuel env inst ptr x y j h enough room space start leads ready
      ready_block apart here dir len lo at_j used =
    let (info, found, at_ptr) =
      do_gosfs_lookup-Leads c cs fuel env inst (init_path_info env) ptr h enough room space start
        leads in
    rw
      (
        found,
        at_ptr,
        delete_not_empty_lem env inst ptr x y j ready ready_block apart here dir len lo at_j used,
      )
      refl
