-- ===== src/Gosfs/Missing.antt =====
-- src/geekos/gosfs.c: GOSFS_Open without O_CREATE on a file that does not exist.
use geekos.Base.{
  Bool-cases, length, get_elem?, All, ℕ, ◌≤◌, ◌<◌, ◌≡◌, refl, ap, inl, inr, true, false, Option,
  some, List, [], ◌∷◌, ◌++◌,
}
use geekos.Base.Bits.{has}
use geekos.Errno.{ok}
use geekos.Gosfs.{DirEntry, DirEntryPtr, Instance, Env, equal, slash}
use geekos.Gosfs.Files.{
  File, o_create, take_entry, get_gosfs_file, is_open, finish_open, open_missing, gosfs_open,
  init_path_info,
}
use geekos.Base.Reasons.{done}
use geekos.Gosfs.Releases.{held_release}
use geekos.Gosfs.Walk.{IsName, path_of, take_buffer-gives}
use geekos.Gosfs.Misses.{Misses, do_gosfs_lookup-Misses}
use geekos.Gosfs.Create.{Misses-LastDirectory}

-- GOSFS_Open of a file that does not exist succeeds without O_CREATE, too: it returns 0 and a file on the
-- free slot in which the entry would stand, with the size that is left there, and changes nothing but the
-- list of the open files. Under the conditions of the lookup, where there is a free slot and memory.
pub gosfs_open-missing :
    (c : List ℕ) (cs : List (List ℕ)) (fuel : ℕ) (env : Env) (inst : Instance) (ptr : DirEntryPtr)
    (x : DirEntry) (mode : ℕ) (file : Option File)
    → All IsName (c ∷ cs)
    → length cs < fuel
    → length env.prefix ≡ 17
    → 17 ≤ length env.path_info.suffix
    → equal env.address_zero slash ≡ done false
    → Misses env inst inst.root_directory_pointer (c ∷ cs) ptr
    → get_elem? (inst.blocks ptr.base) ptr.offset ≡ some x
    → env.has_object ≡ true
    → env.has_file ≡ true
    → has mode o_create ≡ false
    → (fs : List DirEntryPtr) × (gosfs_open fuel env inst (path_of (c ∷ cs)) mode file
        ≡ done (
          ok,
          some (record { file_pos = 0; end_pos = x.size; gosfs_file = ptr }),
          record inst { file_list = fs },
        ))
unfolding gosfs_open open_missing take_entry finish_open get_gosfs_file
gosfs_open-missing c cs fuel env inst ptr x mode file h enough room space start misses old object
      has_file no_create =
    let (info, r, found, at_ptr, suffix) =
      do_gosfs_lookup-Misses c cs fuel env inst (init_path_info env) ptr h enough room space start
        misses in
    let ready =
      (Misses-LastDirectory c cs env inst inst.root_directory_pointer ptr misses).is_ready in
    let base_eq = ap (λ (q : DirEntryPtr). q.base) at_ptr in
    elim (Bool-cases (is_open inst.file_list ptr)) [
      | inl there ↦ (
        inst.file_list,
        rw
            (
              found,
              at_ptr,
              take_buffer-gives env inst ptr.base ready,
              old,
              no_create,
              there,
              held_release inst ptr.base,
              has_file,
            )
            refl,
      )
      | inr absent ↦ (
        inst.file_list ++ ptr ∷ [],
        rw
            (
              found,
              at_ptr,
              take_buffer-gives env inst ptr.base ready,
              old,
              no_create,
              absent,
              object,
              held_release (record inst { file_list = inst.file_list ++ ptr ∷ [] }) ptr.base,
              has_file,
            )
            refl,
      )
    ]
