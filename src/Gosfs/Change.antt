-- ===== src/Gosfs/Change.antt =====
-- src/geekos/gosfs.c: GOSFS_Create_Directory and GOSFS_Delete.
use geekos.Base.{
  ◌==◌, if◌then◌else◌, length, get_elem?, get_or, set, replicate, ℕ, zero, suc, ◌+◌, ◌-◌, ◌*◌, ◌%◌,
  Bool, true, false, not, none, some, List, [], ◌∷◌, ◌++◌,
}
use geekos.Base.Bits.{has}
use geekos.Bitset.{clear_bit}
use geekos.CString.{strcpy}
use geekos.Errno.{Rc, ok, eexist, enotfound, eunspecified, is_ok}
use geekos.Gosfs.{
  DirEntry, DirEntryPtr, PathInfo, Instance, Env, direntry_used, direntry_is_directory,
  fs_block_size, dir_entries_per_block, take_buffer, release_buffer, get_entry_by_ptr, non_null,
  first_block, do_gosfs_lookup,
}
use geekos.Gosfs.Files.{
  init_path_info, write_block, store_entry, allocate_block, take_entry, is_enotfound,
}
use geekos.Base.Reasons.{Run, done, ◌>>=◌, in_bounds}

-- An entry filled with zeros.
abbrev pub zero_entry : DirEntry
zero_entry = record {
  size = 0;
  flags = 0;
  filename = replicate 128 0;
  block_list = replicate 10 0;
  acl = replicate 40 0;
}

abbrev pub zero_block : List DirEntry
zero_block = replicate dir_entries_per_block zero_entry

-- "." or ".." in a block filled with zeros.
abbrev pub dot_entry : List ℕ → ℕ → DirEntry
dot_entry name blk = record zero_entry {
  size = fs_block_size;
  flags = direntry_is_directory;
  filename = name ++ replicate (128 - length name) 0;
  block_list = set zero_entry.block_list 0 blk;
}

-- The block of a new directory.
abbrev pub new_directory : ℕ → ℕ → List DirEntry
new_directory blk parent =
    set (set zero_block 0 (dot_entry (46 ∷ []) blk)) 1 (dot_entry (46 ∷ 46 ∷ []) parent)

-- The permission is the upper half of the fourth byte of an entry of the list.
abbrev pub set_permission : List ℕ → ℕ → List ℕ
set_permission acl p = set acl 3 (get_or acl 3 0 % 16 + p * 16)

-- The entry of the new directory in the one above it, and its block.
unfoldable pub add_directory : Instance → PathInfo → DirEntry → Run (ℕ × Instance)
add_directory inst info e = do
  name ← in_bounds (strcpy e.filename info.suffix)
  (free, inst') ← allocate_block inst
  done (
    free,
    store_entry inst' info.dir_entry_ptr (record e {
      size = fs_block_size;
      flags = direntry_is_directory;
      filename = name;
      block_list = set e.block_list 0 free;
      acl = set_permission e.acl 6;
    }),
  )

abbrev pub store_block : Instance → ℕ → List DirEntry → Instance
store_block inst n es = record inst { blocks = write_block inst.blocks n es }

-- The block of the new directory is filled.
unfoldable pub fill_directory : Env → Instance → ℕ → ℕ → Run (Rc × Instance)
fill_directory env inst free parent = do
  (got, inst₁) ← take_buffer env inst free
  if not got then done (eunspecified, inst₁) else (do
    inst₂ ← release_buffer (store_block inst₁ free (new_directory free parent)) free
    done (ok, inst₂))

unfoldable pub make_directory : Env → Instance → PathInfo → Run (Rc × Instance)
make_directory env inst info = do
  (p, inst₁) ← take_entry env inst info.dir_entry_ptr
  elim p as (λ x. Run (Rc × Instance)) [
    | none ↦ done (eunspecified, inst₁)
    | some e ↦ do
      (free, inst₂) ← add_directory inst₁ info e
      inst₃ ← release_buffer inst₂ info.dir_entry_ptr.base
      fill_directory env inst₃ free info.dir_entry_ptr.base
  ]

unfoldable pub gosfs_create_directory : ℕ → Env → Instance → List ℕ → Run (Rc × Instance)
gosfs_create_directory fuel env inst path = do
  (rc, info, inst') ← do_gosfs_lookup fuel env inst path (init_path_info env)
  if is_ok rc
      then done (eexist, inst')
      else (if is_enotfound rc then done (enotfound, inst') else make_directory env inst' info)

-- The loop that looks for an entry in use, from the index `i` on, with `left` entries to go.
unfoldable pub check_empty : ℕ → List DirEntry → ℕ → Run Bool
check_empty zero es i = done true
check_empty (suc left) es i =
    let rest = check_empty left es (i + 1) in
    do e ← in_bounds (get_elem? es i); if not (e.flags == 0) then done false else rest

-- Whether the entry may be deleted.
unfoldable pub check_directory : Env → Instance → DirEntry → Run (Bool × Instance)
check_directory env inst e =
    if has e.flags direntry_used
    then done (true, inst)
    else (if has e.flags direntry_is_directory
        then (do
          (p, inst') ← get_entry_by_ptr env inst (record { base = first_block e; offset = 0 })
          es ← non_null p
          empty ← check_empty (dir_entries_per_block - 2) es 2
          done (empty, inst'))
        else done (true, inst))

-- The block is freed and filled with zeros, then the entry, whose buffer is in use.
unfoldable pub erase : Env → Instance → DirEntryPtr → DirEntry → Run (Rc × Instance)
erase env inst ptr e = do
  let inst₁ = record inst { bitmap = clear_bit inst.bitmap (first_block e) }
  (got, inst₂) ← take_buffer env inst₁ (first_block e)
  if not got then done (eunspecified, inst₂) else (do
    let inst₃ = store_entry (store_block inst₂ (first_block e) zero_block) ptr zero_entry
    inst₄ ← release_buffer inst₃ ptr.base
    inst₅ ← release_buffer inst₄ (first_block e)
    done (ok, inst₅))

unfoldable pub delete_found : Env → Instance → DirEntryPtr → Run (Rc × Instance)
delete_found env inst ptr = do
  (p, inst₁) ← take_entry env inst ptr
  elim p as (λ x. Run (Rc × Instance)) [
    | none ↦ done (eunspecified, inst₁)
    | some e ↦ do
      (empty, inst₂) ← check_directory env inst₁ e
      if empty
          then erase env inst₂ ptr e
          else (do inst₃ ← release_buffer inst₂ ptr.base; done (eunspecified, inst₃))
  ]

unfoldable pub gosfs_delete : ℕ → Env → Instance → List ℕ → Run (Rc × Instance)
gosfs_delete fuel env inst path = do
  (rc, info, inst') ← do_gosfs_lookup fuel env inst path (init_path_info env)
  if not (is_ok rc) then done (enotfound, inst') else delete_found env inst' info.dir_entry_ptr
