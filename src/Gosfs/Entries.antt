-- ===== src/Gosfs/Entries.antt =====
-- GOSFS_Read_Entry of src/geekos/gosfs.c.
use geekos.Base.{
  ltb, leb, ◌==◌, if◌then◌else◌, get_elem?, set, ℕ, zero, suc, ◌+◌, ◌/◌, ◌%◌, ◌^◌, Bool, not, ◌||◌,
  List, [], ◌∷◌, ◌++◌,
}
use geekos.CString.{strncpy}
use geekos.Gosfs.{
  DirEntry, Instance, Env, direntry_used, direntry_is_directory, direntry_setuid, take_buffer,
  release_buffer, first_block,
}
use geekos.Gosfs.Files.{Stat, File, copy_stat, entry_of}
use geekos.Base.Reasons.{Run, done, stop, ◌>>=◌, in_bounds, wild_pointer, out_of_fuel}

-- sizeof(struct GOSFS_Dir_Entry)
abbrev pub entry_size : ℕ
entry_size = 216

-- VFS_NO_MORE_DIR_ENTRIES, a code, or 0 with the name and the metadata.
pub data EntryRead : Type 0 where
  no_more : EntryRead
  entry : List ℕ → Stat → EntryRead

unfoldable pub is_listed : DirEntry → Bool
is_listed e =
    (e.flags == direntry_used) || (e.flags == direntry_is_directory) || (e.flags == direntry_setuid)

-- The loop, with `fuel` rounds at most: the last entry that is looked at, and the position behind it.
-- The bytes of the block behind its 18 entries, read as an entry, are the last element of `es`.
unfoldable pub next_entry : ℕ → List DirEntry → DirEntry → ℕ → ℕ → Run (DirEntry × ℕ)
next_entry zero es d pos end_pos = stop out_of_fuel
next_entry (suc fuel) es d pos end_pos = if not (ltb pos end_pos) then done (d, pos) else (do
  e ← in_bounds (get_elem? es (pos / entry_size))
  let rest = next_entry fuel es e ((pos + entry_size) % 2 ^ 32) end_pos
  if is_listed e then done (e, (pos + entry_size) % 2 ^ 32) else rest)

-- The end of GOSFS_Read_Entry: `name` and `acls` are those of the caller's struct.
unfoldable pub give_entry : File → List ℕ → List ℕ → DirEntry × ℕ → Run (EntryRead × File)
give_entry dir name acls (e, pos) =
    if leb dir.end_pos pos then done (no_more, record dir { file_pos = pos }) else (do
      copy ← in_bounds (strncpy name e.filename 128)
      done (entry (set copy 128 0) (copy_stat e acls), record dir { file_pos = pos }))

-- GOSFS_Read_Entry; `slack` are the bytes behind the entries of the block. Where the cache does not
-- give the block, a pointer that is not set is released.
unfoldable pub gosfs_read_entry :
    ℕ → Env → Instance → DirEntry → File → List ℕ → List ℕ → Run (EntryRead × File × Instance)
gosfs_read_entry fuel env inst slack dir name acls = do
  (d, inst₁) ← entry_of env inst dir.gosfs_file
  (got, inst₂) ← take_buffer env inst₁ (first_block d)
  if not got then stop wild_pointer else (do
    found ← next_entry fuel (inst₂.blocks (first_block d) ++ slack ∷ []) d dir.file_pos dir.end_pos
    (result, dir') ← give_entry dir name acls found
    inst₃ ← release_buffer inst₂ (first_block d)
    done (result, dir', inst₃))
