-- ===== src/Gosfs/Files.antt =====
-- src/geekos/gosfs.c: Get_GOSFS_File, GOSFS_Open, GOSFS_Open_Directory, GOSFS_Stat, GOSFS_Lookup and
-- GOSFS_Read_Entry. The path fits into `pathInfo`, where strcpy puts it. Sync_FS_Buffer_Cache, whose
-- code the callers do not look at, does not change what a client sees of the cache.
use geekos.Base.{
  ◌==◌, if◌then◌else◌, get_elem?, set, ℕ, Bool, true, false, not, ◌&&◌, Option, none, some, List,
  [], ◌∷◌, ◌++◌,
}
use geekos.Base.Bits.{has}
use geekos.Bitset.{at, minus_one, negative, assert_failed, find_first_free_bit, set_bit}
use geekos.CString.{strcpy}
use geekos.CString.Memory.{memcpy}
use geekos.Errno.{Rc, ok, eaccess, enomem, enotdir, enotfound, eunspecified, is_ok}
use geekos.Gosfs.{
  DirEntry, DirEntryPtr, PathInfo, Instance, Env, direntry_used, direntry_is_directory, super_block,
  take_buffer, release_buffer, get_entry_by_ptr, non_null, do_gosfs_lookup,
}
use geekos.Base.Reasons.{
  Run, done, stop, ◌>>=◌, in_bounds, wild_pointer, out_of_bounds, failed_kassert,
}

abbrev pub o_create : ℕ
o_create = 1

-- The fields of struct File that the filesystem sets; each file has the mode O_READ, each directory 0.
pub record File : Type 0 where
  pub file_pos : ℕ
  pub end_pos : ℕ
  pub gosfs_file : DirEntryPtr

-- `acls` is the list of its 40 bytes.
pub record Stat : Type 0 where
  pub size : ℕ
  pub is_directory : Bool
  pub is_setuid : Bool
  pub acls : List ℕ

-- pathInfo.dirEntryPtr.base = GOSFS_SUPER_BLOCK
abbrev pub init_path_info : Env → PathInfo
init_path_info env = record env.path_info {
  dir_entry_ptr = record env.path_info.dir_entry_ptr { base = super_block };
}

abbrev pub same_ptr : DirEntryPtr → DirEntryPtr → Bool
same_ptr p q = (p.base == q.base) && (p.offset == q.offset)

unfoldable pub is_open : List DirEntryPtr → DirEntryPtr → Bool
is_open [] ptr = false
is_open (f ∷ fs) ptr = let rest = is_open fs ptr in if same_ptr f ptr then true else rest

-- Whether there is a GOSFS_File, and the instance.
unfoldable pub get_gosfs_file : Env → Instance → DirEntryPtr → Bool × Instance
get_gosfs_file env inst ptr =
    if is_open inst.file_list ptr
    then (true, inst)
    else (if env.has_object
        then (true, record inst { file_list = inst.file_list ++ ptr ∷ [] })
        else (false, inst))

abbrev pub write_block : (ℕ → List DirEntry) → ℕ → List DirEntry → ℕ → List DirEntry
write_block blocks n es m = if n == m then es else blocks m

unfoldable pub store_entry : Instance → DirEntryPtr → DirEntry → Instance
store_entry inst ptr e = record inst {
  blocks = write_block inst.blocks ptr.base (set (inst.blocks ptr.base) ptr.offset e);
}

-- Find_First_Free_Bit and Set_Bit, which takes the int as a word: on a full disk, the bit -1 is set.
unfoldable pub allocate_block : Instance → Run (ℕ × Instance)
allocate_block inst = elim (find_first_free_bit inst.bitmap inst.size) [
  | at p ↦ done (p, record inst { bitmap = set_bit inst.bitmap p })
  | negative w ↦ done (w, record inst { bitmap = set_bit inst.bitmap w })
  | minus_one ↦ stop out_of_bounds
  | assert_failed ↦ stop failed_kassert
]

-- The new entry of GOSFS_Open.
unfoldable pub add_file : Instance → PathInfo → DirEntry → Run (DirEntry × Instance)
add_file inst info e = do
  name ← in_bounds (strcpy e.filename info.suffix)
  (free, inst') ← allocate_block inst
  let e' = record e {
    filename = name;
    size = 0;
    flags = direntry_used;
    block_list = set e.block_list 0 free;
  }
  done (e', store_entry inst' info.dir_entry_ptr e')

-- GET_FS_BUFFER and the entry in the block.
unfoldable pub take_entry : Env → Instance → DirEntryPtr → Run (Option DirEntry × Instance)
take_entry env inst ptr = do
  (got, inst') ← take_buffer env inst ptr.base
  if not got
      then done (none, inst')
      else (do e ← in_bounds (get_elem? (inst'.blocks ptr.base) ptr.offset); done (some e, inst'))

-- The end of GOSFS_Open: the GOSFS_File and the File of an entry; the buffer is released.
unfoldable pub finish_open :
    Env → PathInfo → Option File → DirEntry × Instance → Run (Rc × Option File × Instance)
finish_open env info file (e, inst) = do
  let (got, inst₁) = get_gosfs_file env inst info.dir_entry_ptr
  inst₂ ← release_buffer inst₁ info.dir_entry_ptr.base
  done (
      if not got
      then (eunspecified, file, inst₂)
      else (if env.has_file
          then (
            ok,
            some (record { file_pos = 0; end_pos = e.size; gosfs_file = info.dir_entry_ptr }),
            inst₂,
          )
          else (enomem, file, inst₂)))

-- Where the cache does not give the block, a pointer that is not set is released.
unfoldable pub open_found :
    Env → Instance → PathInfo → Option File → Run (Rc × Option File × Instance)
open_found env inst info file = do
  (p, inst₁) ← take_entry env inst info.dir_entry_ptr
  e ← non_null p
  if e.flags == direntry_is_directory
      then (do inst₂ ← release_buffer inst₁ info.dir_entry_ptr.base; done (eaccess, file, inst₂))
      else finish_open env info file (e, inst₁)

unfoldable pub open_missing :
    Env → Instance → PathInfo → ℕ → Option File → Run (Rc × Option File × Instance)
open_missing env inst info mode file = do
  (p, inst₁) ← take_entry env inst info.dir_entry_ptr
  e ← non_null p
  r ← (if has mode o_create then add_file inst₁ info e else done (e, inst₁))
  finish_open env info file r

abbrev pub is_enotfound : Rc → Bool
is_enotfound enotfound = true
is_enotfound e = false

-- GOSFS_Open; `file` is what the caller's variable holds before.
unfoldable pub gosfs_open :
    ℕ → Env → Instance → List ℕ → ℕ → Option File → Run (Rc × Option File × Instance)
gosfs_open fuel env inst path mode file = do
  (rc, info, inst') ← do_gosfs_lookup fuel env inst path (init_path_info env)
  if is_ok rc
      then open_found env inst' info file
      else (if is_enotfound rc then stop wild_pointer else open_missing env inst' info mode file)

-- The entry of a path that is found.
unfoldable pub entry_of : Env → Instance → DirEntryPtr → Run (DirEntry × Instance)
entry_of env inst ptr = do
  (p, inst') ← get_entry_by_ptr env inst ptr
  entries ← non_null p
  e ← in_bounds (get_elem? entries 0)
  done (e, inst')

unfoldable pub gosfs_open_directory :
    ℕ → Env → Instance → List ℕ → Option File → Run (Rc × Option File × Instance)
gosfs_open_directory fuel env inst path file = do
  (rc, info, inst₁) ← do_gosfs_lookup fuel env inst path (init_path_info env)
  if not (is_ok rc) then done (enotfound, file, inst₁) else (do
    (e, inst₂) ← entry_of env inst₁ info.dir_entry_ptr
    let (got, inst₃) = get_gosfs_file env inst₂ info.dir_entry_ptr
    done (
        if not (e.flags == direntry_is_directory)
        then (enotdir, file, inst₂)
        else (if not got
            then (eunspecified, file, inst₃)
            else (if env.has_file
                then (
                  ok,
                  some (record { file_pos = 0; end_pos = e.size; gosfs_file = info.dir_entry_ptr }),
                  inst₃,
                )
                else (enomem, file, inst₃)))))

-- The copy of VFS_MAX_ACL_ENTRIES bytes.
unfoldable pub copy_stat : DirEntry → List ℕ → Stat
copy_stat e acls = record {
  size = e.size;
  is_directory = has e.flags direntry_is_directory;
  is_setuid = false;
  acls = memcpy acls e.acl 10;
}

unfoldable pub gosfs_stat : ℕ → Env → Instance → List ℕ → Stat → Run (Rc × Stat × Instance)
gosfs_stat fuel env inst path stat = do
  (rc, info, inst₁) ← do_gosfs_lookup fuel env inst path (init_path_info env)
  if not (is_ok rc) then done (enotfound, stat, inst₁) else (do
    (e, inst₂) ← entry_of env inst₁ info.dir_entry_ptr
    done (ok, copy_stat e stat.acls, inst₂))

-- The pointer to the entry goes into an object from Malloc, which is not checked.
unfoldable pub gosfs_lookup : ℕ → Env → Instance → List ℕ → Run (Rc × Option DirEntryPtr × Instance)
gosfs_lookup fuel env inst path = do
  (rc, info, inst') ← do_gosfs_lookup fuel env inst path (init_path_info env)
  if not (is_ok rc)
      then done (enotfound, none, inst')
      else (if env.has_object then done (ok, some info.dir_entry_ptr, inst') else stop wild_pointer)
