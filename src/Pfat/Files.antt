-- ===== src/Pfat/Files.antt =====
-- src/geekos/pfat.c: the search for a file, the files that are open, and directories.
use geekos.Base.{
  leb, ◌==◌, if◌then◌else◌, length, get_elem?, set, ℕ, ◌+◌, ◌/◌, bit_and, Bool, not, Option, none,
  some, List, [], ◌∷◌, ◌++◌,
}
use geekos.Bitset.{create_bit_set}
use geekos.CString.{strcmp, strncpy}
use geekos.Errno.{Rc, ok, eaccess, enomem, enotfound}
use geekos.Pfat.{
  sector_size, o_create, o_write, DirectoryEntry, PfatFile, Instance, File, Stat, copy_stat,
  round_up_to_block,
}

-- '/'
abbrev slash : ℕ
slash = 47

-- One round of the search of Do_PFAT_Lookup, with the result of the rest: `none` is a read beyond the
-- end of a string.
abbrev pub compare_entry :
    Option ℕ → DirectoryEntry → Option (Option DirectoryEntry) → Option (Option DirectoryEntry)
compare_entry none e rest = none
compare_entry (some n) e rest = if n == 0 then some (some e) else rest

unfoldable pub find_entry : List DirectoryEntry → List ℕ → Option (Option DirectoryEntry)
find_entry [] name = some none
find_entry (e ∷ es) name = compare_entry (strcmp e.file_name name) e (find_entry es name)

-- A failed KASSERT is `none`, too.
unfoldable pub do_pfat_lookup : Instance → List ℕ → Option (Option DirectoryEntry)
do_pfat_lookup instance [] = none
do_pfat_lookup instance (c ∷ path) =
    if not (c == slash)
    then none
    else compare_entry (strcmp (c ∷ path) (slash ∷ 0 ∷ [])) instance.root_dir_entry
        (find_entry instance.root_dir path)

-- What the allocator does: whether there is memory for a small object, a block of so many sectors, and
-- a block of so many bytes.
pub record Memory : Type 0 where
  pub has_object : Bool
  pub malloc_sectors : ℕ → Option (List (List ℕ))
  pub malloc_bytes : ℕ → Option (List ℕ)

unfoldable pub find_open : List PfatFile → DirectoryEntry → Option PfatFile
find_open [] e = none
find_open (f ∷ fs) e = if f.entry.addr == e.addr then some f else find_open fs e

-- A PFAT_File for a file that is not open: the cache is not yet valid anywhere.
unfoldable pub new_pfat_file : Memory → DirectoryEntry → Option PfatFile
new_pfat_file mem e =
    let num_blocks = round_up_to_block e.file_size / sector_size in
    if not mem.has_object then none else elim (mem.malloc_sectors num_blocks) [
      | none ↦ none
      | some cache ↦ elim (create_bit_set mem.malloc_bytes num_blocks) [
        | none ↦ none
        | some bits ↦ some (record {
          entry = e;
          num_blocks = num_blocks;
          file_data_cache = cache;
          valid_block_set = bits;
        })
      ]
    ]

unfoldable pub get_pfat_file : Memory → Instance → DirectoryEntry → Option PfatFile × Instance
get_pfat_file mem instance e = elim (find_open instance.file_list e) [
  | some f ↦ (some f, instance)
  | none ↦ elim (new_pfat_file mem e) [
    | none ↦ (none, instance)
    | some f ↦ (some f, record instance { file_list = instance.file_list ++ f ∷ [] })
  ]
]

-- The end of PFAT_Open: the code is 0 also where there is no PFAT_File, and `file` is what the
-- caller's variable holds before.
unfoldable pub finish_open :
    Bool → DirectoryEntry → Option File → Option PfatFile × Instance → Rc × Option File × Instance
finish_open has_file e file (none, instance) = (ok, file, instance)
finish_open has_file e file (some f, instance) =
    if has_file
    then (ok, some (record { file_pos = 0; end_pos = e.file_size; pfat_file = f }), instance)
    else (enomem, file, instance)

-- PFAT_Open; `has_file` is whether Allocate_File has memory.
unfoldable pub pfat_open :
    Memory → Bool → Instance → List ℕ → ℕ → Option File → Option (Rc × Option File × Instance)
unfolding finish_open
pfat_open mem has_file instance path mode file =
    if not (bit_and mode (o_write + o_create) == 0)
    then some (eaccess, file, instance)
    else elim (do_pfat_lookup instance path) [
      | none ↦ none
      | some none ↦ some (enotfound, file, instance)
      | some (some e) ↦
          if e.directory
          then some (eaccess, file, instance)
          else some (finish_open has_file e file (get_pfat_file mem instance e))
    ]

unfoldable pub pfat_stat : Instance → List ℕ → Stat → Option (Rc × Stat)
pfat_stat instance path stat = elim (do_pfat_lookup instance path) [
  | none ↦ none
  | some none ↦ some (enotfound, stat)
  | some (some e) ↦ some (ok, copy_stat e)
]

-- An open directory: filePos and endPos.
pub record Directory : Type 0 where
  pub file_pos : ℕ
  pub end_pos : ℕ

unfoldable pub pfat_open_directory : Bool → Instance → List ℕ → Directory → Option (Rc × Directory)
pfat_open_directory has_object instance path dir = elim (strcmp path (slash ∷ 0 ∷ [])) [
  | none ↦ none
  | some n ↦
      if not (n == 0)
      then some (enotfound, dir)
      else (if has_object
          then some (ok, record { file_pos = 0; end_pos = length instance.root_dir })
          else some (enomem, dir))
]

-- What PFAT_Read_Entry returns: VFS_NO_MORE_DIR_ENTRIES, or 0 with the name and the metadata.
pub data EntryRead : Type 0 where
  no_more : EntryRead
  entry : List ℕ → Stat → EntryRead

-- `name` is the caller's array of 1024 characters; sizeof(fileName) is 12. The outer `none` is a read
-- beyond the table of entries.
unfoldable pub pfat_read_entry : Instance → Directory → List ℕ → Option (EntryRead × Directory)
pfat_read_entry instance dir name =
    if leb dir.end_pos dir.file_pos
    then some (no_more, dir)
    else elim (get_elem? instance.root_dir dir.file_pos) [
      | none ↦ none
      | some e ↦ elim (strncpy name e.file_name 12) [
        | none ↦ none
        | some copy ↦
            some (entry (set copy 12 0) (copy_stat e), record dir { file_pos = dir.file_pos + 1 })
      ]
    ]
