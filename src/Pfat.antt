-- ===== src/Pfat.antt =====
-- src/geekos/pfat.c and include/geekos/pfat.h: the read-only PFAT filesystem.
-- The data cache of a file is the sequence of its blocks. A directory entry is known by its address.
-- The block device is a parameter: what each sector holds, and the code with which a request for it
-- completes. The mutexes of the instance and of the files make each function one step. The outer
-- `none` is a read beyond the end of the file allocation table or of a string.
pub mod Blocks
pub mod Load
pub mod Read
pub mod Files
pub mod Open
mod Tests
use geekos.Base.{
  ltb, leb, ◌==◌, if◌then◌else◌, get_elem?, set, take, drop, ℕ, zero, suc, ◌+◌, ◌-◌, ◌/◌, ◌%◌, ◌^◌,
  bit_or, Bool, false, not, ◌||◌, Option, none, some, List, [], ◌∷◌, ◌++◌,
}
use geekos.Base.Bits.{has}
use geekos.Bitset.{BitSet, create_bit_set, is_bit_set, set_bit}
use geekos.CString.{map_option, strcmp, strncpy}
use geekos.Errno.{Rc, ok, eaccess, einvalid, eio, enomem, enotfound, is_ok}

pub record Disk : Type 0 where
  pub sectors : ℕ → List ℕ
  pub status : ℕ → Rc

abbrev pub sector_size : ℕ
sector_size = 512

-- O_CREATE, O_READ and O_WRITE
abbrev pub o_create : ℕ
o_create = 1

abbrev pub o_read : ℕ
o_read = 2

abbrev pub o_write : ℕ
o_write = 4

pub record DirectoryEntry : Type 0 where
  pub addr : ℕ
  pub file_name : List ℕ
  pub read_only : Bool
  pub directory : Bool
  pub first_block : ℕ
  pub file_size : ℕ

pub record PfatFile : Type 0 where
  pub entry : DirectoryEntry
  pub num_blocks : ℕ
  pub file_data_cache : List (List ℕ)
  pub valid_block_set : BitSet

pub record Instance : Type 0 where
  pub fat : List ℕ
  pub root_dir : List DirectoryEntry
  pub root_dir_entry : DirectoryEntry
  pub file_list : List PfatFile

-- The fields of struct File that the filesystem uses.
pub record File : Type 0 where
  pub file_pos : ℕ
  pub end_pos : ℕ
  pub pfat_file : PfatFile

-- The first entry of the list of permissions is that of the user 0; the others are zero.
pub record Stat : Type 0 where
  pub size : ℕ
  pub is_directory : Bool
  pub is_setuid : Bool
  pub permission : ℕ

unfoldable pub copy_stat : DirectoryEntry → Stat
copy_stat e = record {
  size = e.file_size;
  is_directory = e.directory;
  is_setuid = false;
  permission = if not e.read_only then bit_or o_read o_write else o_read;
}

unfoldable pub round_up_to_block : ℕ → ℕ
round_up_to_block offset =
    if offset % sector_size == 0
    then offset
    else (offset + (sector_size - offset % sector_size)) % 2 ^ 32

-- A block of the file that may be in the cache: the code and the file.
unfoldable pub load_block : Disk → PfatFile → ℕ → ℕ → Rc × PfatFile
load_block disk f i cur =
    if is_bit_set f.valid_block_set i
    then (ok, f)
    else (if is_ok (disk.status cur)
        then (
          ok,
          record f {
            file_data_cache = set f.file_data_cache i (disk.sectors cur);
            valid_block_set = set_bit f.valid_block_set i;
          },
        )
        else (disk.status cur, f))

-- FAT_ENTRY_FREE or FAT_ENTRY_EOF
unfoldable pub is_end : ℕ → Bool
is_end block = (block == 0) || (block == 1)

-- The loop of PFAT_Read, with `left` blocks to go.
unfoldable pub load_blocks : Disk → List ℕ → ℕ → PfatFile → ℕ → ℕ → ℕ → Option (Rc × PfatFile)
unfolding load_block is_end
load_blocks disk fat start_block f zero i cur = some (ok, f)
load_blocks disk fat start_block f (suc left) i cur =
    let (rc, f') = if leb start_block i then load_block disk f i cur else (ok, f) in
    if is_end cur
    then some (eio, f)
    else (if not (is_ok rc) then some (rc, f') else elim (get_elem? fat cur) [
      | none ↦ none
      | some next ↦ load_blocks disk fat start_block f' left (i + 1) next
    ])

-- What PFAT_Read returns: a code, or the bytes that it puts into the caller's buffer.
pub data Result : Type 0 where
  failed : Rc → Result
  read : List ℕ → Result

abbrev pub concat : List (List ℕ) → List ℕ
concat [] = []
concat (b ∷ bs) = b ++ concat bs

-- The end of PFAT_Read, with the code of the loop.
unfoldable pub copy_out : ℕ → ℕ → Rc × PfatFile → Result × PfatFile
copy_out start num_bytes (rc, f) =
    if is_ok rc
    then (read (take num_bytes (drop start (concat f.file_data_cache))), f)
    else (failed rc, f)

unfoldable pub pfat_read : Disk → List ℕ → File → ℕ → Option (Result × PfatFile)
unfolding round_up_to_block
pfat_read disk fat file num_bytes =
    let f = file.pfat_file in
    let start = file.file_pos in
    let end = (start + num_bytes) % 2 ^ 32 in
    if ltb (2 ^ 31 - 1) num_bytes
    then some (failed einvalid, f)
    else (if leb file.end_pos start || ltb file.end_pos end || ltb end start
        then some (failed einvalid, f)
        else map_option (copy_out start num_bytes) (
            load_blocks disk fat (start % sector_size / sector_size) f
              (round_up_to_block end / sector_size) 0 f.entry.first_block))

unfoldable pub pfat_write : File → ℕ → Rc
pfat_write file num_bytes = eaccess

unfoldable pub pfat_seek : File → ℕ → Rc × File
pfat_seek file pos =
    if leb file.end_pos pos then (einvalid, file) else (ok, record file { file_pos = pos })
