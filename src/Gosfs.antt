-- ===== src/Gosfs.antt =====
-- src/geekos/gosfs.c and include/geekos/gosfs.h: the GOSFS filesystem.
-- A block is the array of its directory entries, as every function but Format and Mount takes it, and
-- the superblock is the fields of `Instance`. Strings are as in the module `CString`. The buffer cache
-- is what its clients see of it: `blocks` holds the contents that the module `Bufcache` shows
-- Get_FS_Buffer to serve, `held` the blocks whose buffers are in use, and a request for one of these
-- waits. The functions are modelled as they run alone on a mounted instance: GOSFS_Open and
-- Do_GOSFS_Lookup hold no mutex over their bodies, so runs of two threads that interleave there are not
-- covered.
pub mod Files
pub mod Change
pub mod Entries
pub mod Releases
pub mod Matches
pub mod Walk
pub mod Misses
pub mod Slots
pub mod Create
pub mod Allocation
pub mod Opens
pub mod Missing
pub mod Delete
pub mod NextEntry
pub mod Listing
mod Tests
use geekos.Base.{
  ◌==◌, if◌then◌else◌, get_elem?, get_or, drop, ℕ, zero, suc, ◌+◌, ◌-◌, ◌^◌, Bool, true, false, not,
  ◌&&◌, ◌||◌, Option, none, some, List, [], ◌∷◌,
}
use geekos.Base.Bits.{has}
use geekos.Bitset.{
  BitSet, Found, at, minus_one, assert_failed, find_first_free_bit, set_bit, clear_bit,
}
use geekos.CString.{strcmp, strcpy}
use geekos.Errno.{Rc, ok, eaccess, eexist, enomem, enotdir, enotfound, eunspecified}
use geekos.Base.Reasons.{
  Run, done, stop, ◌>>=◌, ◌>>◌, kassert, in_bounds, wild_pointer, waits_for_itself, out_of_bounds,
  out_of_fuel, failed_kassert,
}
use geekos.Vfs.{unpack_path}

-- GOSFS_DIRENTRY_USED, GOSFS_DIRENTRY_ISDIRECTORY and GOSFS_DIRENTRY_SETUID
abbrev pub direntry_used : ℕ
direntry_used = 1

abbrev pub direntry_is_directory : ℕ
direntry_is_directory = 2

abbrev pub direntry_setuid : ℕ
direntry_setuid = 4

abbrev pub fs_block_size : ℕ
fs_block_size = 4096

-- GOSFS_DIR_ENTRIES_PER_BLOCK: an entry takes 216 bytes.
abbrev pub dir_entries_per_block : ℕ
dir_entries_per_block = 18

abbrev pub prev_dir : ℕ
prev_dir = 1

-- GOSFS_SUPER_BLOCK
abbrev pub super_block : ℕ
super_block = 0

-- `acl` is the list of its 40 bytes.
pub record DirEntry : Type 0 where
  pub size : ℕ
  pub flags : ℕ
  pub filename : List ℕ
  pub block_list : List ℕ
  pub acl : List ℕ

pub record DirEntryPtr : Type 0 where
  pub base : ℕ
  pub offset : ℕ

-- The fields that the lookup sets.
pub record PathInfo : Type 0 where
  pub suffix : List ℕ
  pub dir_entry_ptr : DirEntryPtr

-- An object GOSFS_File is known by the pointer to its directory entry, the one field that is set.
pub record Instance : Type 0 where
  pub root_directory_pointer : ℕ
  pub size : ℕ
  pub bitmap : BitSet
  pub blocks : ℕ → List DirEntry
  pub held : List ℕ
  pub root_dir_entry : DirEntry
  pub file_list : List DirEntryPtr

-- What the functions find around them: the blocks that the cache fails to give, whether Malloc gives an
-- object and Allocate_File a file, and what stands in memory that is read before it is written: the
-- bytes from address 0, the array `prefix` and the variable `pathInfo`.
pub record Env : Type 0 where
  pub fails : ℕ → Bool
  pub has_object : Bool
  pub has_file : Bool
  pub address_zero : List ℕ
  pub prefix : List ℕ
  pub path_info : PathInfo

unfoldable pub is_held : ℕ → List ℕ → Bool
is_held n [] = false
is_held n (m ∷ ms) = (m == n) || is_held n ms

unfoldable pub drop_held : ℕ → List ℕ → List ℕ
drop_held n [] = []
drop_held n (m ∷ ms) = let rest = drop_held n ms in if m == n then ms else m ∷ rest

-- Get_FS_Buffer, whether it gives the block.
unfoldable pub take_buffer : Env → Instance → ℕ → Run (Bool × Instance)
take_buffer env inst n =
    if is_held n inst.held
    then stop waits_for_itself
    else (if env.fails n
        then done (false, inst)
        else done (true, record inst { held = n ∷ inst.held }))

unfoldable pub release_buffer : Instance → ℕ → Run Instance
release_buffer inst n =
    if is_held n inst.held
    then done (record inst { held = drop_held n inst.held })
    else stop failed_kassert

-- The entries from the one that is pointed to up to the end of its block, or `none` for a null pointer.
unfoldable pub get_entry_by_ptr :
    Env → Instance → DirEntryPtr → Run (Option (List DirEntry) × Instance)
get_entry_by_ptr env inst ptr =
    if ptr.base == 0 then done (some (inst.root_dir_entry ∷ []), inst) else do
      (got, inst') ← take_buffer env inst ptr.base
      if not got then done (none, inst') else (do
        inst'' ← release_buffer inst' ptr.base
        done (some (drop ptr.offset (inst''.blocks ptr.base)), inst''))

abbrev pub non_null {ℓ} : {A : Type ℓ} → Option A → Run A
non_null none = stop wild_pointer
non_null (some a) = done a

abbrev pub equal : List ℕ → List ℕ → Run Bool
equal s t = in_bounds (strcmp s t) >>= λ n. done (n == 0)

-- "/"
abbrev pub slash : List ℕ
slash = 47 ∷ 0 ∷ []

-- How the search through a block ends: at an entry, or with the first free slot, 2^32 - 1 for none.
pub data Search : Type 0 where
  hit : ℕ → DirEntry → Search
  missing : ℕ → Search

-- -1 in an int
abbrev pub minus_one_word : ℕ
minus_one_word = 2 ^ 32 - 1

unfoldable pub is_free : DirEntry → Bool
is_free e = not (has e.flags direntry_used) && not (has e.flags direntry_is_directory)

unfoldable pub is_match : DirEntry → Bool → Bool → Bool
is_match e same last =
    same && (((e.flags == direntry_used) && last) || (e.flags == direntry_is_directory))

-- The loop over the entries of a directory, from the index `i` on; `last` is whether the suffix is "/".
unfoldable pub find_entry : List DirEntry → List ℕ → Bool → ℕ → ℕ → Run Search
find_entry [] prefix last i min_free = done (missing min_free)
find_entry (e ∷ es) prefix last i min_free =
    let rest =
      find_entry es prefix last (i + 1)
        (if (min_free == minus_one_word) && is_free e then i else min_free) in
    do same ← equal e.filename prefix; if is_match e same last then done (hit i e) else rest

abbrev pub first_block : DirEntry → ℕ
first_block e = get_or e.block_list 0 0

-- The search of the ".." branch for the entry of block `blk`, from the index `j` on.
unfoldable pub find_block : List DirEntry → ℕ → ℕ → Option (ℕ × DirEntry)
find_block [] blk j = none
find_block (e ∷ es) blk j =
    let rest = find_block es blk (j + 1) in if first_block e == blk then some (j, e) else rest

-- How a round of the loop of Do_GOSFS_Lookup ends: with its result, or with the next directory.
pub data Round : Type 0 where
  finished : Rc → PathInfo → Round
  next : ℕ → PathInfo → Round

-- No entry matched.
unfoldable pub visit_missing : Instance → ℕ → List ℕ → Bool → PathInfo → ℕ → Run (Round × Instance)
visit_missing inst base prefix last info min_free = do
  s ← in_bounds (strcpy info.suffix prefix)
  inst' ← release_buffer inst base
  done (
    finished (if last then eunspecified else enotfound)
        (record { suffix = s; dir_entry_ptr = record { base = base; offset = min_free } }),
    inst',
  )

-- The entry with the index 1, which is taken for "..".
unfoldable pub visit_prev : Env → Instance → ℕ → PathInfo → DirEntry → Run (Round × Instance)
visit_prev env inst base info e = do
  inst₁ ← release_buffer inst base
  (p, inst₂) ← get_entry_by_ptr env inst₁ (record { base = first_block e; offset = 0 })
  entries ← non_null p
  up ← in_bounds (get_elem? entries prev_dir)
  (q, inst₃) ← get_entry_by_ptr env inst₂ (record { base = first_block up; offset = 0 })
  above ← non_null q
  (j, found) ← in_bounds (find_block above (first_block e) 0)
  s ← in_bounds (strcpy info.suffix found.filename)
  done (
    next (first_block found)
        (record { suffix = s; dir_entry_ptr = record { base = first_block up; offset = j } }),
    inst₃,
  )

unfoldable pub visit_entry :
    Instance → ℕ → List ℕ → PathInfo → ℕ → DirEntry → Run (Round × Instance)
visit_entry inst base prefix info i e = do
  s ← in_bounds (strcpy info.suffix prefix)
  inst' ← release_buffer inst base
  done (
    next (first_block e)
        (record { suffix = s; dir_entry_ptr = record { base = base; offset = i } }),
    inst',
  )

unfoldable pub visit :
    Env → Instance → ℕ → List ℕ → Bool → PathInfo → Search → Run (Round × Instance)
visit env inst base prefix last info (missing f) = visit_missing inst base prefix last info f
visit env inst base prefix last info (hit i e) =
    if i == prev_dir then visit_prev env inst base info e else visit_entry inst base prefix info i e

-- A round, once the path is unpacked into `prefix` and `suffix`.
unfoldable pub lookup_round :
    Env → Instance → List ℕ → List ℕ → ℕ → PathInfo → Run (Round × Instance)
lookup_round env inst prefix suffix base info = do
  kassert (not (base == 0))
  (got, inst') ← take_buffer env inst base
  if not got then done (finished eunspecified info, inst') else (do
    last ← equal suffix slash
    s ← find_entry (inst'.blocks base) prefix last 0 minus_one_word
    visit env inst' base prefix last info s)

-- Unpack_Path, whose result is not looked at: a path that is not valid leaves the variables as they are.
abbrev pub or_unchanged : List ℕ × List ℕ → Option (List ℕ × List ℕ) → List ℕ × List ℕ
or_unchanged old none = old
or_unchanged old (some new) = new

-- The loop, with `fuel` rounds at most. The path of the next round is the suffix.
unfoldable pub lookup_loop :
    ℕ → Env → Instance → List ℕ → List ℕ → List ℕ → ℕ → PathInfo → Run (Rc × PathInfo × Instance)
lookup_loop zero env inst path prefix suffix base info = stop out_of_fuel
lookup_loop (suc fuel) env inst path prefix suffix base info = do
  over ← equal suffix slash
  if over then done (ok, info, inst) else (do
    unpacked ← in_bounds (unpack_path path prefix)
    let (p, s) = or_unchanged (prefix, suffix) unpacked
    (r, inst') ← lookup_round env inst p s base info
    elim r as (λ x. Run (Rc × PathInfo × Instance)) [
      | finished rc info' ↦ done (rc, info', inst')
      | next base' info' ↦ lookup_loop fuel env inst' s p s base' info'
    ])

-- Before the first round the suffix is a null pointer.
unfoldable pub do_gosfs_lookup :
    ℕ → Env → Instance → List ℕ → PathInfo → Run (Rc × PathInfo × Instance)
do_gosfs_lookup fuel env inst path info = do
  kassert (get_or path 0 0 == 47)
  root ← equal path slash
  if root
      then done (ok, info, inst)
      else lookup_loop fuel env inst path env.prefix env.address_zero inst.root_directory_pointer
          info
