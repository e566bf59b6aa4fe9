-- ===== src/Bufcache.antt =====
-- src/geekos/bufcache.c and include/geekos/bufcache.h: the filesystem buffer cache.
-- The list of buffers is the sequence that the module `LinkedList` shows Move_To_Front and
-- Add_To_Front to compute. A buffer is known by its address. The functions run with the cache's
-- mutex held, so each is one step; where Get_Buffer waits on the condition, the step ends as
-- `waiting`. The block device is a parameter: what each sector holds, and the code with which a
-- request for it completes. The data of a buffer is the part of its page that is one block.
pub mod Io
pub mod Buffers
pub mod Flags
pub mod Invariant
pub mod Get
pub mod Evict
pub mod Flush
mod Tests
use geekos.Base.{
  ltb, ◌==◌, if◌then◌else◌, ℕ, zero, suc, ◌+◌, ◌-◌, ◌*◌, ◌/◌, ◌%◌, ◌^◌, bit_and, bit_or, Bool, true,
  not, ◌&&◌, Option, none, some, List, [], ◌∷◌,
}
use geekos.Base.Bits.{has}
use geekos.Base.Reasons.{Run, done, stop, ◌>>=◌, ◌>>◌, kassert, out_of_bounds, wild_pointer}
use geekos.Errno.{Rc, ok, enomem, is_ok}

pub record Device : Type 0 where
  pub sectors : ℕ → ℕ
  pub status : ℕ → Rc

abbrev pub write_sector : (ℕ → ℕ) → ℕ → ℕ → ℕ → ℕ
write_sector f n x m = if n == m then x else f m

-- Block_Read and Block_Write: the code, the device and the caller's sector-sized buffer.
unfoldable pub block_read : Device → ℕ → ℕ → Rc × Device × ℕ
block_read dev n x =
    if is_ok (dev.status n) then (ok, dev, dev.sectors n) else (dev.status n, dev, x)

unfoldable pub block_write : Device → ℕ → ℕ → Rc × Device × ℕ
block_write dev n x =
    if is_ok (dev.status n)
    then (ok, record dev { sectors = write_sector dev.sectors n x }, x)
    else (dev.status n, dev, x)

abbrev pub sector_size : ℕ
sector_size = 512

-- FS_BUFFER_DIRTY and FS_BUFFER_INUSE
abbrev pub dirty : ℕ
dirty = 1

abbrev pub in_use : ℕ
in_use = 2

-- `data` is the block as the sequence of its sectors.
pub record Buffer : Type 0 where
  pub addr : ℕ
  pub block_num : ℕ
  pub contents : List ℕ
  pub flags : ℕ

pub record Cache : Type 0 where
  pub dev : Device
  pub fs_block_size : ℕ
  pub num_cached : ℕ
  pub buffers : List Buffer

abbrev pub max_blocks : ℕ
max_blocks = 128

unfoldable pub get_num_sectors_per_fs_block : Cache → ℕ
get_num_sectors_per_fs_block c = c.fs_block_size / sector_size

-- The first sector of a block, an unsigned product.
abbrev pub first_sector : ℕ → ℕ → ℕ
first_sector per_block n = (n * per_block) % 2 ^ 32

-- The loop of Do_Buffer_IO, with `left` rounds to go on the sectors that are left of the data: one request in
-- each round, up to the first that fails.
unfoldable pub io_loop :
    (Device → ℕ → ℕ → Rc × Device × ℕ) → ℕ → Device → ℕ → List ℕ → Run (Rc × Device × List ℕ)
io_loop io zero dev n xs = done (ok, dev, xs)
io_loop io (suc left) dev n [] = stop out_of_bounds
io_loop io (suc left) dev n (x ∷ xs) =
    let (rc, dev', x') = io dev n x in
    let rest = io_loop io left dev' (n + 1) xs in
    if is_ok rc
    then (rest >>= λ (rc', dev'', xs'). done (rc', dev'', x' ∷ xs'))
    else done (rc, dev', x' ∷ xs)

-- The rounds until the offset is not below the block size.
abbrev pub num_rounds : ℕ → ℕ
num_rounds size = (size + (sector_size - 1)) / sector_size

-- The assertions behind the loop, after as many rounds, and so many sectors, as it has.
abbrev pub check_rounds : Cache → Rc × Device × List ℕ → Run (Rc × Device × List ℕ)
check_rounds c (rc, dev', xs) =
    if is_ok rc
    then (do
      kassert (num_rounds c.fs_block_size * sector_size == c.fs_block_size)
      kassert (num_rounds c.fs_block_size == get_num_sectors_per_fs_block c)
      done (rc, dev', xs))
    else done (rc, dev', xs)

unfoldable pub do_buffer_io :
    (Device → ℕ → ℕ → Rc × Device × ℕ) → Cache → Buffer → Run (Rc × Device × List ℕ)
unfolding get_num_sectors_per_fs_block
do_buffer_io io c buf = do
  r ←
      io_loop io (num_rounds c.fs_block_size) c.dev
        (first_sector (get_num_sectors_per_fs_block c) buf.block_num) buf.contents
  check_rounds c r

-- `flags |= m` and `flags &= ~m`, on 32-bit words.
abbrev pub set_flag : ℕ → ℕ → ℕ
set_flag flags m = bit_or flags m

abbrev pub clear_flag : ℕ → ℕ → ℕ
clear_flag flags m = bit_and flags (2 ^ 32 - 1 - m)

unfoldable pub sync_buffer : Cache → Buffer → Run (Rc × Device × Buffer)
unfolding do_buffer_io
sync_buffer c buf =
    if has buf.flags dirty
    then (do
      (rc, dev', xs) ← do_buffer_io block_write c buf
      done (
          if is_ok rc
          then (ok, dev', record buf { flags = clear_flag buf.flags dirty })
          else (rc, dev', buf)))
    else done (ok, c.dev, buf)

-- What the search of Get_Buffer finds: a buffer for the block, or the least recently used buffer that
-- is not in use, if there is one.
pub data Scan : Type 0 where
  hit : Buffer → Scan
  miss : Option Buffer → Scan

unfoldable pub scan : List Buffer → ℕ → Option Buffer → Scan
scan [] n lru = miss lru
scan (b ∷ bs) n lru =
    let rest = scan bs n (if not (has b.flags in_use) then some b else lru) in
    if b.block_num == n then hit b else rest

-- The struct at an address, and the list without it.
unfoldable pub put : Buffer → List Buffer → List Buffer
put buf [] = []
put buf (b ∷ bs) = (if b.addr == buf.addr then buf else b) ∷ put buf bs

unfoldable pub remove : ℕ → List Buffer → List Buffer
remove a [] = []
remove a (b ∷ bs) = if b.addr == a then bs else b ∷ remove a bs

-- How Get_Buffer ends: with the buffer at an address, waiting for it, or with an error code.
pub data Got : Type 0 where
  acquired : ℕ → Got
  waiting : ℕ → Got
  failed : Rc → Got

-- From the label readAndAcquire on: `buf` is clean and stands in front of `rest`.
unfoldable pub read_and_acquire : Cache → Buffer → List Buffer → Run (Cache × Got)
unfolding do_buffer_io
read_and_acquire c buf rest = do
  (rc, dev', xs) ← do_buffer_io block_read c buf
  done (
      if is_ok rc
      then (
        record c {
          dev = dev';
          buffers = record buf { contents = xs; flags = set_flag buf.flags in_use } ∷ rest;
        },
        acquired buf.addr,
      )
      else (record c { dev = dev'; buffers = record buf { contents = xs } ∷ rest }, failed rc))

-- Stealing the least recently used buffer.
unfoldable pub evict : Cache → Option Buffer → Run (Cache × Got)
evict c none = done (c, failed enomem)
evict c (some lru) = do
  (rc, dev', lru') ← sync_buffer c lru
  if is_ok rc
      then read_and_acquire (record c { dev = dev' }) (record lru' { flags = 0 })
          (remove lru.addr c.buffers)
      else done (record c { dev = dev' }, failed rc)

-- `alloc` is what Malloc and Alloc_Page give: an address and what the new page holds, or `none` if
-- one of them fails.
unfoldable pub get_missing : Option (ℕ × List ℕ) → Cache → ℕ → Option Buffer → Run (Cache × Got)
unfolding evict
get_missing none c n lru = evict c lru
get_missing (some (a, page)) c n lru =
    if ltb c.num_cached max_blocks
    then read_and_acquire (record c { num_cached = c.num_cached + 1 })
        (record { addr = a; block_num = n; contents = page; flags = 0 }) c.buffers
    else evict c lru

-- A buffer that is there already: taken, or waited for while it is in use.
unfoldable pub get_found : Cache → Buffer → Cache × Got
get_found c b = if has b.flags in_use then (c, waiting b.addr) else (
  record c { buffers = put (record b { flags = set_flag b.flags in_use }) c.buffers },
  acquired b.addr,
)

unfoldable pub get_buffer : Option (ℕ × List ℕ) → Cache → ℕ → Run (Cache × Got)
get_buffer alloc c n = elim (scan c.buffers n none) [
  | hit b ↦ done (get_found c b)
  | miss lru ↦ get_missing alloc c n lru
]

unfoldable pub get_fs_buffer : Option (ℕ × List ℕ) → Cache → ℕ → Run (Cache × Got)
get_fs_buffer alloc c n = get_buffer alloc c n

-- The loop of Sync_Cache over the buffers that are left: the code, the device and these buffers.
unfoldable pub sync_loop : Cache → List Buffer → Run (Rc × Device × List Buffer)
sync_loop c [] = done (ok, c.dev, [])
sync_loop c (b ∷ bs) = do
  (rc, dev', b') ← sync_buffer c b
  let rest = sync_loop (record c { dev = dev' }) bs
  if is_ok rc
      then (rest >>= λ (rc', dev'', bs'). done (rc', dev'', b' ∷ bs'))
      else done (rc, dev', b' ∷ bs)

unfoldable pub sync_cache : Cache → Run (Rc × Cache)
sync_cache c = do
  (rc, dev', bs) ← sync_loop c c.buffers
  done (rc, record c { dev = dev'; buffers = bs })

unfoldable pub sync_fs_buffer_cache : Cache → Run (Rc × Cache)
sync_fs_buffer_cache c = sync_cache c

-- The buffer operations take the struct that the address names.
unfoldable pub find : ℕ → List Buffer → Option Buffer
find a [] = none
find a (b ∷ bs) = if b.addr == a then some b else find a bs

-- An address that names no buffer of the cache is a wild pointer.
unfoldable pub modify_fs_buffer : Cache → ℕ → Run Cache
modify_fs_buffer c a = elim (find a c.buffers) [
  | none ↦ stop wild_pointer
  | some b ↦ do
    kassert (has b.flags in_use)
    done (record c { buffers = put (record b { flags = set_flag b.flags dirty }) c.buffers })
]

unfoldable pub sync_fs_buffer : Cache → ℕ → Run (Rc × Cache)
sync_fs_buffer c a = elim (find a c.buffers) [
  | none ↦ stop wild_pointer
  | some b ↦ do
    kassert (has b.flags in_use)
    (rc, dev', b') ← sync_buffer c b
    done (rc, record c { dev = dev'; buffers = put b' c.buffers })
]

unfoldable pub release_fs_buffer : Cache → ℕ → Run (Rc × Cache)
release_fs_buffer c a = elim (find a c.buffers) [
  | none ↦ stop wild_pointer
  | some b ↦ do
    kassert (has b.flags in_use)
    done (ok, record c { buffers = put (record b { flags = clear_flag b.flags in_use }) c.buffers })
]

-- Create_FS_Buffer_Cache, where Malloc succeeds.
unfoldable pub create_fs_buffer_cache : Device → ℕ → Cache
create_fs_buffer_cache dev size = record {
  dev = dev;
  fs_block_size = size;
  num_cached = 0;
  buffers = [];
}

-- The loop of Destroy_FS_Buffer_Cache that frees the buffers; false is a failed KASSERT.
unfoldable pub free_buffers : List Buffer → Bool
free_buffers [] = true
free_buffers (b ∷ bs) = not (has b.flags (bit_or dirty in_use)) && free_buffers bs

-- The code and the device.
unfoldable pub destroy_fs_buffer_cache : Cache → Run (Rc × Device)
destroy_fs_buffer_cache c = do
  (rc, c') ← sync_cache c
  kassert (free_buffers c'.buffers)
  done (rc, c'.dev)
