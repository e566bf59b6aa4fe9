-- ===== src/Bufcache/Tests.antt =====
-- The buffer cache at concrete inputs: blocks of two sectors.
use geekos.Base.{ltb, if◌then◌else◌, All, ℕ, ◌+◌, ◌≡◌, refl, none, some, List, [], ◌∷◌, arith}
use geekos.Base.Reasons.{done, Total}
use geekos.Errno.{Rc, ok, eio}
use geekos.Bufcache.{
  Device, Cache, Got, acquired, failed, get_fs_buffer, get_buffer, sync_fs_buffer_cache,
  get_num_sectors_per_fs_block, create_fs_buffer_cache, scan, get_missing, get_found,
  read_and_acquire, evict, sync_buffer, do_buffer_io, io_loop, block_read, block_write, sync_cache,
  sync_loop,
}
use geekos.Bufcache.Invariant.{IsValid, get_buffer-IsValid}
use geekos.Bufcache.Get.{Serves, Acquires, get_fs_buffer-Serves, get_fs_buffer-after_failure}
use geekos.Bufcache.Evict.{Misserves, get_fs_buffer-Misserves}
use geekos.Bufcache.Flush.{contents_of, Flushed, Coherent, sync_fs_buffer_cache-flushes}

-- Sector `n` holds `n + 100`; sectors from 50 on cannot be read.
abbrev disk : Device
disk = record { sectors = λ n. n + 100; status = λ n. if ltb n 50 then ok else eio }

-- Block 1 as it is on the device, and block 3 changed.
abbrev warm : Cache
warm = record {
  dev = disk;
  fs_block_size = 1024;
  num_cached = 2;
  buffers =
      record { addr = 10; block_num = 1; contents = 102 ∷ 103 ∷ []; flags = 0 }
      ∷ record { addr = 11; block_num = 3; contents = 1 ∷ 2 ∷ []; flags = 1 }
      ∷ [];
}

abbrev page : List ℕ
page = 0 ∷ 0 ∷ []

warm-IsValid : IsValid warm
unfolding get_num_sectors_per_fs_block
warm-IsValid = record {
  aligned = refl;
  counted = refl;
  bounded = omega arith;
  addrs = omega arith;
  blocks = omega arith;
  sizes = (refl, (refl, tt));
}

-- A request, a change, a release and a sync, from an empty cache.
session :
    Total
      (λ r.
        (r.1 ≡ acquired 20)
        × (contents_of r.0.buffers ≡ (20, 4, 108 ∷ 109 ∷ []) ∷ [])
        × (get_fs_buffer none r.0 4 ≡ done (r.0, Got.waiting 20))
        × (get_fs_buffer none r.0 30 ≡ done (r.0, failed Rc.enomem)))
      (get_fs_buffer (some (20, page)) (create_fs_buffer_cache disk 1024) 4)
unfolding get_fs_buffer get_buffer create_fs_buffer_cache scan get_missing get_found
    read_and_acquire evict do_buffer_io io_loop block_read get_num_sectors_per_fs_block
session = (refl, refl, refl, refl)

get_buffer-IsValid_example : Total (λ r. IsValid r.0) (get_buffer (some (20, page)) warm 4)
unfolding get_num_sectors_per_fs_block
get_buffer-IsValid_example = get_buffer-IsValid (some (20, page)) warm 4 (omega arith) warm-IsValid

get_fs_buffer-Serves_example : Total (Serves warm 4) (get_fs_buffer (some (20, page)) warm 4)
unfolding get_num_sectors_per_fs_block
get_fs_buffer-Serves_example = get_fs_buffer-Serves 20 page warm 4 (omega arith) refl refl

-- The cache with its count at the limit.
abbrev full : Cache
full = record warm { num_cached = 128 }

get_fs_buffer-Misserves_example : Total (Misserves full 4) (get_fs_buffer (some (20, page)) full 4)
unfolding get_num_sectors_per_fs_block
get_fs_buffer-Misserves_example =
    get_fs_buffer-Misserves (some (20, page)) full 4 (omega arith) (omega arith) refl
      (refl, (refl, tt))

-- Block 30 begins at sector 60.
abbrev broken : Cache
broken = record warm {
  num_cached = 3;
  buffers = record { addr = 20; block_num = 30; contents = page; flags = 0 } ∷ warm.buffers;
}

broken_read : get_fs_buffer (some (20, page)) warm 30 ≡ done (broken, failed eio)
unfolding get_fs_buffer get_buffer scan get_missing read_and_acquire do_buffer_io io_loop block_read
    get_num_sectors_per_fs_block
broken_read = refl

get_fs_buffer-after_failure_example : Total (Acquires 20 disk) (get_fs_buffer none broken 30)
get_fs_buffer-after_failure_example =
    get_fs_buffer-after_failure 20 page none warm broken 30 eio (omega arith) broken_read

warm-Coherent : All (Coherent disk.sectors 2) warm.buffers
warm-Coherent = (λ h. (refl, (refl, tt)), (λ h. cc, tt))

sync_fs_buffer_cache-flushes_example : Total (Flushed warm) (sync_fs_buffer_cache warm)
unfolding get_num_sectors_per_fs_block
sync_fs_buffer_cache-flushes_example =
    sync_fs_buffer_cache-flushes warm warm-IsValid (omega arith) warm-Coherent

-- The sync writes the changed block, and only that.
synced :
    Total
      (λ r.
        (r.0 ≡ ok) × (r.1.dev.sectors 6 ≡ 1) × (r.1.dev.sectors 7 ≡ 2) × (r.1.dev.sectors 8 ≡ 108))
      (sync_fs_buffer_cache warm)
unfolding sync_fs_buffer_cache sync_cache sync_loop sync_buffer do_buffer_io io_loop block_write
    get_num_sectors_per_fs_block
synced = (refl, refl, refl, refl)
