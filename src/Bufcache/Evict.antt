-- ===== src/Bufcache/Evict.antt =====
-- Get_FS_Buffer of a full cache: the stolen buffer keeps the number of its old block.
use geekos.Base.{
  ltb, Bool-cases, length, All, ℕ, ◌≤◌, ◌≡◌, refl, sym, ap, subst, ◌∙◌, ◌≢◌, inl, inr, false,
  Option, none, some, List, arith,
}
use geekos.Base.Reasons.{Run, done, Total}
use geekos.Errno.{is_ok}
use geekos.Bufcache.{
  Device, Buffer, Cache, Scan, hit, miss, Got, acquired, waiting, failed, block_read, first_sector,
  in_use, set_flag, get_num_sectors_per_fs_block, scan, remove, read_and_acquire, evict,
  get_missing, get_found, get_buffer, get_fs_buffer, max_blocks,
}
use geekos.Bufcache.Io.{
  OnDisk, transfer, IsAligned, do_buffer_io-done, synced, sync_buffer-done, read-Reads,
}
use geekos.Bufcache.Buffers.{In, All-In, All-remove, ScanOf, scan-ScanOf}
use geekos.Bufcache.Invariant.{synced-same, HasSize}

-- A request for block `n` that ends with a buffer of another block, read from that block's sectors,
-- while block `n` is still in no buffer.
abbrev pub Misserves : Cache → ℕ → Cache × Got → Type 0
Misserves c n (c', acquired a) =
    (b : Buffer) × In b c'.buffers
    × (b.addr ≡ a)
    × (b.block_num ≢ n)
    × OnDisk c'.dev.sectors (first_sector (get_num_sectors_per_fs_block c) b.block_num) b.contents
    × All (λ x. x.block_num ≢ n) c'.buffers
Misserves c n (c', waiting a) = ⊥
Misserves c n (c', failed rc) = is_ok rc ≡ false

steal-Misserves :
    (c : Cache) (n : ℕ) (dev : Device) (buf : Buffer) (rest : List Buffer)
    → buf.block_num ≢ n
    → All (λ x. x.block_num ≢ n) rest
    → IsAligned c
    → HasSize (get_num_sectors_per_fs_block c) buf
    → Total (Misserves c n) (read_and_acquire (record c { dev = dev }) buf rest)
unfolding read_and_acquire get_num_sectors_per_fs_block
steal-Misserves c n dev buf rest ne absent aligned size =
    let s = first_sector (get_num_sectors_per_fs_block c) buf.block_num in
    let r = transfer block_read dev s buf.contents in
    let reads = read-Reads dev s buf.contents in
    rw (do_buffer_io-done block_read (record c { dev = dev }) buf aligned size)
      (elim (Bool-cases (is_ok r.0)) [
        | inl e ↦ rw e (
          record buf { contents = r.2; flags = set_flag buf.flags in_use },
          inl refl,
          refl,
          ne,
          subst (λ (d : Device). OnDisk d.sectors s r.2) (sym reads.device) (reads.fetched e),
          (ne, absent),
        )
        | inr e ↦ rw e e
      ])

evict-Misserves :
    (c : Cache) (n : ℕ) (lru : Option Buffer)
    → ScanOf c.buffers n none (miss lru)
    → IsAligned c
    → All (HasSize (get_num_sectors_per_fs_block c)) c.buffers
    → Total (Misserves c n) (evict c lru)
unfolding evict
evict-Misserves c n none h aligned sizes = refl
evict-Misserves c n (some b) (absent, inl m) aligned sizes =
    let s = synced c b in
    let size = All-In (HasSize (get_num_sectors_per_fs_block c)) b c.buffers sizes m.0 in
    rw (sync_buffer-done c b aligned size) (elim (Bool-cases (is_ok s.0)) [
      | inl e ↦ rw e (
          steal-Misserves c n s.1 (record (s.2) { flags = 0 }) (remove b.addr c.buffers)
            (λ same.
              All-In (λ x. x.block_num ≢ n) b c.buffers absent m.0 (sym (synced-same c b).1 ∙ same))
            (All-remove (λ x. x.block_num ≢ n) b.addr c.buffers absent) aligned
            (ap length (synced-same c b).2 ∙ size))
      | inr e ↦ rw e e
    ])
evict-Misserves c n (some b) (absent, inr bad) aligned sizes = cc

-- Get_FS_Buffer of a block that is not cached, while 128 buffers are, never returns a buffer of that
-- block: it ends, and fails, or returns a buffer that carries the number and the data of another block. For
-- buffers of one block each, and a block size that is a multiple of the sector size.
pub get_fs_buffer-Misserves :
    (alloc : Option (ℕ × List ℕ)) (c : Cache) (n : ℕ)
    → max_blocks ≤ c.num_cached
    → All (λ x. x.block_num ≢ n) c.buffers
    → IsAligned c
    → All (HasSize (get_num_sectors_per_fs_block c)) c.buffers
    → Total (Misserves c n) (get_fs_buffer alloc c n)
unfolding get_fs_buffer get_buffer get_missing
get_fs_buffer-Misserves alloc c n full absent aligned sizes =
    go (scan c.buffers n none) (scan-ScanOf c.buffers n none)
  where
    missing :
        (al : Option (ℕ × List ℕ)) (lru : Option Buffer)
        → ScanOf c.buffers n none (miss lru)
        → Total (Misserves c n) (get_missing al c n lru)
    missing none lru h = evict-Misserves c n lru h aligned sizes
    missing (some (a, page)) lru h =
        let no_room : ltb c.num_cached max_blocks ≡ false = ground arith in
        rw no_room (evict-Misserves c n lru h aligned sizes)

    go :
        (s : Scan)
        → ScanOf c.buffers n none s
        → Total (Misserves c n) (elim s as (λ x. Run (Cache × Got)) [
          | hit b ↦ done (get_found c b)
          | miss lru ↦ get_missing alloc c n lru
        ])
    go (hit b) (m, e) = absurd (All-In (λ x. x.block_num ≢ n) b c.buffers absent m e)
    go (miss lru) h = missing alloc lru h
