-- ===== src/Bufcache/Get.antt =====
-- Get_FS_Buffer while the cache may still grow.
use geekos.Base.{
  if◌then◌else◌, lt→ltb, ==-self, Bool-cases, length, All, ℕ, ◌+◌, ◌<◌, ◌≡◌, refl, sym, ap, ◌∙◌,
  ◌≢◌, ◌⊎◌, inl, inr, true, false, Option, none, some, List, [], ◌∷◌, arith,
}
use geekos.Base.Bits.{has}
use geekos.Base.Reasons.{Run, done, stop, ◌>>=◌, Total}
use geekos.Errno.{Rc, is_ok}
use geekos.Bufcache.{
  Device, Buffer, Cache, Scan, hit, miss, Got, acquired, waiting, failed, block_read, first_sector,
  in_use, set_flag, get_num_sectors_per_fs_block, do_buffer_io, scan, put, read_and_acquire,
  get_missing, get_found, get_buffer, get_fs_buffer, max_blocks,
}
use geekos.Bufcache.Io.{OnDisk, transfer, IsAligned, do_buffer_io-done, read-Reads}
use geekos.Bufcache.Flags.{set_in_use}
use geekos.Bufcache.Buffers.{In, ScanOf, scan-ScanOf}

-- No buffer is one of block `n`.
abbrev pub IsAbsent : ℕ → List Buffer → Type 0
IsAbsent n bs = All (λ x. x.block_num ≢ n) bs

-- What a request for block `n` of the cache `c` comes to.
-- It acquires a buffer of the block, marked in use: where none was cached, a new one at the front that holds
-- what the device holds, with the device and all else as it was; else the cached one, which was not in
-- use, with its contents as they were and the device not used.
-- It waits, with nothing changed, where the cached buffer of the block is in use.
-- It fails where none was cached and the device does not give a sector of the block, with the code of that
-- sector.
abbrev pub Serves : Cache → ℕ → Cache × Got → Type 0
Serves c n (c', acquired a) =
    (b : Buffer) × (b.addr ≡ a)
    × (b.block_num ≡ n)
    × (has b.flags in_use ≡ true)
    × ((IsAbsent n c.buffers
          × OnDisk c.dev.sectors (first_sector (get_num_sectors_per_fs_block c) n) b.contents
          × (c' ≡ record c { num_cached = c.num_cached + 1; buffers = b ∷ c.buffers }))
        ⊎ ((old : Buffer) × In old c.buffers
            × (old.addr ≡ a)
            × (old.block_num ≡ n)
            × (has old.flags in_use ≡ false)
            × (b.contents ≡ old.contents)
            × In b c'.buffers
            × (c'.num_cached ≡ c.num_cached)
            × (c'.dev ≡ c.dev)))
Serves c n (c', waiting a) =
    (b : Buffer) × In b c.buffers
    × (b.addr ≡ a)
    × (b.block_num ≡ n)
    × (has b.flags in_use ≡ true)
    × (c' ≡ c)
Serves c n (c', failed rc) =
    IsAbsent n c.buffers
    × (is_ok rc ≡ false)
    × ((i : ℕ) × (i < get_num_sectors_per_fs_block c)
        × (rc ≡ c.dev.status (first_sector (get_num_sectors_per_fs_block c) n + i)))

In-put : (b b' : Buffer) (bs : List Buffer) → In b bs → b'.addr ≡ b.addr → In b' (put b' bs)
unfolding put
In-put b b' [] m e = elim m [ ]
In-put b b' (x ∷ xs) (inl h) e = inl (rw (ap (λ (z : Buffer). z.addr) h ∙ sym e, ==-self b'.addr))
In-put b b' (x ∷ xs) (inr m) e = inr (In-put b b' xs m e)

-- A new buffer for block `n` in front of the list.
read_new-Serves :
    (c : Cache) (n a : ℕ) (page : List ℕ)
    → IsAbsent n c.buffers
    → length page ≡ get_num_sectors_per_fs_block c
    → IsAligned c
    → Total (Serves c n) (
        read_and_acquire
          (record c { num_cached = c.num_cached + 1 })
          (record { addr = a; block_num = n; contents = page; flags = 0 })
          c.buffers)
unfolding read_and_acquire get_num_sectors_per_fs_block
read_new-Serves c n a page absent size aligned =
    let s = first_sector (get_num_sectors_per_fs_block c) n in
    let r = transfer block_read c.dev s page in
    let reads = read-Reads c.dev s page in
    rw
      (do_buffer_io-done block_read (record c { num_cached = c.num_cached + 1 })
        (record { addr = a; block_num = n; contents = page; flags = 0 }) aligned size)
      (elim (Bool-cases (is_ok r.0)) [
        | inl e ↦ rw e (
          record { addr = a; block_num = n; contents = r.2; flags = set_flag 0 in_use },
          refl,
          refl,
          set_in_use 0,
          inl (
            absent,
            reads.fetched e,
            ap
                (λ d. record c {
                  dev = d;
                  num_cached = c.num_cached + 1;
                  buffers =
                      record { addr = a; block_num = n; contents = r.2; flags = set_flag 0 in_use }
                      ∷ c.buffers;
                })
                reads.device,
          ),
        )
        | inr e ↦
            let (i, lt, code) = reads.refused e in
            rw e (absent, e, (i, omega (arith, lt, size), code))
      ])

-- While fewer than 128 buffers are cached and memory for a block can be had, Get_FS_Buffer serves the block
-- that was asked for: it acquires the cached buffer if there is one that is not in use, and waits for it
-- if it is in use; if there is none, it acquires a new buffer that holds the block as the device has it,
-- or fails with the code of a sector of the block that the device does not give. No assertion fails. For a
-- block size that is a multiple of the sector size.
pub get_fs_buffer-Serves :
    (a : ℕ) (page : List ℕ) (c : Cache) (n : ℕ)
    → c.num_cached < max_blocks
    → length page ≡ get_num_sectors_per_fs_block c
    → IsAligned c
    → Total (Serves c n) (get_fs_buffer (some (a, page)) c n)
unfolding get_fs_buffer get_buffer get_found get_missing
get_fs_buffer-Serves a page c n room size aligned =
    go (scan c.buffers n none) (scan-ScanOf c.buffers n none)
  where
    absent :
        (o : Option Buffer)
        → ScanOf c.buffers n none (miss o)
        → All (λ b. b.block_num ≢ n) c.buffers
    absent none h = h.0
    absent (some x) h = h.0

    go :
        (s : Scan)
        → ScanOf c.buffers n none s
        → Total (Serves c n) (elim s as (λ x. Run (Cache × Got)) [
          | hit b ↦ done (get_found c b)
          | miss lru ↦ get_missing (some (a, page)) c n lru
        ])
    go (hit b) (m, e) = elim (Bool-cases (has b.flags in_use)) [
      | inl h ↦ rw h (b, m, refl, e, h, refl)
      | inr h ↦ rw h (
        record b { flags = set_flag b.flags in_use },
        refl,
        e,
        set_in_use b.flags,
        inr (
          b,
          m,
          refl,
          e,
          h,
          refl,
          In-put b (record b { flags = set_flag b.flags in_use }) c.buffers m refl,
          refl,
          refl,
        ),
      )
    ]
    go (miss lru) h =
        rw (lt→ltb c.num_cached max_blocks room)
          (read_new-Serves c n a page (absent lru h) size aligned)

scan-first :
    (b : Buffer) (bs : List Buffer) (n : ℕ) (lru : Option Buffer)
    → b.block_num ≡ n
    → scan (b ∷ bs) n lru ≡ hit b
unfolding scan
scan-first b bs n lru e = rw (e, ==-self n)

get_fs_buffer-hit :
    (alloc : Option (ℕ × List ℕ)) (c : Cache) (n : ℕ) (b : Buffer)
    → scan c.buffers n none ≡ hit b
    → get_fs_buffer alloc c n ≡ done (get_found c b)
unfolding get_fs_buffer get_buffer
get_fs_buffer-hit alloc c n b e = rw (e, get_fs_buffer, get_buffer)

-- The buffer at `a` is acquired, with the device as it was.
abbrev pub Acquires : ℕ → Device → Cache × Got → Type 0
Acquires a dev r = (r.1 ≡ acquired a) × (r.0.dev ≡ dev)

found-Acquires : (c : Cache) (b : Buffer) → b.flags ≡ 0 → Acquires b.addr c.dev (get_found c b)
unfolding get_found
found-Acquires c b clear = ground (arith, ap (λ f. has f in_use) clear)

taken_again :
    (alloc : Option (ℕ × List ℕ)) (c : Cache) (n : ℕ) (b : Buffer) (rest : List Buffer)
    → c.buffers ≡ b ∷ rest
    → b.block_num ≡ n
    → b.flags ≡ 0
    → Total (Acquires b.addr c.dev) (get_fs_buffer alloc c n)
taken_again alloc c n b rest shape num clear =
    rw
      (get_fs_buffer-hit alloc c n b (ap (λ l. scan l n none) shape ∙ scan-first b rest n none num))
      (found-Acquires c b clear)

-- What follows the read into a new buffer.
abbrev after_read : Cache → ℕ → ℕ → Rc × Device × List ℕ → Cache × Got
after_read c n a r =
    if is_ok r.0
    then (
      record c {
        num_cached = c.num_cached + 1;
        dev = r.1;
        buffers =
            record { addr = a; block_num = n; contents = r.2; flags = set_flag 0 in_use }
            ∷ c.buffers;
      },
      acquired a,
    )
    else (
      record c {
        num_cached = c.num_cached + 1;
        dev = r.1;
        buffers = record { addr = a; block_num = n; contents = r.2; flags = 0 } ∷ c.buffers;
      },
      failed r.0,
    )

failed_shape :
    (c c' : Cache) (n a : ℕ) (page : List ℕ) (rc : Rc)
    → read_and_acquire
        (record c { num_cached = c.num_cached + 1 })
        (record { addr = a; block_num = n; contents = page; flags = 0 })
        c.buffers
      ≡ done (c', failed rc)
    → (x : List ℕ) × (c'.buffers
        ≡ record { addr = a; block_num = n; contents = x; flags = 0 } ∷ c.buffers)
unfolding read_and_acquire
failed_shape c c' n a page rc e =
    go
      (do_buffer_io block_read (record c { num_cached = c.num_cached + 1 })
        (record { addr = a; block_num = n; contents = page; flags = 0 }))
      e
  where
    go :
        (m : Run (Rc × Device × List ℕ))
        → (m >>= λ r. done (after_read c n a r)) ≡ done (c', failed rc)
        → (x : List ℕ) × (c'.buffers
            ≡ record { addr = a; block_num = n; contents = x; flags = 0 } ∷ c.buffers)
    go (done r) h = (r.2, ground arith)
    go (stop w) h = cc

found_never_fails :
    (c c' : Cache) (b : Buffer) (rc : Rc)
    → ◌≢◌ {A = Run (Cache × Got)} (done (get_found c b)) (done (c', failed rc))
unfolding get_found
found_never_fails c c' b rc = ground arith

-- A read that fails leaves its buffer cached: where a first request for an absent block ends in an
-- error code, the next request acquires that buffer, with the device not read again. For a cache with
-- room.
pub get_fs_buffer-after_failure :
    (a : ℕ) (page : List ℕ) (alloc : Option (ℕ × List ℕ)) (c c' : Cache) (n : ℕ) (rc : Rc)
    → c.num_cached < max_blocks
    → get_fs_buffer (some (a, page)) c n ≡ done (c', failed rc)
    → Total (Acquires a c'.dev) (get_fs_buffer alloc c' n)
unfolding get_fs_buffer get_buffer get_missing
get_fs_buffer-after_failure a page alloc c c' n rc room e = go (scan c.buffers n none) e
  where
    go :
        (s : Scan)
        → (elim s as (λ x. Run (Cache × Got)) [
          | hit b ↦ done (get_found c b)
          | miss lru ↦ get_missing (some (a, page)) c n lru
        ])
          ≡ done (c', failed rc)
        → Total (Acquires a c'.dev) (get_fs_buffer alloc c' n)
    go (hit b) h = absurd (found_never_fails c c' b rc h)
    go (miss lru) h =
        let (x, shape) =
          failed_shape c c' n a page rc (rw (lt→ltb c.num_cached max_blocks room) at h) in
        taken_again alloc c' n (record { addr = a; block_num = n; contents = x; flags = 0 })
          c.buffers shape refl refl
