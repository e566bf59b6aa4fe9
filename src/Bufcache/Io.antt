-- ===== src/Bufcache/Io.antt =====
-- Do_Buffer_IO and Sync_Buffer: what a transfer does to the device and to the buffer.
use geekos.Base.{
  ◌==◌, if◌then◌else◌, ==-self, Bool-cases, length, ℕ, suc, ◌+◌, ◌*◌, ◌≤◌, ◌<◌, ◌≡◌, refl, sym, ap,
  ◌∙◌, ◌⊎◌, inl, inr, true, false, List, [], ◌∷◌, arith,
}
use geekos.Base.Bits.{has}
use geekos.Base.Reasons.{done, ◌>>=◌}
use geekos.Errno.{Rc, ok, is_ok, Rc-cases}
use geekos.Bufcache.{
  Device, Buffer, Cache, write_sector, block_read, block_write, io_loop, do_buffer_io, num_rounds,
  check_rounds, sync_buffer, dirty, clear_flag, first_sector, sector_size,
  get_num_sectors_per_fs_block,
}

-- The sectors from `n` on hold `xs`.
abbrev pub OnDisk : (ℕ → ℕ) → ℕ → List ℕ → Type 0
OnDisk f n [] = Unit
OnDisk f n (x ∷ xs) = (f n ≡ x) × OnDisk f (n + 1) xs

pub OnDisk-ext :
    (f g : ℕ → ℕ) (n : ℕ) (xs : List ℕ)
    → ((m : ℕ) → n ≤ m → m < n + length xs → g m ≡ f m)
    → OnDisk f n xs
    → OnDisk g n xs
OnDisk-ext f g n [] same h = tt
OnDisk-ext f g n (x ∷ xs) same (e, h) = (
  same n (omega arith) (omega arith) ∙ e,
  OnDisk-ext f g (n + 1) xs (λ m lo hi. same m (omega arith) (omega arith)) h,
)

-- The transfer of all the sectors of a sequence.
abbrev pub transfer :
    (Device → ℕ → ℕ → Rc × Device × ℕ) → Device → ℕ → List ℕ → Rc × Device × List ℕ
transfer io dev n [] = (ok, dev, [])
transfer io dev n (x ∷ xs) =
    let (rc, dev', x') = io dev n x in
    let (rc', dev'', xs') = transfer io dev' (n + 1) xs in
    if is_ok rc then (rc', dev'', x' ∷ xs') else (rc, dev', x' ∷ xs)

io_loop-transfer :
    (io : Device → ℕ → ℕ → Rc × Device × ℕ) (dev : Device) (n : ℕ) (xs : List ℕ)
    → io_loop io (length xs) dev n xs ≡ done (transfer io dev n xs)
unfolding io_loop
io_loop-transfer io dev n [] = refl
io_loop-transfer io dev n (x ∷ xs) = elim (Bool-cases (is_ok (io dev n x).0)) [
  | inl e ↦ rw (e, io_loop-transfer io (io dev n x).1 (n + 1) xs) refl
  | inr e ↦ rw e refl
]

-- The block size is a multiple of the sector size.
abbrev pub IsAligned : Cache → Type 0
IsAligned c = get_num_sectors_per_fs_block c * sector_size ≡ c.fs_block_size

-- The transfer of Do_Buffer_IO.
abbrev pub block_transfer :
    (Device → ℕ → ℕ → Rc × Device × ℕ) → Cache → Buffer → Rc × Device × List ℕ
block_transfer io c b =
    transfer io c.dev (first_sector (get_num_sectors_per_fs_block c) b.block_num) b.contents

-- With a block size that is a multiple of the sector size, and a buffer of one block, Do_Buffer_IO fails no
-- assertion and transfers the block.
pub do_buffer_io-done :
    (io : Device → ℕ → ℕ → Rc × Device × ℕ) (c : Cache) (b : Buffer)
    → IsAligned c
    → length b.contents ≡ get_num_sectors_per_fs_block c
    → do_buffer_io io c b ≡ done (block_transfer io c b)
unfolding do_buffer_io
do_buffer_io-done io c b aligned size =
    let rounds : num_rounds c.fs_block_size ≡ get_num_sectors_per_fs_block c =
      omega (arith, aligned) in
    let count : num_rounds c.fs_block_size ≡ length b.contents = rounds ∙ sym size in
    let s = first_sector (get_num_sectors_per_fs_block c) b.block_num in
    let whole : (num_rounds c.fs_block_size * sector_size == c.fs_block_size) ≡ true =
      ground (arith, rounds, aligned) in
    let equal : (num_rounds c.fs_block_size == get_num_sectors_per_fs_block c) ≡ true =
      ground (arith, rounds) in
    ap (λ k. io_loop io k c.dev s b.contents >>= check_rounds c) count
    ∙ ap (λ m. m >>= check_rounds c) (io_loop-transfer io c.dev s b.contents)
    ∙ elim (Bool-cases (is_ok (block_transfer io c b).0)) [
      | inl e ↦ rw (e, whole, equal) refl
      | inr e ↦ rw e refl
    ]

-- What a read that starts at `n` leaves: the device as it was, as many sectors, after success what the
-- device holds, and after a failure the code of one of the sectors.
pub record Reads (dev : Device) (n : ℕ) (xs : List ℕ) (r : Rc × Device × List ℕ) : Type 0 where
  pub device : r.1 ≡ dev
  pub size : length r.2 ≡ length xs
  pub fetched : is_ok r.0 ≡ true → OnDisk dev.sectors n r.2
  pub refused : is_ok r.0 ≡ false → (i : ℕ) × (i < length xs) × (r.0 ≡ dev.status (n + i))

pub read-Reads :
    (dev : Device) (n : ℕ) (xs : List ℕ) → Reads dev n xs (transfer block_read dev n xs)
unfolding block_read
read-Reads dev n [] = record {
  device = refl;
  size = refl;
  fetched = λ h. tt;
  refused = λ h. absurd cc;
}
read-Reads dev n (x ∷ xs) = elim (Rc-cases (dev.status n)) [
  | inl e ↦
      let ih = read-Reads dev (n + 1) xs in
      rw e (record {
        device = ih.device;
        size = ap suc ih.size;
        fetched = λ h. (refl, ih.fetched h);
        refused = λ h.
            let (i, lt, code) = ih.refused h in
            (i + 1, omega (arith, lt), code ∙ ap dev.status (omega arith));
      })
  | inr e ↦
      rw (e, e)
        (record {
          device = refl;
          size = refl;
          fetched = λ h. cc;
          refused = λ h. (0, omega arith, ap dev.status (omega arith));
        })
]

-- What a write leaves: the buffer as it was, the sectors outside the block as they were, and after
-- success the buffer on the device.
pub record Writes (dev : Device) (n : ℕ) (xs : List ℕ) (r : Rc × Device × List ℕ) : Type 0 where
  pub status : r.1.status ≡ dev.status
  pub outside : (m : ℕ) → (m < n) ⊎ (n + length xs ≤ m) → r.1.sectors m ≡ dev.sectors m
  pub stored : is_ok r.0 ≡ true → OnDisk r.1.sectors n xs

pub write-Writes :
    (dev : Device) (n : ℕ) (xs : List ℕ) → Writes dev n xs (transfer block_write dev n xs)
unfolding block_write
write-Writes dev n [] = record { status = refl; outside = λ m h. refl; stored = λ h. tt }
write-Writes dev n (x ∷ xs) = elim (Rc-cases (dev.status n)) [
  | inl e ↦
      let dev' : Device = record dev { sectors = write_sector dev.sectors n x } in
      let ih = write-Writes dev' (n + 1) xs in
      rw e (record {
        status = ih.status;
        outside = λ m h. ih.outside m (beyond m h) ∙ other m h;
        stored = λ h. (ih.outside n (inl (omega arith)) ∙ rw (==-self n), ih.stored h);
      })
  | inr e ↦ rw (e, e) (record { status = refl; outside = λ m h. refl; stored = λ h. cc })
]
  where
    beyond : (m : ℕ) → (m < n) ⊎ (n + suc (length xs) ≤ m) → (m < n + 1) ⊎ (n + 1 + length xs ≤ m)
    beyond m (inl h) = inl (omega arith)
    beyond m (inr h) = inr (omega arith)

    other :
        (m : ℕ)
        → (m < n) ⊎ (n + suc (length xs) ≤ m)
        → write_sector dev.sectors n x m ≡ dev.sectors m
    other m h = ground arith

-- What Sync_Buffer returns where it fails no assertion.
unfoldable pub synced : Cache → Buffer → Rc × Device × Buffer
synced c b =
    let (rc, dev', xs) = block_transfer block_write c b in
    if has b.flags dirty
    then (if is_ok rc
        then (ok, dev', record b { flags = clear_flag b.flags dirty })
        else (rc, dev', b))
    else (ok, c.dev, b)

pub sync_buffer-done :
    (c : Cache) (b : Buffer)
    → IsAligned c
    → length b.contents ≡ get_num_sectors_per_fs_block c
    → sync_buffer c b ≡ done (synced c b)
unfolding sync_buffer synced
sync_buffer-done c b aligned size = elim (Bool-cases (has b.flags dirty)) [
  | inl d ↦ rw (d, do_buffer_io-done block_write c b aligned size) refl
  | inr d ↦ rw d refl
]
