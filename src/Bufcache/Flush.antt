-- ===== src/Bufcache/Flush.antt =====
-- Sync_Cache, and coherence: a buffer that is not dirty holds what is on the device.
use geekos.Base.{
  ltb, if◌then◌else◌, ltb→lt, Bool-cases, length, All, ℕ, ◌+◌, ◌-◌, ◌*◌, ◌^◌, ◌≤◌, ◌<◌, ◌≡◌, refl,
  sym, ap, ap₂, subst, ◌∙◌, ◌≢◌, ◌⊎◌, inl, inr, true, false, List, [], ◌∷◌, map, arith,
}
use geekos.Base.Bits.{has}
use geekos.Base.Reasons.{done, Total}
use geekos.Errno.{Rc, ok, is_ok}
use geekos.Bufcache.{
  Device, Buffer, Cache, block_write, first_sector, dirty, clear_flag, get_num_sectors_per_fs_block,
  sync_loop, sync_cache, sync_fs_buffer_cache,
}
use geekos.Bufcache.Io.{
  OnDisk, OnDisk-ext, IsAligned, block_transfer, synced, sync_buffer-done, write-Writes,
}
use geekos.Bufcache.Flags.{clear_dirty}
use geekos.Bufcache.Buffers.{Unique}
use geekos.Bufcache.Invariant.{synced-same, HasSize, IsValid}

-- The buffer is what the device holds for its block, of `p` sectors.
abbrev pub Stored : (ℕ → ℕ) → ℕ → Buffer → Type 0
Stored f p b = OnDisk f (first_sector p b.block_num) b.contents

abbrev pub Coherent : (ℕ → ℕ) → ℕ → Buffer → Type 0
Coherent f p b = has b.flags dirty ≡ false → Stored f p b

-- The sector numbers of the block fit into 32 bits.
abbrev pub InRange : ℕ → Buffer → Type 0
InRange p b = b.block_num * p + p ≤ 2 ^ 32 - 1

abbrev pub IsClean : (ℕ → ℕ) → ℕ → Buffer → Type 0
IsClean f p b = (has b.flags dirty ≡ false) × Stored f p b

-- The transfer that Sync_Buffer makes, and its three endings.
abbrev block_io : Cache → Buffer → Rc × Device × List ℕ
block_io c b = block_transfer block_write c b

abbrev SyncOf : Cache → Buffer → Rc × Device × Buffer → Type 0
SyncOf c b s =
    ((has b.flags dirty ≡ false) × (s ≡ (ok, c.dev, b)))
    ⊎ ((has b.flags dirty ≡ true)
        × (is_ok (block_io c b).0 ≡ true)
        × (s ≡ (ok, (block_io c b).1, record b { flags = clear_flag b.flags dirty })))
    ⊎ ((has b.flags dirty ≡ true)
        × (is_ok (block_io c b).0 ≡ false)
        × (s ≡ ((block_io c b).0, (block_io c b).1, b)))

synced-SyncOf : (c : Cache) (b : Buffer) → SyncOf c b (synced c b)
unfolding synced
synced-SyncOf c b = elim (Bool-cases (has b.flags dirty)) [
  | inl d ↦ elim (Bool-cases (is_ok (block_io c b).0)) [
    | inl e ↦ inr (inl (d, e, rw (d, e)))
    | inr e ↦ inr (inr (d, e, rw (d, e)))
  ]
  | inr d ↦ inl (d, rw d)
]

-- Blocks do not overlap.
apart : (i j p : ℕ) → i < j → i * p + p ≤ j * p
apart i j p h = grind arith

first_sector-eq : (p n : ℕ) → n * p + p ≤ 2 ^ 32 - 1 → first_sector p n ≡ n * p
first_sector-eq p n h = omega arith

-- The sectors of block `k` are the same in `f` and `g`.
abbrev pub SameBlock : (ℕ → ℕ) → (ℕ → ℕ) → ℕ → ℕ → Type 0
SameBlock f g p k = (m : ℕ) → k * p ≤ m → m < k * p + p → g m ≡ f m

-- What the loop of Sync_Cache returns where no assertion fails.
synced_loop : Cache → List Buffer → Rc × Device × List Buffer
synced_loop c [] = (ok, c.dev, [])
synced_loop c (b ∷ bs) =
    let (rc, dev', b') = synced c b in
    let (rc', dev'', bs') = synced_loop (record c { dev = dev' }) bs in
    if is_ok rc then (rc', dev'', b' ∷ bs') else (rc, dev', b' ∷ bs)

sync_loop-done :
    (bs : List Buffer) (c : Cache)
    → IsAligned c
    → All (HasSize (get_num_sectors_per_fs_block c)) bs
    → sync_loop c bs ≡ done (synced_loop c bs)
unfolding sync_loop synced_loop get_num_sectors_per_fs_block
sync_loop-done [] c aligned sizes = refl
sync_loop-done (b ∷ bs) c aligned (size, sizes) =
    let rest = sync_loop-done bs (record c { dev = (synced c b).1 }) aligned sizes in
    rw (sync_buffer-done c b aligned size)
      (elim (Bool-cases (is_ok (synced c b).0)) [ inl e ↦ rw (e, rest) refl | inr e ↦ rw e refl ])

module _ (p : ℕ) where
  Stored-same :
      (f g : ℕ → ℕ) (b : Buffer)
      → InRange p b
      → HasSize p b
      → SameBlock f g p b.block_num
      → Stored f p b
      → Stored g p b
  Stored-same f g b r size same h =
      let e = first_sector-eq p b.block_num r in
      OnDisk-ext f g (first_sector p b.block_num) b.contents
        (λ m lo hi. same m (omega (arith, e)) (omega (arith, e, size))) h

  -- What one Sync_Buffer that succeeds leaves.
  pub synced-IsClean :
      (c : Cache) (b : Buffer)
      → get_num_sectors_per_fs_block c ≡ p
      → Coherent c.dev.sectors p b
      → is_ok (synced c b).0 ≡ true
      → IsClean (synced c b).1.sectors p (synced c b).2
  synced-IsClean c b e h o = elim (synced-SyncOf c b) [
    | inl (d, s) ↦ rw s (d, h d)
    | inr (inl (d, k, s)) ↦ rw s (
      clear_dirty b.flags,
      subst (λ q. OnDisk (block_io c b).1.sectors (first_sector q b.block_num) b.contents) e
          ((write-Writes c.dev (first_sector (get_num_sectors_per_fs_block c) b.block_num)
              b.contents).stored
            k),
    )
    | inr (inr (d, k, s)) ↦ cc (sym k ∙ ap (λ (t : Rc × Device × Buffer). is_ok t.0) (sym s) ∙ o)
  ]

  -- Sync_Buffer touches no sector of another block, whatever it returns.
  pub synced-SameBlock :
      (c : Cache) (b : Buffer) (k : ℕ)
      → get_num_sectors_per_fs_block c ≡ p
      → InRange p b
      → HasSize p b
      → k ≢ b.block_num
      → SameBlock c.dev.sectors (synced c b).1.sectors p k
  synced-SameBlock c b k e r size ne = elim (synced-SyncOf c b) [
    | inl (d, s) ↦ rw s (λ m lo hi. refl)
    | inr (inl (d, k', s)) ↦ rw s written
    | inr (inr (d, k', s)) ↦ rw s written
  ]
    where
      written : SameBlock c.dev.sectors (block_io c b).1.sectors p k
      written m lo hi =
          (write-Writes c.dev (first_sector (get_num_sectors_per_fs_block c) b.block_num)
              b.contents).outside
            m
            (elim (Bool-cases (ltb k b.block_num)) [
              | inl lt ↦ inl (
                  omega (
                    arith,
                    apart k b.block_num p (ltb→lt k b.block_num lt),
                    first_sector-eq p b.block_num r,
                    ap (λ q. first_sector q b.block_num) e,
                  ))
              | inr ge ↦ inr (
                  omega (
                    arith,
                    apart b.block_num k p (ground arith),
                    first_sector-eq p b.block_num r,
                    ap (λ q. first_sector q b.block_num) e,
                    size,
                  ))
            ])

  -- The loop of Sync_Cache leaves the blocks of all other buffers alone.
  synced_loop-SameBlock :
      (bs : List Buffer) (c : Cache) (k : ℕ)
      → get_num_sectors_per_fs_block c ≡ p
      → All (InRange p) bs
      → All (HasSize p) bs
      → All (λ x. x.block_num ≢ k) bs
      → SameBlock c.dev.sectors (synced_loop c bs).1.sectors p k
  unfolding synced_loop get_num_sectors_per_fs_block
  synced_loop-SameBlock [] c k e r size absent = λ m lo hi. refl
  synced_loop-SameBlock (b ∷ bs) c k e r size absent =
      let first = synced-SameBlock c b k e r.0 size.0 (λ s. absent.0 (sym s)) in
      let rest =
        synced_loop-SameBlock bs (record c { dev = (synced c b).1 }) k e r.1 size.1 absent.1 in
      elim (Bool-cases (is_ok (synced c b).0)) [
        | inl o ↦ rw o (λ m lo hi. rest m lo hi ∙ first m lo hi)
        | inr o ↦ rw o first
      ]

  Coherent-same :
      (f g : ℕ → ℕ) (k : ℕ) (bs : List Buffer)
      → ((j : ℕ) → j ≢ k → SameBlock f g p j)
      → All (InRange p) bs
      → All (HasSize p) bs
      → All (λ x. x.block_num ≢ k) bs
      → All (Coherent f p) bs
      → All (Coherent g p) bs
  Coherent-same f g k [] same r size absent h = tt
  Coherent-same f g k (b ∷ bs) same r size absent h = (
    λ d. Stored-same f g b r.0 size.0 (same b.block_num absent.0) (h.0 d),
    Coherent-same f g k bs same r.1 size.1 absent.1 h.1,
  )

  -- After a loop that succeeds every buffer is clean.
  synced_loop-IsClean :
      (bs : List Buffer) (c : Cache)
      → get_num_sectors_per_fs_block c ≡ p
      → Unique (λ x. x.block_num) bs
      → All (InRange p) bs
      → All (HasSize p) bs
      → All (Coherent c.dev.sectors p) bs
      → is_ok (synced_loop c bs).0 ≡ true
      → All (IsClean (synced_loop c bs).1.sectors p) (synced_loop c bs).2
  unfolding synced_loop get_num_sectors_per_fs_block
  synced_loop-IsClean [] c e u r size h = λ o. tt
  synced_loop-IsClean (b ∷ bs) c e u r size h =
      let next : Cache = record c { dev = (synced c b).1 } in
      let (ea, en, ec) = synced-same c b in
      let coherent =
        Coherent-same c.dev.sectors (synced c b).1.sectors b.block_num bs
          (λ j ne. synced-SameBlock c b j e r.0 size.0 ne) r.1 size.1 u.0 h.1 in
      let tail = synced_loop-IsClean bs next e u.1 r.1 size.1 coherent in
      let kept = synced_loop-SameBlock bs next b.block_num e r.1 size.1 u.0 in
      elim (Bool-cases (is_ok (synced c b).0)) [
        | inl k ↦
            let clean = synced-IsClean c b e h.0 k in
            rw k (λ o. (
              (
                clean.0,
                Stored-same (synced c b).1.sectors (synced_loop next bs).1.sectors (synced c b).2
                    (subst (λ n. n * p + p ≤ 2 ^ 32 - 1) (sym en) r.0) (ap length ec ∙ size.0)
                    (subst (SameBlock (synced c b).1.sectors (synced_loop next bs).1.sectors p)
                      (sym en) kept)
                    clean.1,
              ),
              tail o,
            ))
        | inr k ↦ rw k (λ o. cc (sym k ∙ o))
      ]

-- Which buffers there are, and what they hold, apart from the flags.
abbrev pub contents_of : List Buffer → List (ℕ × ℕ × List ℕ)
contents_of = map (λ b. (b.addr, b.block_num, b.contents))

synced_loop-contents :
    (bs : List Buffer) (c : Cache) → contents_of (synced_loop c bs).2 ≡ contents_of bs
unfolding synced_loop
synced_loop-contents [] c = refl
synced_loop-contents (b ∷ bs) c = elim (Bool-cases (is_ok (synced c b).0)) [
  | inl o ↦
      rw o (ap₂ (λ x l. x ∷ l) first (synced_loop-contents bs (record c { dev = (synced c b).1 })))
  | inr o ↦ rw o (ap (λ t. t ∷ contents_of bs) first)
]
  where
    first :
        ◌≡◌ {A = ℕ × ℕ × List ℕ}
          ((synced c b).2.addr, (synced c b).2.block_num, (synced c b).2.contents)
          (b.addr, b.block_num, b.contents)
    first = let (ea, en, ec) = synced-same c b in λ i. (ea i, en i, ec i)

-- What a sync leaves: every buffer as it was but for the flags, and after success every buffer clean.
abbrev pub Flushed : Cache → Rc × Cache → Type 0
Flushed c (rc, c') =
    (contents_of c'.buffers ≡ contents_of c.buffers)
    × (is_ok rc ≡ true → All (IsClean c'.dev.sectors (get_num_sectors_per_fs_block c)) c'.buffers)

-- Sync_FS_Buffer_Cache loses no write: of a valid cache whose clean buffers agree with the device and
-- whose sector numbers fit into 32 bits, it ends with no failed assertion, leaves every buffer as it was but
-- for the flags, and when it returns 0 every buffer is clean and stands on the device, in the sectors of its
-- block.
pub sync_fs_buffer_cache-flushes :
    (c : Cache)
    → IsValid c
    → All (InRange (get_num_sectors_per_fs_block c)) c.buffers
    → All (Coherent c.dev.sectors (get_num_sectors_per_fs_block c)) c.buffers
    → Total (Flushed c) (sync_fs_buffer_cache c)
unfolding sync_fs_buffer_cache sync_cache
sync_fs_buffer_cache-flushes c v r h = rw (sync_loop-done c.buffers c v.aligned v.sizes) (
  synced_loop-contents c.buffers c,
  λ o. synced_loop-IsClean (get_num_sectors_per_fs_block c) c.buffers c refl v.blocks r v.sizes h o,
)
