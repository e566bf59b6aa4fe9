-- ===== src/Bufcache/Invariant.antt =====
-- The invariant of a buffer cache, and that every operation keeps it.
use geekos.Base.{
  ltb, ltb→lt, Bool-cases, length, All, ℕ, suc, ◌+◌, ◌≤◌, ◌≡◌, refl, sym, ap, subst, ◌∙◌, ◌≢◌, inl,
  inr, Option, none, some, List, arith,
}
use geekos.Base.Bits.{has}
use geekos.Base.Reasons.{Run, done, Total}
use geekos.Errno.{is_ok}
use geekos.Bufcache.{
  Buffer, Cache, Scan, hit, miss, Got, block_read, first_sector, in_use, set_flag,
  get_num_sectors_per_fs_block, scan, put, remove, read_and_acquire, evict, get_missing, get_found,
  get_buffer, max_blocks,
}
use geekos.Bufcache.Io.{
  transfer, IsAligned, do_buffer_io-done, synced, sync_buffer-done, read-Reads,
}
use geekos.Bufcache.Buffers.{
  In, Unique, All-In, All-map, Unique-In, All-put, length-put, Unique-put, All-remove,
  Unique-remove, length-remove, remove-differs, ScanOf, scan-ScanOf,
}

abbrev pub HasSize : ℕ → Buffer → Type 0
HasSize n b = length b.contents ≡ n

-- The block size is a multiple of the sector size, the count is the number of buffers and at most 128, no
-- address and no block stands twice, and each buffer holds one block.
pub record IsValid (c : Cache) : Type 0 where
  pub aligned : IsAligned c
  pub counted : c.num_cached ≡ length c.buffers
  pub bounded : c.num_cached ≤ max_blocks
  pub addrs : Unique (λ b. b.addr) c.buffers
  pub blocks : Unique (λ b. b.block_num) c.buffers
  pub sizes : All (HasSize (get_num_sectors_per_fs_block c)) c.buffers

-- An address that no buffer of the cache has, with a page that holds one block.
abbrev pub IsFresh : Cache → Option (ℕ × List ℕ) → Type 0
IsFresh c none = Unit
IsFresh c (some (a, page)) =
    All (λ b. b.addr ≢ a) c.buffers × (length page ≡ get_num_sectors_per_fs_block c)

-- A struct of the cache replaced by one with the same address, block and size.
pub put-IsValid :
    (c : Cache) (b b' : Buffer)
    → IsValid c
    → In b c.buffers
    → b'.addr ≡ b.addr
    → b'.block_num ≡ b.block_num
    → b'.contents ≡ b.contents
    → IsValid (record c { buffers = put b' c.buffers })
unfolding get_num_sectors_per_fs_block
put-IsValid c b b' v m ea en ec = record {
  aligned = v.aligned;
  counted = v.counted ∙ sym (length-put b' c.buffers);
  bounded = v.bounded;
  addrs = Unique-put (λ x. x.addr) b' c.buffers (keeps (λ x. x.addr) (sym ea)) v.addrs;
  blocks = Unique-put (λ x. x.block_num) b' c.buffers (keeps (λ x. x.block_num) (sym en)) v.blocks;
  sizes =
      All-put (HasSize (get_num_sectors_per_fs_block c)) b' c.buffers
        (ap length ec ∙ All-In (HasSize (get_num_sectors_per_fs_block c)) b c.buffers v.sizes m)
        v.sizes;
}
  where
    keeps : (f : Buffer → ℕ) → f b ≡ f b' → All (λ x. x.addr ≡ b'.addr → f x ≡ f b') c.buffers
    keeps f e =
        All-map (λ x. x.addr ≡ b.addr → x ≡ b) (λ x. x.addr ≡ b'.addr → f x ≡ f b') c.buffers
          (λ x h same. ap f (h (same ∙ ea)) ∙ e) (Unique-In b c.buffers v.addrs m)

-- Everything that read_and_acquire needs of the buffer and of those behind it.
record Front (c : Cache) (buf : Buffer) (rest : List Buffer) : Type 0 where
  f_aligned : IsAligned c
  f_counted : c.num_cached ≡ suc (length rest)
  f_bounded : c.num_cached ≤ max_blocks
  f_addr : All (λ b. b.addr ≢ buf.addr) rest
  f_addrs : Unique (λ b. b.addr) rest
  f_block : All (λ b. b.block_num ≢ buf.block_num) rest
  f_blocks : Unique (λ b. b.block_num) rest
  f_size : HasSize (get_num_sectors_per_fs_block c) buf
  f_sizes : All (HasSize (get_num_sectors_per_fs_block c)) rest

read_and_acquire-IsValid :
    (c : Cache) (buf : Buffer) (rest : List Buffer)
    → Front c buf rest
    → Total (λ r. IsValid r.0) (read_and_acquire c buf rest)
unfolding read_and_acquire get_num_sectors_per_fs_block
read_and_acquire-IsValid c buf rest f =
    let n = first_sector (get_num_sectors_per_fs_block c) buf.block_num in
    let r = transfer block_read c.dev n buf.contents in
    let size = (read-Reads c.dev n buf.contents).size in
    rw (do_buffer_io-done block_read c buf f.f_aligned f.f_size) (elim (Bool-cases (is_ok r.0)) [
      | inl e ↦ rw e (record {
        aligned = f.f_aligned;
        counted = f.f_counted;
        bounded = f.f_bounded;
        addrs = (f.f_addr, f.f_addrs);
        blocks = (f.f_block, f.f_blocks);
        sizes = (size ∙ f.f_size, f.f_sizes);
      })
      | inr e ↦ rw e (record {
        aligned = f.f_aligned;
        counted = f.f_counted;
        bounded = f.f_bounded;
        addrs = (f.f_addr, f.f_addrs);
        blocks = (f.f_block, f.f_blocks);
        sizes = (size ∙ f.f_size, f.f_sizes);
      })
    ])

pub synced-same :
    (c : Cache) (b : Buffer)
    → ((synced c b).2.addr ≡ b.addr)
      × ((synced c b).2.block_num ≡ b.block_num)
      × ((synced c b).2.contents ≡ b.contents)
unfolding synced
synced-same c b = (ground arith, ground arith, ground arith)

evict-IsValid :
    (c : Cache) (lru : Option Buffer)
    → ((b : Buffer) → lru ≡ some b → In b c.buffers)
    → IsValid c
    → Total (λ r. IsValid r.0) (evict c lru)
unfolding evict get_num_sectors_per_fs_block
evict-IsValid c none m v = v
evict-IsValid c (some b) m v =
    let s = synced c b in
    let (ea, en, ec) = synced-same c b in
    let mem = m b refl in
    let one_block = All-In (HasSize (get_num_sectors_per_fs_block c)) b c.buffers v.sizes mem in
    rw (sync_buffer-done c b v.aligned one_block) (elim (Bool-cases (is_ok s.0)) [
      | inl e ↦ rw e (
          read_and_acquire-IsValid (record c { dev = s.1 }) (record (s.2) { flags = 0 })
            (remove b.addr c.buffers)
            (record {
              f_aligned = v.aligned;
              f_counted = v.counted ∙ sym (length-remove b c.buffers v.addrs mem);
              f_bounded = v.bounded;
              f_addr =
                  subst (λ a. All (λ x. x.addr ≢ a) (remove b.addr c.buffers)) (sym ea)
                    (remove-differs (λ x. x.addr) b c.buffers v.addrs v.addrs mem);
              f_addrs = Unique-remove (λ x. x.addr) b.addr c.buffers v.addrs;
              f_block =
                  subst (λ a. All (λ x. x.block_num ≢ a) (remove b.addr c.buffers)) (sym en)
                    (remove-differs (λ x. x.block_num) b c.buffers v.blocks v.addrs mem);
              f_blocks = Unique-remove (λ x. x.block_num) b.addr c.buffers v.blocks;
              f_size = ap length ec ∙ one_block;
              f_sizes =
                  All-remove (HasSize (get_num_sectors_per_fs_block c)) b.addr c.buffers v.sizes;
            }))
      | inr e ↦ rw e (record {
        aligned = v.aligned;
        counted = v.counted;
        bounded = v.bounded;
        addrs = v.addrs;
        blocks = v.blocks;
        sizes = v.sizes;
      })
    ])

get_missing-IsValid :
    (alloc : Option (ℕ × List ℕ)) (c : Cache) (n : ℕ) (lru : Option Buffer)
    → ScanOf c.buffers n none (miss lru)
    → IsFresh c alloc
    → IsValid c
    → Total (λ r. IsValid r.0) (get_missing alloc c n lru)
unfolding get_missing get_num_sectors_per_fs_block
get_missing-IsValid none c n lru s f v = evict-IsValid c lru (candidate lru s) v
  where
    candidate :
        (o : Option Buffer)
        → ScanOf c.buffers n none (miss o)
        → (b : Buffer) → o ≡ some b
        → In b c.buffers
    candidate none h b e = cc
    candidate (some x) (h, inl m) b e =
        let same : x ≡ b = cc in subst (λ y. In y c.buffers) same m.0
    candidate (some x) (h, inr bad) b e = cc
get_missing-IsValid (some (a, page)) c n lru s f v =
    elim (Bool-cases (ltb c.num_cached max_blocks)) [
      | inl e ↦ rw e (
          read_and_acquire-IsValid (record c { num_cached = c.num_cached + 1 })
            (record { addr = a; block_num = n; contents = page; flags = 0 }) c.buffers
            (record {
              f_aligned = v.aligned;
              f_counted = omega (arith, v.counted);
              f_bounded = omega (arith, ltb→lt c.num_cached max_blocks e);
              f_addr = f.0;
              f_addrs = v.addrs;
              f_block = absent lru s;
              f_blocks = v.blocks;
              f_size = f.1;
              f_sizes = v.sizes;
            }))
      | inr e ↦ rw e (evict-IsValid c lru (candidate lru s) v)
    ]
  where
    absent :
        (o : Option Buffer)
        → ScanOf c.buffers n none (miss o)
        → All (λ b. b.block_num ≢ n) c.buffers
    absent none h = h.0
    absent (some x) h = h.0

    candidate :
        (o : Option Buffer)
        → ScanOf c.buffers n none (miss o)
        → (b : Buffer) → o ≡ some b
        → In b c.buffers
    candidate none h b e = cc
    candidate (some x) (h, inl m) b e =
        let same : x ≡ b = cc in subst (λ y. In y c.buffers) same m.0
    candidate (some x) (h, inr bad) b e = cc

-- Get_Buffer fails no assertion and keeps the invariant on every path, failures included, if the allocator
-- gives an address that is not in the cache and a page that holds one block.
pub get_buffer-IsValid :
    (alloc : Option (ℕ × List ℕ)) (c : Cache) (n : ℕ)
    → IsFresh c alloc
    → IsValid c
    → Total (λ r. IsValid r.0) (get_buffer alloc c n)
unfolding get_buffer get_found
get_buffer-IsValid alloc c n f v = go (scan c.buffers n none) (scan-ScanOf c.buffers n none)
  where
    go :
        (s : Scan)
        → ScanOf c.buffers n none s
        → Total
            (λ r. IsValid r.0)
            (elim s as (λ x. Run (Cache × Got)) [
              | hit b ↦ done (get_found c b)
              | miss lru ↦ get_missing alloc c n lru
            ])
    go (hit b) (m, e) = elim (Bool-cases (has b.flags in_use)) [
      | inl h ↦ rw h v
      | inr h ↦
          rw h (put-IsValid c b (record b { flags = set_flag b.flags in_use }) v m refl refl refl)
    ]
    go (miss lru) h = get_missing-IsValid alloc c n lru h f v
