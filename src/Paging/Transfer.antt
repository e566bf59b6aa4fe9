-- ===== src/Paging/Transfer.antt =====
-- src/geekos/paging.c: what a page is after its way through the paging file.
use geekos.Base.{
  ltb, ltb→lt, ==-self, ==_ne, Bool-cases, length, set, ℕ, ◌+◌, ◌*◌, ◌^◌, ◌≤◌, ◌<◌, ◌≡◌, refl, sym,
  ap, ap₂, subst, ◌∙◌, ◌≢◌, inl, inr, true, false, List, [], ◌∷◌, arith,
}
use geekos.Base.Bits.{has}
use geekos.Base.Outcome.{done}
use geekos.Errno.{is_ok}
use geekos.Bufcache.{Device, block_read, block_write, write_sector}
use geekos.Mem.{page_pageable}
use geekos.Paging.{
  sectors_per_page, PagingFile, sector_of, write_sectors, write_to_paging_file, read_sectors,
  read_from_paging_file,
}

-- Requests for the sectors of the file succeed.
abbrev pub Works : PagingFile → Type 0
Works f = (n : ℕ) → is_ok (f.dev.status n) ≡ true

read_one :
    (dev : Device) (n x : ℕ) → is_ok (dev.status n) ≡ true → (block_read dev n x).2 ≡ dev.sectors n
unfolding block_read
read_one dev n x h = rw h refl

write_step :
    (f : PagingFile) (x : ℕ) (xs : List ℕ) (dev : Device) (slot i : ℕ)
    → ((k : ℕ) → is_ok (dev.status k) ≡ true)
    → write_sectors f dev slot i (x ∷ xs)
      ≡ write_sectors f
          (record dev { sectors = write_sector dev.sectors (sector_of f slot i) x })
          slot
          (i + 1)
          xs
unfolding write_sectors block_write
write_step f x xs dev slot i works = rw (works (sector_of f slot i)) refl

-- The sectors that the loop does not write.
untouched :
    (f : PagingFile) (xs : List ℕ) (dev : Device) (slot i n : ℕ)
    → ((k : ℕ) → is_ok (dev.status k) ≡ true)
    → ((k : ℕ) → i ≤ k → k < i + length xs → sector_of f slot k ≢ n)
    → (write_sectors f dev slot i xs).sectors n ≡ dev.sectors n
unfolding write_sectors block_write
untouched f [] dev slot i n works apart = refl
untouched f (x ∷ xs) dev slot i n works apart =
    let dev' = record dev { sectors = write_sector dev.sectors (sector_of f slot i) x } in
    ap (λ d. d.sectors n) (write_step f x xs dev slot i works)
    ∙ untouched f xs dev' slot (i + 1) n works
        (λ k lo hi. apart k (omega (arith, lo)) (omega (arith, hi)))
    ∙ rw (==_ne (sector_of f slot i) n (apart i (omega arith) (omega arith))) refl

-- A slot whose sectors have 32-bit numbers.
abbrev pub InFile : PagingFile → ℕ → Type 0
InFile f slot = f.start_sector + slot * sectors_per_page + sectors_per_page ≤ 2 ^ 32

sector_of_lem :
    (f : PagingFile) (slot i : ℕ)
    → InFile f slot
    → i < 8
    → sector_of f slot i ≡ f.start_sector + slot * 8 + i
sector_of_lem f slot i h lt = omega (arith, h, lt)

written_status :
    (f : PagingFile) (xs : List ℕ) (dev : Device) (slot i : ℕ)
    → ((k : ℕ) → is_ok (dev.status k) ≡ true)
    → (write_sectors f dev slot i xs).status ≡ dev.status
unfolding write_sectors block_write
written_status f [] dev slot i works = refl
written_status f (x ∷ xs) dev slot i works =
    let dev' = record dev { sectors = write_sector dev.sectors (sector_of f slot i) x } in
    ap (λ d. d.status) (write_step f x xs dev slot i works)
    ∙ written_status f xs dev' slot (i + 1) works

apart_in_slot :
    (f : PagingFile) (slot i k : ℕ)
    → InFile f slot
    → i < k
    → k < 8
    → sector_of f slot k ≢ sector_of f slot i
apart_in_slot f slot i k h lt small e = omega (
  arith,
  sector_of_lem f slot i h (omega (arith, lt, small)),
  sector_of_lem f slot k h small,
  e,
  lt,
)

apart_slots :
    (f : PagingFile) (slot other i k : ℕ)
    → InFile f slot
    → InFile f other
    → other ≢ slot
    → i < 8
    → k < 8
    → sector_of f slot k ≢ sector_of f other i
apart_slots f slot other i k h h' ne lo hi e = elim (Bool-cases (ltb other slot)) [
  | inl lt ↦ omega (
    arith,
    sector_of_lem f slot k h hi,
    sector_of_lem f other i h' lo,
    e,
    ltb→lt other slot lt,
    lo,
    hi,
  )
  | inr ge ↦
      omega (arith, sector_of_lem f slot k h hi, sector_of_lem f other i h' lo, e, above ge, lo, hi)
]
  where
    above : ltb other slot ≡ false → slot < other
    above ge = ground (arith, ge, ne)

-- What is read where the sectors of the loop are there.
read_back :
    (f : PagingFile) (swapped : List ℕ) (xs old : List ℕ) (dev : Device) (slot i : ℕ)
    → ((k : ℕ) → is_ok (dev.status k) ≡ true)
    → InFile f slot
    → i + length xs ≤ 8
    → length old ≡ length xs
    → read_sectors (record f { swap_map = swapped; dev = write_sectors f dev slot i xs }) slot i old
      ≡ xs
unfolding read_sectors
read_back f swapped [] [] dev slot i works inside small len = refl
read_back f swapped [] (y ∷ old) dev slot i works inside small len = absurd (omega (arith, len))
read_back f swapped (x ∷ xs) [] dev slot i works inside small len = absurd (omega (arith, len))
read_back f swapped (x ∷ xs) (y ∷ old) dev slot i works inside small len =
    let dev' = record dev { sectors = write_sector dev.sectors (sector_of f slot i) x } in
    let last = write_sectors f dev' slot (i + 1) xs in
    let kept : last.sectors (sector_of f slot i) ≡ x =
      untouched f xs dev' slot (i + 1) (sector_of f slot i) works
        (λ k lo hi. apart_in_slot f slot i k inside (omega (arith, lo)) (omega (arith, hi, small)))
      ∙ rw (==-self (sector_of f slot i)) refl in
    let status : is_ok (last.status (sector_of f slot i)) ≡ true =
      ap (λ g. is_ok (g (sector_of f slot i))) (written_status f xs dev' slot (i + 1) works)
      ∙ works (sector_of f slot i) in
    subst (λ d. read_sectors (record f { swap_map = swapped; dev = d }) slot i (y ∷ old) ≡ x ∷ xs)
      (sym (write_step f x xs dev slot i works))
      (ap₂ (λ a l. a ∷ l) (read_one last (sector_of f slot i) y status ∙ kept)
        (read_back f swapped xs old dev' slot (i + 1) works inside (omega (arith, small))
          (omega (arith, len))))

-- Reads that find the same sectors.
same_reads :
    (f : PagingFile) (swapped : List ℕ) (dev : Device) (slot i : ℕ) (old : List ℕ)
    → Works f
    → dev.status ≡ f.dev.status
    → ((k : ℕ)
        → i ≤ k
        → k < i + length old
        → dev.sectors (sector_of f slot k) ≡ f.dev.sectors (sector_of f slot k))
    → read_sectors (record f { swap_map = swapped; dev = dev }) slot i old
      ≡ read_sectors f slot i old
unfolding read_sectors
same_reads f swapped dev slot i [] works st same = refl
same_reads f swapped dev slot i (y ∷ old) works st same =
    ap₂ (λ a l. a ∷ l)
      (read_one dev (sector_of f slot i) y
          (ap (λ g. is_ok (g (sector_of f slot i))) st ∙ works (sector_of f slot i))
        ∙ same i (omega arith) (omega arith)
        ∙ sym (read_one f.dev (sector_of f slot i) y (works (sector_of f slot i))))
      (same_reads f swapped dev slot (i + 1) old works st
        (λ k lo hi. same k (omega (arith, lo)) (omega (arith, hi))))

-- Write_To_Paging_File of a page that is locked ends with no failed assertion, and then
-- Read_From_Paging_File of the same slot gives the page back, whatever the memory held before; a page that
-- another slot holds is read as before. For slots whose sectors have 32-bit numbers, on a device that
-- completes the requests.
pub write_to_paging_file-read :
    (f : PagingFile) (flags : ℕ) (page old : List ℕ) (slot other : ℕ)
    → has flags page_pageable ≡ false
    → Works f
    → InFile f slot
    → InFile f other
    → length page ≡ sectors_per_page
    → length old ≡ sectors_per_page
    → (f' : PagingFile) × (write_to_paging_file f flags page slot ≡ done f')
      × (read_from_paging_file f' old slot ≡ page)
      × (other ≢ slot → read_from_paging_file f' old other ≡ read_from_paging_file f old other)
unfolding write_to_paging_file read_from_paging_file
write_to_paging_file-read f flags page old slot other locked works inside inside' len len' = (
  record f { dev = write_sectors f f.dev slot 0 page; swap_map = set f.swap_map slot 1 },
  rw locked refl,
  read_back f (set f.swap_map slot 1) page old f.dev slot 0 works inside (omega (arith, len))
      (omega (arith, len, len')),
  λ ne.
      same_reads f (set f.swap_map slot 1) (write_sectors f f.dev slot 0 page) other 0 old works
        (written_status f page f.dev slot 0 works)
        (λ i lo hi. untouched f page f.dev slot 0 (sector_of f other i) works (λ k lo' hi'.
          apart_slots f slot other i k inside inside' ne (omega (arith, hi, len'))
            (omega (arith, hi', len)))),
)
