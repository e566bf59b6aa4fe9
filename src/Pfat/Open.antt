-- ===== src/Pfat/Open.antt =====
-- PFAT_Open, PFAT_Seek and PFAT_Read together.
use geekos.Base.{
  ◌==◌, ==_iff, Bool-cases, length, take, drop, All, ℕ, ◌+◌, ◌/◌, ◌^◌, ◌≤◌, ◌<◌, bit_and, ◌≡◌, refl,
  sym, ap, subst, ◌∙◌, ◌⊎◌, inl, inr, Bool, true, false, Option, none, some, List, [], ◌∷◌, ◌++◌,
  arith,
}
use geekos.Bitset.{num_bytes}
use geekos.Bitset.Create.{create_bit_set-IsEmptySet}
use geekos.Errno.{ok}
use geekos.Pfat.{
  Disk, DirectoryEntry, PfatFile, Instance, File, read, pfat_seek, pfat_read, round_up_to_block,
}
use geekos.Pfat.Files.{
  Memory, do_pfat_lookup, find_open, new_pfat_file, get_pfat_file, finish_open, pfat_open,
}
use geekos.Pfat.Blocks.{IsChain, IsCached, file_bytes}
use geekos.Pfat.Read.{pfat_read-Reads, round_up-bounds}

-- There is memory for every request.
pub record IsAmple (mem : Memory) : Type 0 where
  pub object : mem.has_object ≡ true
  pub sectors :
      (n : ℕ) → (cache : List (List ℕ)) × (mem.malloc_sectors n ≡ some cache) × (length cache ≡ n)
  pub bytes : (n : ℕ) → (block : List ℕ) × (mem.malloc_bytes n ≡ some block) × (length block ≡ n)

-- The number of blocks of the file of an entry.
abbrev pub blocks_of : DirectoryEntry → ℕ
blocks_of e = round_up_to_block e.file_size / 512

-- A PFAT_File of the entry `e` with a cache of its blocks.
abbrev pub IsOpenFor : Disk → (ℕ → ℕ) → DirectoryEntry → PfatFile → Type 0
IsOpenFor disk blk e f = (f.entry ≡ e) × (f.num_blocks ≡ blocks_of e) × IsCached disk blk f

new_pfat_file-IsOpenFor :
    (disk : Disk) (blk : ℕ → ℕ) (mem : Memory) (e : DirectoryEntry)
    → IsAmple mem
    → (f : PfatFile) × (new_pfat_file mem e ≡ some f) × IsOpenFor disk blk e f
unfolding new_pfat_file
new_pfat_file-IsOpenFor disk blk mem e a =
    let n = blocks_of e in
    let (cache, ce, clen) = a.sectors n in
    let (block, be, blen) = a.bytes (num_bytes n) in
    let (bits, se, empty) = create_bit_set-IsEmptySet mem.malloc_bytes block n be blen in
    (
      record { entry = e; num_blocks = n; file_data_cache = cache; valid_block_set = bits },
      rw (new_pfat_file, a.object, ce, se) refl,
      (
        refl,
        refl,
        record {
          size = clen;
          bits = empty.size;
          bytes = empty.bytes;
          valid = λ i l v. absurd (clash (empty.clear i) v);
        },
      ),
    )
  where
    clash : {b : Bool} → b ≡ false → b ≡ true → ⊥
    clash p q = cc

find_open-found :
    (disk : Disk) (blk : ℕ → ℕ) (fs : List PfatFile) (e : DirectoryEntry)
    → All (λ f. f.entry.addr ≡ e.addr → IsOpenFor disk blk e f) fs
    → (find_open fs e ≡ none)
      ⊎ ((f : PfatFile) × (find_open fs e ≡ some f) × IsOpenFor disk blk e f)
unfolding find_open
find_open-found disk blk [] e h = inl refl
find_open-found disk blk (f ∷ fs) e (h, hs) = elim (Bool-cases (f.entry.addr == e.addr)) [
  | inl x ↦ inr (f, rw x refl, h ((==_iff f.entry.addr e.addr).0 x))
  | inr x ↦ elim (find_open-found disk blk fs e hs) [
    | inl y ↦ inl (rw x y)
    | inr (g, y, o) ↦ inr (g, rw x y, o)
  ]
]

get_pfat_file-IsOpenFor :
    (disk : Disk) (blk : ℕ → ℕ) (mem : Memory) (instance : Instance) (e : DirectoryEntry)
    → IsAmple mem
    → All (λ f. f.entry.addr ≡ e.addr → IsOpenFor disk blk e f) instance.file_list
    → (f : PfatFile) × (after : Instance) × (get_pfat_file mem instance e ≡ (some f, after))
      × IsOpenFor disk blk e f
unfolding get_pfat_file
get_pfat_file-IsOpenFor disk blk mem instance e a h =
    elim (find_open-found disk blk instance.file_list e h) [
      | inr (f, x, o) ↦ (f, instance, rw (get_pfat_file, x) refl, o)
      | inl x ↦
          let (f, y, o) = new_pfat_file-IsOpenFor disk blk mem e a in
          (
            f,
            record instance { file_list = instance.file_list ++ f ∷ [] },
            rw (get_pfat_file, x, y) refl,
            o,
          )
    ]

opens :
    (instance : Instance) (path : List ℕ) (mode : ℕ) (old : Option File) (mem : Memory)
    (e : DirectoryEntry)
    → bit_and mode 5 ≡ 0
    → do_pfat_lookup instance path ≡ some (some e)
    → e.directory ≡ false
    → (f : PfatFile) (after : Instance) → get_pfat_file mem instance e ≡ (some f, after)
    → pfat_open mem true instance path mode old
      ≡ some (ok, some (record { file_pos = 0; end_pos = e.file_size; pfat_file = f }), after)
unfolding pfat_open finish_open
opens instance path mode old mem e m found nd f after got = rw (pfat_open, m, found, got, nd) refl

seeks :
    (file : File) (pos : ℕ)
    → pos < file.end_pos
    → pfat_seek file pos ≡ (ok, record file { file_pos = pos })
unfolding pfat_seek
seeks file pos lt = ground arith

-- After PFAT_Open of a file that is not a directory, with memory for every request, PFAT_Seek to a
-- position in the file and PFAT_Read of a range from there return the bytes of that range of the file,
-- whether the file was open before or not. The conditions are those of PFAT_Read, and that the data of
-- an open file stands for its entry.
pub open-seek-read :
    (disk : Disk) (blk : ℕ → ℕ) (mem : Memory) (instance : Instance) (path : List ℕ) (mode : ℕ)
    (old : Option File) (e : DirectoryEntry) (pos n : ℕ)
    → IsAmple mem
    → bit_and mode 5 ≡ 0
    → do_pfat_lookup instance path ≡ some (some e)
    → e.directory ≡ false
    → All (λ f. f.entry.addr ≡ e.addr → IsOpenFor disk blk e f) instance.file_list
    → e.first_block ≡ blk 0
    → IsChain instance.fat blk (blocks_of e)
    → ((i : ℕ) → length (disk.sectors i) ≡ 512)
    → ((i : ℕ) → i < blocks_of e → disk.status (blk i) ≡ ok)
    → e.file_size < 2 ^ 31
    → pos < e.file_size
    → pos + n ≤ e.file_size
    → (file : File) × (after : Instance) × (file' : File) × (g : PfatFile) × (pfat_open mem true
          instance path mode old
        ≡ some (ok, some file, after))
      × (pfat_seek file pos ≡ (ok, file'))
      × (pfat_read disk instance.fat file' n
          ≡ some (read (take n (drop pos (file_bytes disk blk 0 (blocks_of e)))), g))
open-seek-read disk blk mem instance path mode old e pos n a m found nd opened first ch full st
      small lt le =
    let (f, after, got, o) = get_pfat_file-IsOpenFor disk blk mem instance e a opened in
    let file : File = record { file_pos = 0; end_pos = e.file_size; pfat_file = f } in
    let file' : File = record file { file_pos = pos } in
    let cover = (round_up-bounds e.file_size e.file_size (omega arith) small).0 in
    let (g, r, c) =
      pfat_read-Reads disk instance.fat blk file' n (ap (λ x. x.first_block) o.0 ∙ first)
        (subst (IsChain instance.fat blk) (sym o.1) ch) o.2 full (λ i l. st i (omega (arith, o.1)))
        (omega (arith, o.1, cover)) small lt le in
    (
      file,
      after,
      file',
      g,
      opens instance path mode old mem e m found nd f after got,
      seeks file pos lt,
      r ∙ ap (λ k. some (read (take n (drop pos (file_bytes disk blk 0 k))), g)) o.1,
    )
