-- ===== src/Pfat/Read.antt =====
-- PFAT_Read: the bytes that it returns.
use geekos.Base.{
  ltb, leb, length, get_elem?, take, drop, slice-append, ℕ, ◌+◌, ◌-◌, ◌*◌, ◌/◌, ◌%◌, ◌^◌, ◌≤◌, ◌<◌,
  ◌≡◌, refl, sym, ap, ◌∙◌, false, ◌||◌, some, List, arith,
}
use geekos.CString.{map_option}
use geekos.Errno.{ok}
use geekos.Pfat.{
  read, concat, copy_out, pfat_read, round_up_to_block, File, Disk, PfatFile, load_blocks,
}
use geekos.Pfat.Blocks.{
  file_bytes, length-file_bytes, file_bytes-append, concat-loaded, IsChain, IsCached,
}
use geekos.Pfat.Load.{load_blocks-Loads}

-- The blocks up to a position within the file reach to it, and are not more than the file has.
pub round_up-bounds :
    (end n : ℕ)
    → end ≤ 512 * n
    → end < 2 ^ 31
    → (end ≤ 512 * (round_up_to_block end / 512)) × (round_up_to_block end / 512 ≤ n)
unfolding round_up_to_block
round_up-bounds end n h small = (ground arith, ground arith)

-- The first blocks of the cache serve a request within them.
copied :
    (disk : Disk) (blk : ℕ → ℕ) (bs : List (List ℕ)) (start num k n : ℕ)
    → ((i : ℕ) → length (disk.sectors i) ≡ 512)
    → ((i : ℕ) → i < k → get_elem? bs i ≡ some (disk.sectors (blk i)))
    → start + num ≤ 512 * k
    → k ≤ n
    → take num (drop start (concat bs)) ≡ take num (drop start (file_bytes disk blk 0 n))
copied disk blk bs start num k n full l h le =
    let here = file_bytes disk blk 0 k in
    let size = length-file_bytes disk blk 0 k full in
    let cached =
      concat-loaded disk blk bs 0 k
        (λ j lt. l j lt ∙ ap (λ i. some (disk.sectors (blk i))) (shift j)) in
    let whole = file_bytes-append disk blk 0 k (n - k) in
    ap (λ x. take num (drop start x)) cached
    ∙ slice-append start num here (concat (drop k bs)) (omega (arith, size))
    ∙ sym (
        ap (λ x. take num (drop start x)) (ap (file_bytes disk blk 0) (total k n le) ∙ whole)
        ∙ slice-append start num here (file_bytes disk blk (0 + k) (n - k)) (omega (arith, size)))
  where
    shift : (j : ℕ) → j ≡ 0 + j
    shift j = omega arith

    total : (a b : ℕ) → a ≤ b → b ≡ a + (b - a)
    total a b h = omega arith

-- A request that is within the file passes the checks.
accepted :
    (disk : Disk) (fat : List ℕ) (file : File) (n : ℕ)
    → file.end_pos < 2 ^ 31
    → file.file_pos < file.end_pos
    → file.file_pos + n ≤ file.end_pos
    → pfat_read disk fat file n
      ≡ map_option (copy_out file.file_pos n) (
          load_blocks disk fat 0 file.pfat_file
            (round_up_to_block (file.file_pos + n) / 512)
            0
            file.pfat_file.entry.first_block)
unfolding pfat_read
accepted disk fat file n small lt le =
    let sum : (file.file_pos + n) % 2 ^ 32 ≡ file.file_pos + n = omega arith in
    let fits : ltb (2 ^ 31 - 1) n ≡ false = ground arith in
    let inside : (leb file.end_pos file.file_pos
          || ltb file.end_pos (file.file_pos + n)
          || ltb (file.file_pos + n) file.file_pos)
        ≡ false =
      ground arith in
    let first : file.file_pos % 512 / 512 ≡ 0 = omega arith in
    rw (pfat_read, fits, sum, inside, first) refl

copied_out :
    (g : PfatFile) (n start : ℕ)
    → map_option (copy_out start n) (some (ok, g))
      ≡ some (read (take n (drop start (concat g.file_data_cache))), g)
unfolding copy_out
copied_out g n start = refl

shorten : (fat : List ℕ) (blk : ℕ → ℕ) (n k : ℕ) → k ≤ n → IsChain fat blk n → IsChain fat blk k
shorten fat blk n k le ch = record {
  in_use = λ i l. ch.in_use i (omega arith);
  linked = λ i l. ch.linked i (omega arith);
}

-- PFAT_Read of a range that lies within a file, whose blocks are chained in the file allocation table
-- and readable on the device, returns the bytes of that range of the file, whatever part of the file
-- was in the cache before; the cache stays one of blocks of the file.
pub pfat_read-Reads :
    (disk : Disk) (fat : List ℕ) (blk : ℕ → ℕ) (file : File) (n : ℕ)
    → file.pfat_file.entry.first_block ≡ blk 0
    → IsChain fat blk file.pfat_file.num_blocks
    → IsCached disk blk file.pfat_file
    → ((i : ℕ) → length (disk.sectors i) ≡ 512)
    → ((i : ℕ) → i < file.pfat_file.num_blocks → disk.status (blk i) ≡ ok)
    → file.end_pos ≤ 512 * file.pfat_file.num_blocks
    → file.end_pos < 2 ^ 31
    → file.file_pos < file.end_pos
    → file.file_pos + n ≤ file.end_pos
    → (g : PfatFile) × (pfat_read disk fat file n
        ≡ some (
          read (take n (drop file.file_pos (file_bytes disk blk 0 file.pfat_file.num_blocks))),
          g,
        ))
      × IsCached disk blk g
pfat_read-Reads disk fat blk file n first ch c full st cover small lt le =
    let f = file.pfat_file in
    let k = round_up_to_block (file.file_pos + n) / 512 in
    let (reach, few) =
      round_up-bounds (file.file_pos + n) f.num_blocks (omega arith) (omega arith) in
    let up : 0 + k ≡ k = omega arith in
    let (g, e, ls) =
      load_blocks-Loads disk fat blk f k 0 (shorten fat blk f.num_blocks (0 + k) (omega arith) ch)
        (λ i l. st i (omega arith)) (omega arith) c (λ i l. elim l [ ]) in
    (
      g,
      accepted disk fat file n small lt le
          ∙ ap (λ b. map_option (copy_out file.file_pos n) (load_blocks disk fat 0 f k 0 b)) first
          ∙ ap (map_option (copy_out file.file_pos n)) e
          ∙ copied_out g n file.file_pos
          ∙ ap (λ bytes. some (read bytes, g))
              (copied disk blk g.file_data_cache file.file_pos n k f.num_blocks full
                (λ i l. ls.loaded i (omega arith)) reach few),
      ls.cached,
    )
