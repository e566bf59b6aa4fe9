-- ===== src/Pfat/Blocks.antt =====
-- The blocks of a file: its chain in the file allocation table, and what the cache holds.
use geekos.Base.{
  length, get_elem?, drop, length-append, ℕ, zero, suc, ◌+◌, ◌*◌, ◌≤◌, ◌<◌, ◌≡◌, refl, sym, ap, ap₂,
  ◌∙◌, true, false, Option, none, some, List, [], ◌∷◌, ◌++◌, append_assoc, arith,
}
use geekos.Bitset.{is_bit_set}
use geekos.Bitset.Access.{IsBytes}
use geekos.Pfat.{sector_size, concat, Disk, PfatFile, is_end}

-- `blk 0`, `blk 1`, ... are the blocks of the file that starts at `blk 0`, `n` in number.
pub record IsChain (fat : List ℕ) (blk : ℕ → ℕ) (n : ℕ) : Type 0 where
  pub in_use : (i : ℕ) → i < n → is_end (blk i) ≡ false
  pub linked : (i : ℕ) → i < n → get_elem? fat (blk i) ≡ some (blk (i + 1))

-- The bytes of `n` blocks of the file from the block `i` on.
abbrev pub file_bytes : Disk → (ℕ → ℕ) → ℕ → ℕ → List ℕ
file_bytes disk blk i zero = []
file_bytes disk blk i (suc n) = disk.sectors (blk i) ++ file_bytes disk blk (i + 1) n

-- A cached block that is marked as valid is that of the device.
pub record IsCached (disk : Disk) (blk : ℕ → ℕ) (f : PfatFile) : Type 0 where
  pub size : length f.file_data_cache ≡ f.num_blocks
  pub bits : f.num_blocks ≤ 8 * length f.valid_block_set
  pub bytes : IsBytes f.valid_block_set
  pub valid :
      (i : ℕ)
      → i < f.num_blocks
      → is_bit_set f.valid_block_set i ≡ true
      → get_elem? f.file_data_cache i ≡ some (disk.sectors (blk i))

-- The blocks below `n` are in the cache.
abbrev pub IsLoaded : Disk → (ℕ → ℕ) → ℕ → PfatFile → Type 0
IsLoaded disk blk n f =
    (i : ℕ) → i < n → get_elem? f.file_data_cache i ≡ some (disk.sectors (blk i))

pub length-file_bytes :
    (disk : Disk) (blk : ℕ → ℕ) (i n : ℕ)
    → ((k : ℕ) → length (disk.sectors k) ≡ sector_size)
    → length (file_bytes disk blk i n) ≡ 512 * n
length-file_bytes disk blk i zero h = omega arith
length-file_bytes disk blk i (suc n) h = omega (
  arith,
  length-append (disk.sectors (blk i)) (file_bytes disk blk (i + 1) n),
  h (blk i),
  length-file_bytes disk blk (i + 1) n h,
)

none-eq_some : {a : List ℕ} → none ≡ some a → ⊥
none-eq_some e = cc

file_bytes-cong :
    (disk : Disk) (blk : ℕ → ℕ) (i j m n : ℕ)
    → i ≡ j
    → m ≡ n
    → file_bytes disk blk i m ≡ file_bytes disk blk j n
file_bytes-cong disk blk i j m n p q = ap₂ (file_bytes disk blk) p q

pub file_bytes-append :
    (disk : Disk) (blk : ℕ → ℕ) (i m n : ℕ)
    → file_bytes disk blk i (m + n) ≡ file_bytes disk blk i m ++ file_bytes disk blk (i + m) n
file_bytes-append disk blk i zero n =
    file_bytes-cong disk blk i (i + 0) (0 + n) n (omega arith) (omega arith)
file_bytes-append disk blk i (suc m) n =
    let first = disk.sectors (blk i) in
    let more = file_bytes disk blk (i + 1) m in
    file_bytes-cong disk blk i i (suc m + n) (suc (m + n)) refl (omega arith)
    ∙ ap (λ l. first ++ l)
        (file_bytes-append disk blk (i + 1) m n
          ∙ ap (λ l. more ++ l)
              (file_bytes-cong disk blk (i + 1 + m) (i + suc m) n n (omega arith) refl))
    ∙ sym (append_assoc first more (file_bytes disk blk (i + suc m) n))

block_unique : (o : Option (List ℕ)) (a b : List ℕ) → o ≡ some a → o ≡ some b → a ≡ b
block_unique o a b p q = cc

-- A cache whose first blocks are those of the file.
pub concat-loaded :
    (disk : Disk) (blk : ℕ → ℕ) (bs : List (List ℕ)) (i n : ℕ)
    → ((j : ℕ) → j < n → get_elem? bs j ≡ some (disk.sectors (blk (i + j))))
    → concat bs ≡ file_bytes disk blk i n ++ concat (drop n bs)
concat-loaded disk blk bs i zero h = refl
concat-loaded disk blk [] i (suc n) h = absurd (none-eq_some (h 0 (omega arith)))
concat-loaded disk blk (b ∷ bs) i (suc n) h =
    let first = disk.sectors (blk i) in
    let same : i + 0 ≡ i = omega arith in
    ap₂ (λ x l. x ++ l)
      (block_unique (some b) b first refl
        (h 0 (omega arith) ∙ ap (λ j. some (disk.sectors (blk j))) same))
      (concat-loaded disk blk bs (i + 1) n
        (λ j l. h (suc j) (omega arith) ∙ ap (λ k. some (disk.sectors (blk k))) (index j)))
    ∙ sym (append_assoc first (file_bytes disk blk (i + 1) n) (concat (drop n bs)))
  where
    index : (j : ℕ) → i + suc j ≡ i + 1 + j
    index j = omega arith
