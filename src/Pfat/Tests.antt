-- ===== src/Pfat/Tests.antt =====
-- A file "a" of 600 bytes in the blocks 2 and 3 of a device; its first block is in the cache.
use geekos.Base.{
  length, get_elem?, take, drop, replicate, length-replicate, ℕ, zero, suc, ◌+◌, ◌%◌, ◌<◌, ◌≡◌,
  refl, true, false, none, some, List, [], ◌∷◌, arith,
}
use geekos.Bitset.{is_bit_set}
use geekos.CString.{strcmp, char_diff}
use geekos.Errno.{ok}
use geekos.Pfat.{
  Disk, DirectoryEntry, PfatFile, Instance, File, read, is_end, pfat_seek, pfat_read,
  round_up_to_block,
}
use geekos.Pfat.Files.{Memory, find_entry, do_pfat_lookup, pfat_open}
use geekos.Pfat.Blocks.{IsChain, IsCached, file_bytes}
use geekos.Pfat.Open.{IsAmple, open-seek-read}

abbrev disk : Disk
disk = record { sectors = λ n. replicate 512 (n % 256); status = λ n. ok }

abbrev fat : List ℕ
fat = 1 ∷ 1 ∷ 3 ∷ 1 ∷ []

abbrev blk : ℕ → ℕ
blk zero = 2
blk (suc zero) = 3
blk (suc (suc i)) = 1

abbrev entry : DirectoryEntry
entry = record {
  addr = 100;
  file_name = 97 ∷ 0 ∷ [];
  read_only = true;
  directory = false;
  first_block = 2;
  file_size = 600;
}

abbrev cached : PfatFile
cached = record {
  entry = entry;
  num_blocks = 2;
  file_data_cache = replicate 512 2 ∷ [] ∷ [];
  valid_block_set = 1 ∷ [];
}

abbrev file : File
file = record { file_pos = 510; end_pos = 600; pfat_file = cached }

abbrev volume : Instance
volume = record {
  fat = fat;
  root_dir = entry ∷ [];
  root_dir_entry = record entry { addr = 50; directory = true };
  file_list = [];
}

abbrev memory : Memory
memory = record {
  has_object = true;
  malloc_sectors = λ n. some (replicate n []);
  malloc_bytes = λ n. some (replicate n 7);
}

full : (i : ℕ) → length (disk.sectors i) ≡ 512
full i = length-replicate 512 (i % 256)

chain : IsChain fat blk 2
unfolding is_end
chain = record { in_use = λ i h. in_use i h; linked = λ i h. linked i h }
  where
    in_use : (i : ℕ) → i < 2 → is_end (blk i) ≡ false
    in_use zero h = refl
    in_use (suc zero) h = refl
    in_use (suc (suc i)) h = absurd (omega (arith, h))

    linked : (i : ℕ) → i < 2 → get_elem? fat (blk i) ≡ some (blk (i + 1))
    linked zero h = refl
    linked (suc zero) h = refl
    linked (suc (suc i)) h = absurd (omega (arith, h))

valid : IsCached disk blk cached
unfolding is_bit_set
valid = record {
  size = refl;
  bits = omega arith;
  bytes = (omega arith, tt);
  valid = λ i h v. held i h v;
}
  where
    held :
        (i : ℕ)
        → i < 2
        → is_bit_set (1 ∷ []) i ≡ true
        → get_elem? cached.file_data_cache i ≡ some (disk.sectors (blk i))
    held zero h v = refl
    held (suc zero) h v = absurd cc
    held (suc (suc i)) h v = absurd (omega (arith, h))

ample : IsAmple memory
ample = record {
  object = refl;
  sectors = λ n. (replicate n [], refl, length-replicate n []);
  bytes = λ n. (replicate n 7, refl, length-replicate n 7);
}

found : do_pfat_lookup volume (47 ∷ 97 ∷ 0 ∷ []) ≡ some (some entry)
unfolding do_pfat_lookup find_entry strcmp char_diff
found = refl

open-seek-read_example :
    (opened : File) × (after : Instance) × (sought : File) × (g : PfatFile) × (pfat_open memory true
        volume
        (47 ∷ 97 ∷ 0 ∷ [])
        2
        none
      ≡ some (ok, some opened, after))
    × (pfat_seek opened 510 ≡ (ok, sought))
    × (pfat_read disk fat sought 4 ≡ some (read (take 4 (drop 510 (file_bytes disk blk 0 2))), g))
unfolding round_up_to_block
open-seek-read_example =
    open-seek-read disk blk memory volume (47 ∷ 97 ∷ 0 ∷ []) 2 none entry 510 4 ample refl found
      refl tt refl chain full (λ i h. refl) (omega arith) (omega arith) (omega arith)
