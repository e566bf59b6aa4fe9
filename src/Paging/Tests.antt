-- ===== src/Paging/Tests.antt =====
-- A paging file of four slots.
use geekos.Base.{replicate, ℕ, ◌≡◌, refl, ◌≢◌, List, [], ◌∷◌, arith}
use geekos.Base.Outcome.{done}
use geekos.Errno.{ok}
use geekos.Paging.{PagingFile, write_to_paging_file, read_from_paging_file}
use geekos.Paging.Transfer.{write_to_paging_file-read}

abbrev file : PagingFile
file = record {
  swap_map = replicate 4 0;
  total_page = 4;
  start_sector = 100;
  dev = record { sectors = λ n. n; status = λ n. ok };
}

abbrev page : List ℕ
page = 11 ∷ 12 ∷ 13 ∷ 14 ∷ 15 ∷ 16 ∷ 17 ∷ 18 ∷ []

abbrev other : ℕ
other = 2

-- PAGE_ALLOCATED alone
abbrev flags : ℕ
flags = 1

write_to_paging_file-read_example :
    (f' : PagingFile) × (write_to_paging_file file flags page 1 ≡ done f')
    × (read_from_paging_file f' (replicate 8 0) 1 ≡ page)
    × (other ≢ 1
        → read_from_paging_file f' (replicate 8 0) other
          ≡ read_from_paging_file file (replicate 8 0) other)
write_to_paging_file-read_example =
    write_to_paging_file-read file flags page (replicate 8 0) 1 other refl (λ n. refl) (omega arith)
      (omega arith) refl refl
