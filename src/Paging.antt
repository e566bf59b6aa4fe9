-- ===== src/Paging.antt =====
-- src/geekos/paging.c: the space on the paging file, and the transfer of pages.
-- A page is the sequence of its sectors. The functions on slots run with interrupts disabled. The block device is that of the module `Bufcache`.
pub mod Transfer
mod Tests
use geekos.Base.{
  ◌==◌, if◌then◌else◌, get_or, set, ℕ, zero, suc, ◌+◌, ◌*◌, ◌/◌, ◌%◌, ◌^◌, not, Option, none, some,
  List, [], ◌∷◌, map,
}
use geekos.Base.Bits.{has}
use geekos.Base.Outcome.{Outcome, done, ◌>>=◌, ◌>>◌, kassert}
use geekos.CString.Memory.{memset}
use geekos.Errno.{Rc}
use geekos.Bufcache.{Device, block_read, block_write}
use geekos.Mem.{page_pageable}

-- SECTORS_PER_PAGE
abbrev pub sectors_per_page : ℕ
sectors_per_page = 8

pub record PagingFile : Type 0 where
  pub swap_map : List ℕ
  pub total_page : ℕ
  pub start_sector : ℕ
  pub dev : Device

-- Init_Paging; `map` is what Malloc gives.
unfoldable pub init_paging : Device → ℕ → ℕ → List ℕ → PagingFile
init_paging dev num_sectors start_sector map = record {
  swap_map = memset map 0 (num_sectors / sectors_per_page);
  total_page = num_sectors / sectors_per_page;
  start_sector = start_sector;
  dev = dev;
}

-- The loop of Find_Space_On_Paging_File from the index `i` on, with `left` rounds to go.
unfoldable pub find_space : ℕ → List ℕ → ℕ → Option ℕ
find_space zero map i = none
find_space (suc left) map i =
    let rest = find_space left map (i + 1) in if get_or map i 0 == 0 then some i else rest

-- `none` stands for -1.
unfoldable pub find_space_on_paging_file : PagingFile → Option ℕ
find_space_on_paging_file f = find_space f.total_page f.swap_map 0

unfoldable pub free_space_on_paging_file : PagingFile → ℕ → PagingFile
free_space_on_paging_file f i = record f { swap_map = set f.swap_map i 0 }

-- The sector of a slot.
abbrev pub sector_of : PagingFile → ℕ → ℕ → ℕ
sector_of f slot i = (f.start_sector + slot * sectors_per_page + i) % 2 ^ 32

-- The loop of Write_To_Paging_File, which does not look at the codes.
unfoldable pub write_sectors : PagingFile → Device → ℕ → ℕ → List ℕ → Device
write_sectors f dev slot i [] = dev
write_sectors f dev slot i (x ∷ xs) =
    let (rc, dev', x') = block_write dev (sector_of f slot i) x in
    write_sectors f dev' slot (i + 1) xs

-- `flags` are those of the page, which must be locked.
unfoldable pub write_to_paging_file : PagingFile → ℕ → List ℕ → ℕ → Outcome PagingFile
write_to_paging_file f flags page slot = do
  kassert (not (has flags page_pageable))
  done (record f { dev = write_sectors f f.dev slot 0 page; swap_map = set f.swap_map slot 1 })

-- The loop of Read_From_Paging_File, on what the page holds before.
unfoldable pub read_sectors : PagingFile → ℕ → ℕ → List ℕ → List ℕ
read_sectors f slot i [] = []
read_sectors f slot i (x ∷ xs) =
    let (rc, dev', x') = block_read f.dev (sector_of f slot i) x in
    x' ∷ read_sectors f slot (i + 1) xs

unfoldable pub read_from_paging_file : PagingFile → List ℕ → ℕ → List ℕ
read_from_paging_file f page slot = read_sectors f slot 0 page
