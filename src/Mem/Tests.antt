-- ===== src/Mem/Tests.antt =====
-- The allocator on a machine with four pages.
use geekos.Base.{ℕ, ◌<◌, ◌≡◌, refl, true, false, none, some, [], ◌∷◌, arith}
use geekos.Base.Outcome.{done}
use geekos.Mem.{
  Page, Memory, page_allocated, alloc_page, free_page, add_page_range, is_page_multiple, add_pages,
  add_page, find_victim, page_index, get_page_address, get_page, find_page_to_page_out,
}
use geekos.Base.Bits.{has}
use geekos.Mem.Round.{page_index-get_page_address}
use geekos.Mem.Valid.{IsValid, alloc_page-Takes}
use geekos.Mem.Free.{free_page-locked, free_page-Returns}
use geekos.Mem.Victim.{IsVictim, find_page_to_page_out-IsVictim}
use geekos.Mem.{page_pageable}

abbrev flagged : ℕ → ℕ → Page
flagged f c = record { flags = f; clock = c; vaddr = 0; entry = 0 }

-- Page 0 is unused, page 1 is free, page 2 is allocated and pageable, page 3 is also locked.
abbrev four_pages : Memory
four_pages = record {
  pages = flagged 8 0 ∷ flagged 0 0 ∷ flagged 36 7 ∷ flagged 100 5 ∷ [];
  free_list = 1 ∷ [];
  free_page_count = 1;
  interrupts = true;
  ptes = λ a. record { present = 0; kernel_info = 0; page_base_addr = 0 };
}

four_pages-IsValid : IsValid four_pages
four_pages-IsValid = record {
  small = omega arith;
  counted = refl;
  distinct = (tt, tt);
  free = ((omega arith, omega arith, refl), tt);
}

abbrev blank : Memory
blank = record four_pages { free_list = []; free_page_count = 0 }

range_test :
    add_page_range blank 4096 12288 0
    ≡ done (record blank {
      pages = flagged 8 0 ∷ flagged 0 0 ∷ flagged 0 0 ∷ flagged 100 5 ∷ [];
      free_list = 1 ∷ 2 ∷ [];
      free_page_count = 2;
    })
unfolding add_page_range is_page_multiple add_pages add_page
range_test = refl

victim_test : find_page_to_page_out four_pages ≡ some (3, flagged 100 5)
unfolding find_page_to_page_out find_victim
victim_test = refl

page_index-get_page_address_example : page_index (get_page_address 300) ≡ 300
page_index-get_page_address_example = page_index-get_page_address 300 (omega arith)

alloc_page-Takes_example :
    (m' : Memory) × (alloc_page four_pages ≡ done (4096, m'))
    × IsValid m'
    × (0 < 4096)
    × (m'.free_list ≡ [])
    × (m'.interrupts ≡ true)
    × (has (get_page m' 1).flags page_allocated ≡ true)
alloc_page-Takes_example = alloc_page-Takes four_pages 1 [] four_pages-IsValid refl

free_page-locked_example :
    (m' : Memory) × (free_page four_pages 12288 ≡ done m')
    × (has (get_page m' 3).flags page_allocated ≡ false)
    × (m'.free_list ≡ 1 ∷ [])
    × (m'.interrupts ≡ false)
free_page-locked_example = free_page-locked four_pages 3 (omega arith) (omega arith) refl refl

free_page-Returns_example :
    (m' : Memory) × (free_page four_pages 8192 ≡ done m')
    × IsValid m'
    × (m'.free_list ≡ 1 ∷ 2 ∷ [])
    × (m'.interrupts ≡ true)
    × (has (get_page m' 2).flags page_allocated ≡ false)
    × (has (get_page m' 2).flags page_pageable ≡ false)
free_page-Returns_example =
    free_page-Returns four_pages 2 four_pages-IsValid (omega arith) (omega arith) refl refl

find_page_to_page_out-IsVictim_example :
    IsVictim four_pages.pages 0 none (find_page_to_page_out four_pages)
find_page_to_page_out-IsVictim_example = find_page_to_page_out-IsVictim four_pages
