-- ===== src/Mem.antt =====
-- src/geekos/mem.c and include/geekos/mem.h: the physical page allocator.
-- A page is its index in g_pageList. The free list is the sequence that `LinkedList` shows the list
-- functions to compute. The interrupt flag is part of the state, since Begin_Int_Atomic and
-- End_Int_Atomic save and restore it.
pub mod Round
pub mod Flags
pub mod Valid
pub mod Free
pub mod Victim
mod Tests
use geekos.Base.{
  ltb, ◌==◌, if◌then◌else◌, get_or, set, ℕ, zero, suc, ◌+◌, ◌-◌, ◌*◌, ◌/◌, ◌%◌, ◌^◌, bit_and,
  bit_or, Bool, true, false, not, ◌&&◌, Option, none, some, List, [], ◌∷◌, ◌++◌,
}
use geekos.Base.Bits.{has}
use geekos.LinkedList.Segment.{mem}
use geekos.Base.Outcome.{Outcome, done, assert_failed, kassert, ◌>>=◌, ◌>>◌}

-- Page flags.
abbrev pub page_avail : ℕ
page_avail = 0

abbrev pub page_allocated : ℕ
page_allocated = 4

abbrev pub page_pageable : ℕ
page_pageable = 32

abbrev pub page_locked : ℕ
page_locked = 64

abbrev pub page_size : ℕ
page_size = 4096

-- `entry` is the address of a page table entry.
pub record Page : Type 0 where
  pub flags : ℕ
  pub clock : ℕ
  pub vaddr : ℕ
  pub entry : ℕ

abbrev pub no_page : Page
no_page = record { flags = 0; clock = 0; vaddr = 0; entry = 0 }

-- A page table entry, in the fields that the allocator writes.
pub record Pte : Type 0 where
  pub present : ℕ
  pub kernel_info : ℕ
  pub page_base_addr : ℕ

pub record Memory : Type 0 where
  pub pages : List Page
  pub free_list : List ℕ
  pub free_page_count : ℕ
  pub interrupts : Bool
  pub ptes : ℕ → Pte

unfoldable pub is_page_multiple : ℕ → Bool
is_page_multiple addr = addr == bit_and addr (2 ^ 32 - 4096)

unfoldable pub round_up_to_page : ℕ → ℕ
round_up_to_page addr =
    if not (bit_and addr 4095 == 0)
    then (bit_and addr (2 ^ 32 - 4096) + page_size) % 2 ^ 32
    else addr

unfoldable pub round_down_to_page : ℕ → ℕ
round_down_to_page addr = bit_and addr (2 ^ 32 - 4096)

-- `addr >> PAGE_POWER`
abbrev pub page_index : ℕ → ℕ
page_index addr = addr / 2 ^ 12

-- `index << PAGE_POWER`
abbrev pub get_page_address : ℕ → ℕ
get_page_address index = (index * 2 ^ 12) % 2 ^ 32

abbrev pub get_page : Memory → ℕ → Page
get_page m i = get_or m.pages i no_page

abbrev pub set_page : Memory → ℕ → Page → Memory
set_page m i p = record m { pages = set m.pages i p }

-- `page->flags |= f` and `page->flags &= ~f`.
abbrev pub set_flags : Page → ℕ → Page
set_flags p f = record p { flags = bit_or p.flags f }

abbrev pub clear_flags : Page → ℕ → Page
clear_flags p f = record p { flags = bit_and p.flags (2 ^ 32 - 1 - f) }

-- Add_To_Back_Of_Page_List, with its assertion.
unfoldable pub add_to_free_list : Memory → ℕ → Outcome Memory
add_to_free_list m i = do
  kassert (not (mem i m.free_list))
  done (record m {
    free_list = m.free_list ++ i ∷ [];
    free_page_count = (m.free_page_count + 1) % 2 ^ 32;
  })

-- The body of the loop of Add_Page_Range for the page with index `i`.
unfoldable pub add_page : Memory → ℕ → ℕ → Outcome Memory
unfolding add_to_free_list
add_page m i flags =
    let flagged = set_page m i (record (get_page m i) { flags = flags }) in
    do
      m' ← if flags == page_avail then add_to_free_list flagged i else done flagged
      done (set_page m' i (record (get_page m' i) { clock = 0; vaddr = 0; entry = 0 }))

-- The loop, with `left` pages to go.
unfoldable pub add_pages : ℕ → Memory → ℕ → ℕ → Outcome Memory
add_pages zero m i flags = done m
add_pages (suc left) m i flags = do m' ← add_page m i flags; add_pages left m' (i + 1) flags

unfoldable pub add_page_range : Memory → ℕ → ℕ → ℕ → Outcome Memory
add_page_range m start end flags = do
  kassert (is_page_multiple start)
  kassert (is_page_multiple end)
  kassert (ltb start end)
  add_pages ((end - start) / page_size) m (page_index start) flags

abbrev pub begin_int_atomic : Memory → Memory
begin_int_atomic m = record m { interrupts = false }

abbrev pub end_int_atomic : Bool → Memory → Memory
end_int_atomic iflag m = record m { interrupts = if iflag then true else m.interrupts }

unfoldable pub take_front : Memory → List ℕ → Outcome (ℕ × Memory)
take_front m [] = done (0, m)
take_front m (i ∷ rest) = do
  kassert (bit_and (get_page m i).flags page_allocated == 0)
  done (
    get_page_address i,
    record (set_page m i (set_flags (get_page m i) page_allocated)) {
      free_list = rest;
      free_page_count = (m.free_page_count + 2 ^ 32 - 1) % 2 ^ 32;
    },
  )

-- The address, 0 for a null pointer.
unfoldable pub alloc_page : Memory → Outcome (ℕ × Memory)
unfolding take_front
alloc_page m = do
  (addr, m') ← take_front (begin_int_atomic m) m.free_list
  done (addr, end_int_atomic m.interrupts m')

-- The end of Free_Page for a page that is not locked.
unfoldable pub release : Bool → Memory → ℕ → Outcome Memory
unfolding add_to_free_list
release iflag m i = do
  m' ← add_to_free_list (set_page m i (clear_flags (get_page m i) page_pageable)) i
  done (end_int_atomic iflag m')

unfoldable pub free_page : Memory → ℕ → Outcome Memory
unfolding release
free_page m addr =
    let i = page_index addr in
    let m' = set_page (begin_int_atomic m) i (clear_flags (get_page m i) page_allocated) in
    do
      kassert (is_page_multiple addr)
      kassert (has (get_page m i).flags page_allocated)
      if has (get_page m' i).flags page_locked then done m' else release m.interrupts m' i

-- Find_Page_To_Page_Out over the pages from index `i` on; `best` is the candidate so far.
unfoldable pub find_victim : List Page → ℕ → Option (ℕ × Page) → Option (ℕ × Page)
find_victim [] i best = best
find_victim (p ∷ ps) i best = find_victim ps (i + 1) (
    if has p.flags page_pageable && has p.flags page_allocated
    then elim best [
      | none ↦ some (i, p)
      | some b ↦ if ltb p.clock b.1.clock && has p.flags page_pageable then some (i, p) else some b
    ]
    else best)

unfoldable pub find_page_to_page_out : Memory → Option (ℕ × Page)
find_page_to_page_out m = find_victim m.pages 0 none

-- The label after the page was found: Alloc_Pageable_Page fills in the page's bookkeeping.
fill_in : Memory → ℕ → ℕ → ℕ → Outcome Memory
fill_in m i entry vaddr =
    let p = get_page m i in
    let pte = m.ptes entry in
    do
      kassert (has (bit_or p.flags page_pageable) page_allocated)
      done
          (record (set_page m i
            (record p { flags = bit_or p.flags page_pageable; entry = entry; vaddr = vaddr })) {
              ptes = λ a. if a == entry then record pte { kernel_info = 0 } else m.ptes a;
            })

abbrev pub kinfo_page_on_disk : ℕ
kinfo_page_on_disk = 4

-- What happens once the stolen page has been written to index `slot` of the paging file.
after_write : Memory → ℕ → ℕ → Memory
after_write m i slot =
    let p = get_page m i in
    let pte = m.ptes p.entry in
    let kept = record (set_page m i (clear_flags p page_locked)) {
      ptes = λ a.
          if a == p.entry
          then record pte { present = 0; kernel_info = kinfo_page_on_disk; page_base_addr = slot }
          else m.ptes a;
    } in
    let taken = set_page m i (clear_flags (set_flags p page_allocated) page_locked) in
    if has p.flags page_allocated then kept else taken

-- `slot` is the result of Find_Space_On_Paging_File, and `others` what other threads do while the
-- page is written, with interrupts enabled.
steal_page : Option ℕ → (Memory → Memory) → Memory → ℕ → ℕ → Outcome (ℕ × Memory)
unfolding fill_in after_write
steal_page slot others m entry vaddr = elim (find_page_to_page_out m) [
  | none ↦ assert_failed
  | some (i, p) ↦ do
    kassert (has p.flags page_pageable)
    elim slot [
      | none ↦ done (0, m)
      | some s ↦ do
        let busy = set_page m i (set_flags (clear_flags (get_page m i) page_pageable) page_locked)
        m' ← fill_in (after_write (others busy) i s) i entry vaddr
        done (get_page_address i, m')
    ]
]

-- A page that Alloc_Page gave.
use_page : Memory → ℕ → ℕ → ℕ → Outcome (ℕ × Memory)
unfolding fill_in
use_page m addr entry vaddr = do
  kassert (not (has (get_page m (page_index addr)).flags page_pageable))
  m' ← fill_in m (page_index addr) entry vaddr
  done (addr, m')

unfoldable pub alloc_pageable_page :
    Option ℕ → (Memory → Memory) → Memory → ℕ → ℕ → Outcome (ℕ × Memory)
unfolding use_page steal_page
alloc_pageable_page slot others m entry vaddr = do
  kassert (is_page_multiple vaddr)
  (addr, m') ← alloc_page (begin_int_atomic m)
  (addr', m'') ←
      if not (addr == 0)
      then use_page m' addr entry vaddr
      else steal_page slot others m' entry vaddr
  done (addr', end_int_atomic m.interrupts m'')
