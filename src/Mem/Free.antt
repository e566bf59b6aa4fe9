-- ===== src/Mem/Free.antt =====
-- Free_Page, on a page that is locked and on one that is not.
use geekos.Base.{
  if◌then◌else◌, length, set, length-append, length-set, get_or-set_self, All-append, ℕ, ◌+◌, ◌*◌,
  ◌%◌, ◌^◌, ◌<◌, ◌≡◌, refl, ap, ◌∙◌, true, false, [], ◌∷◌, ◌++◌, arith,
}
use geekos.Base.Bits.{has}
use geekos.Base.Outcome.{done}
use geekos.LinkedList.Segment.{mem-NotIn, NotIn}
use geekos.Mem.{
  Page, no_page, Memory, page_allocated, page_pageable, page_locked, page_index, get_page, set_page,
  clear_flags, add_to_free_list, release, free_page, is_page_multiple, begin_int_atomic,
}
use geekos.LinkedList.Insert.{Distinct-back}
use geekos.Mem.Round.{is_page_multiple_iff}
use geekos.Mem.Flags.{
  clear_allocated-allocated, clear_pageable-pageable, clear_pageable-allocated,
  clear_allocated-locked,
}
use geekos.Mem.Valid.{IsFree, IsValid, weaken, allocated-NotIn, same_interrupts}

-- Page `i` without its allocation bit, interrupts disabled.
abbrev unallocated : Memory → ℕ → Memory
unallocated m i = set_page (begin_int_atomic m) i (clear_flags (get_page m i) page_allocated)

get_page-unallocated :
    (m : Memory) (i : ℕ)
    → i < length m.pages
    → get_page (unallocated m i) i ≡ clear_flags (get_page m i) page_allocated
get_page-unallocated m i h =
    get_or-set_self m.pages i (clear_flags (get_page m i) page_allocated) no_page h

-- The two assertions of Free_Page passed.
free_page-passed :
    (m : Memory) (i : ℕ)
    → i < length m.pages
    → i < 2 ^ 20
    → has (get_page m i).flags page_allocated ≡ true
    → free_page m (i * 4096) ≡ (
        if has (get_page m i).flags page_locked
        then done (unallocated m i)
        else release m.interrupts (unallocated m i) i)
unfolding free_page
free_page-passed m i h small a =
    let multiple : is_page_multiple (i * 4096) ≡ true =
      (is_page_multiple_iff (i * 4096) (omega arith)).1 (omega arith) in
    let index : page_index (i * 4096) ≡ i = omega arith in
    let lock : has (get_page (unallocated m i) i).flags page_locked
        ≡ has (get_page m i).flags page_locked =
      ap (λ (q : Page). has q.flags page_locked) (get_page-unallocated m i h)
      ∙ clear_allocated-locked (get_page m i) in
    rw (multiple, index, a, lock) refl

-- Freeing an allocated page that is locked clears its allocation bit, keeps it off the free list, and
-- returns with interrupts disabled, whatever they were before.
pub free_page-locked :
    (m : Memory) (i : ℕ)
    → i < length m.pages
    → i < 2 ^ 20
    → has (get_page m i).flags page_allocated ≡ true
    → has (get_page m i).flags page_locked ≡ true
    → (m' : Memory) × (free_page m (i * 4096) ≡ done m')
      × (has (get_page m' i).flags page_allocated ≡ false)
      × (m'.free_list ≡ m.free_list)
      × (m'.interrupts ≡ false)
free_page-locked m i h small a locked = (
  unallocated m i,
  free_page-passed m i h small a
      ∙ ap (λ b. if b then done (unallocated m i) else release m.interrupts (unallocated m i) i)
          locked,
  ap (λ (q : Page). has q.flags page_allocated) (get_page-unallocated m i h)
      ∙ clear_allocated-allocated (get_page m i),
  refl,
  refl,
)

-- The page and the state that Free_Page leaves.
abbrev freed_page : Memory → ℕ → Page
freed_page m i = clear_flags (clear_flags (get_page m i) page_allocated) page_pageable

abbrev freed : Memory → ℕ → Memory
freed m i = record m {
  pages = set (unallocated m i).pages i (freed_page m i);
  free_list = m.free_list ++ i ∷ [];
  free_page_count = (m.free_page_count + 1) % 2 ^ 32;
}

release-unallocated :
    (m : Memory) (i : ℕ)
    → i < length m.pages
    → NotIn i m.free_list
    → release m.interrupts (unallocated m i) i ≡ done (freed m i)
unfolding release add_to_free_list
release-unallocated m i h out =
    rw (get_page-unallocated m i h, mem-NotIn i m.free_list out, same_interrupts m.interrupts) refl

get_page-freed : (m : Memory) (i : ℕ) → i < length m.pages → get_page (freed m i) i ≡ freed_page m i
get_page-freed m i h =
    get_or-set_self (unallocated m i).pages i (freed_page m i) no_page
      (omega (arith, length-set m.pages i (clear_flags (get_page m i) page_allocated)))

freed-avail :
    (m : Memory) (i : ℕ)
    → i < length m.pages
    → has (get_page (freed m i) i).flags page_allocated ≡ false
freed-avail m i h =
    ap (λ (q : Page). has q.flags page_allocated) (get_page-freed m i h)
    ∙ clear_pageable-allocated (clear_flags (get_page m i) page_allocated)
    ∙ clear_allocated-allocated (get_page m i)

freed-IsValid :
    (m : Memory) (i : ℕ)
    → IsValid m
    → 0 < i
    → i < length m.pages
    → NotIn i m.free_list
    → IsValid (freed m i)
freed-IsValid m i v pos h out =
    let q = clear_flags (get_page m i) page_allocated in
    let once : length (set m.pages i q) ≡ length m.pages = length-set m.pages i q in
    let twice : length (freed m i).pages ≡ length (set m.pages i q) =
      length-set (set m.pages i q) i (freed_page m i) in
    record {
      small = omega (arith, v.small, once, twice);
      counted = omega (arith, v.counted, length-append m.free_list (i ∷ []));
      distinct = Distinct-back i m.free_list out v.distinct;
      free =
          All-append (IsFree (freed m i).pages) m.free_list (i ∷ [])
            (weaken (set m.pages i q) i (freed_page m i) m.free_list out
              (weaken m.pages i q m.free_list out v.free))
            ((pos, omega (arith, once, twice), freed-avail m i h), tt);
    }

-- Freeing an allocated page that is not locked puts it at the back of the free list with its allocated
-- and pageable bits clear, restores the interrupt flag and keeps the state well formed. For a page of
-- the machine other than the one at address 0.
pub free_page-Returns :
    (m : Memory) (i : ℕ)
    → IsValid m
    → 0 < i
    → i < length m.pages
    → has (get_page m i).flags page_allocated ≡ true
    → has (get_page m i).flags page_locked ≡ false
    → (m' : Memory) × (free_page m (i * 4096) ≡ done m')
      × IsValid m'
      × (m'.free_list ≡ m.free_list ++ i ∷ [])
      × (m'.interrupts ≡ m.interrupts)
      × (has (get_page m' i).flags page_allocated ≡ false)
      × (has (get_page m' i).flags page_pageable ≡ false)
free_page-Returns m i v pos h a locked =
    let out = allocated-NotIn m.pages i m.free_list a v.free in
    (
      freed m i,
      free_page-passed m i h (omega (arith, v.small)) a
          ∙ ap (λ b. if b then done (unallocated m i) else release m.interrupts (unallocated m i) i)
              locked
          ∙ release-unallocated m i h out,
      freed-IsValid m i v pos h out,
      refl,
      refl,
      freed-avail m i h,
      ap (λ (q : Page). has q.flags page_pageable) (get_page-freed m i h)
          ∙ clear_pageable-pageable (clear_flags (get_page m i) page_allocated),
    )
