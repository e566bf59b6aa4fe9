-- ===== src/Mem/Valid.antt =====
-- The well-formedness of the allocator's state, and what Alloc_Page and Free_Page do to it.
use geekos.Base.{
  ◌==◌, if◌then◌else◌, length, get_or, set, All, length-set, get_or-set_self, get_or-set_ne, ℕ, ◌+◌,
  ◌-◌, ◌*◌, ◌%◌, ◌^◌, ◌≤◌, ◌<◌, bit_and, ◌≡◌, refl, ap, subst, ◌∙◌, Bool, true, false, List, [],
  ◌∷◌, arith,
}
use geekos.Base.Bits.{has}
use geekos.Mem.Flags.{set_allocated-allocated}
use geekos.Base.Outcome.{done}
use geekos.LinkedList.Segment.{NotIn, Distinct}
use geekos.Mem.{
  Page, no_page, Memory, page_allocated, get_page_address, get_page, set_flags, alloc_page,
  take_front,
}

-- Page `i` may stand on the free list: it is not the page at address 0, the machine has it, and it is
-- not marked as allocated.
abbrev pub IsFree : List Page → ℕ → Type 0
IsFree pages i =
    (0 < i) × (i < length pages) × (has (get_or pages i no_page).flags page_allocated ≡ false)

pub record IsValid (m : Memory) : Type 0 where
  pub small : length m.pages ≤ 2 ^ 20
  pub counted : m.free_page_count ≡ length m.free_list % 2 ^ 32
  pub distinct : Distinct m.free_list
  pub free : All (IsFree m.pages) m.free_list

pub weaken :
    (pages : List Page) (i : ℕ) (p : Page) (xs : List ℕ)
    → NotIn i xs
    → All (IsFree pages) xs
    → All (IsFree (set pages i p)) xs
weaken pages i p [] out h = tt
weaken pages i p (x ∷ xs) (ne, out) ((pos, lt, avail), h) = (
  (
    pos,
    omega (arith, length-set pages i p),
    ap (λ (q : Page). has q.flags page_allocated) (get_or-set_ne pages i x p no_page ne) ∙ avail,
  ),
  weaken pages i p xs out h,
)

-- A page that is marked as allocated is not on the list.
pub allocated-NotIn :
    (pages : List Page) (i : ℕ) (xs : List ℕ)
    → has (get_or pages i no_page).flags page_allocated ≡ true
    → All (IsFree pages) xs
    → NotIn i xs
allocated-NotIn pages i [] a h = tt
allocated-NotIn pages i (x ∷ xs) a ((pos, lt, avail), h) = (
  λ e. ground (arith, a, ap (λ j. has (get_or pages j no_page).flags page_allocated) e, avail),
  allocated-NotIn pages i xs a h,
)

-- The state once page `i` was taken.
abbrev taken : Memory → ℕ → List ℕ → Memory
taken m i rest = record m {
  pages = set m.pages i (set_flags (get_page m i) page_allocated);
  free_list = rest;
  free_page_count = (m.free_page_count + 2 ^ 32 - 1) % 2 ^ 32;
}

pub same_interrupts : (b : Bool) → (if b then true else false) ≡ b
same_interrupts b = ground arith

alloc_page-front :
    (m : Memory) (i : ℕ) (rest : List ℕ)
    → i < 2 ^ 20
    → has (get_page m i).flags page_allocated ≡ false
    → m.free_list ≡ i ∷ rest
    → alloc_page m ≡ done (i * 4096, taken m i rest)
unfolding alloc_page take_front
alloc_page-front m i rest small avail shape =
    let clear : (bit_and (get_page m i).flags page_allocated == 0) ≡ true = ground (arith, avail) in
    let address : get_page_address i ≡ i * 4096 = omega arith in
    rw (shape, clear, address, same_interrupts m.interrupts) refl

-- Alloc_Page on a well-formed state with page `i` in front of the free list gives that page's address,
-- which is not null. The page leaves the list and is marked as allocated, the count follows, the
-- interrupt flag is as before, and the state stays well formed.
pub alloc_page-Takes :
    (m : Memory) (i : ℕ) (rest : List ℕ)
    → IsValid m
    → m.free_list ≡ i ∷ rest
    → (m' : Memory) × (alloc_page m ≡ done (i * 4096, m'))
      × IsValid m'
      × (0 < i * 4096)
      × (m'.free_list ≡ rest)
      × (m'.interrupts ≡ m.interrupts)
      × (has (get_page m' i).flags page_allocated ≡ true)
unfolding alloc_page take_front
alloc_page-Takes m i rest v shape =
    let ((pos, lt, avail), h) = subst (All (IsFree m.pages)) shape v.free in
    let d = subst Distinct shape v.distinct in
    let p = set_flags (get_page m i) page_allocated in
    (
      record m {
        pages = set m.pages i p;
        free_list = rest;
        free_page_count = (m.free_page_count + 2 ^ 32 - 1) % 2 ^ 32;
      },
      alloc_page-front m i rest (omega (arith, v.small)) avail shape,
      record {
        small = omega (arith, v.small, length-set m.pages i p);
        counted = omega (arith, v.counted, ap length shape);
        distinct = d.1;
        free = weaken m.pages i p rest d.0 h;
      },
      omega arith,
      refl,
      refl,
      ap (λ (q : Page). has q.flags page_allocated) (get_or-set_self m.pages i p no_page lt)
          ∙ set_allocated-allocated (get_page m i),
    )
