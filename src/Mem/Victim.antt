-- ===== src/Mem/Victim.antt =====
-- Find_Page_To_Page_Out: the choice of a page to evict.
use geekos.Base.{
  ltb, ltb→lt, Bool-cases, get_elem?, All, ℕ, suc, ◌+◌, ◌≤◌, ◌<◌, ◌≡◌, refl, sym, ap, ◌⊎◌, inl, inr,
  true, false, ◌&&◌, Option, none, some, List, [], ◌∷◌, arith,
}
use geekos.Base.Bits.{has}
use geekos.Mem.{Page, Memory, page_allocated, page_pageable, find_victim, find_page_to_page_out}

abbrev pub IsCandidate : Page → Type 0
IsCandidate p = (has p.flags page_pageable ≡ true) × (has p.flags page_allocated ≡ true)

-- What the search over the pages `ps` that follow index `i` may return, having `best` so far: nothing,
-- where there is neither a candidate so far nor one in `ps`; else a candidate, which is the one so far
-- or the page of `ps` at its index, and whose clock is not above any candidate's.
abbrev pub IsVictim : List Page → ℕ → Option (ℕ × Page) → Option (ℕ × Page) → Type 0
IsVictim ps i none none = All (λ p. ¬ IsCandidate p) ps
IsVictim ps i (some b) none = ⊥
IsVictim ps i none (some v) =
    IsCandidate v.1
    × All (λ p. IsCandidate p → v.1.clock ≤ p.clock) ps
    × ((j : ℕ) × (v.0 ≡ i + j) × (get_elem? ps j ≡ some v.1))
IsVictim ps i (some b) (some v) =
    IsCandidate v.1
    × All (λ p. IsCandidate p → v.1.clock ≤ p.clock) ps
    × (v.1.clock ≤ b.1.clock)
    × ((v ≡ b) ⊎ ((j : ℕ) × (v.0 ≡ i + j) × (get_elem? ps j ≡ some v.1)))

abbrev CandidateOr : Option (ℕ × Page) → Type 0
CandidateOr none = Unit
CandidateOr (some b) = IsCandidate b.1

IsCandidate-cases :
    (p : Page)
    → ((has p.flags page_pageable && has p.flags page_allocated) ≡ true) × IsCandidate p
      ⊎ ((has p.flags page_pageable && has p.flags page_allocated) ≡ false) × (¬ IsCandidate p)
IsCandidate-cases p = ground arith

-- The victim's place in `p ∷ ps`, from its place once `p` became the best so far.
place :
    (p : Page) (ps : List Page) (i : ℕ) (v : ℕ × Page)
    → (v ≡ (i, p)) ⊎ ((j : ℕ) × (v.0 ≡ i + 1 + j) × (get_elem? ps j ≡ some v.1))
    → (j : ℕ) × (v.0 ≡ i + j) × (get_elem? (p ∷ ps) j ≡ some v.1)
place p ps i v (inl e) =
    (0, omega (arith, ap (λ (z : ℕ × Page). z.0) e), ap (λ (z : ℕ × Page). some z.1) (sym e))
place p ps i v (inr (j, e, g)) = (suc j, omega arith, g)

take-none :
    (p : Page) (ps : List Page) (i : ℕ) (r : Option (ℕ × Page))
    → IsVictim ps (i + 1) (some (i, p)) r
    → IsVictim (p ∷ ps) i none r
take-none p ps i none h = elim h [ ]
take-none p ps i (some v) (c, all, le, from) = (c, (λ d. le, all), place p ps i v from)

skip-none :
    (p : Page) (ps : List Page) (i : ℕ) (r : Option (ℕ × Page))
    → ¬ IsCandidate p
    → IsVictim ps (i + 1) none r
    → IsVictim (p ∷ ps) i none r
skip-none p ps i none n h = (n, h)
skip-none p ps i (some v) n (c, all, (j, e, g)) =
    (c, (λ d. absurd (n d), all), (suc j, omega arith, g))

take-some :
    (p : Page) (ps : List Page) (i : ℕ) (b : ℕ × Page) (r : Option (ℕ × Page))
    → p.clock < b.1.clock
    → IsVictim ps (i + 1) (some (i, p)) r
    → IsVictim (p ∷ ps) i (some b) r
take-some p ps i b none lt h = elim h [ ]
take-some p ps i b (some v) lt (c, all, le, from) =
    (c, (λ d. le, all), omega arith, inr (place p ps i v from))

skip-some :
    (p : Page) (ps : List Page) (i : ℕ) (b : ℕ × Page) (r : Option (ℕ × Page))
    → (IsCandidate p → b.1.clock ≤ p.clock)
    → IsVictim ps (i + 1) (some b) r
    → IsVictim (p ∷ ps) i (some b) r
skip-some p ps i b none k h = elim h [ ]
skip-some p ps i b (some v) k (c, all, le, inl e) = (c, (λ d. omega (arith, k d), all), le, inl e)
skip-some p ps i b (some v) k (c, all, le, inr (j, e, g)) =
    (c, (λ d. omega (arith, k d), all), le, inr (suc j, omega arith, g))

find_victim-IsVictim :
    (ps : List Page) (i : ℕ) (best : Option (ℕ × Page))
    → CandidateOr best
    → IsVictim ps i best (find_victim ps i best)
unfolding find_victim
find_victim-IsVictim [] i none c = tt
find_victim-IsVictim [] i (some b) c = (c, tt, omega arith, inl refl)
find_victim-IsVictim (p ∷ ps) i none c = elim (IsCandidate-cases p) [
  | inl (e, h) ↦ rw e (
      take-none p ps i (find_victim ps (i + 1) (some (i, p)))
        (find_victim-IsVictim ps (i + 1) (some (i, p)) h))
  | inr (e, h) ↦
      rw e
        (skip-none p ps i (find_victim ps (i + 1) none) h (find_victim-IsVictim ps (i + 1) none tt))
]
find_victim-IsVictim (p ∷ ps) i (some b) c = elim (IsCandidate-cases p) [
  | inr (e, h) ↦ rw e (
      skip-some p ps i b (find_victim ps (i + 1) (some b)) (λ d. absurd (h d))
        (find_victim-IsVictim ps (i + 1) (some b) c))
  | inl (e, h) ↦ elim (Bool-cases (ltb p.clock b.1.clock)) [
    | inl l ↦
        rw (e, l, h.0)
          (take-some p ps i b (find_victim ps (i + 1) (some (i, p))) (ltb→lt p.clock b.1.clock l)
            (find_victim-IsVictim ps (i + 1) (some (i, p)) h))
    | inr l ↦
        rw (e, l)
          (skip-some p ps i b (find_victim ps (i + 1) (some b)) (λ d. ground arith)
            (find_victim-IsVictim ps (i + 1) (some b) c))
  ]
]

-- Find_Page_To_Page_Out returns a page of the page list that is allocated and pageable, with its index,
-- and with the least clock of all such pages; it returns none only where there is no such page.
pub find_page_to_page_out-IsVictim :
    (m : Memory) → IsVictim m.pages 0 none (find_page_to_page_out m)
unfolding find_page_to_page_out
find_page_to_page_out-IsVictim m = find_victim-IsVictim m.pages 0 none tt
