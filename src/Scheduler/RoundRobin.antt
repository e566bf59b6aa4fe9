-- ===== src/Scheduler/RoundRobin.antt =====
-- Switch_To_RR moves every thread to queue 0.
use geekos.Base.{
  ◌==◌, ==_iff, Bool-cases, length, ℕ, zero, suc, ◌+◌, ◌-◌, ◌≤◌, ◌<◌, ◌≡◌, refl, sym, ap, ◌∙◌, inl,
  inr, false, List, [], arith,
}
use geekos.Base.Outcome.{done}
use geekos.Scheduler.{Sched, queue}
use geekos.Scheduler.Policy.{drain_all, switch_to_rr}
use geekos.Scheduler.Valid.{IsValid}
use geekos.Scheduler.Drain.{rev_onto, Drains, drain-Drains}

-- Queue 0, in front of it the threads of the `left` queues from `i` on.
abbrev pub gathered : Sched → ℕ → ℕ → List ℕ → List ℕ
gathered s zero i q = q
gathered s (suc left) i q = gathered s left (i + 1) (rev_onto (queue s i) q)

gathered-same :
    (s s' : Sched) (left i : ℕ) (q : List ℕ)
    → ((j : ℕ) → i ≤ j → queue s' j ≡ queue s j)
    → gathered s' left i q ≡ gathered s left i q
gathered-same s s' zero i q h = refl
gathered-same s s' (suc left) i q h =
    gathered-same s s' left (i + 1) (rev_onto (queue s' i) q) (λ j le. h j (omega arith))
    ∙ ap (λ l. gathered s left (i + 1) (rev_onto l q)) (h i (omega arith))

-- What the outer loop comes to from queue `i` on.
pub record DrainsAll (s : Sched) (left i : ℕ) (s' : Sched) : Type 0 where
  pub valid : IsValid s'
  pub emptied : (j : ℕ) → i ≤ j → queue s' j ≡ []
  pub below : (j : ℕ) → 0 < j → j < i → queue s' j ≡ queue s j
  pub front : queue s' 0 ≡ gathered s left i (queue s 0)

drain_all-DrainsAll :
    (left : ℕ) (s : Sched) (i : ℕ)
    → IsValid s
    → 0 < i
    → i + left ≡ s.max_queue_level
    → (s' : Sched) × (drain_all left s i ≡ done s') × DrainsAll s left i s'
unfolding drain_all
drain_all-DrainsAll zero s i v pos h = (
  s,
  refl,
  record {
    valid = v;
    emptied = λ j le. (v.ready j).unused (omega arith);
    below = λ j p l. refl;
    front = refl;
  },
)
drain_all-DrainsAll (suc left) s i v pos h =
    let (s₁, e₁, d) =
      drain-Drains (queue s i) s i (suc (length (queue s i))) v pos (omega arith) refl
        (omega arith) in
    let (s', e, r) =
      drain_all-DrainsAll left s₁ (i + 1) d.valid (omega arith) (omega (arith, d.levels)) in
    (
      s',
      rw e₁ e,
      record {
        valid = r.valid;
        emptied = emptied s₁ d s' r.emptied r.below;
        below = λ j p l.
            r.below j p (omega (arith, l))
            ∙ d.others j (λ z. omega (arith, z, p)) (λ z. omega (arith, z, l));
        front =
            r.front
            ∙ ap (gathered s₁ left (i + 1)) d.front
            ∙ gathered-same s s₁ left (i + 1) (rev_onto (queue s i) (queue s 0))
                (λ j le. d.others j (λ z. omega (arith, z, le)) (λ z. omega (arith, z, le)));
      },
    )
  where
    emptied :
        (s₁ : Sched)
        → Drains s i s₁
        → (s' : Sched) → ((j : ℕ) → i + 1 ≤ j → queue s' j ≡ [])
        → ((j : ℕ) → 0 < j → j < i + 1 → queue s' j ≡ queue s₁ j)
        → (j : ℕ) → i ≤ j
        → queue s' j ≡ []
    emptied s₁ d s' above below j le = elim (Bool-cases (i == j)) [
      | inl e ↦
          let same = (==_iff i j).0 e in
          below j (omega (arith, le)) (omega (arith, same)) ∙ ap (queue s₁) (sym same) ∙ d.from
      | inr e ↦ above j (ground (arith, le, e))
    ]

switch_to_rr-done :
    (s s' : Sched)
    → s.interrupts ≡ false
    → drain_all (s.max_queue_level - 1) s 1 ≡ done s'
    → switch_to_rr s ≡ done (record s' { max_queue_level = 1 })
unfolding switch_to_rr
switch_to_rr-done s s' off e = rw (e, off) refl

-- With interrupts disabled, Switch_To_RR on well-formed run queues ends, with no failed assertion: one
-- level is in use, queue 0 holds the threads of the other queues, each queue in turn reversed in front
-- of what was there, the other queues are empty, and the run queues are well formed for the one level.
pub switch_to_rr-gathers :
    (s : Sched)
    → IsValid s
    → s.interrupts ≡ false
    → (s' : Sched) × (switch_to_rr s ≡ done s')
      × IsValid s'
      × (s'.max_queue_level ≡ 1)
      × (queue s' 0 ≡ gathered s (s.max_queue_level - 1) 1 (queue s 0))
      × ((j : ℕ) → 1 ≤ j → queue s' j ≡ [])
switch_to_rr-gathers s v off =
    let (s', e, r) =
      drain_all-DrainsAll (s.max_queue_level - 1) s 1 v (omega arith)
        (omega (arith, v.some_level)) in
    (
      record s' { max_queue_level = 1 },
      switch_to_rr-done s s' off e,
      record {
        some_level = omega arith;
        enough = omega (arith, r.valid.some_level, r.valid.enough);
        ready = λ j. record {
          placed = (r.valid.ready j).placed;
          distinct = (r.valid.ready j).distinct;
          unused = r.emptied j;
        };
      },
      refl,
      r.front,
      r.emptied,
    )
