-- ===== src/Scheduler/Drain.antt =====
-- The inner loop of Switch_To_RR: one queue goes in front of queue 0.
use geekos.Base.{
  ◌==◌, ==_iff, ==-self, Bool-cases, length, get_or, set, All, length-set, get_or-set_self,
  get_or-set_ne, ℕ, zero, suc, ◌<◌, ◌≡◌, refl, sym, ap, subst, ◌∙◌, ◌≢◌, inl, inr, List, [], ◌∷◌,
  arith,
}
use geekos.Base.Outcome.{done}
use geekos.LinkedList.Segment.{mem-NotIn, NotIn, Distinct}
use geekos.Scheduler.{Thread, Sched, queue, set_queue, set_thread, remove_thread}
use geekos.Scheduler.Policy.{move_to_front, drain}
use geekos.Scheduler.Valid.{IsReady, IsValid, placed-set_thread}
use geekos.Scheduler.Yield.{elsewhere}

-- The threads of `ts`, each put in front of `q` in turn.
abbrev pub rev_onto : List ℕ → List ℕ → List ℕ
rev_onto [] q = q
rev_onto (t ∷ ts) q = rev_onto ts (t ∷ q)

-- The state once `t` went from the front of queue `i`, of which `ts` is left, to the front of queue 0.
abbrev moved : Sched → ℕ → ℕ → List ℕ → Sched
moved s t i ts =
    set_queue (set_queue (set_thread s t (record (s.threads t) { current_ready_queue = 0 })) i ts) 0
      (t ∷ queue s 0)

module _ (s : Sched) (t i : ℕ) (ts : List ℕ) (v : IsValid s) (pos : 0 < i)
    (lt : i < s.max_queue_level) where
  moved-zero : queue (moved s t i ts) 0 ≡ t ∷ queue s 0
  moved-zero =
      get_or-set_self (set s.run_queues i ts) 0 (t ∷ queue s 0) []
        (omega (arith, v.enough, length-set s.run_queues i ts))

  moved-from : queue (moved s t i ts) i ≡ ts
  moved-from =
      get_or-set_ne (set s.run_queues i ts) 0 i (t ∷ queue s 0) [] (λ e. omega (arith, e))
      ∙ get_or-set_self s.run_queues i ts [] (omega (arith, v.enough))

  moved-other : (j : ℕ) → 0 ≢ j → i ≢ j → queue (moved s t i ts) j ≡ queue s j
  moved-other j nz ne =
      get_or-set_ne (set s.run_queues i ts) 0 j (t ∷ queue s 0) [] nz
      ∙ get_or-set_ne s.run_queues i j ts [] ne

  NotIn-zero : queue s i ≡ t ∷ ts → NotIn t (queue s 0)
  NotIn-zero shape =
      let placed =
        subst (All (λ x. (s.threads x).current_ready_queue ≡ i)) shape (v.ready i).placed in
      elsewhere s.threads t 0 (queue s 0) (λ e. omega (arith, e, placed.0)) (v.ready 0).placed

  move_to_front-moved : queue s i ≡ t ∷ ts → move_to_front s t i 0 ≡ done (moved s t i ts)
  unfolding move_to_front remove_thread
  move_to_front-moved shape =
      let zero_kept : get_or (set s.run_queues i ts) 0 [] ≡ queue s 0 =
        get_or-set_ne s.run_queues i 0 ts [] (λ e. omega (arith, e)) in
      rw (shape, ==-self t, zero_kept, mem-NotIn t (queue s 0) (NotIn-zero shape)) refl

  moved-IsValid : queue s i ≡ t ∷ ts → IsValid (moved s t i ts)
  moved-IsValid shape = record {
    some_level = v.some_level;
    enough = omega (
      arith,
      v.enough,
      length-set s.run_queues i ts,
      length-set (set s.run_queues i ts) 0 (t ∷ queue s 0),
    );
    ready = ready;
  }
    where
      th : Thread
      th = record (s.threads t) { current_ready_queue = 0 }

      placed_from : All (λ x. (s.threads x).current_ready_queue ≡ i) (t ∷ ts)
      placed_from =
          subst (All (λ x. (s.threads x).current_ready_queue ≡ i)) shape (v.ready i).placed

      distinct_from : Distinct (t ∷ ts)
      distinct_from = subst Distinct shape (v.ready i).distinct

      at_zero : IsReady (moved s t i ts) 0 (queue (moved s t i ts) 0)
      at_zero = subst (IsReady (moved s t i ts) 0) (sym moved-zero) (record {
        placed = (
          rw (==-self t) refl,
          placed-set_thread s t 0 th (queue s 0) (NotIn-zero shape) (v.ready 0).placed,
        );
        distinct = (NotIn-zero shape, (v.ready 0).distinct);
        unused = λ le. absurd (omega (arith, le, v.some_level));
      })

      at_from : IsReady (moved s t i ts) i (queue (moved s t i ts) i)
      at_from = subst (IsReady (moved s t i ts) i) (sym moved-from) (record {
        placed = placed-set_thread s t i th ts distinct_from.0 placed_from.1;
        distinct = distinct_from.1;
        unused = λ le. absurd (omega (arith, le, lt));
      })

      at_other : (j : ℕ) → 0 ≢ j → i ≢ j → IsReady (moved s t i ts) j (queue (moved s t i ts) j)
      at_other j nz ne = subst (IsReady (moved s t i ts) j) (sym (moved-other j nz ne)) (record {
        placed =
            placed-set_thread s t j th (queue s j)
              (elsewhere s.threads t j (queue s j) (λ e. ne (sym placed_from.0 ∙ e))
                (v.ready j).placed)
              (v.ready j).placed;
        distinct = (v.ready j).distinct;
        unused = (v.ready j).unused;
      })

      ready : (j : ℕ) → IsReady (moved s t i ts) j (queue (moved s t i ts) j)
      ready j = elim (Bool-cases (0 == j)) [
        | inl z ↦
            subst (λ k. IsReady (moved s t i ts) k (queue (moved s t i ts) k)) ((==_iff 0 j).0 z)
              at_zero
        | inr z ↦ elim (Bool-cases (i == j)) [
          | inl e ↦
              subst (λ k. IsReady (moved s t i ts) k (queue (moved s t i ts) k)) ((==_iff i j).0 e)
                at_from
          | inr e ↦
              at_other j (λ same. ground (arith, z, (==_iff 0 j).1 same))
                (λ same. ground (arith, e, (==_iff i j).1 same))
        ]
      ]

-- What the inner loop comes to on queue `i`.
pub record Drains (s : Sched) (i : ℕ) (s' : Sched) : Type 0 where
  pub valid : IsValid s'
  pub from : queue s' i ≡ []
  pub front : queue s' 0 ≡ rev_onto (queue s i) (queue s 0)
  pub others : (j : ℕ) → 0 ≢ j → i ≢ j → queue s' j ≡ queue s j
  pub levels : s'.max_queue_level ≡ s.max_queue_level

pub drain-Drains :
    (ts : List ℕ) (s : Sched) (i fuel : ℕ)
    → IsValid s
    → 0 < i
    → i < s.max_queue_level
    → queue s i ≡ ts
    → length ts < fuel
    → (s' : Sched) × (drain fuel s i ≡ done s') × Drains s i s'
unfolding drain
drain-Drains ts s i zero v pos lt shape h = elim h [ ]
drain-Drains [] s i (suc fuel) v pos lt shape h = (
  s,
  rw (drain, shape) refl,
  record {
    valid = v;
    from = shape;
    front = ap (λ l. rev_onto l (queue s 0)) (sym shape);
    others = λ j nz ne. refl;
    levels = refl;
  },
)
drain-Drains (t ∷ ts) s i (suc fuel) v pos lt shape h =
    let (s', e, d) =
      drain-Drains ts (moved s t i ts) i fuel (moved-IsValid s t i ts v pos lt shape) pos lt
        (moved-from s t i ts v pos lt) (omega arith) in
    (
      s',
      rw (drain, shape, move_to_front-moved s t i ts v pos lt shape) e,
      record {
        valid = d.valid;
        from = d.from;
        front =
            d.front
            ∙ ap (λ l. rev_onto l (queue (moved s t i ts) 0)) (moved-from s t i ts v pos lt)
            ∙ ap (rev_onto ts) (moved-zero s t i ts v pos lt)
            ∙ ap (λ l. rev_onto l (queue s 0)) (sym shape);
        others = λ j nz ne. d.others j nz ne ∙ moved-other s t i ts v pos lt j nz ne;
        levels = d.levels;
      },
    )
