-- ===== src/Scheduler/Valid.antt =====
-- The well-formedness of the run queues, and Make_Runnable.
use geekos.Base.{
  ltb, ◌==◌, ==_iff, ==-self, ==_ne, Bool-cases, length, All, length-set, get_or-set_self,
  get_or-set_ne, All-append, ℕ, ◌+◌, ◌≤◌, ◌<◌, ◌≡◌, refl, sym, subst, ◌≢◌, ◌⊎◌, inl, inr, true,
  false, List, [], ◌∷◌, ◌++◌, arith,
}
use geekos.Base.Outcome.{done}
use geekos.LinkedList.Segment.{mem-NotIn, NotIn, Distinct}
use geekos.LinkedList.Insert.{Distinct-back}
use geekos.Scheduler.{
  Thread, Sched, queue, set_queue, set_thread, priority_idle, enqueue_thread, current_queue,
  ready_level, make_runnable,
}

-- The threads of queue `j` have it as their ready queue, none stands there twice, and a queue at a level
-- that is not in use is empty.
pub record IsReady (s : Sched) (j : ℕ) (q : List ℕ) : Type 0 where
  pub placed : All (λ t. (s.threads t).current_ready_queue ≡ j) q
  pub distinct : Distinct q
  pub unused : s.max_queue_level ≤ j → q ≡ []

pub record IsValid (s : Sched) : Type 0 where
  pub some_level : 0 < s.max_queue_level
  pub enough : s.max_queue_level ≤ length s.run_queues
  pub ready : (j : ℕ) → IsReady s j (queue s j)

-- The thread stands in no run queue.
abbrev pub IsOff : Sched → ℕ → Type 0
IsOff s t = (j : ℕ) → NotIn t (queue s j)

-- What holds of each queue with its level still does once queue `i` is replaced by one that it holds of.
pub each-set_queue {ℓ} :
    (P : ℕ → List ℕ → Type ℓ) (s : Sched) (i : ℕ) (q : List ℕ)
    → i < length s.run_queues
    → ((j : ℕ) → P j (queue s j))
    → P i q
    → (j : ℕ) → P j (queue (set_queue s i q) j)
each-set_queue P s i q lt h hq j = elim (Bool-cases (i == j)) [
  | inl e ↦
      let same = (==_iff i j).0 e in
      subst (λ k. P k (queue (set_queue s i q) k)) same
        (subst (P i) (sym (get_or-set_self s.run_queues i q [] lt)) hq)
  | inr e ↦
      subst (P j)
        (sym (get_or-set_ne s.run_queues i j q [] (λ same. ground (arith, e, (==_iff i j).1 same))))
        (h j)
]

current_queue-lt :
    (s : Sched) (th : Thread)
    → 0 < s.max_queue_level
    → ltb (current_queue s th) s.max_queue_level ≡ true
unfolding current_queue
current_queue-lt s th h = ground arith

-- Make_Runnable chooses a level in use.
pub ready_level-lt :
    (s : Sched) (th : Thread) → 0 < s.max_queue_level → ready_level s th < s.max_queue_level
unfolding ready_level current_queue
ready_level-lt s th h = ground arith

-- A thread's level after Make_Runnable: the lowest for the idle thread; else at most its ready queue and
-- at most one level above it, or above the lowest level where its ready queue is not in use.
pub ready_level-bounds :
    (s : Sched) (th : Thread)
    → 0 < s.max_queue_level
    → ((th.priority ≡ priority_idle) × (ready_level s th + 1 ≡ s.max_queue_level))
      ⊎ ((th.priority ≢ priority_idle)
          × (ready_level s th ≤ th.current_ready_queue)
          × ((th.current_ready_queue ≤ ready_level s th + 1)
              ⊎ ((s.max_queue_level ≤ th.current_ready_queue)
                  × (s.max_queue_level ≤ ready_level s th + 2))))
unfolding ready_level current_queue
ready_level-bounds s th h = elim (Bool-cases (th.priority == priority_idle)) [
  | inl e ↦ inl (ground (arith, e), ground (arith, e))
  | inr e ↦ inr (
    ground (arith, e),
    ground (arith, e),
    elim (Bool-cases (ltb th.current_ready_queue s.max_queue_level)) [
      | inl l ↦ inl (ground (arith, e, l))
      | inr l ↦ inr (ground (arith, l), ground (arith, e, l))
    ],
  )
]

-- The state after Make_Runnable put the thread `t` at the back of the queue of its level.
abbrev pub made_runnable : Sched → ℕ → Sched
made_runnable s t =
    let th = s.threads t in
    let level = ready_level s th in
    set_queue (set_thread s t (record th { current_ready_queue = level; blocked = false })) level
      (queue s level ++ t ∷ [])

pub make_runnable-made :
    (s : Sched) (t : ℕ)
    → s.interrupts ≡ false
    → 0 < s.max_queue_level
    → IsOff s t
    → make_runnable s t ≡ done (made_runnable s t)
unfolding make_runnable enqueue_thread
make_runnable-made s t off some_level out =
    let level = ready_level s (s.threads t) in
    let in_use : ltb (current_queue s (s.threads t)) s.max_queue_level ≡ true =
      current_queue-lt s (s.threads t) some_level in
    rw (off, in_use, mem-NotIn t (queue s level) (out level)) refl

pub placed-set_thread :
    (s : Sched) (t j : ℕ) (th : Thread) (q : List ℕ)
    → NotIn t q
    → All (λ x. (s.threads x).current_ready_queue ≡ j) q
    → All (λ x. ((set_thread s t th).threads x).current_ready_queue ≡ j) q
placed-set_thread s t j th [] out h = tt
placed-set_thread s t j th (x ∷ q) (ne, out) (e, h) =
    (rw (==_ne x t (λ same. ne (sym same))) e, placed-set_thread s t j th q out h)

pub made_runnable-IsValid :
    (s : Sched) (t : ℕ) → IsValid s → IsOff s t → IsValid (made_runnable s t)
made_runnable-IsValid s t v out =
    let level = ready_level s (s.threads t) in
    let th = record (s.threads t) { current_ready_queue = level; blocked = false } in
    let lt = ready_level-lt s (s.threads t) v.some_level in
    let here : ((made_runnable s t).threads t).current_ready_queue ≡ level = rw (==-self t) refl in
    record {
      some_level = v.some_level;
      enough = omega (arith, v.enough, length-set s.run_queues level (queue s level ++ t ∷ []));
      ready =
          each-set_queue (IsReady (made_runnable s t)) (set_thread s t th) level
            (queue s level ++ t ∷ []) (omega (arith, lt, v.enough))
            (λ j. record {
              placed = placed-set_thread s t j th (queue s j) (out j) (v.ready j).placed;
              distinct = (v.ready j).distinct;
              unused = (v.ready j).unused;
            })
            (record {
              placed =
                  All-append (λ x. ((made_runnable s t).threads x).current_ready_queue ≡ level)
                    (queue s level) (t ∷ [])
                    (placed-set_thread s t level th (queue s level) (out level)
                      (v.ready level).placed)
                    (here, tt);
              distinct = Distinct-back t (queue s level) (out level) (v.ready level).distinct;
              unused = λ le. absurd (omega (arith, le, lt));
            });
    }
