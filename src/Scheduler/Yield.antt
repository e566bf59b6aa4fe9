-- ===== src/Scheduler/Yield.antt =====
-- Yield: the run queues stay well formed, and no assertion fails.
use geekos.Base.{
  ◌==◌, ==_iff, Bool-cases, length, get_or, All, length-set, get_or-set_self, get_or-set_ne, ℕ, ◌≤◌,
  ◌<◌, ◌≡◌, refl, sym, ap, subst, subst₂, ◌∙◌, ◌≢◌, inl, inr, false, List, [], ◌∷◌, ◌++◌, arith,
}
use geekos.Base.Outcome.{done}
use geekos.LinkedList.Segment.{NotIn, Distinct}
use geekos.LinkedList.Remove.{Distinct-around}
use geekos.Scheduler.{Thread, Sched, queue, set_queue, ready_level, schedule, yield}
use geekos.Scheduler.Best.{Picks, get_next_runnable-Picks}
use geekos.Scheduler.Valid.{
  IsReady, IsValid, IsOff, each-set_queue, ready_level-lt, made_runnable, make_runnable-made,
  made_runnable-IsValid,
}

-- Well-formedness depends only on the threads, the run queues and the number of levels.
pub IsValid-same :
    (s s' : Sched)
    → s'.threads ≡ s.threads
    → s'.run_queues ≡ s.run_queues
    → s'.max_queue_level ≡ s.max_queue_level
    → IsValid s
    → IsValid s'
IsValid-same s s' et eq em v = record {
  some_level = omega (arith, v.some_level, em);
  enough = subst (λ l. s'.max_queue_level ≤ length l) (sym eq) (omega (arith, v.enough, em));
  ready = λ j.
      let q = ap (λ (l : List (List ℕ)). get_or l j []) eq in
      record {
        placed =
            subst₂ (λ th l. All (λ t. (th t).current_ready_queue ≡ j) l) (sym et) (sym q)
              (v.ready j).placed;
        distinct = subst Distinct (sym q) (v.ready j).distinct;
        unused = λ le. q ∙ (v.ready j).unused (omega (arith, le, em));
      };
}

placed-around :
    (th : ℕ → Thread) (i t : ℕ) (xs ys : List ℕ)
    → All (λ x. (th x).current_ready_queue ≡ i) (xs ++ t ∷ ys)
    → ((th t).current_ready_queue ≡ i) × All (λ x. (th x).current_ready_queue ≡ i) (xs ++ ys)
placed-around th i t [] ys h = h
placed-around th i t (x ∷ xs) ys (e, h) =
    let (here, rest) = placed-around th i t xs ys h in (here, (e, rest))

pub elsewhere :
    (th : ℕ → Thread) (t j : ℕ) (q : List ℕ)
    → (th t).current_ready_queue ≢ j
    → All (λ x. (th x).current_ready_queue ≡ j) q
    → NotIn t q
elsewhere th t j [] ne h = tt
elsewhere th t j (x ∷ q) ne (e, h) =
    (λ same. ne (ap (λ a. (th a).current_ready_queue) same ∙ e), elsewhere th t j q ne h)

pub NotIn-append : (t : ℕ) (xs ys : List ℕ) → NotIn t xs → NotIn t ys → NotIn t (xs ++ ys)
NotIn-append t [] ys h k = k
NotIn-append t (x ∷ xs) ys (ne, h) k = (ne, NotIn-append t xs ys h k)

-- The thread that Get_Next_Runnable picks stands in no run queue afterwards, and the run queues stay
-- well formed.
pub picked-IsValid :
    (s : Sched) (i t : ℕ) (xs ys : List ℕ)
    → IsValid s
    → Picks s i t xs ys
    → IsValid (set_queue s i (xs ++ ys)) × IsOff (set_queue s i (xs ++ ys)) t
picked-IsValid s i t xs ys v p =
    let q = v.ready i in
    let lt : i < length s.run_queues = omega (arith, p.level, v.enough) in
    let (here, rest) =
      placed-around s.threads i t xs ys
        (subst (All (λ x. (s.threads x).current_ready_queue ≡ i)) p.best.shape q.placed) in
    let (nx, ny, dx, dy, d, dj) =
      Distinct-around t xs ys (subst Distinct p.best.shape q.distinct) in
    let off : (j : ℕ) → (i ≢ j → NotIn t (queue s j)) =
      λ j ne. elsewhere s.threads t j (queue s j) (λ e. ne (sym here ∙ e)) (v.ready j).placed in
    (
      record {
        some_level = v.some_level;
        enough = omega (arith, v.enough, length-set s.run_queues i (xs ++ ys));
        ready =
            each-set_queue (IsReady (set_queue s i (xs ++ ys))) s i (xs ++ ys) lt
              (λ j. record {
                placed = (v.ready j).placed;
                distinct = (v.ready j).distinct;
                unused = (v.ready j).unused;
              })
              (record {
                placed = rest;
                distinct = d;
                unused = λ le. absurd (omega (arith, le, p.level));
              });
      },
      each_off off (NotIn-append t xs ys nx ny) lt,
    )
  where
    each_off :
        ((j : ℕ) → i ≢ j → NotIn t (queue s j))
        → NotIn t (xs ++ ys)
        → i < length s.run_queues
        → IsOff (set_queue s i (xs ++ ys)) t
    each_off off out lt j = elim (Bool-cases (i == j)) [
      | inl e ↦
          subst (NotIn t)
            (sym (get_or-set_self s.run_queues i (xs ++ ys) [] lt)
              ∙ ap (queue (set_queue s i (xs ++ ys))) ((==_iff i j).0 e))
            out
      | inr e ↦
          let ne : i ≢ j = λ same. ground (arith, e, (==_iff i j).1 same) in
          subst (NotIn t) (sym (get_or-set_ne s.run_queues i j (xs ++ ys) [] ne)) (off j ne)
    ]

not-empty : (xs : List ℕ) (t : ℕ) → xs ++ t ∷ [] ≢ []
not-empty [] t = λ e. ground (arith, ap length e)
not-empty (x ∷ xs) t = λ e. ground (arith, ap length e)

-- Schedule, once Get_Next_Runnable picked a thread.
schedule-picked :
    (s : Sched) (i t : ℕ) (xs ys : List ℕ)
    → s.interrupts ≡ false
    → s.preemption_disabled ≡ false
    → Picks s i t xs ys
    → schedule s ≡ done (record (set_queue s i (xs ++ ys)) { current = t })
unfolding schedule
schedule-picked s i t xs ys off pre p = rw (p.result, off, pre) refl

schedule-IsValid :
    (s : Sched) (k : ℕ)
    → IsValid s
    → s.interrupts ≡ false
    → s.preemption_disabled ≡ false
    → k < s.max_queue_level
    → queue s k ≢ []
    → (s' : Sched) × (schedule s ≡ done s')
      × IsValid s'
      × IsOff s' s'.current
      × (s'.interrupts ≡ false)
schedule-IsValid s k v off pre lt ne =
    let (i, t, xs, ys, p) = get_next_runnable-Picks s k lt ne in
    let (valid, free) = picked-IsValid s i t xs ys v p in
    (
      record (set_queue s i (xs ++ ys)) { current = t },
      schedule-picked s i t xs ys off pre p,
      IsValid-same (set_queue s i (xs ++ ys)) (record (set_queue s i (xs ++ ys)) { current = t })
          refl refl refl valid,
      free,
      off,
    )

-- Yield on well-formed run queues that do not hold the running thread, with preemption enabled, fails no
-- assertion. The run queues stay well formed and do not hold the thread that runs then, and interrupts
-- are disabled at the switch.
pub yield-IsValid :
    (s : Sched)
    → IsValid s
    → IsOff s s.current
    → s.preemption_disabled ≡ false
    → (s' : Sched) × (yield s ≡ done s')
      × IsValid s'
      × IsOff s' s'.current
      × (s'.interrupts ≡ false)
unfolding yield schedule
yield-IsValid s v out pre =
    let off = record s { interrupts = false } in
    let valid = IsValid-same s off refl refl refl v in
    let level = ready_level off (off.threads s.current) in
    let lt = ready_level-lt off (off.threads s.current) v.some_level in
    let full : queue (made_runnable off s.current) level ≡ queue off level ++ s.current ∷ [] =
      get_or-set_self s.run_queues level (queue off level ++ s.current ∷ []) []
        (omega (arith, lt, v.enough)) in
    rw (make_runnable-made off s.current refl v.some_level out) (
      schedule-IsValid (made_runnable off s.current) level
        (made_runnable-IsValid off s.current valid out) refl pre lt
        (λ e. not-empty (queue off level) s.current (sym full ∙ e)))
