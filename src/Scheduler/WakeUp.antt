-- ===== src/Scheduler/WakeUp.antt =====
-- Wake_Up: every thread of a wait queue becomes runnable.
use geekos.Base.{
  ==-self, All, get_or-set_self, ℕ, ◌<◌, ◌≡◌, refl, sym, ap, ◌∙◌, ◌≢◌, true, false, ◌||◌, List, [],
  ◌∷◌, ◌++◌, arith,
}
use geekos.Base.Outcome.{done}
use geekos.LinkedList.Segment.{mem, NotIn, Distinct}
use geekos.Scheduler.{Sched, queue, set_wait_queue, ready_level, wake_all, wake_up}
use geekos.Scheduler.Valid.{
  IsValid, IsOff, each-set_queue, ready_level-lt, made_runnable, make_runnable-made,
  made_runnable-IsValid,
}
use geekos.Scheduler.Yield.{NotIn-append, IsValid-same}

-- The thread stands in a run queue that is in use.
abbrev pub IsQueued : Sched → ℕ → Type 0
IsQueued s t = (j : ℕ) × (j < s.max_queue_level) × (mem t (queue s j) ≡ true)

mem-append : (t : ℕ) (xs ys : List ℕ) → (mem t (xs ++ ys)) ≡ (mem t xs || mem t ys)
mem-append t [] ys = refl
mem-append t (x ∷ xs) ys = ground (arith, mem-append t xs ys)

made_runnable-IsOff :
    (s : Sched) (t u : ℕ) → IsValid s → u ≢ t → IsOff s u → IsOff (made_runnable s t) u
made_runnable-IsOff s t u v ne out =
    let level = ready_level s (s.threads t) in
    each-set_queue (λ j q. NotIn u q) s level (queue s level ++ t ∷ [])
      (omega (arith, ready_level-lt s (s.threads t) v.some_level, v.enough)) out
      (NotIn-append u (queue s level) (t ∷ []) (out level) (ne, tt))

made_runnable-IsQueued_self : (s : Sched) (t : ℕ) → IsValid s → IsQueued (made_runnable s t) t
made_runnable-IsQueued_self s t v =
    let level = ready_level s (s.threads t) in
    let lt = ready_level-lt s (s.threads t) v.some_level in
    (
      level,
      lt,
      ap (mem t) (
            get_or-set_self s.run_queues level (queue s level ++ t ∷ []) []
              (omega (arith, lt, v.enough)))
          ∙ mem-append t (queue s level) (t ∷ [])
          ∙ ground (arith, ==-self t),
    )

made_runnable-IsQueued :
    (s : Sched) (t u : ℕ) → IsValid s → IsQueued s u → IsQueued (made_runnable s t) u
made_runnable-IsQueued s t u v (j, lt, m) =
    let level = ready_level s (s.threads t) in
    (
      j,
      lt,
      each-set_queue (λ k q. mem u (queue s k) ≡ true → mem u q ≡ true) s level
          (queue s level ++ t ∷ [])
          (omega (arith, ready_level-lt s (s.threads t) v.some_level, v.enough)) (λ k h. h)
          (λ h. mem-append u (queue s level) (t ∷ []) ∙ ground (arith, h)) j m,
    )

-- What Wake_Up's loop comes to: the threads `ts` are queued, those that were queued still are, and the
-- rest of the state is as before.
pub record Wakes (ts : List ℕ) (s s' : Sched) : Type 0 where
  pub valid : IsValid s'
  pub queued : All (IsQueued s') ts
  pub kept : (u : ℕ) → IsQueued s u → IsQueued s' u
  pub current : s'.current ≡ s.current
  pub wait_queues : s'.wait_queues ≡ s.wait_queues

All-IsOff :
    (s : Sched) (t : ℕ) (ts : List ℕ)
    → IsValid s
    → NotIn t ts
    → All (IsOff s) ts
    → All (IsOff (made_runnable s t)) ts
All-IsOff s t [] v out h = tt
All-IsOff s t (u ∷ ts) v (ne, out) (o, h) =
    (made_runnable-IsOff s t u v (λ e. ne (sym e)) o, All-IsOff s t ts v out h)

wake_all-Wakes :
    (ts : List ℕ) (s : Sched)
    → IsValid s
    → s.interrupts ≡ false
    → Distinct ts
    → All (IsOff s) ts
    → (s' : Sched) × (wake_all ts s ≡ done s') × Wakes ts s s'
unfolding wake_all
wake_all-Wakes [] s v off d o = (
  s,
  refl,
  record { valid = v; queued = tt; kept = λ u h. h; current = refl; wait_queues = refl },
)
wake_all-Wakes (t ∷ ts) s v off (out, d) (o, os) =
    let s₁ = made_runnable s t in
    let v₁ = made_runnable-IsValid s t v o in
    let (s', e, w) = wake_all-Wakes ts s₁ v₁ off d (All-IsOff s t ts v out os) in
    (
      s',
      rw (make_runnable-made s t off v.some_level o) e,
      record {
        valid = w.valid;
        queued = (w.kept t (made_runnable-IsQueued_self s t v), w.queued);
        kept = λ u h. w.kept u (made_runnable-IsQueued s t u v h);
        current = w.current;
        wait_queues = w.wait_queues;
      },
    )

wake_up-done :
    (s s' : Sched) (w : ℕ)
    → s.interrupts ≡ false
    → wake_all (s.wait_queues w) s ≡ done s'
    → wake_up s w ≡ done (set_wait_queue s' w [])
unfolding wake_up
wake_up-done s s' w off e = rw (e, off) refl

-- With interrupts disabled, Wake_Up on a wait queue whose threads are distinct and stand in no run queue
-- empties it, makes each of them runnable and keeps every runnable thread so; no assertion fails, and
-- the run queues stay well formed.
pub wake_up-Wakes :
    (s : Sched) (w : ℕ)
    → IsValid s
    → s.interrupts ≡ false
    → Distinct (s.wait_queues w)
    → All (IsOff s) (s.wait_queues w)
    → (s' : Sched) × (wake_up s w ≡ done s')
      × IsValid s'
      × All (IsQueued s') (s.wait_queues w)
      × ((u : ℕ) → IsQueued s u → IsQueued s' u)
      × (s'.wait_queues w ≡ [])
wake_up-Wakes s w v off d o =
    let (s', e, r) = wake_all-Wakes (s.wait_queues w) s v off d o in
    (
      set_wait_queue s' w [],
      wake_up-done s s' w off e,
      IsValid-same s' (set_wait_queue s' w []) refl refl refl r.valid,
      r.queued,
      r.kept,
      rw (==-self w) refl,
    )
