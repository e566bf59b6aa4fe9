-- ===== src/Scheduler/Policy.antt =====
-- Switch_To_RR and Switch_To_MLF: the change of the scheduling policy.
use geekos.Base.{◌==◌, if◌then◌else◌, length, ℕ, zero, suc, ◌+◌, ◌-◌, not, List, [], ◌∷◌}
use geekos.Base.Outcome.{Outcome, done, out_of_fuel, kassert, ◌>>=◌, ◌>>◌}
use geekos.LinkedList.Segment.{mem}
use geekos.Scheduler.{Sched, queue, set_queue, set_thread, remove_thread, priority_idle}

-- Take `t` off queue `i` and put it in front of queue `j`, which becomes its ready queue.
unfoldable pub move_to_front : Sched → ℕ → ℕ → ℕ → Outcome Sched
unfolding remove_thread
move_to_front s t i j =
    let s' = set_thread s t (record (s.threads t) { current_ready_queue = j }) in
    do
      q ← remove_thread (queue s' i) t
      let removed = set_queue s' i q
      kassert (not (mem t (queue removed j)))
      done (set_queue removed j (t ∷ queue removed j))

-- The inner loop of Switch_To_RR: while queue `i` has a head, it goes in front of queue 0.
unfoldable pub drain : ℕ → Sched → ℕ → Outcome Sched
drain zero s i = out_of_fuel
drain (suc fuel) s i = elim (queue s i) [
  | [] ↦ done s
  | t ∷ ts ↦ do s' ← move_to_front s t i 0; drain fuel s' i
]

-- The outer loop, with `left` queues to go.
unfoldable pub drain_all : ℕ → Sched → ℕ → Outcome Sched
drain_all zero s i = done s
drain_all (suc left) s i = do s' ← drain (suc (length (queue s i))) s i; drain_all left s' (i + 1)

unfoldable pub switch_to_rr : Sched → Outcome Sched
switch_to_rr s = do
  kassert (not s.interrupts)
  s' ← drain_all (s.max_queue_level - 1) s 1
  done (record s' { max_queue_level = 1 })

-- The loop of Switch_To_MLF over the threads that are left of queue 0.
unfoldable pub demote_idle : List ℕ → Sched → Outcome Sched
unfolding move_to_front
demote_idle [] s = done s
demote_idle (t ∷ ts) s = do
  s' ← if (s.threads t).priority == priority_idle then move_to_front s t 0 3 else done s
  demote_idle ts s'

unfoldable pub switch_to_mlf : Sched → Outcome Sched
switch_to_mlf s = do
  kassert (not s.interrupts)
  demote_idle (queue s 0) (record s { max_queue_level = 4 })
