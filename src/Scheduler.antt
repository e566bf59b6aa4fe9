-- ===== src/Scheduler.antt =====
-- src/geekos/kthread.c and include/geekos/kthread.h: threads, run queues and wait queues.
-- A thread is the address of its struct. A queue is the sequence of threads that `LinkedList` shows the
-- list functions to compute. A wait queue is named by a number: a thread's join queue by the thread,
-- the reaper's by 0, any other by its address. Switch_To_Thread is assembly code: here it makes the
-- thread the current one.
pub mod Life
pub mod Policy
pub mod Best
pub mod Valid
pub mod Yield
pub mod WakeUp
pub mod Drain
pub mod RoundRobin
mod Tests
use geekos.Base.{
  ltb, ◌==◌, if◌then◌else◌, get_or, set, ℕ, zero, suc, ◌+◌, ◌-◌, ◌%◌, ◌^◌, Bool, true, false, not,
  ◌&&◌, Option, none, some, List, [], ◌∷◌, ◌++◌,
}
use geekos.Base.Outcome.{Outcome, done, assert_failed, kassert, ◌>>=◌, ◌>>◌}
use geekos.LinkedList.Segment.{mem}

pub record Thread : Type 0 where
  pub num_ticks : ℕ
  pub priority : ℕ
  pub owner : ℕ
  pub ref_count : ℕ
  pub alive : Bool
  pub exit_code : ℕ
  pub pid : ℕ
  pub current_ready_queue : ℕ
  pub blocked : Bool
  pub wait_queue : ℕ

pub record Sched : Type 0 where
  pub threads : ℕ → Thread
  pub all_threads : List ℕ
  pub run_queues : List (List ℕ)
  pub max_queue_level : ℕ
  pub wait_queues : ℕ → List ℕ
  pub graveyard : List ℕ
  pub current : ℕ
  pub next_free_pid : ℕ
  pub interrupts : Bool
  pub preemption_disabled : Bool
  pub need_reschedule : Bool

abbrev pub priority_idle : ℕ
priority_idle = 0

abbrev pub queue : Sched → ℕ → List ℕ
queue s i = get_or s.run_queues i []

abbrev pub set_queue : Sched → ℕ → List ℕ → Sched
set_queue s i q = record s { run_queues = set s.run_queues i q }

abbrev pub set_thread : Sched → ℕ → Thread → Sched
set_thread s t th = record s { threads = λ a. if a == t then th else s.threads a }

abbrev pub set_wait_queue : Sched → ℕ → List ℕ → Sched
set_wait_queue s w q = record s { wait_queues = λ a. if a == w then q else s.wait_queues a }

abbrev pub remove : ℕ → List ℕ → List ℕ
remove t [] = []
remove t (x ∷ xs) = if x == t then xs else x ∷ remove t xs

-- Enqueue_Thread and Remove_Thread, with the assertions of the list functions.
unfoldable pub enqueue_thread : List ℕ → ℕ → Outcome (List ℕ)
enqueue_thread q t = do kassert (not (mem t q)); done (q ++ t ∷ [])

unfoldable pub remove_thread : List ℕ → ℕ → Outcome (List ℕ)
remove_thread q t = do kassert (mem t q); done (remove t q)

-- The loop of Find_Best over the threads that are left.
unfoldable pub find_best_from : (ℕ → Thread) → List ℕ → Option ℕ → Option ℕ
find_best_from th [] best = best
find_best_from th (t ∷ ts) none = find_best_from th ts (some t)
find_best_from th (t ∷ ts) (some b) =
    find_best_from th ts (if ltb (th b).priority (th t).priority then some t else some b)

unfoldable pub find_best : (ℕ → Thread) → List ℕ → Option ℕ
find_best th q = find_best_from th q none

-- The ready queue that Make_Runnable starts from, and the one that it chooses.
unfoldable pub current_queue : Sched → Thread → ℕ
current_queue s th =
    if ltb th.current_ready_queue s.max_queue_level
    then th.current_ready_queue
    else s.max_queue_level - 1

unfoldable pub ready_level : Sched → Thread → ℕ
unfolding current_queue
ready_level s th =
    let q = current_queue s th in
    if th.priority == priority_idle
    then s.max_queue_level - 1
    else (if th.blocked && ltb 0 q then q - 1 else q)

unfoldable pub make_runnable : Sched → ℕ → Outcome Sched
unfolding enqueue_thread ready_level current_queue
make_runnable s t =
    let th = s.threads t in
    let level = ready_level s th in
    do
      kassert (not s.interrupts)
      kassert (ltb (current_queue s th) s.max_queue_level)
      q ← enqueue_thread (queue s level) t
      done (
          set_queue (set_thread s t (record th { current_ready_queue = level; blocked = false }))
            level q)

-- The loop of Get_Next_Runnable, with `left` queues to go.
unfoldable pub find_runnable : (ℕ → Thread) → List (List ℕ) → ℕ → ℕ → Option (ℕ × ℕ)
find_runnable th qs zero i = none
find_runnable th qs (suc left) i = elim (find_best th (get_or qs i [])) [
  | none ↦ find_runnable th qs left (i + 1)
  | some t ↦ some (i, t)
]

unfoldable pub take_runnable : Sched → Option (ℕ × ℕ) → Outcome (ℕ × Sched)
unfolding remove_thread
take_runnable s none = assert_failed
take_runnable s (some (i, t)) = do q ← remove_thread (queue s i) t; done (t, set_queue s i q)

unfoldable pub get_next_runnable : Sched → Outcome (ℕ × Sched)
unfolding take_runnable
get_next_runnable s = take_runnable s (find_runnable s.threads s.run_queues s.max_queue_level 0)

unfoldable pub schedule : Sched → Outcome Sched
schedule s = do
  kassert (not s.interrupts)
  kassert (not s.preemption_disabled)
  (t, s') ← get_next_runnable s
  done (record s' { current = t })

-- Up to the switch to the next thread; the yielding thread enables interrupts once it runs again.
unfoldable pub yield : Sched → Outcome Sched
yield s = do s' ← make_runnable (record s { interrupts = false }) s.current; schedule s'

unfoldable pub wait : Sched → ℕ → Outcome Sched
unfolding enqueue_thread
wait s w =
    let th = s.threads s.current in
    do
      kassert (not s.interrupts)
      q ← enqueue_thread (s.wait_queues w) s.current
      schedule (
          set_wait_queue (set_thread s s.current (record th { blocked = true; wait_queue = w })) w
            q)

-- The loop of Wake_Up.
unfoldable pub wake_all : List ℕ → Sched → Outcome Sched
wake_all [] s = done s
wake_all (t ∷ ts) s = do s' ← make_runnable s t; wake_all ts s'

unfoldable pub wake_up : Sched → ℕ → Outcome Sched
wake_up s w = do
  kassert (not s.interrupts)
  s' ← wake_all (s.wait_queues w) s
  done (set_wait_queue s' w [])

unfoldable pub wake_up_one : Sched → ℕ → Outcome Sched
unfolding remove_thread
wake_up_one s w = do
  kassert (not s.interrupts)
  elim (find_best s.threads (s.wait_queues w)) [
    | none ↦ done s
    | some t ↦ do q ← remove_thread (s.wait_queues w) t; make_runnable (set_wait_queue s w q) t
  ]

unfoldable pub wake_up_process : Sched → ℕ → Outcome Sched
unfolding remove_thread
wake_up_process s t =
    let w = (s.threads t).wait_queue in
    do
      kassert (not s.interrupts)
      q ← remove_thread (s.wait_queues w) t
      make_runnable (set_wait_queue s w q) t

-- What Timer_Interrupt_Handler does to the running thread, apart from the timer events.
unfoldable pub charge_tick : ℕ → Sched → Sched
charge_tick quantum s =
    let th = s.threads s.current in
    let ticked = record th { num_ticks = (th.num_ticks + 1) % 2 ^ 32 } in
    let demoted = record ticked { current_ready_queue = th.current_ready_queue + 1 } in
    if ltb ticked.num_ticks quantum
    then set_thread s s.current ticked
    else record (set_thread s s.current
        (if ltb th.current_ready_queue (s.max_queue_level - 1) then demoted else ticked)) {
          need_reschedule = true;
        }
