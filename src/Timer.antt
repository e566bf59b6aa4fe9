-- ===== src/Timer.antt =====
-- src/geekos/timer.c: the timer event, and what the timer interrupt does to it.
-- An int is its 32-bit word; it is negative from 2 ^ 31 on. An
-- access through a null pointer is a failure, as that of a KASSERT is.
pub mod Alarm
mod Tests
use geekos.Base.{
  leb, ◌==◌, if◌then◌else◌, get_elem?, set, ℕ, zero, suc, ◌+◌, ◌-◌, ◌%◌, ◌^◌, Bool, true, false,
  not, ◌||◌, Option, none, some, List, [], ◌∷◌,
}
use geekos.Base.Outcome.{Outcome, done, assert_failed, kassert, ◌>>=◌, ◌>>◌}
use geekos.Scheduler.{Sched, Thread, set_thread, wake_up_process, charge_tick}
use geekos.Scheduler.Life.{lookup_thread}

pub record TimerEvent : Type 0 where
  pub ticks : ℕ
  pub id : ℕ
  pub orig_ticks : ℕ
  pub pid : ℕ

-- The events, their count, the next id, the tick counter, and each thread's pending signal.
pub record Timers : Type 0 where
  pub events : List TimerEvent
  pub count : ℕ
  pub next_event_id : ℕ
  pub num_ticks : ℕ
  pub signals : ℕ → ℕ

-- SIGALRM
abbrev pub sig_alarm : ℕ
sig_alarm = 5

abbrev pub is_negative : ℕ → Bool
is_negative n = leb (2 ^ 31) n

unfoldable pub start_timer : Timers → Sched → ℕ → Outcome (ℕ × Timers)
start_timer tm s ticks = do
  kassert (not s.interrupts)
  done (
    tm.next_event_id,
    record tm {
      events = set tm.events 0 (record {
        ticks = ticks;
        id = tm.next_event_id;
        orig_ticks = ticks;
        pid = (s.threads s.current).pid;
      });
      count = 1;
      next_event_id = (tm.next_event_id + 1) % 2 ^ 32;
    },
  )

-- The loop of Get_Remaing_Timer_Ticks, with `left` events to go; -1 where no event has the id.
unfoldable pub remaining : ℕ → List TimerEvent → ℕ → ℕ
remaining zero es id = 2 ^ 32 - 1
remaining (suc left) [] id = 2 ^ 32 - 1
remaining (suc left) (e ∷ es) id = if e.id == id then e.ticks else remaining left es id

unfoldable pub get_remaining_timer_ticks : Timers → Sched → ℕ → Outcome ℕ
get_remaining_timer_ticks tm s id = do
  kassert (not s.interrupts)
  done (remaining tm.count tm.events id)

-- The index of the event with the id.
unfoldable pub find_event : ℕ → List TimerEvent → ℕ → Option ℕ
find_event zero es id = none
find_event (suc left) [] id = none
find_event (suc left) (e ∷ es) id =
    if e.id == id
    then some 0
    else elim (find_event left es id) [ none ↦ none | some i ↦ some (suc i) ]

-- The last event takes the place of the one that is cancelled. True for 0, false for -1.
unfoldable pub cancel_timer : Timers → Sched → ℕ → Outcome (Bool × Timers)
cancel_timer tm s id = do
  kassert (not s.interrupts)
  elim (find_event tm.count tm.events id) [
    | none ↦ done (false, tm)
    | some i ↦ elim (get_elem? tm.events (tm.count - 1)) [
      | none ↦ done (false, tm)
      | some last ↦ done (true, record tm { events = set tm.events i last; count = tm.count - 1 })
    ]
  ]

-- The handler compares a process id with the address of the thread's owner.
unfoldable pub drop_reference : Sched → ℕ → Sched
drop_reference s t =
    let th = s.threads t in
    if not ((s.threads s.current).pid == th.owner)
    then set_thread s t (record th { ref_count = th.ref_count - 1 })
    else s

-- An event of the thread `t` that has expired.
unfoldable pub expire : Timers → Sched → ℕ → Outcome (Timers × Sched)
unfolding drop_reference
expire tm s t = do
  s' ← if (s.threads t).blocked then wake_up_process s t else done s
  done (
    record tm { signals = λ u. if u == t then sig_alarm else tm.signals u },
    record (drop_reference s' t) { need_reschedule = true },
  )

-- One event in the loop of the handler.
unfoldable pub fire : Timers → TimerEvent → ℕ × Sched → Outcome (TimerEvent × Timers × Sched)
unfolding expire
fire tm e (t, s) =
    if t == 0
    then assert_failed
    else (do (tm', s') ← expire tm s t; done (record e { id = 2 ^ 32 - 1 }, tm', s'))

unfoldable pub update_event : Timers → Sched → TimerEvent → Outcome (TimerEvent × Timers × Sched)
unfolding fire
update_event tm s e =
    if is_negative e.id
    then done (e, tm, s)
    else (if (e.ticks == 0) || is_negative e.ticks
        then fire tm e (lookup_thread s e.pid false)
        else done (record e { ticks = e.ticks - 1 }, tm, s))

unfoldable pub update_events :
    ℕ → List TimerEvent → Timers → Sched → Outcome (List TimerEvent × Timers × Sched)
update_events zero es tm s = done (es, tm, s)
update_events (suc left) [] tm s = done ([], tm, s)
update_events (suc left) (e ∷ es) tm s = do
  (e', tm', s') ← update_event tm s e
  (es', tm'', s'') ← update_events left es tm' s'
  done (e' ∷ es', tm'', s'')

-- Timer_Interrupt_Handler, without the end of the interrupt request.
unfoldable pub timer_interrupt_handler : ℕ → Timers → Sched → Outcome (Timers × Sched)
timer_interrupt_handler quantum tm s = do
  (es, tm', s') ←
      update_events tm.count tm.events (record tm { num_ticks = (tm.num_ticks + 1) % 2 ^ 32 }) s
  done (record tm' { events = es }, charge_tick quantum s')
