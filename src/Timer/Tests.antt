-- ===== src/Timer/Tests.antt =====
-- An alarm of two ticks, for the process 1 with the thread 1.
use geekos.Base.{◌==◌, if◌then◌else◌, ℕ, ◌-◌, ◌^◌, ◌≡◌, refl, true, false, [], ◌∷◌, arith}
use geekos.Base.Outcome.{done}
use geekos.Scheduler.{Thread, Sched, set_thread}
use geekos.Scheduler.Life.{lookup_thread, find_pid}
use geekos.Timer.{TimerEvent, Timers, start_timer, timer_interrupt_handler, remaining}
use geekos.Timer.Alarm.{run, alarm}

abbrev thread : Thread
thread = record {
  num_ticks = 0;
  priority = 5;
  owner = 0;
  ref_count = 1;
  alive = true;
  exit_code = 0;
  pid = 1;
  current_ready_queue = 0;
  blocked = false;
  wait_queue = 0;
}

abbrev sched : Sched
sched = record {
  threads = λ t. thread;
  all_threads = 1 ∷ [];
  run_queues = [] ∷ [] ∷ [] ∷ [] ∷ [];
  max_queue_level = 4;
  wait_queues = λ q. [];
  graveyard = [];
  current = 1;
  next_free_pid = 2;
  interrupts = false;
  preemption_disabled = false;
  need_reschedule = false;
}

abbrev unused : TimerEvent
unused = record { ticks = 0; id = 4294967295; orig_ticks = 0; pid = 0 }

abbrev timers : Timers
timers = record {
  events = unused ∷ [];
  count = 0;
  next_event_id = 7;
  num_ticks = 0;
  signals = λ t. 0;
}

-- Lookup_Thread adds a reference.
abbrev referenced : Sched
referenced = set_thread sched 1 (record thread { ref_count = 2 })

looked : lookup_thread sched 1 false ≡ (1, referenced)
unfolding lookup_thread find_pid
looked = refl

alarm_example :
    (tm₁ : Timers) × (tm₂ : Timers) × (tm₃ : Timers) × (after : Sched) × (start_timer timers sched 2
      ≡ done (7, tm₁))
    × (run 4 (sched ∷ sched ∷ []) tm₁ ≡ done tm₂)
    × (tm₂.signals ≡ timers.signals)
    × (timer_interrupt_handler 4 tm₂ sched ≡ done (tm₃, after))
    × ((u : ℕ) → tm₃.signals u ≡ (if u == 1 then 5 else 0))
    × (remaining tm₃.count tm₃.events 7 ≡ 2 ^ 32 - 1)
alarm_example =
    alarm 4 timers unused sched sched referenced (sched ∷ sched ∷ []) 1 refl (omega arith)
      (omega arith) refl looked (λ e. absurd (omega (arith, e))) refl
