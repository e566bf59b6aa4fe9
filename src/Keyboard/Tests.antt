-- ===== src/Keyboard/Tests.antt =====
-- A ring that holds two keycodes across the end of the array.
use geekos.Base.{set, replicate, ℕ, ◌+◌, ◌≡◌, refl, Bool, true, false, List, [], ◌∷◌, arith}
use geekos.Base.Outcome.{done}
use geekos.Base.Bits.{has}
use geekos.Scheduler.{set_wait_queue, Thread, Sched, wake_up, wake_all}
use geekos.Keyboard.Handler.{
  Keyboard, keyboard_interrupt_handler, translate, press_or_release, switch, format_keycode,
  flag_of, deliver,
}
use geekos.Keyboard.Modifiers.{left_shift}
use geekos.Keyboard.Held.{held, run, run-held}
use geekos.Keyboard.{KeyQueue, enqueue_keycode, is_queue_full, next}
use geekos.Keyboard.Ring.{Represents, enqueue_keycode-Represents}

abbrev wrapped : KeyQueue
wrapped = record { slots = set (set (replicate 256 0) 255 97) 0 98; head = 255; tail = 1 }

wrapped-Represents : Represents wrapped (97 ∷ 98 ∷ [])
wrapped-Represents = record {
  size = refl;
  head_in = omega arith;
  room = omega arith;
  tail_at = refl;
  holds = (refl, (refl, tt));
}

enqueue_keycode-Represents_example : Represents (enqueue_keycode wrapped 99) (97 ∷ 98 ∷ 99 ∷ [])
enqueue_keycode-Represents_example =
    enqueue_keycode-Represents wrapped 99 (97 ∷ 98 ∷ []) wrapped-Represents

abbrev idle : Thread
idle = record {
  num_ticks = 0;
  priority = 0;
  owner = 0;
  ref_count = 1;
  alive = true;
  exit_code = 0;
  pid = 1;
  current_ready_queue = 0;
  blocked = false;
  wait_queue = 0;
}

abbrev sched : Sched
sched = record {
  threads = λ t. idle;
  all_threads = 1 ∷ [];
  run_queues = [] ∷ [] ∷ [] ∷ [] ∷ [];
  max_queue_level = 4;
  wait_queues = λ q. [];
  graveyard = [];
  current = 1;
  next_free_pid = 2;
  interrupts = false;
  preemption_disabled = false;
  need_reschedule = false;
}

abbrev keyboard : Keyboard
keyboard = record { shift_state = 0; keys = wrapped; wait_queue = 9 }

-- Left shift goes down, then `a`.
abbrev typed : List (Bool × ℕ)
typed = (false, 42) ∷ (true, 30) ∷ []

abbrev shifted : Keyboard
unfolding enqueue_keycode
shifted = record keyboard { shift_state = 1; keys = enqueue_keycode wrapped (65 + 4096) }

typing :
    run typed keyboard sched
    ≡ done (shifted, record (set_wait_queue sched 9 []) { need_reschedule = true })
unfolding keyboard_interrupt_handler translate press_or_release switch format_keycode flag_of
    deliver wake_up wake_all enqueue_keycode is_queue_full next
typing = refl

run-held_example : has shifted.shift_state 1 ≡ held 42 false (42 ∷ 30 ∷ [])
run-held_example =
    run-held typed keyboard shifted sched
      (record (set_wait_queue sched 9 []) { need_reschedule = true }) 42 0
      (
        (omega arith, λ e. absurd (omega (arith, e))),
        ((omega arith, λ e. absurd (omega (arith, e))), tt),
      )
      refl left_shift typing
