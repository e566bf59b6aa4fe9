-- ===== src/Synch/Tests.antt =====
-- Mutexes at a concrete state: thread 1 runs, thread 2 is ready, thread 5 is the idle thread.
use geekos.Base.{◌==◌, if◌then◌else◌, ℕ, ◌+◌, ◌≡◌, refl, true, false, List, [], ◌∷◌}
use geekos.Base.Outcome.{Outcome, done, assert_failed, out_of_fuel}
use geekos.Scheduler.{
  Thread, Sched, wait, enqueue_thread, remove_thread, schedule, get_next_runnable, take_runnable,
  find_runnable, find_best, find_best_from,
}
use geekos.Synch.{finished, is_held, mutex_wait, lock_loop, mutex_lock_imp, finish_lock, mutex_lock}
use geekos.Synch.Semaphores.{Semaphore, Table}
use geekos.Synch.Exclusion.{
  outside, locking, Config, after, lock, other, Reach, here, next, mutual_exclusion,
}

abbrev thread : ℕ → Thread
thread priority = record {
  num_ticks = 0;
  priority = priority;
  owner = 0;
  ref_count = 1;
  alive = true;
  exit_code = 0;
  pid = 1;
  current_ready_queue = 0;
  blocked = false;
  wait_queue = 0;
}

abbrev machine : ℕ → List ℕ → Sched
machine current ready = record {
  threads = λ t. if t == 5 then thread 0 else thread 5;
  all_threads = 1 ∷ 2 ∷ 5 ∷ [];
  run_queues = ready ∷ [] ∷ [] ∷ (5 ∷ []) ∷ [];
  max_queue_level = 4;
  wait_queues = λ q. [];
  graveyard = [];
  current = current;
  next_free_pid = 8;
  interrupts = true;
  preemption_disabled = false;
  need_reschedule = false;
}

abbrev start : Config
start = record {
  world = record {
    sched = machine 1 (2 ∷ []);
    mutexes = λ m. record { locked = false; owner = 0; wait_queue = 100 + m };
  };
  place = λ t. outside;
  has = λ t m. false;
}

abbrev result : {A : Type 0} → A → Outcome A → A
result d (done a) = a
result d assert_failed = d
result d out_of_fuel = d

-- Thread 1 locks the mutex 7.
abbrev locked : Config
unfolding mutex_lock mutex_lock_imp lock_loop finish_lock is_held
locked = after start 1 7 (result (finished, start.world) (mutex_lock start.world 7)) (locking 7)

abbrev switched : Config
unfolding mutex_lock mutex_lock_imp lock_loop finish_lock is_held
switched = record locked { world = record locked.world { sched = machine 2 (1 ∷ []) } }

-- Thread 2 locks it, too, and waits.
abbrev contended : Config
unfolding mutex_lock mutex_lock_imp lock_loop finish_lock is_held mutex_wait wait enqueue_thread
    schedule get_next_runnable take_runnable remove_thread find_runnable find_best find_best_from
contended =
    after switched 2 7 (result (finished, switched.world) (mutex_lock switched.world 7)) (locking 7)

trace : Reach start contended
unfolding mutex_lock mutex_lock_imp lock_loop finish_lock is_held mutex_wait wait enqueue_thread
    schedule get_next_runnable take_runnable remove_thread find_runnable find_best find_best_from
trace =
    next
      (next
        (next here (lock 7 (result (finished, start.world) (mutex_lock start.world 7)) refl refl))
        (other (machine 2 (1 ∷ []))))
      (lock 7 (result (finished, switched.world) (mutex_lock switched.world 7)) refl refl)

mutual_exclusion_example : start.world.sched.current ≡ 1
unfolding contended
mutual_exclusion_example = mutual_exclusion start contended 7 1 1 (λ v n. refl) trace refl refl

-- A semaphore of `n` characters for its name.
abbrev semaphore : ℕ → List ℕ → Semaphore
semaphore sid name = record {
  count = 0;
  sid = sid;
  name = name;
  ref_count = 1;
  mutex = 7;
  cond = 8;
}

abbrev fresh : Semaphore
fresh = semaphore 0 (9 ∷ 9 ∷ 9 ∷ 9 ∷ [])

-- One semaphore, of the name "a".
abbrev table : Table
table = record { semaphores = semaphore 1 (97 ∷ 0 ∷ []) ∷ []; next_sid = 2; slots = 1 ∷ 0 ∷ 0 ∷ [] }
