-- ===== src/Scheduler/Tests.antt =====
-- The scheduler at a concrete state: thread 1 runs, thread 2 is ready at level 0, threads 3 and 4 at
-- level 1, the idle thread 5 at level 3; threads 6 and 7 wait.
use geekos.Base.{
  ◌==◌, if◌then◌else◌, length, All, ℕ, zero, suc, ◌≤◌, ◌≡◌, refl, ap, Bool, true, false, List, [],
  ◌∷◌, arith,
}
use geekos.Base.Outcome.{done}
use geekos.LinkedList.Segment.{NotIn}
use geekos.Scheduler.{Thread, Sched, queue, wake_up, yield, find_best}
use geekos.Scheduler.Policy.{switch_to_rr}
use geekos.Scheduler.Best.{Finds, Picks, find_best-Finds, get_next_runnable-Picks}
use geekos.Scheduler.Valid.{IsReady, IsValid, IsOff}
use geekos.Scheduler.Yield.{yield-IsValid}
use geekos.Scheduler.WakeUp.{IsQueued, wake_up-Wakes}
use geekos.Scheduler.RoundRobin.{switch_to_rr-gathers}

abbrev thread : ℕ → ℕ → Bool → Thread
thread priority level blocked = record {
  num_ticks = 0;
  priority = priority;
  owner = 0;
  ref_count = 1;
  alive = true;
  exit_code = 0;
  pid = 1;
  current_ready_queue = level;
  blocked = blocked;
  wait_queue = 0;
}

abbrev threads : ℕ → Thread
threads a =
    if a == 3
    then thread 1 1 false
    else (if a == 4
        then thread 5 1 false
        else (if a == 5
            then thread 0 3 false
            else (if a == 6 then thread 1 2 true else thread 5 0 false)))

abbrev machine : Sched
machine = record {
  threads = threads;
  all_threads = 1 ∷ 2 ∷ 3 ∷ 4 ∷ 5 ∷ 6 ∷ 7 ∷ [];
  run_queues = (2 ∷ []) ∷ (3 ∷ 4 ∷ []) ∷ [] ∷ (5 ∷ []) ∷ [];
  max_queue_level = 4;
  wait_queues = λ w. if w == 0 then 6 ∷ 7 ∷ [] else [];
  graveyard = [];
  current = 1;
  next_free_pid = 8;
  interrupts = false;
  preemption_disabled = false;
  need_reschedule = false;
}

-- A property of the four queues and of the empty queue at every other level.
levels :
    (P : ℕ → List ℕ → Type 0)
    → P 0 (2 ∷ [])
    → P 1 (3 ∷ 4 ∷ [])
    → P 2 []
    → P 3 (5 ∷ [])
    → ((j : ℕ) → 4 ≤ j → P j [])
    → (j : ℕ) → P j (queue machine j)
levels P a b c d e zero = a
levels P a b c d e (suc zero) = b
levels P a b c d e (suc (suc zero)) = c
levels P a b c d e (suc (suc (suc zero))) = d
levels P a b c d e (suc (suc (suc (suc j)))) = e (suc (suc (suc (suc j)))) (omega arith)

machine-IsValid : IsValid machine
machine-IsValid = record {
  some_level = omega arith;
  enough = omega arith;
  ready =
      levels (IsReady machine)
        (record {
          placed = (refl, tt);
          distinct = (tt, tt);
          unused = λ le. absurd (omega (arith, le));
        })
        (record {
          placed = (refl, (refl, tt));
          distinct = omega arith;
          unused = λ le. absurd (omega (arith, le));
        })
        (record { placed = tt; distinct = tt; unused = λ le. refl })
        (record {
          placed = (refl, tt);
          distinct = (tt, tt);
          unused = λ le. absurd (omega (arith, le));
        })
        (λ j h. record { placed = tt; distinct = tt; unused = λ le. refl });
}

runs : IsOff machine 1
runs = levels (λ j q. NotIn 1 q) (omega arith) (omega arith) tt (omega arith) (λ j h. tt)

waits : All (IsOff machine) (6 ∷ 7 ∷ [])
waits = (
  levels (λ j q. NotIn 6 q) (omega arith) (omega arith) tt (omega arith) (λ j h. tt),
  (levels (λ j q. NotIn 7 q) (omega arith) (omega arith) tt (omega arith) (λ j h. tt), tt),
)

find_best-Finds_example : Finds threads (3 ∷ 4 ∷ 7 ∷ []) (find_best threads (3 ∷ 4 ∷ 7 ∷ []))
find_best-Finds_example = find_best-Finds threads 3 (4 ∷ 7 ∷ [])

get_next_runnable-Picks_example :
    (i : ℕ) × (t : ℕ) × (xs : List ℕ) × (ys : List ℕ) × Picks machine i t xs ys
get_next_runnable-Picks_example =
    get_next_runnable-Picks machine 1 (omega arith) (λ e. ground (arith, ap length e))

yield-IsValid_example :
    (s' : Sched) × (yield machine ≡ done s')
    × IsValid s'
    × IsOff s' s'.current
    × (s'.interrupts ≡ false)
yield-IsValid_example = yield-IsValid machine machine-IsValid runs refl

wake_up-Wakes_example :
    (s' : Sched) × (wake_up machine 0 ≡ done s')
    × IsValid s'
    × All (IsQueued s') (6 ∷ 7 ∷ [])
    × ((u : ℕ) → IsQueued machine u → IsQueued s' u)
    × (s'.wait_queues 0 ≡ [])
wake_up-Wakes_example = wake_up-Wakes machine 0 machine-IsValid refl (omega arith) waits

switch_to_rr-gathers_example :
    (s' : Sched) × (switch_to_rr machine ≡ done s')
    × IsValid s'
    × (s'.max_queue_level ≡ 1)
    × (queue s' 0 ≡ 5 ∷ 4 ∷ 3 ∷ 2 ∷ [])
    × ((j : ℕ) → 1 ≤ j → queue s' j ≡ [])
switch_to_rr-gathers_example = switch_to_rr-gathers machine machine-IsValid refl
