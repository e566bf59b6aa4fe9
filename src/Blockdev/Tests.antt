-- ===== src/Blockdev/Tests.antt =====
-- A client posts the request 700, and the driver takes it.
use geekos.Base.{◌+◌, ◌≡◌, refl, true, false, none, [], ◌∷◌, arith}
use geekos.Base.Outcome.{Outcome, done, assert_failed, out_of_fuel}
use geekos.Errno.{ok}
use geekos.Scheduler.{Thread, Sched, enqueue_thread, wake_up, wake_all}
use geekos.Blockdev.Requests.{Requests, completed, create_request, post_request, dequeue_request}
use geekos.Blockdev.Delivery.{
  Config, post, take, Reach, here, next, mark, on_its_way, due, requests-delivered,
}

abbrev thread : Thread
thread = record {
  num_ticks = 0;
  priority = 5;
  owner = 0;
  ref_count = 1;
  alive = true;
  exit_code = 0;
  pid = 1;
  current_ready_queue = 0;
  blocked = false;
  wait_queue = 0;
}

abbrev sched : Sched
sched = record {
  threads = λ t. thread;
  all_threads = 1 ∷ [];
  run_queues = [] ∷ [] ∷ [] ∷ [] ∷ [];
  max_queue_level = 4;
  wait_queues = λ q. [];
  graveyard = [];
  current = 1;
  next_free_pid = 2;
  interrupts = true;
  preemption_disabled = false;
  need_reschedule = false;
}

abbrev start : Config
start = record {
  world = record {
    sched = sched;
    requests = λ r. record {
      is_write = false;
      block_num = 0;
      buf = 0;
      state = completed;
      error_code = ok;
      wait_queue = r + 1;
    };
    request_queue = [];
    wait_queue = 50;
  };
  driver = 0;
  awaited = λ r. false;
}

abbrev result : {A : Type 0} → A → Outcome A → A
result d (done a) = a
result d assert_failed = d
result d out_of_fuel = d

abbrev posted : Requests
unfolding create_request post_request enqueue_thread wake_up wake_all
posted = result start.world (post_request (create_request start.world 700 false 3 4096) 700)

abbrev one_request : Config
unfolding posted
one_request = record start { world = posted; awaited = mark start.awaited 700 true }

abbrev accepted : Requests
unfolding posted one_request dequeue_request
accepted = (result (none, start.world) (dequeue_request posted)).1

abbrev carried_out : Config
unfolding posted one_request accepted
carried_out = record one_request { world = accepted; driver = 700 }

trace : Reach start carried_out
unfolding posted one_request accepted carried_out create_request post_request enqueue_thread wake_up
    wake_all dequeue_request
trace = next (next here (post 700 false 3 4096 posted refl refl)) (take 700 accepted refl refl)

requests-delivered_example : on_its_way carried_out 700 ≡ due carried_out 700
requests-delivered_example =
    requests-delivered start carried_out 700 refl refl (λ a. refl) trace
      (λ e. absurd (omega (arith, e)))
