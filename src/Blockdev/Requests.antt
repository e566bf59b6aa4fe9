-- ===== src/Blockdev/Requests.antt =====
-- The requests of src/geekos/blockdev.c, for one device. A request is known by its address, 0 is a null
-- pointer. A call that waits ends, as `waiting`, at the switch to another thread; the thread takes the
-- test of its loop again once it runs.
use geekos.Base.{◌==◌, if◌then◌else◌, ℕ, Bool, true, false, not, Option, none, some, List, [], ◌∷◌}
use geekos.Base.Outcome.{Outcome, done, kassert, ◌>>=◌, ◌>>◌}
use geekos.Errno.{Rc}
use geekos.Scheduler.{Sched, enqueue_thread, wait, wake_up}
use geekos.Synch.{Progress, finished, waiting}

pub data RequestState : Type 0 where
  pending completed failed : RequestState

abbrev pub is_pending : RequestState → Bool
is_pending pending = true
is_pending completed = false
is_pending failed = false

pub record Request : Type 0 where
  pub is_write : Bool
  pub block_num : ℕ
  pub buf : ℕ
  pub state : RequestState
  pub error_code : Rc
  pub wait_queue : ℕ

-- The scheduler, the requests, and the device's request queue and wait queue.
pub record Requests : Type 0 where
  pub sched : Sched
  pub requests : ℕ → Request
  pub request_queue : List ℕ
  pub wait_queue : ℕ

abbrev pub set_request : Requests → ℕ → Request → Requests
set_request b r x = record b { requests = λ a. if a == r then x else b.requests a }

-- At the address that Malloc gives, on memory that is not initialised.
unfoldable pub create_request : Requests → ℕ → Bool → ℕ → ℕ → Requests
create_request b r is_write block_num buf = set_request b r (record (b.requests r) {
  is_write = is_write;
  block_num = block_num;
  buf = buf;
  state = pending;
})

-- Post_Request_And_Wait up to its loop.
unfoldable pub post_request : Requests → ℕ → Outcome Requests
post_request b r = do
  kassert (not (r == 0))
  q ← enqueue_thread b.request_queue r
  s ← wake_up (record b.sched { interrupts = false }) b.wait_queue
  done (record b { request_queue = q; sched = record s { interrupts = true } })

-- The test of the loop of Post_Request_And_Wait, and what follows it.
unfoldable pub await_request : Requests → ℕ → Outcome (Progress × Requests)
await_request b r =
    let off = record b.sched { interrupts = false } in
    if is_pending (b.requests r).state
    then (do s ← wait off (b.requests r).wait_queue; done (waiting, record b { sched = s }))
    else done (finished, record b { sched = record off { interrupts = true } })

-- `none` where the driver has to wait.
unfoldable pub dequeue_request : Requests → Outcome (Option ℕ × Requests)
dequeue_request b =
    let off = record b.sched { interrupts = false } in
    elim b.request_queue [
      | [] ↦ do s ← wait off b.wait_queue; done (none, record b { sched = s })
      | r ∷ rs ↦
          done (some r, record b { request_queue = rs; sched = record off { interrupts = true } })
    ]

unfoldable pub notify_request_completion : Requests → ℕ → RequestState → Rc → Outcome Requests
notify_request_completion b r state code = do
  s ← wake_up (record b.sched { interrupts = false }) (b.requests r).wait_queue
  done (record (set_request b r (record (b.requests r) { state = state; error_code = code })) {
    sched = record s { interrupts = true };
  })
