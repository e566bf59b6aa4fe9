-- ===== src/Scheduler/Life.antt =====
-- The life of a thread: creation, exit, join and disposal.
use geekos.Base.{
  ltb, ◌==◌, if◌then◌else◌, ℕ, ◌+◌, ◌-◌, Bool, true, false, not, ◌&&◌, ◌||◌, Option, none, some,
  List, [], ◌∷◌,
}
use geekos.Base.Outcome.{Outcome, done, kassert, ◌>>=◌, ◌>>◌}
use geekos.Scheduler.{
  Thread, Sched, remove_thread, enqueue_thread, set_thread, make_runnable, schedule, wait, wake_up,
}

unfoldable pub init_thread : Sched → ℕ → ℕ → Bool → Sched
init_thread s t priority detached =
    record (set_thread s t (record {
      num_ticks = 0;
      priority = priority;
      owner = if detached then 0 else s.current;
      ref_count = if detached then 1 else 2;
      alive = true;
      exit_code = 0;
      pid = s.next_free_pid;
      current_ready_queue = 0;
      blocked = false;
      wait_queue = 0;
    })) { next_free_pid = s.next_free_pid + 1 }

-- `thread_page` and `stack_page` are what the two calls of Alloc_Page return; a null thread is 0.
unfoldable pub create_thread : ℕ → ℕ → Sched → ℕ → Bool → Outcome (ℕ × Sched)
unfolding init_thread enqueue_thread
create_thread thread_page stack_page s priority detached =
    let s' = init_thread s thread_page priority detached in
    if (thread_page == 0) || (stack_page == 0) then done (0, s) else (do
      all ← enqueue_thread s'.all_threads thread_page
      done (thread_page, record s' { all_threads = all }))

-- Interrupts are enabled afterwards, whatever they were before.
unfoldable pub make_runnable_atomic : Sched → ℕ → Outcome Sched
make_runnable_atomic s t = do
  s' ← make_runnable (record s { interrupts = false }) t
  done (record s' { interrupts = true })

-- Without the initial contents of the stack.
unfoldable pub start_kernel_thread : ℕ → ℕ → Sched → ℕ → Bool → Outcome (ℕ × Sched)
start_kernel_thread thread_page stack_page s priority detached = do
  (t, s') ← create_thread thread_page stack_page s priority detached
  if t == 0 then done (0, s') else (do s'' ← make_runnable_atomic s' t; done (t, s''))

unfoldable pub reap_thread : Sched → ℕ → Outcome Sched
unfolding enqueue_thread
reap_thread s t = do
  kassert (not s.interrupts)
  q ← enqueue_thread s.graveyard t
  wake_up (record s { graveyard = q }) 0

unfoldable pub detach_thread : Sched → ℕ → Outcome Sched
unfolding reap_thread
detach_thread s t =
    let th = s.threads t in
    let s' = set_thread s t (record th { ref_count = th.ref_count - 1 }) in
    do
      kassert (not s.interrupts)
      kassert (ltb 0 th.ref_count)
      if th.ref_count - 1 == 0 then reap_thread s' t else done s'

-- `tlocal_exit` is what Tlocal_Exit does, which calls the destructors of thread-local data.
unfoldable pub exit : (Sched → Sched) → Sched → ℕ → Outcome Sched
exit tlocal_exit s code =
    let off = record s { interrupts = false } in
    let dead =
      set_thread off s.current (record (s.threads s.current) { exit_code = code; alive = false }) in
    do s₁ ← wake_up (tlocal_exit dead) s.current; s₂ ← detach_thread s₁ s.current; schedule s₂

-- `none` where the thread is still alive: the caller waits, and tests again when it runs.
unfoldable pub join : Sched → ℕ → Outcome (Option ℕ × Sched)
join s t =
    let off = record s { interrupts = false } in
    do
      kassert s.interrupts
      kassert ((s.threads t).owner == s.current)
      if (s.threads t).alive then (do s' ← wait off t; done (none, s')) else (do
        s' ← detach_thread off t
        done (some (s.threads t).exit_code, record s' { interrupts = true }))

-- The loop of Lookup_Thread; 0 where no thread has the process id.
unfoldable pub find_pid : (ℕ → Thread) → List ℕ → ℕ → ℕ
find_pid th [] pid = 0
find_pid th (t ∷ ts) pid = if (th t).pid == pid then t else find_pid th ts pid

unfoldable pub lookup_thread : Sched → ℕ → Bool → ℕ × Sched
lookup_thread s pid not_owner =
    let t = find_pid s.threads s.all_threads pid in
    let th = s.threads t in
    if not (t == 0) && not (s.current == th.owner) && not not_owner
    then (t, set_thread s t (record th { ref_count = th.ref_count + 1 }))
    else (t, s)

-- The part of Destroy_Thread that is on the scheduler's state, without the pages that it frees.
unfoldable pub destroy_thread : Sched → ℕ → Outcome Sched
unfolding remove_thread
destroy_thread s t = do
  all ← remove_thread s.all_threads t
  done (record s { all_threads = all; interrupts = true })

-- The body of the loop of Reaper: it takes the whole graveyard, or waits; the list is what it disposes
-- of.
unfoldable pub reap : Sched → Outcome (List ℕ × Sched)
reap s = elim s.graveyard [
  | [] ↦ do s' ← wait s 0; done ([], s')
  | t ∷ ts ↦ done (t ∷ ts, record s { graveyard = []; interrupts = true })
]
