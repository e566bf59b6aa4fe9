-- ===== src/Synch.antt =====
-- src/geekos/synch.c and include/geekos/synch.h: mutexes and condition variables.
-- A call that waits ends, as `waiting`, at the switch to another thread; the rest of it is a function of
-- its own, which the thread runs once it is switched to again. A mutex is known by a number, and a
-- condition by the name of its wait queue.
pub mod Calls
pub mod Exclusion
pub mod Semaphores
mod Tests
use geekos.Base.{◌==◌, if◌then◌else◌, ℕ, Bool, true, false, not, ◌&&◌, [], ◌∷◌}
use geekos.Base.Outcome.{Outcome, done, kassert, ◌>>=◌, ◌>>◌}
use geekos.Scheduler.{Sched, set_wait_queue, wait, wake_up, wake_up_one}

pub record Mutex : Type 0 where
  pub locked : Bool
  pub owner : ℕ
  pub wait_queue : ℕ

pub record World : Type 0 where
  pub sched : Sched
  pub mutexes : ℕ → Mutex

-- How a call that may wait ends.
pub data Progress : Type 0 where
  finished : Progress
  waiting : Progress

abbrev pub set_interrupts : World → Bool → World
set_interrupts w b = record w { sched = record w.sched { interrupts = b } }

abbrev pub set_preemption_disabled : World → Bool → World
set_preemption_disabled w b = record w { sched = record w.sched { preemption_disabled = b } }

abbrev pub set_mutex : World → ℕ → Bool → ℕ → World
set_mutex w m locked owner = record w {
  mutexes =
      λ n. if n == m then record (w.mutexes m) { locked = locked; owner = owner } else w.mutexes n;
}

unfoldable pub is_held : World → ℕ → Bool
is_held w m = (w.mutexes m).locked && (w.mutexes m).owner == w.sched.current

unfoldable pub mutex_init : World → ℕ → World
mutex_init w m = record (set_mutex w m false 0) {
  sched = set_wait_queue w.sched (w.mutexes m).wait_queue [];
}

unfoldable pub cond_init : World → ℕ → World
cond_init w c = record w { sched = set_wait_queue w.sched c [] }

-- Enable_Interrupts or Disable_Interrupts around a call of the scheduler.
unfoldable pub mutex_wait : World → ℕ → Outcome World
mutex_wait w m = do
  kassert (w.mutexes m).locked
  kassert w.sched.preemption_disabled
  s ←
      wait (record w.sched { interrupts = false; preemption_disabled = false })
        (w.mutexes m).wait_queue
  done (record w { sched = s })

-- The end of Mutex_Wait, once the thread runs again.
unfoldable pub awake : World → World
awake w = record w { sched = record w.sched { preemption_disabled = true; interrupts = true } }

-- The loop of Mutex_Lock_Imp, up to the next wait, and what follows it.
unfoldable pub lock_loop : World → ℕ → Outcome (Progress × World)
lock_loop w m =
    if (w.mutexes m).locked
    then (do w' ← mutex_wait w m; done (waiting, w'))
    else done (finished, set_mutex w m true w.sched.current)

unfoldable pub mutex_lock_imp : World → ℕ → Outcome (Progress × World)
mutex_lock_imp w m = do
  kassert w.sched.preemption_disabled
  kassert (not (is_held w m))
  lock_loop w m

-- Preemption is enabled again when the mutex was acquired.
unfoldable pub finish_lock : Progress × World → Progress × World
finish_lock (finished, w) = (finished, set_preemption_disabled w false)
finish_lock (waiting, w) = (waiting, w)

unfoldable pub mutex_lock : World → ℕ → Outcome (Progress × World)
unfolding finish_lock
mutex_lock w m = do
  kassert w.sched.interrupts
  r ← mutex_lock_imp (set_preemption_disabled w true) m
  done (finish_lock r)

-- Mutex_Lock from a wait on: the next test of the loop.
unfoldable pub resume_lock : World → ℕ → Outcome (Progress × World)
unfolding finish_lock
resume_lock w m = do r ← lock_loop (awake w) m; done (finish_lock r)

unfoldable pub wake_waiter : World → ℕ → Outcome World
wake_waiter w q = elim (w.sched.wait_queues q) [
  | [] ↦ done w
  | t ∷ ts ↦ do
    s ← wake_up_one (record w.sched { interrupts = false }) q
    done (record w { sched = record s { interrupts = true } })
]

unfoldable pub mutex_unlock_imp : World → ℕ → Outcome World
mutex_unlock_imp w m = do
  kassert w.sched.preemption_disabled
  kassert (is_held w m)
  wake_waiter (set_mutex w m false 0) (w.mutexes m).wait_queue

unfoldable pub mutex_unlock : World → ℕ → Outcome World
mutex_unlock w m = do
  kassert w.sched.interrupts
  w' ← mutex_unlock_imp (set_preemption_disabled w true) m
  done (set_preemption_disabled w' false)

-- Up to the switch to another thread.
unfoldable pub cond_wait : World → ℕ → ℕ → Outcome World
cond_wait w c m = do
  kassert w.sched.interrupts
  kassert (is_held w m)
  w' ← mutex_unlock_imp (set_preemption_disabled w true) m
  s ← wait (record w'.sched { interrupts = false; preemption_disabled = false }) c
  done (record w' { sched = s })

-- Cond_Wait from there on: the mutex is acquired again.
unfoldable pub resume_cond : World → ℕ → Outcome (Progress × World)
unfolding finish_lock
resume_cond w m = do r ← mutex_lock_imp (awake w) m; done (finish_lock r)

unfoldable pub cond_signal : World → ℕ → Outcome World
cond_signal w c = do
  kassert w.sched.interrupts
  s ← wake_up_one (record w.sched { interrupts = false }) c
  done (record w { sched = record s { interrupts = true } })

unfoldable pub cond_broadcast : World → ℕ → Outcome World
cond_broadcast w c = do
  kassert w.sched.interrupts
  s ← wake_up (record w.sched { interrupts = false }) c
  done (record w { sched = record s { interrupts = true } })
