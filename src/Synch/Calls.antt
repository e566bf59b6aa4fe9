-- ===== src/Synch/Calls.antt =====
-- What each call does to the mutexes.
use geekos.Base.{ℕ, ◌≡◌, sym, ap, subst, ◌∙◌, Bool, true, false, arith}
use geekos.Base.Outcome.{Outcome, done, assert_failed, out_of_fuel, ◌>>=◌, kassert, >>=-eq-done}
use geekos.Scheduler.{wait}
use geekos.Synch.{
  Mutex, World, Progress, finished, waiting, set_mutex, set_preemption_disabled, is_held,
  mutex_wait, awake, lock_loop, mutex_lock_imp, finish_lock, mutex_lock, resume_lock, wake_waiter,
  mutex_unlock_imp, mutex_unlock, cond_wait, resume_cond, cond_signal, cond_broadcast,
}

-- What a call for the mutex `m` does to the mutexes.
abbrev pub Locks : World → ℕ → Progress × World → Type 0
Locks w m (finished, w') =
    ((w.mutexes m).locked ≡ false) × (w'.mutexes ≡ (set_mutex w m true w.sched.current).mutexes)
Locks w m (waiting, w') = w'.mutexes ≡ w.mutexes

mutex_wait-mutexes : (w w' : World) (m : ℕ) → mutex_wait w m ≡ done w' → w'.mutexes ≡ w.mutexes
unfolding mutex_wait
mutex_wait-mutexes w w' m e = ground arith

lock_loop-Locks : (w : World) (m : ℕ) (r : Progress × World) → lock_loop w m ≡ done r → Locks w m r
unfolding lock_loop
lock_loop-Locks w m (finished, w') e = (ground arith, ground arith)
lock_loop-Locks w m (waiting, w') e = ground (arith, mutex_wait-mutexes w w' m)

finish_lock-Locks :
    (w : World) (m : ℕ) (r : Progress × World) → Locks w m r → Locks w m (finish_lock r)
unfolding finish_lock
finish_lock-Locks w m (finished, w') h = h
finish_lock-Locks w m (waiting, w') h = h

mutex_lock_imp-Locks :
    (w : World) (m : ℕ) (r : Progress × World) → mutex_lock_imp w m ≡ done r → Locks w m r
unfolding mutex_lock_imp
mutex_lock_imp-Locks w m r e = lock_loop-Locks w m r (ground arith)

-- A call that runs on `v`, which differs from `w` in the flags only, and then finishes.
finish-Locks :
    (w : World) (i p : Bool) (m : ℕ) (r : Progress × World) (call : Outcome (Progress × World))
    → ((q : Progress × World)
        → call ≡ done q
        → Locks
            (record w { sched = record w.sched { interrupts = i; preemption_disabled = p } })
            m
            q)
    → (call >>= λ q. done (finish_lock q)) ≡ done r
    → Locks w m r
finish-Locks w i p m r call lemma e =
    let (q, called, end) = >>=-eq-done call (λ q. done (finish_lock q)) r e in
    subst (Locks w m) (cc end) (finish_lock-Locks w m q (same q (lemma q called)))
  where
    same :
        (q : Progress × World)
        → Locks
            (record w { sched = record w.sched { interrupts = i; preemption_disabled = p } })
            m
            q
        → Locks w m q
    same (finished, w') h = h
    same (waiting, w') h = h

pub mutex_lock-Locks :
    (w : World) (m : ℕ) (r : Progress × World) → mutex_lock w m ≡ done r → Locks w m r
unfolding mutex_lock
mutex_lock-Locks w m r e =
    let (i, _, rest) = >>=-eq-done (kassert w.sched.interrupts) _ r e in
    finish-Locks w w.sched.interrupts true m r (mutex_lock_imp (set_preemption_disabled w true) m)
      (mutex_lock_imp-Locks (set_preemption_disabled w true) m) rest

pub resume_lock-Locks :
    (w : World) (m : ℕ) (r : Progress × World) → resume_lock w m ≡ done r → Locks w m r
unfolding resume_lock awake
resume_lock-Locks w m r e =
    finish-Locks w true true m r (lock_loop (awake w) m) (lock_loop-Locks (awake w) m) e

pub resume_cond-Locks :
    (w : World) (m : ℕ) (r : Progress × World) → resume_cond w m ≡ done r → Locks w m r
unfolding resume_cond awake
resume_cond-Locks w m r e =
    finish-Locks w true true m r (mutex_lock_imp (awake w) m) (mutex_lock_imp-Locks (awake w) m) e

-- A call that releases the mutex `m`: the running thread had it, and no other mutex changes.
abbrev pub Unlocks : World → ℕ → World → Type 0
Unlocks w m w' = (is_held w m ≡ true) × (w'.mutexes ≡ (set_mutex w m false 0).mutexes)

wake_waiter-mutexes : (w w' : World) (q : ℕ) → wake_waiter w q ≡ done w' → w'.mutexes ≡ w.mutexes
unfolding wake_waiter
wake_waiter-mutexes w w' q e = ground arith

mutex_unlock_imp-Unlocks : (w w' : World) (m : ℕ) → mutex_unlock_imp w m ≡ done w' → Unlocks w m w'
unfolding mutex_unlock_imp
mutex_unlock_imp-Unlocks w w' m e = (
  ground arith,
  wake_waiter-mutexes (set_mutex w m false 0) w' (w.mutexes m).wait_queue (ground arith),
)

abbrev mutexes_of : World → Outcome World → ℕ → Mutex
mutexes_of v (done w) = w.mutexes
mutexes_of v assert_failed = v.mutexes
mutexes_of v out_of_fuel = v.mutexes

pub mutex_unlock-Unlocks : (w w' : World) (m : ℕ) → mutex_unlock w m ≡ done w' → Unlocks w m w'
unfolding mutex_unlock is_held
mutex_unlock-Unlocks w w' m e =
    let (_, _, rest) = >>=-eq-done (kassert w.sched.interrupts) _ w' e in
    let (v, call, end) =
      >>=-eq-done (mutex_unlock_imp (set_preemption_disabled w true) m) _ w' rest in
    let (h, k) = mutex_unlock_imp-Unlocks (set_preemption_disabled w true) v m call in
    (h, ap (mutexes_of v) (sym end) ∙ k)

pub cond_wait-Unlocks : (w w' : World) (q m : ℕ) → cond_wait w q m ≡ done w' → Unlocks w m w'
unfolding cond_wait is_held
cond_wait-Unlocks w w' q m e =
    let (_, _, asserted) = >>=-eq-done (kassert w.sched.interrupts) _ w' e in
    let (_, _, rest) = >>=-eq-done (kassert (is_held w m)) _ w' asserted in
    let (v, call, waits) =
      >>=-eq-done (mutex_unlock_imp (set_preemption_disabled w true) m) _ w' rest in
    let (h, k) = mutex_unlock_imp-Unlocks (set_preemption_disabled w true) v m call in
    (h, goes_on v waits ∙ k)
  where
    goes_on :
        (v : World)
        → (wait (record v.sched { interrupts = false; preemption_disabled = false }) q >>= λ s.
            done (record v { sched = s }))
          ≡ done w'
        → w'.mutexes ≡ v.mutexes
    goes_on v waits = ground arith

pub cond_signal-mutexes :
    (w w' : World) (q : ℕ) → cond_signal w q ≡ done w' → w'.mutexes ≡ w.mutexes
unfolding cond_signal
cond_signal-mutexes w w' q e = ground arith

pub cond_broadcast-mutexes :
    (w w' : World) (q : ℕ) → cond_broadcast w q ≡ done w' → w'.mutexes ≡ w.mutexes
unfolding cond_broadcast
cond_broadcast-mutexes w w' q e = ground arith
