-- ===== src/Synch/Exclusion.antt =====
-- Mutual exclusion: threads that lock, unlock and wait in any order, interleaved by the scheduler.
use geekos.Base.{
  ◌==◌, if◌then◌else◌, Bool-cases, ℕ, ◌≡◌, sym, ap, ◌∙◌, inl, inr, Bool, true, false, arith,
}
use geekos.Base.Outcome.{done}
use geekos.Scheduler.{Sched}
use geekos.Synch.{
  World, Progress, finished, waiting, is_held, mutex_lock, resume_lock, mutex_unlock, cond_wait,
  resume_cond, cond_signal, cond_broadcast,
}
use geekos.Synch.Calls.{
  Locks, mutex_lock-Locks, resume_lock-Locks, resume_cond-Locks, Unlocks, mutex_unlock-Unlocks,
  cond_wait-Unlocks, cond_signal-mutexes, cond_broadcast-mutexes,
}

-- Where a thread stands: outside of the calls, in the wait of Mutex_Lock, or in that of Cond_Wait.
pub data Place : Type 0 where
  outside : Place
  locking : ℕ → Place
  conditioned : ℕ → Place

-- The kernel with the threads' places, and the mutexes that a thread has: Mutex_Lock or Cond_Wait
-- returned to it, and it has not called Mutex_Unlock or Cond_Wait since.
pub record Config : Type 0 where
  pub world : World
  pub place : ℕ → Place
  pub has : ℕ → ℕ → Bool

abbrev pub update {ℓ} : {A : Type ℓ} → (ℕ → A) → ℕ → A → ℕ → A
update f t a u = if u == t then a else f u

-- After a call for the mutex `m` by the thread `t`.
abbrev pub after : Config → ℕ → ℕ → Progress × World → Place → Config
after c t m (finished, w) place = record c {
  world = w;
  place = update c.place t outside;
  has = update c.has t (update (c.has t) m true);
}
after c t m (waiting, w) place = record c { world = w; place = update c.place t place }

abbrev pub released : Config → ℕ → ℕ → World → Place → Config
released c t m w place = record c {
  world = w;
  place = update c.place t place;
  has = update c.has t (update (c.has t) m false);
}

-- The running thread takes a step, or the kernel does something that touches no mutex, such as a switch
-- to another thread.
pub data Step (c : Config) : Config → Type 0 where
  lock :
      (m : ℕ) (r : Progress × World)
      → c.place c.world.sched.current ≡ outside
      → mutex_lock c.world m ≡ done r
      → Step c (after c c.world.sched.current m r (locking m))
  relock :
      (m : ℕ) (r : Progress × World)
      → c.place c.world.sched.current ≡ locking m
      → resume_lock c.world m ≡ done r
      → Step c (after c c.world.sched.current m r (locking m))
  unlock :
      (m : ℕ) (w : World)
      → c.place c.world.sched.current ≡ outside
      → mutex_unlock c.world m ≡ done w
      → Step c (released c c.world.sched.current m w outside)
  sleep :
      (q m : ℕ) (w : World)
      → c.place c.world.sched.current ≡ outside
      → cond_wait c.world q m ≡ done w
      → Step c (released c c.world.sched.current m w (conditioned m))
  reacquire :
      (m : ℕ) (r : Progress × World)
      → c.place c.world.sched.current ≡ conditioned m
      → resume_cond c.world m ≡ done r
      → Step c (after c c.world.sched.current m r (locking m))
  signal : (q : ℕ) (w : World) → cond_signal c.world q ≡ done w → Step c (record c { world = w })
  broadcast :
      (q : ℕ) (w : World) → cond_broadcast c.world q ≡ done w → Step c (record c { world = w })
  other : (s : Sched) → Step c (record c { world = record c.world { sched = s } })

pub data Reach (c : Config) : Config → Type 0 where
  here : Reach c c
  next : {d e : Config} → Reach c d → Step d e → Reach c e

-- A thread that has a mutex is its owner.
abbrev pub IsOwned : Config → Type 0
IsOwned c =
    (t m : ℕ)
    → c.has t m ≡ true
    → ((c.world.mutexes m).locked ≡ true) × ((c.world.mutexes m).owner ≡ t)

after-IsOwned :
    (c : Config) (m : ℕ) (r : Progress × World) (p : Place)
    → IsOwned c
    → Locks c.world m r
    → IsOwned (after c c.world.sched.current m r p)
after-IsOwned c m (waiting, w) p o e t n h = rw (ap (λ f. f n) e) (o t n h)
after-IsOwned c m (finished, w) p o (free, e) t n h =
    rw (ap (λ f. f n) e) (elim (Bool-cases (n == m)) [
      | inr x ↦ rw x (o t n (ground (arith, x)))
      | inl x ↦ ground (arith, x, o t n)
    ])

released-IsOwned :
    (c : Config) (m : ℕ) (w : World) (p : Place)
    → IsOwned c
    → Unlocks c.world m w
    → IsOwned (released c c.world.sched.current m w p)
unfolding is_held
released-IsOwned c m w p o (held, e) t n h = rw (ap (λ f. f n) e) (elim (Bool-cases (n == m)) [
  | inr x ↦ rw x (o t n (ground (arith, x)))
  | inl x ↦ ground (arith, x, o t n)
])

same-IsOwned :
    (c : Config) (w : World)
    → IsOwned c
    → w.mutexes ≡ c.world.mutexes
    → IsOwned (record c { world = w })
same-IsOwned c w o e t m h = rw (ap (λ f. f m) e) (o t m h)

Step-IsOwned : {c d : Config} → IsOwned c → Step c d → IsOwned d
Step-IsOwned {c} o (lock m r p e) =
    after-IsOwned c m r (locking m) o (mutex_lock-Locks c.world m r e)
Step-IsOwned {c} o (relock m r p e) =
    after-IsOwned c m r (locking m) o (resume_lock-Locks c.world m r e)
Step-IsOwned {c} o (unlock m w p e) =
    released-IsOwned c m w outside o (mutex_unlock-Unlocks c.world w m e)
Step-IsOwned {c} o (sleep q m w p e) =
    released-IsOwned c m w (conditioned m) o (cond_wait-Unlocks c.world w q m e)
Step-IsOwned {c} o (reacquire m r p e) =
    after-IsOwned c m r (locking m) o (resume_cond-Locks c.world m r e)
Step-IsOwned {c} o (signal q w e) = same-IsOwned c w o (cond_signal-mutexes c.world w q e)
Step-IsOwned {c} o (broadcast q w e) = same-IsOwned c w o (cond_broadcast-mutexes c.world w q e)
Step-IsOwned o (other s) = λ t m h. o t m h

Reach-IsOwned : {c d : Config} → IsOwned c → Reach c d → IsOwned d
Reach-IsOwned o here = o
Reach-IsOwned o (next r s) = Step-IsOwned (Reach-IsOwned o r) s

-- From a state in which no thread has a mutex, no interleaving of the calls of any number of threads
-- leads to a state in which two threads have the same mutex.
pub mutual_exclusion :
    (c d : Config) (m t u : ℕ)
    → ((v n : ℕ) → c.has v n ≡ false)
    → Reach c d
    → d.has t m ≡ true
    → d.has u m ≡ true
    → t ≡ u
mutual_exclusion c d m t u free r ht hu =
    let o = Reach-IsOwned {c = c} {d = d} (λ v n h. absurd (ground (arith, free v n, h))) r in
    sym (o t m ht).1 ∙ (o u m hu).1
