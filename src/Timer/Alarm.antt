-- ===== src/Timer/Alarm.antt =====
-- A timer that was started: it counts down, and then its signal is sent.
use geekos.Base.{
  ◌==◌, if◌then◌else◌, ==_ne, length, ℕ, ◌+◌, ◌-◌, ◌%◌, ◌^◌, ◌<◌, ◌≡◌, refl, ap, ◌∙◌, ◌≢◌, Bool,
  true, false, ◌||◌, List, [], ◌∷◌, arith,
}
use geekos.Base.Outcome.{Outcome, done, assert_failed, ◌>>=◌}
use geekos.Scheduler.{Sched, charge_tick, wake_up_process}
use geekos.Scheduler.Life.{lookup_thread}
use geekos.Timer.{
  TimerEvent, Timers, sig_alarm, is_negative, start_timer, remaining, drop_reference, expire, fire,
  update_event, update_events, timer_interrupt_handler,
}

-- Timer interrupts, each in a state of the scheduler that the other code left.
abbrev pub run : ℕ → List Sched → Timers → Outcome Timers
run quantum [] tm = done tm
run quantum (s ∷ ss) tm = do (tm', s') ← timer_interrupt_handler quantum tm s; run quantum ss tm'

abbrev armed : Timers → TimerEvent → Timers
armed tm e = record tm { events = e ∷ []; count = 1 }

abbrev ticked : Timers → Timers
ticked tm = record tm { num_ticks = (tm.num_ticks + 1) % 2 ^ 32 }

count_down :
    (quantum : ℕ) (tm : Timers) (s : Sched) (e : TimerEvent)
    → e.id < 2 ^ 31
    → 0 < e.ticks
    → e.ticks < 2 ^ 31
    → timer_interrupt_handler quantum (armed tm e) s
      ≡ done (armed (ticked tm) (record e { ticks = e.ticks - 1 }), charge_tick quantum s)
unfolding timer_interrupt_handler update_events update_event
count_down quantum tm s e id lo hi =
    let real : is_negative e.id ≡ false = ground arith in
    let left : (e.ticks == 0 || is_negative e.ticks) ≡ false = ground arith in rw (real, left) refl

run_down :
    (quantum : ℕ) (ss : List Sched) (tm : Timers) (e : TimerEvent)
    → e.id < 2 ^ 31
    → e.ticks ≡ length ss
    → e.ticks < 2 ^ 31
    → (tm' : Timers) × (run quantum ss (armed tm e) ≡ done (armed tm' (record e { ticks = 0 })))
      × (tm'.signals ≡ tm.signals)
run_down quantum [] tm e id n hi = (tm, ap (λ k. done (armed tm (record e { ticks = k }))) n, refl)
run_down quantum (s ∷ ss) tm e id n hi =
    let (tm', r, same) =
      run_down quantum ss (ticked tm) (record e { ticks = e.ticks - 1 }) id (omega (arith, n))
        (omega arith) in
    (
      tm',
      ap (λ o. o >>= λ p. run quantum ss p.0) (count_down quantum tm s e id (omega (arith, n)) hi)
          ∙ r,
      same,
    )

abbrev signalled : Timers → ℕ → Timers
signalled tm t = record tm { signals = λ u. if u == t then sig_alarm else tm.signals u }

fired :
    (tm : Timers) (s : Sched) (e : TimerEvent) (t : ℕ)
    → t ≢ 0
    → (s.threads t).blocked ≡ false
    → fire tm e (t, s)
      ≡ done (
        record e { id = 2 ^ 32 - 1 },
        signalled tm t,
        record (drop_reference s t) { need_reschedule = true },
      )
unfolding fire expire
fired tm s e t some_thread awake =
    let wake : Bool → Outcome (Timers × Sched) = λ b.
      (if b then wake_up_process s t else done s) >>= λ x.
      done (signalled tm t, record (drop_reference x t) { need_reschedule = true }) in
    let close : Timers × Sched → Outcome (TimerEvent × Timers × Sched) =
      λ p. done (record e { id = 2 ^ 32 - 1 }, p.0, p.1) in
    ap (λ b. if b then assert_failed else (expire tm s t >>= close)) (==_ne t 0 some_thread)
    ∙ ap (λ b. wake b >>= close) awake

-- The interrupt at which the event has no ticks left.
fires :
    (quantum : ℕ) (tm : Timers) (s s₁ : Sched) (e : TimerEvent) (t : ℕ)
    → e.id < 2 ^ 31
    → lookup_thread s e.pid false ≡ (t, s₁)
    → t ≢ 0
    → (s₁.threads t).blocked ≡ false
    → timer_interrupt_handler quantum (armed tm (record e { ticks = 0 })) s
      ≡ done (
        armed (signalled (ticked tm) t) (record e { ticks = 0; id = 2 ^ 32 - 1 }),
        charge_tick quantum (record (drop_reference s₁ t) { need_reschedule = true }),
      )
unfolding timer_interrupt_handler update_events update_event
fires quantum tm s s₁ e t id found some_thread awake =
    let real : is_negative e.id ≡ false = ground arith in
    rw
      (
        real,
        found,
        fired (armed (ticked tm) (record e { ticks = 0 })) s₁ (record e { ticks = 0 }) t some_thread
            awake,
      )
      refl

started :
    (tm : Timers) (old : TimerEvent) (s : Sched) (n : ℕ)
    → tm.events ≡ old ∷ []
    → s.interrupts ≡ false
    → start_timer tm s n
      ≡ done (
        tm.next_event_id,
        armed
            (record tm { next_event_id = (tm.next_event_id + 1) % 2 ^ 32 })
            (record {
              ticks = n;
              id = tm.next_event_id;
              orig_ticks = n;
              pid = (s.threads s.current).pid;
            }),
      )
unfolding start_timer
started tm old s n one off = rw (start_timer, off, one) refl

-- An alarm that a process sets for `length ss` ticks: that many timer interrupts, in any states of the
-- scheduler, send no signal. The next one, if it finds a thread of that process that does not wait, makes
-- SIGALRM the pending signal of this thread and of no other, and the event is over: no timer has its id.
pub alarm :
    (quantum : ℕ) (tm : Timers) (old : TimerEvent) (s last found : Sched) (ss : List Sched) (t : ℕ)
    → tm.events ≡ old ∷ []
    → tm.next_event_id < 2 ^ 31
    → length ss < 2 ^ 31
    → s.interrupts ≡ false
    → lookup_thread last (s.threads s.current).pid false ≡ (t, found)
    → t ≢ 0
    → (found.threads t).blocked ≡ false
    → (tm₁ : Timers) × (tm₂ : Timers) × (tm₃ : Timers) × (after : Sched) × (start_timer tm s
          (length ss)
        ≡ done (tm.next_event_id, tm₁))
      × (run quantum ss tm₁ ≡ done tm₂)
      × (tm₂.signals ≡ tm.signals)
      × (timer_interrupt_handler quantum tm₂ last ≡ done (tm₃, after))
      × ((u : ℕ) → tm₃.signals u ≡ (if u == t then 5 else tm.signals u))
      × (remaining tm₃.count tm₃.events tm.next_event_id ≡ 2 ^ 32 - 1)
unfolding remaining
alarm quantum tm old s last found ss t one id small off looked some_thread awake =
    let base = record tm { next_event_id = (tm.next_event_id + 1) % 2 ^ 32 } in
    let event : TimerEvent = record {
      ticks = length ss;
      id = tm.next_event_id;
      orig_ticks = length ss;
      pid = (s.threads s.current).pid;
    } in
    let (tm', r, same) = run_down quantum ss base event id refl small in
    (
      armed base event,
      armed tm' (record event { ticks = 0 }),
      armed (signalled (ticked tm') t) (record event { ticks = 0; id = 2 ^ 32 - 1 }),
      charge_tick quantum (record (drop_reference found t) { need_reschedule = true }),
      started tm old s (length ss) one off,
      r,
      same,
      fires quantum tm' last found event t id looked some_thread awake,
      (λ u. ap (λ f. if u == t then 5 else f u) same),
      rw (==_ne (2 ^ 32 - 1) tm.next_event_id (λ e. absurd (omega (arith, e, id)))) refl,
    )
