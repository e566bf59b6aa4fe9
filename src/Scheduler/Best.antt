-- ===== src/Scheduler/Best.antt =====
-- Find_Best and Get_Next_Runnable: which thread runs next.
use geekos.Base.{
  ltb, ◌==◌, ltb→lt, ==-self, ==_ne, Bool-cases, get_or, All, All-append, ℕ, zero, suc, ◌+◌, ◌-◌,
  ◌≤◌, ◌<◌, ◌≡◌, refl, sym, ap, subst, ◌∙◌, ◌≢◌, ◌⊎◌, inl, inr, true, false, Option, some, List, [],
  ◌∷◌, ◌++◌, append-nil, append_assoc, arith,
}
use geekos.Base.Outcome.{done}
use geekos.LinkedList.Segment.{mem}
use geekos.Scheduler.{
  Thread, Sched, queue, set_queue, remove, remove_thread, find_best_from, find_best, find_runnable,
  take_runnable, get_next_runnable,
}

-- `t` stands in the queue `q` behind `xs` and before `ys`: the threads before it have a lower priority,
-- and those behind it no higher one.
pub record IsBest (th : ℕ → Thread) (q : List ℕ) (t : ℕ) (xs ys : List ℕ) : Type 0 where
  pub shape : q ≡ xs ++ t ∷ ys
  pub before : All (λ x. (th x).priority < (th t).priority) xs
  pub behind : All (λ y. (th y).priority ≤ (th t).priority) ys

All-weaken :
    (th : ℕ → Thread) (a b : ℕ) (xs : List ℕ)
    → a < b
    → All (λ x. (th x).priority ≤ a) xs
    → All (λ x. (th x).priority < b) xs
All-weaken th a b [] lt h = tt
All-weaken th a b (x ∷ xs) lt h = (omega (arith, h.0), All-weaken th a b xs lt h.1)

All-lower :
    (th : ℕ → Thread) (a b : ℕ) (xs : List ℕ)
    → a < b
    → All (λ x. (th x).priority < a) xs
    → All (λ x. (th x).priority < b) xs
All-lower th a b [] lt h = tt
All-lower th a b (x ∷ xs) lt h = (omega (arith, h.0), All-lower th a b xs lt h.1)

-- The result `r` of a search is the best thread of the queue `q`.
abbrev pub Finds : (ℕ → Thread) → List ℕ → Option ℕ → Type 0
Finds th q r = (t : ℕ) × (xs : List ℕ) × (ys : List ℕ) × (r ≡ some t) × IsBest th q t xs ys

-- The search in `ts` that has `b` so far, in the queue `bs ++ b ∷ cs ++ ts`.
find_best_from-Finds :
    (th : ℕ → Thread) (bs cs ts : List ℕ) (b : ℕ)
    → All (λ x. (th x).priority < (th b).priority) bs
    → All (λ y. (th y).priority ≤ (th b).priority) cs
    → Finds th (bs ++ (b ∷ (cs ++ ts))) (find_best_from th ts (some b))
unfolding find_best_from
find_best_from-Finds th bs cs [] b hb hc = (
  b,
  bs,
  cs,
  refl,
  record { shape = ap (λ l. bs ++ b ∷ l) (append-nil cs); before = hb; behind = hc },
)
find_best_from-Finds th bs cs (x ∷ ts) b hb hc =
    elim (Bool-cases (ltb (th b).priority (th x).priority)) [
      | inl e ↦
          let lt = ltb→lt (th b).priority (th x).priority e in
          let all_lower =
            All-append (λ y. (th y).priority < (th x).priority) bs (b ∷ cs)
              (All-lower th (th b).priority (th x).priority bs lt hb)
              (lt, All-weaken th (th b).priority (th x).priority cs lt hc) in
          rw e (
            subst (λ q. Finds th q (find_best_from th ts (some x)))
              (append_assoc bs (b ∷ cs) (x ∷ ts))
              (find_best_from-Finds th (bs ++ b ∷ cs) [] ts x all_lower tt))
      | inr e ↦
          let not_higher =
            All-append (λ y. (th y).priority ≤ (th b).priority) cs (x ∷ []) hc (ground arith, tt) in
          rw e (
            subst (λ l. Finds th (bs ++ b ∷ l) (find_best_from th ts (some b)))
              (append_assoc cs (x ∷ []) ts)
              (find_best_from-Finds th bs (cs ++ x ∷ []) ts b hb not_higher))
    ]

-- On a queue that is not empty, Find_Best finds the first of the threads with the highest priority.
pub find_best-Finds :
    (th : ℕ → Thread) (x : ℕ) (q : List ℕ) → Finds th (x ∷ q) (find_best th (x ∷ q))
unfolding find_best find_best_from
find_best-Finds th x q = find_best_from-Finds th [] [] q x tt tt

other_thread : (th : ℕ → Thread) (x t : ℕ) → (th x).priority < (th t).priority → (x == t) ≡ false
other_thread th x t lt = ==_ne x t (λ e. omega (arith, lt, ap (λ a. (th a).priority) e))

mem-first :
    (th : ℕ → Thread) (t : ℕ) (xs ys : List ℕ)
    → All (λ x. (th x).priority < (th t).priority) xs
    → mem t (xs ++ t ∷ ys) ≡ true
mem-first th t [] ys h = rw (==-self t) refl
mem-first th t (x ∷ xs) ys (lt, h) = rw (other_thread th x t lt) (mem-first th t xs ys h)

remove-first :
    (th : ℕ → Thread) (t : ℕ) (xs ys : List ℕ)
    → All (λ x. (th x).priority < (th t).priority) xs
    → remove t (xs ++ t ∷ ys) ≡ xs ++ ys
remove-first th t [] ys h = rw (==-self t) refl
remove-first th t (x ∷ xs) ys (lt, h) =
    rw (other_thread th x t lt) (ap (λ l. x ∷ l) (remove-first th t xs ys h))

pub remove_thread-best :
    (th : ℕ → Thread) (q : List ℕ) (t : ℕ) (xs ys : List ℕ)
    → IsBest th q t xs ys
    → remove_thread q t ≡ done (xs ++ ys)
unfolding remove_thread
remove_thread-best th q t xs ys b =
    rw (b.shape, mem-first th t xs ys b.before, remove-first th t xs ys b.before) refl

-- What Get_Next_Runnable gives: a thread of the first queue that is not empty, the first of those with
-- the highest priority there. It leaves that queue, and the rest is as before.
pub record Picks (s : Sched) (i t : ℕ) (xs ys : List ℕ) : Type 0 where
  pub higher : (j : ℕ) → j < i → queue s j ≡ []
  pub level : i < s.max_queue_level
  pub best : IsBest s.threads (queue s i) t xs ys
  pub result : get_next_runnable s ≡ done (t, set_queue s i (xs ++ ys))

-- The result `r` of the search in the `left` queues from `i` on.
abbrev FindsIn : (ℕ → Thread) → List (List ℕ) → ℕ → ℕ → Option (ℕ × ℕ) → Type 0
FindsIn th qs left i r =
    (n : ℕ) × (t : ℕ) × (xs : List ℕ) × (ys : List ℕ) × (n < left)
    × ((j : ℕ) → j < n → get_or qs (i + j) [] ≡ [])
    × (r ≡ some (i + n, t))
    × IsBest th (get_or qs (i + n) []) t xs ys

here :
    (th : ℕ → Thread) (qs : List (List ℕ)) (left i : ℕ)
    → Finds th (get_or qs i []) (find_best th (get_or qs i []))
    → FindsIn th qs (suc left) i (find_runnable th qs (suc left) i)
unfolding find_runnable
here th qs left i (t, xs, ys, e, b) =
    let zero_on : i ≡ i + 0 = omega arith in
    (
      0,
      t,
      xs,
      ys,
      omega arith,
      (λ j h. absurd (omega (arith, h))),
      rw (find_runnable, e) (ap (λ m. some (m, t)) zero_on),
      subst (λ m. IsBest th (get_or qs m []) t xs ys) zero_on b,
    )

later :
    (th : ℕ → Thread) (qs : List (List ℕ)) (left i : ℕ)
    → get_or qs i [] ≡ []
    → FindsIn th qs left (i + 1) (find_runnable th qs left (i + 1))
    → FindsIn th qs (suc left) i (find_runnable th qs (suc left) i)
unfolding find_runnable find_best find_best_from
later th qs left i e (n, t, xs, ys, lt, empty, found, b) =
    let next : i + 1 + n ≡ i + suc n = omega arith in
    (
      suc n,
      t,
      xs,
      ys,
      omega arith,
      before,
      rw (find_runnable, e) (found ∙ ap (λ m. some (m, t)) next),
      subst (λ m. IsBest th (get_or qs m []) t xs ys) next b,
    )
  where
    before : (j : ℕ) → j < suc n → get_or qs (i + j) [] ≡ []
    before zero h = ap (λ m. get_or qs m []) {x = i + 0} {y = i} (omega arith) ∙ e
    before (suc j) h =
        ap (λ m. get_or qs m []) {x = i + suc j} {y = i + 1 + j} (omega arith)
        ∙ empty j (omega arith)

queue-cases : (q : List ℕ) → (q ≡ []) ⊎ ((x : ℕ) × (xs : List ℕ) × (q ≡ x ∷ xs))
queue-cases [] = inl refl
queue-cases (x ∷ xs) = inr (x, xs, refl)

find_runnable-FindsIn :
    (th : ℕ → Thread) (qs : List (List ℕ)) (left i k : ℕ)
    → k < left
    → get_or qs (i + k) [] ≢ []
    → FindsIn th qs left i (find_runnable th qs left i)
find_runnable-FindsIn th qs zero i k h ne = elim h [ ]
find_runnable-FindsIn th qs (suc left) i k h ne = elim (queue-cases (get_or qs i [])) [
  | inr (x, q, e) ↦
      here th qs left i (subst (λ l. Finds th l (find_best th l)) (sym e) (find_best-Finds th x q))
  | inl e ↦ later th qs left i e (
      find_runnable-FindsIn th qs left (i + 1) (k - 1) (omega (arith, not_here e))
        (λ f. ne (shift e f)))
]
  where
    not_here : get_or qs i [] ≡ [] → 0 < k
    not_here e = elim (Bool-cases (ltb 0 k)) [
      | inl l ↦ ltb→lt 0 k l
      | inr l ↦ absurd (ne (ap (λ m. get_or qs m []) {x = i + k} {y = i} (ground arith) ∙ e))
    ]

    shift : get_or qs i [] ≡ [] → get_or qs (i + 1 + (k - 1)) [] ≡ [] → get_or qs (i + k) [] ≡ []
    shift e f =
        ap (λ m. get_or qs m []) {x = i + k} {y = i + 1 + (k - 1)} (omega (arith, not_here e)) ∙ f

-- Where some queue of a level in use is not empty, Get_Next_Runnable picks a thread of the first such
-- queue, the first of those with the highest priority there, and takes just it off that queue.
pub get_next_runnable-Picks :
    (s : Sched) (k : ℕ)
    → k < s.max_queue_level
    → queue s k ≢ []
    → (i : ℕ) × (t : ℕ) × (xs : List ℕ) × (ys : List ℕ) × Picks s i t xs ys
unfolding get_next_runnable take_runnable
get_next_runnable-Picks s k h ne =
    let (n, t, xs, ys, lt, empty, found, best) =
      find_runnable-FindsIn s.threads s.run_queues s.max_queue_level 0 k h
        (λ e. ne (ap (queue s) {x = k} {y = 0 + k} (omega arith) ∙ e)) in
    (
      0 + n,
      t,
      xs,
      ys,
      record {
        higher = λ j l. ap (queue s) {x = j} {y = 0 + j} (omega arith) ∙ empty j (omega (arith, l));
        level = omega (arith, lt);
        best = best;
        result = rw (found, remove_thread-best s.threads (queue s (0 + n)) t xs ys best) refl;
      },
    )
