-- ===== src/Blockdev/Delivery.antt =====
-- Requests of any number of clients, and the driver that carries them out.
use geekos.Base.{
  ◌==◌, if◌then◌else◌, ==_iff, Bool-cases, ℕ, ◌+◌, ◌≡◌, ap, ◌∙◌, ◌≢◌, inl, inr, Bool, true, false,
  ◌&&◌, none, some, List, [], ◌∷◌, ◌++◌, arith,
}
use geekos.Base.Outcome.{done}
use geekos.Blockdev.Requests.{
  Requests, RequestState, is_pending, set_request, create_request, post_request, await_request,
  dequeue_request, notify_request_completion,
}
use geekos.Errno.{Rc}
use geekos.Scheduler.{Sched, enqueue_thread}
use geekos.Synch.{Progress, finished, waiting}

-- How often a request stands in a queue.
abbrev pub occurrences : ℕ → List ℕ → ℕ
occurrences r [] = 0
occurrences r (x ∷ xs) = (if x == r then 1 else 0) + occurrences r xs

occurrences-append :
    (r a : ℕ) (xs : List ℕ)
    → occurrences r (xs ++ a ∷ []) ≡ occurrences r xs + (if a == r then 1 else 0)
occurrences-append r a [] = omega arith
occurrences-append r a (x ∷ xs) = omega (arith, occurrences-append r a xs)

-- The requests, the one that the driver carries out, 0 if there is none, and those for which a client
-- waits in Post_Request_And_Wait.
pub record Config : Type 0 where
  pub world : Requests
  pub driver : ℕ
  pub awaited : ℕ → Bool

abbrev pub mark : (ℕ → Bool) → ℕ → Bool → ℕ → Bool
mark f r b a = if a == r then b else f a

-- A client or the driver takes a step, or the kernel does something that touches no request. Malloc gives
-- no address of a request that a client waits for.
pub data Step (c : Config) : Config → Type 0 where
  post :
      (r : ℕ) (is_write : Bool) (block_num buf : ℕ) (w : Requests)
      → c.awaited r ≡ false
      → post_request (create_request c.world r is_write block_num buf) r ≡ done w
      → Step c (record c { world = w; awaited = mark c.awaited r true })
  await :
      (r : ℕ) (w : Requests)
      → await_request c.world r ≡ done (waiting, w)
      → Step c (record c { world = w })
  return :
      (r : ℕ) (w : Requests)
      → await_request c.world r ≡ done (finished, w)
      → Step c (record c { world = w; awaited = mark c.awaited r false })
  idle : (w : Requests) → dequeue_request c.world ≡ done (none, w) → Step c (record c { world = w })
  take :
      (r : ℕ) (w : Requests)
      → c.driver ≡ 0
      → dequeue_request c.world ≡ done (some r, w)
      → Step c (record c { world = w; driver = r })
  complete :
      (state : RequestState) (code : Rc) (w : Requests)
      → c.driver ≢ 0
      → is_pending state ≡ false
      → notify_request_completion c.world c.driver state code ≡ done w
      → Step c (record c { world = w; driver = 0 })
  other : (s : Sched) → Step c (record c { world = record c.world { sched = s } })

pub data Reach (c : Config) : Config → Type 0 where
  here : Reach c c
  next : {d e : Config} → Reach c d → Step d e → Reach c e

-- How often the request is on its way, and how often it should be.
abbrev pub on_its_way : Config → ℕ → ℕ
on_its_way c r = occurrences r c.world.request_queue + (if c.driver == r then 1 else 0)

abbrev pub due : Config → ℕ → ℕ
due c r = if c.awaited r && is_pending (c.world.requests r).state then 1 else 0

abbrev pub IsDelivering : Config → Type 0
IsDelivering c = (r : ℕ) → r ≢ 0 → on_its_way c r ≡ due c r

posted :
    (b w : Requests) (r : ℕ)
    → post_request b r ≡ done w
    → (w.requests ≡ b.requests) × (w.request_queue ≡ b.request_queue ++ r ∷ [])
unfolding post_request enqueue_thread
posted b w r h = (ground arith, ground arith)

awaited_same :
    (b w : Requests) (p : Progress) (r : ℕ)
    → await_request b r ≡ done (p, w)
    → (w.requests ≡ b.requests) × (w.request_queue ≡ b.request_queue)
unfolding await_request
awaited_same b w p r h = (ground arith, ground arith)

returned :
    (b w : Requests) (r : ℕ)
    → await_request b r ≡ done (finished, w)
    → is_pending (b.requests r).state ≡ false
unfolding await_request
returned b w r h = ground arith

idled :
    (b w : Requests)
    → dequeue_request b ≡ done (none, w)
    → (w.requests ≡ b.requests) × (w.request_queue ≡ b.request_queue)
unfolding dequeue_request
idled b w h = (ground arith, ground arith)

taken :
    (b w : Requests) (r : ℕ)
    → dequeue_request b ≡ done (some r, w)
    → (w.requests ≡ b.requests) × (b.request_queue ≡ r ∷ w.request_queue)
unfolding dequeue_request
taken b w r h = (ground arith, ground arith)

notified :
    (b w : Requests) (r : ℕ) (state : RequestState) (code : Rc)
    → notify_request_completion b r state code ≡ done w
    → (w.requests
        ≡ (set_request b r (record (b.requests r) { state = state; error_code = code })).requests)
      × (w.request_queue ≡ b.request_queue)
unfolding notify_request_completion
notified b w r state code h = (ground arith, ground arith)

-- Every step keeps the invariant of every request.
Step-IsDelivering : {c d : Config} → IsDelivering c → Step c d → IsDelivering d
unfolding create_request
Step-IsDelivering {c} inv (post r is_write block_num buf w fresh e) a nz =
    let (same, queue) = posted (create_request c.world r is_write block_num buf) w r e in
    let more = occurrences-append a r c.world.request_queue in
    elim (Bool-cases (a == r)) [
      | inl x ↦
          let free : c.awaited a ≡ false = ap c.awaited ((==_iff a r).0 x) ∙ fresh in
          rw (same, queue, x) (ground (arith, more, inv a nz, free, x))
      | inr x ↦ rw (same, queue, x) (ground (arith, more, inv a nz, x))
    ]
Step-IsDelivering {c} inv (await r w e) a nz =
    let (same, queue) = awaited_same c.world w waiting r e in rw (same, queue) (inv a nz)
Step-IsDelivering {c} inv (return r w e) a nz =
    let (same, queue) = awaited_same c.world w finished r e in
    let over = returned c.world w r e in
    elim (Bool-cases (a == r)) [
      | inl x ↦
          let past : is_pending (c.world.requests a).state ≡ false =
            ap (λ n. is_pending (c.world.requests n).state) ((==_iff a r).0 x) ∙ over in
          rw (same, queue, x) (ground (arith, inv a nz, past))
      | inr x ↦ rw (same, queue, x) (inv a nz)
    ]
Step-IsDelivering {c} inv (idle w e) a nz =
    let (same, queue) = idled c.world w e in rw (same, queue) (inv a nz)
Step-IsDelivering {c} inv (take r w none_held e) a nz =
    let (same, queue) = taken c.world w r e in
    let before = ap (occurrences a) queue in
    rw same (ground (arith, inv a nz, before, none_held, nz))
Step-IsDelivering {c} inv (complete state code w held over e) a nz =
    let (same, queue) = notified c.world w c.driver state code e in
    elim (Bool-cases (a == c.driver)) [
      | inl x ↦ rw (same, queue, x, over) (ground (arith, inv a nz, nz, x))
      | inr x ↦ rw (same, queue, x) (ground (arith, inv a nz, nz, x))
    ]
Step-IsDelivering {c} inv (other s) a nz = inv a nz

-- From a state without requests, whatever the clients and the driver of a device do, in any order: each
-- request for which a client waits and that is not completed is exactly once on its way, in the queue or
-- with the driver, and no other request is on its way. So none is lost, and none is carried out twice.
pub requests-delivered :
    (c d : Config) (r : ℕ)
    → c.world.request_queue ≡ []
    → c.driver ≡ 0
    → ((a : ℕ) → c.awaited a ≡ false)
    → Reach c d
    → r ≢ 0
    → on_its_way d r ≡ due d r
requests-delivered c d r empty no_driver quiet path nz =
    reached c d (λ a n. rw (empty, quiet a) (ground (arith, no_driver, n))) path r nz
  where
    reached : (x y : Config) → IsDelivering x → Reach x y → IsDelivering y
    reached x y inv here = inv
    reached x y inv (next {d = z} p s) = Step-IsDelivering (reached x z inv p) s
