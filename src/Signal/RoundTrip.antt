-- ===== src/Signal/RoundTrip.antt =====
-- The frame that Setup_Frame puts on the user's stack is the one that Complete_Handler finds there.
use geekos.Base.{
  ==_iff, ==_ne, length, get_elem?, ℕ, ◌+◌, ◌-◌, ◌%◌, ◌^◌, ◌≤◌, ◌<◌, ◌≡◌, refl, sym, ap, ◌∙◌, false,
  Option, none, some, arith,
}
use geekos.Signal.{
  Frame, Thread, get_user_address, get_kernel_address, store, store_words, interrupted, words, down,
  push_frame, setup_frame, frame_at, complete_handler, setup_frame, interrupted, get_kernel_address,
  Thread, complete_handler,
}
use geekos.Signal.Frames.{Agree, stored_frame, frame_at-ext, Agree}

abbrev put_frame : (ℕ → ℕ) → Frame → ℕ → ℕ → ℕ → ℕ → ℕ → ℕ × (ℕ → ℕ)
put_frame mem f ret p₁ p₂ p₃ p₄ =
    (p₄, store (store_words (store (store mem p₁ f.user_ss) p₂ f.user_esp) p₃ (words f)) p₄ ret)

-- The addresses at which the parts of the frame stand, for a stack pointer in user memory.
pushed :
    (mem : ℕ → ℕ) (f : Frame) (ret top : ℕ)
    → 76 ≤ f.user_esp
    → f.user_esp < 2 ^ 31
    → top ≡ 2 ^ 31 + f.user_esp
    → push_frame mem f ret ≡ put_frame mem f ret (top - 4) (top - 8) (top - 72) (top - 76)
unfolding push_frame get_user_address
pushed mem f ret top lo hi e =
    ap (λ p. put_frame mem f ret p (down p 4) (down (down p 4) 64) (down (down (down p 4) 64) 4))
      {x = down (get_user_address f.user_esp) 4} {y = top - 4} (omega (arith, e))
    ∙ ap (λ p. put_frame mem f ret (top - 4) p (down p 64) (down (down p 64) 4))
        {x = down (top - 4) 4} {y = top - 8} (omega (arith, e))
    ∙ ap (λ p. put_frame mem f ret (top - 4) (top - 8) p (down p 4)) {x = down (top - 8) 64}
        {y = top - 72} (omega (arith, e))
    ∙ ap (λ p. put_frame mem f ret (top - 4) (top - 8) (top - 72) p) {x = down (top - 72) 4}
        {y = top - 76} (omega (arith, e))

-- The frame in the memory that Setup_Frame leaves.
frame_in :
    (mem : ℕ → ℕ) (f : Frame) (ret top : ℕ)
    → length f.registers ≡ 13
    → 76 ≤ top
    → frame_at (put_frame mem f ret (top - 4) (top - 8) (top - 72) (top - 76)).1 (top - 72) ≡ f
frame_in mem f ret top len lo =
    let below = store (store mem (top - 4) f.user_ss) (top - 8) f.user_esp in
    let whole = store_words below (top - 72) (words f) in
    frame_at-ext (store whole (top - 76) ret) whole (top - 72)
      (λ b l r. rw (==_ne b (top - 76) (λ e. absurd (omega (arith, l, e, lo)))) refl)
    ∙ stored_frame below (top - 72) f len
        (rw ((==_iff (top - 72 + 64) (top - 8)).1 (omega arith)) refl)
        (rw
          (
            ==_ne (top - 72 + 68) (top - 8) (λ e. absurd (omega (arith, e, lo))),
            (==_iff (top - 72 + 68) (top - 4)).1 (omega arith),
          )
          refl)

-- What Setup_Frame returns for a signal with a handler.
abbrev delivered : (ℕ → ℕ) → Thread → Frame → ℕ → (ℕ → ℕ) × Thread × Frame
delivered mem t f handler =
    let (p, mem') = push_frame mem f t.user_context.return_signal in
    (
      mem',
      record t { user_context = record t.user_context { signal = 0 }; wait_queue = 0 },
      record f { eip = handler; user_esp = get_kernel_address p },
    )

set_up :
    (mem : ℕ → ℕ) (t : Thread) (esp : Frame) (handler : ℕ)
    → get_elem? t.user_context.sa_handler t.user_context.signal ≡ some handler
    → setup_frame false mem t esp ≡ some (delivered mem t (interrupted t esp) handler)
unfolding setup_frame
set_up mem t esp handler e = rw (setup_frame, e) refl

-- A signal whose handler was set is delivered: Setup_Frame makes the thread go on at the handler, with no
-- signal pending. When the handler has returned, with the words of the frame on the user's stack as they
-- were, Complete_Handler restores every register of the interrupted frame, its stack pointer and stack
-- segment included. The user's stack pointer is at least 76, so that the frame fits below it, and below
-- 2^31.
pub setup_frame-complete_handler :
    (mem mem₁ mem₂ : ℕ → ℕ) (t t₁ : Thread) (esp esp₁ trap : Frame) (handler : ℕ)
    → length (interrupted t esp).registers ≡ 13
    → 76 ≤ (interrupted t esp).user_esp
    → (interrupted t esp).user_esp < 2 ^ 31
    → get_elem? t.user_context.sa_handler t.user_context.signal ≡ some handler
    → setup_frame false mem t esp ≡ some (mem₁, t₁, esp₁)
    → Agree mem₂ mem₁ (2 ^ 31 + (interrupted t esp).user_esp - 72) 18
    → trap.user_esp ≡ esp₁.user_esp + 4
    → (esp₁.eip ≡ handler)
      × (t₁.user_context.signal ≡ 0)
      × (complete_handler mem₂ trap ≡ interrupted t esp)
unfolding complete_handler get_user_address get_kernel_address
setup_frame-complete_handler mem mem₁ mem₂ t t₁ esp esp₁ trap handler len lo hi e h agree popped =
    let f = interrupted t esp in
    let ret = t.user_context.return_signal in
    let top = 2 ^ 31 + f.user_esp in
    let done = sym (set_up mem t esp handler e) ∙ h in
    let place = pushed mem f ret top lo hi refl in
    let result = ap (get_some (delivered mem t f handler)) done in
    let pointer : esp₁.user_esp ≡ get_kernel_address (top - 76) =
      sym (ap (λ r. r.2.user_esp) result) ∙ ap (λ r. get_kernel_address r.0) place in
    let memory : mem₁ ≡ (put_frame mem f ret (top - 4) (top - 8) (top - 72) (top - 76)).1 =
      sym (ap (λ r. r.0) result) ∙ ap (λ r. r.1) place in
    (
      sym (ap (λ r. r.2.eip) result),
      sym (ap (λ r. r.1.user_context.signal) result),
      ap (frame_at mem₂) {x = (2147483648 + trap.user_esp) % 4294967296} {y = top - 72}
            (omega (arith, pointer, popped))
          ∙ frame_at-ext mem₂ mem₁ (top - 72) agree
          ∙ ap (λ m. frame_at m (top - 72)) memory
          ∙ frame_in mem f ret top len (omega arith),
    )
  where
    get_some : {A : Type 0} → A → Option A → A
    get_some d none = d
    get_some d (some a) = a
