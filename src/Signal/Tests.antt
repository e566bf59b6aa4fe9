-- ===== src/Signal/Tests.antt =====
-- A thread with a pending alarm, whose stack pointer is 4096.
use geekos.Base.{ℕ, ◌+◌, ◌≡◌, refl, false, Option, none, some, [], ◌∷◌, arith}
use geekos.Signal.{
  Frame, Thread, setup_frame, push_frame, interrupted, get_user_address, get_kernel_address,
  complete_handler, send_signal, set_handler, check_pending_signal,
}
use geekos.Signal.RoundTrip.{setup_frame-complete_handler}

abbrev running : Frame
running = record {
  registers = 1 ∷ 2 ∷ 3 ∷ 4 ∷ 5 ∷ 6 ∷ 7 ∷ 8 ∷ 9 ∷ 10 ∷ 11 ∷ 12 ∷ 13 ∷ [];
  eip = 1000;
  cs = 7;
  eflags = 512;
  user_esp = 4096;
  user_ss = 15;
}

abbrev fresh : Thread
fresh = record {
  user_context = record {
    signal = 0;
    sa_handler = 0 ∷ 20 ∷ 20 ∷ 20 ∷ 20 ∷ 20 ∷ [];
    return_signal = 30;
  };
  wait_queue = 0;
  saved = running;
}

abbrev alarmed : Thread
unfolding send_signal set_handler
alarmed = send_signal (set_handler fresh 5 2000) 5

pending : check_pending_signal false alarmed running ≡ some 5
unfolding check_pending_signal alarmed send_signal set_handler
pending = refl

abbrev get_some : {A : Type 0} → A → Option A → A
get_some d none = d
get_some d (some a) = a

abbrev delivery : (ℕ → ℕ) × Thread × Frame
unfolding alarmed send_signal set_handler setup_frame interrupted push_frame get_user_address
    get_kernel_address
delivery = get_some (λ a. 0, alarmed, running) (setup_frame false (λ a. 0) alarmed running)

-- The handler is entered, returns, and the frame is there again.
abbrev back : Frame
unfolding delivery
back = record running { user_esp = delivery.2.user_esp + 4 }

setup_frame-complete_handler_example :
    (delivery.2.eip ≡ 2000)
    × (delivery.1.user_context.signal ≡ 0)
    × (complete_handler delivery.0 back ≡ interrupted alarmed running)
unfolding alarmed send_signal set_handler delivery setup_frame interrupted push_frame
    get_user_address get_kernel_address back
setup_frame-complete_handler_example =
    setup_frame-complete_handler (λ a. 0) delivery.0 delivery.0 alarmed delivery.1 running
      delivery.2 back 2000 refl (omega arith) (omega arith) refl refl (λ b l r. refl) refl
