-- ===== src/Signal.antt =====
-- src/geekos/signal.c: sending signals, and the frame of a signal handler.
-- Memory is the words at the addresses that are congruent to the user's stack pointer. `none` is a
-- failed KASSERT or a read beyond the table of handlers.
pub mod Frames
pub mod RoundTrip
mod Tests
use geekos.Base.{
  ◌==◌, if◌then◌else◌, get_elem?, set, ℕ, zero, suc, ◌+◌, ◌-◌, ◌%◌, ◌^◌, Bool, not, ◌&&◌, Option,
  none, some, List, [], ◌∷◌, ◌++◌,
}

-- struct Interrupt_State and the stack pointer and the stack segment that follow it: the words from gs to
-- the error code, and what the processor pushes.
pub record Frame : Type 0 where
  pub registers : List ℕ
  pub eip : ℕ
  pub cs : ℕ
  pub eflags : ℕ
  pub user_esp : ℕ
  pub user_ss : ℕ

pub record UserContext : Type 0 where
  pub signal : ℕ
  pub sa_handler : List ℕ
  pub return_signal : ℕ

-- `saved` is the frame at the end of the thread's kernel stack; `wait_queue` is 0 for a null pointer.
pub record Thread : Type 0 where
  pub user_context : UserContext
  pub wait_queue : ℕ
  pub saved : Frame

abbrev pub user_base_addr : ℕ
user_base_addr = 2147483648

abbrev pub kernel_cs : ℕ
kernel_cs = 8

unfoldable pub get_user_address : ℕ → ℕ
get_user_address addr = (user_base_addr + addr) % 2 ^ 32

unfoldable pub get_kernel_address : ℕ → ℕ
get_kernel_address addr = (addr + 2 ^ 32 - user_base_addr) % 2 ^ 32

abbrev pub store : (ℕ → ℕ) → ℕ → ℕ → ℕ → ℕ
store mem a x b = if b == a then x else mem b

abbrev pub store_words : (ℕ → ℕ) → ℕ → List ℕ → ℕ → ℕ
store_words mem a [] = mem
store_words mem a (x ∷ xs) = store_words (store mem a x) (a + 4) xs

abbrev pub load_words : (ℕ → ℕ) → ℕ → ℕ → List ℕ
load_words mem a zero = []
load_words mem a (suc n) = mem a ∷ load_words mem (a + 4) n

unfoldable pub send_signal : Thread → ℕ → Thread
send_signal t sig = record t { user_context = record t.user_context { signal = sig } }

-- A write beyond the table is dropped.
unfoldable pub set_handler : Thread → ℕ → ℕ → Thread
set_handler t sig handler = record t {
  user_context = record t.user_context { sa_handler = set t.user_context.sa_handler sig handler };
}

-- Check_Pending_Signal of a thread with a user context.
unfoldable pub check_pending_signal : Bool → Thread → Frame → Option ℕ
check_pending_signal interrupts t esp =
    let sig = t.user_context.signal in
    if interrupts
    then none
    else (if esp.cs == kernel_cs
        then (if not (sig == 0) && not (t.wait_queue == 0) then some sig else some 0)
        else some sig)

-- The frame that is put on the user's stack.
unfoldable pub interrupted : Thread → Frame → Frame
interrupted t esp = if not (t.wait_queue == 0) then t.saved else esp

-- The words of struct Interrupt_State.
abbrev pub words : Frame → List ℕ
words f = f.registers ++ f.eip ∷ f.cs ∷ f.eflags ∷ []

-- `userStackPtr -= n`
abbrev pub down : ℕ → ℕ → ℕ
down p n = (p + 2 ^ 32 - n) % 2 ^ 32

-- The pushes of Setup_Frame: the pointer and the memory.
unfoldable pub push_frame : (ℕ → ℕ) → Frame → ℕ → ℕ × (ℕ → ℕ)
unfolding get_user_address
push_frame mem f return_signal =
    let p₁ = down (get_user_address f.user_esp) 4 in
    let p₂ = down p₁ 4 in
    let p₃ = down p₂ 64 in
    let p₄ = down p₃ 4 in
    let m₁ = store mem p₁ f.user_ss in
    let m₂ = store m₁ p₂ f.user_esp in
    let m₃ = store_words m₂ p₃ (words f) in (p₄, store m₃ p₄ return_signal)

unfoldable pub setup_frame : Bool → (ℕ → ℕ) → Thread → Frame → Option ((ℕ → ℕ) × Thread × Frame)
unfolding push_frame interrupted get_kernel_address
setup_frame interrupts mem t esp =
    let f = interrupted t esp in
    let c = t.user_context in
    let (p, mem') = push_frame mem f c.return_signal in
    if interrupts then none else elim (get_elem? c.sa_handler c.signal) [
      | none ↦ none
      | some handler ↦ some (
        mem',
        record t { user_context = record c { signal = 0 }; wait_queue = 0 },
        record f { eip = handler; user_esp = get_kernel_address p },
      )
    ]

-- The frame of 18 words from the address `p` on.
unfoldable pub frame_at : (ℕ → ℕ) → ℕ → Frame
frame_at mem p = record {
  registers = load_words mem p 13;
  eip = mem (p + 52);
  cs = mem (p + 56);
  eflags = mem (p + 60);
  user_esp = mem (p + 64);
  user_ss = mem (p + 68);
}

unfoldable pub complete_handler : (ℕ → ℕ) → Frame → Frame
unfolding frame_at get_user_address
complete_handler mem esp = frame_at mem (get_user_address esp.user_esp)
