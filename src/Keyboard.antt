-- ===== src/Keyboard.antt =====
-- src/geekos/keyboard.c: the ring buffer of keycodes; the children Tables and Handler have the
-- interrupt handler.
pub mod Ring
pub mod Tables
pub mod Handler
pub mod Modifiers
pub mod Held
mod Tests
use geekos.Base.{
  ◌==◌, if◌then◌else◌, get_or, set, ℕ, ◌+◌, bit_and, Bool, not, Option, none, some, List,
}
use geekos.Base.Outcome.{Outcome, done, kassert, ◌>>=◌, ◌>>◌}

-- s_queue, s_queueHead and s_queueTail.
pub record KeyQueue : Type 0 where
  pub slots : List ℕ
  pub head : ℕ
  pub tail : ℕ

unfoldable pub next : ℕ → ℕ
next index = bit_and (index + 1) 255

unfoldable pub is_queue_empty : KeyQueue → Bool
is_queue_empty q = q.head == q.tail

unfoldable pub is_queue_full : KeyQueue → Bool
unfolding next
is_queue_full q = next q.tail == q.head

unfoldable pub enqueue_keycode : KeyQueue → ℕ → KeyQueue
unfolding is_queue_full
enqueue_keycode q keycode =
    if not (is_queue_full q)
    then record q { slots = set q.slots q.tail keycode; tail = next q.tail }
    else q

unfoldable pub dequeue_keycode : KeyQueue → Outcome (ℕ × KeyQueue)
unfolding is_queue_empty
dequeue_keycode q = do
  kassert (not (is_queue_empty q))
  done (get_or q.slots q.head 0, record q { head = next q.head })

-- Read_Key: `none` where no key is available.
unfoldable pub read_key : KeyQueue → Outcome (Option ℕ × KeyQueue)
unfolding is_queue_empty
read_key q =
    if is_queue_empty q
    then done (none, q)
    else (do (keycode, q') ← dequeue_keycode q; done (some keycode, q'))
