-- ===== src/Keyboard/Ring.antt =====
-- The ring buffer implements a queue of up to 255 keycodes.
use geekos.Base.{
  ◌==◌, if◌then◌else◌, ==_ne, Bool-cases, length, get_or, set, length-append, length-set,
  get_or-set_self, get_or-set_ne, ℕ, ◌+◌, ◌%◌, ◌<◌, ◌≡◌, refl, sym, ap, subst, ◌∙◌, inl, inr, false,
  none, some, List, [], ◌∷◌, ◌++◌, arith,
}
use geekos.Base.Bits.{bit_and_ones}
use geekos.Base.Outcome.{done}
use geekos.Keyboard.{
  KeyQueue, next, is_queue_empty, is_queue_full, enqueue_keycode, dequeue_keycode, read_key,
}

-- The keycodes `xs` stand in the ring from slot `h` on.
abbrev pub Holds : List ℕ → ℕ → List ℕ → Type 0
Holds slots h [] = Unit
Holds slots h (x ∷ xs) = (get_or slots h 0 ≡ x) × Holds slots ((h + 1) % 256) xs

-- The ring holds the keycodes `xs`, the oldest first.
pub record Represents (q : KeyQueue) (xs : List ℕ) : Type 0 where
  pub size : length q.slots ≡ 256
  pub head_in : q.head < 256
  pub room : length xs < 256
  pub tail_at : q.tail ≡ (q.head + length xs) % 256
  pub holds : Holds q.slots q.head xs

next_lem : (i : ℕ) → next i ≡ (i + 1) % 256
unfolding next
next_lem i = bit_and_ones 8 (i + 1)

-- A write to the slot behind the keycodes adds one.
Holds-set :
    (slots : List ℕ) (h t k : ℕ) (xs : List ℕ)
    → length slots ≡ 256
    → h < 256
    → length xs < 256
    → t ≡ (h + length xs) % 256
    → Holds slots h xs
    → Holds (set slots t k) h (xs ++ k ∷ [])
Holds-set slots h t k [] size lt room e hold = (
  ap (λ i. get_or (set slots t k) i 0) {x = h} {y = t} (omega arith)
      ∙ get_or-set_self slots t k 0 (omega arith),
  tt,
)
Holds-set slots h t k (x ∷ xs) size lt room e (here, rest) = (
  get_or-set_ne slots t h k 0 (λ same. omega (arith, same)) ∙ here,
  Holds-set slots ((h + 1) % 256) t k xs size (omega arith) (omega arith) (omega arith) rest,
)

empty_iff : (q : KeyQueue) (xs : List ℕ) → Represents q xs → is_queue_empty q ≡ (length xs == 0)
unfolding is_queue_empty
empty_iff q xs r = ground (arith, r.head_in, r.room, r.tail_at)

full_iff : (q : KeyQueue) (xs : List ℕ) → Represents q xs → is_queue_full q ≡ (length xs == 255)
unfolding is_queue_full
full_iff q xs r = ground (arith, next_lem q.tail, r.head_in, r.room, r.tail_at)

-- Enqueue_Keycode puts the keycode behind those that the ring holds, and drops it just where the ring
-- holds 255.
pub enqueue_keycode-Represents :
    (q : KeyQueue) (k : ℕ) (xs : List ℕ)
    → Represents q xs
    → Represents (enqueue_keycode q k) (if length xs == 255 then xs else xs ++ k ∷ [])
unfolding enqueue_keycode
enqueue_keycode-Represents q k xs r = elim (Bool-cases (length xs == 255)) [
  | inl e ↦ rw (full_iff q xs r, e) r
  | inr e ↦
      rw (full_iff q xs r, e)
        (record {
          size = length-set q.slots q.tail k ∙ r.size;
          head_in = r.head_in;
          room = ground (arith, e, r.room, length-append xs (k ∷ []));
          tail_at = omega (arith, next_lem q.tail, r.tail_at, length-append xs (k ∷ []));
          holds = Holds-set q.slots q.head q.tail k xs r.size r.head_in r.room r.tail_at r.holds;
        })
]

-- What Read_Key on a ring with the keycodes `xs` comes to.
abbrev pub Reads : KeyQueue → List ℕ → Type 0
Reads q [] = read_key q ≡ done (none, q)
Reads q (x ∷ xs) = (q' : KeyQueue) × (read_key q ≡ done (some x, q')) × Represents q' xs

-- Read_Key fails no assertion: it returns the oldest keycode and takes it off the ring, and returns none
-- and changes nothing where the ring is empty.
pub read_key-Reads : (q : KeyQueue) (xs : List ℕ) → Represents q xs → Reads q xs
unfolding read_key dequeue_keycode
read_key-Reads q [] r = rw (empty_iff q [] r) refl
read_key-Reads q (x ∷ xs) r =
    let filled : is_queue_empty q ≡ false =
      empty_iff q (x ∷ xs) r ∙ ==_ne (length (x ∷ xs)) 0 (λ e. omega (arith, e)) in
    (
      record q { head = next q.head },
      rw (filled, r.holds.0) refl,
      record {
        size = r.size;
        head_in = omega (arith, next_lem q.head);
        room = omega (arith, r.room);
        tail_at = omega (arith, next_lem q.head, r.tail_at);
        holds = subst (λ h. Holds q.slots h xs) (sym (next_lem q.head)) r.holds.1;
      },
    )
