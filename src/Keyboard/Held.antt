-- ===== src/Keyboard/Held.antt =====
-- The shift state after a sequence of keyboard interrupts.
use geekos.Base.{
  leb, ◌==◌, if◌then◌else◌, ==_ne, Bool-cases, All, ℕ, ◌+◌, ◌-◌, ◌^◌, ◌<◌, bit_and, ◌≡◌, refl, sym,
  ap, ◌∙◌, ◌≢◌, inl, inr, Bool, true, false, Option, none, some, List, [], ◌∷◌, arith,
}
use geekos.Base.Bits.{has, has-pow, bit_and_ones}
use geekos.Base.Outcome.{>>=-eq-done, Outcome, done, ◌>>=◌}
use geekos.Keyboard.{enqueue_keycode}
use geekos.Keyboard.Handler.{
  deliver, Keyboard, translate, press_or_release, keyboard_interrupt_handler,
}
use geekos.Keyboard.Modifiers.{
  IsModifier, left_shift, right_shift, left_ctrl, left_alt, slot, is_slot, slot_lem,
  press_or_release_lem,
}
use geekos.Scheduler.{Sched, wake_up}

-- Whether a key is held after the scan codes, of which `k` is its press and `k + 128` its release.
abbrev pub held : ℕ → Bool → List ℕ → Bool
held k b [] = b
held k b (c ∷ cs) = held k (if c == k then true else (if c == k + 128 then false else b)) cs

-- A scan code of one byte, and not 0xe0.
abbrev pub IsPlain : ℕ → Type 0
IsPlain c = (c < 256) × (c ≢ 224)

-- Interrupts at which the keyboard has a byte, each with the value of `shift` where nothing was stored.
abbrev pub run : List (Bool × ℕ) → Keyboard → Sched → Outcome (Keyboard × Sched)
run [] kb s = done (kb, s)
run ((stale, c) ∷ cs) kb s = do (kb', s') ← keyboard_interrupt_handler stale 1 c kb s; run cs kb' s'

abbrev pub codes : List (Bool × ℕ) → List ℕ
codes [] = []
codes ((stale, c) ∷ cs) = c ∷ codes cs

bounds : (k j : ℕ) → IsModifier k j → (k < 88) × (j < 32)
bounds k j left_shift = (omega arith, omega arith)
bounds k j right_shift = (omega arith, omega arith)
bounds k j left_ctrl = (omega arith, omega arith)
bounds k j left_alt = (omega arith, omega arith)

slot_not_six : (c : ℕ) → is_slot (slot c) 6 ≡ false
slot_not_six c = ground arith

release_bit : (c : ℕ) → c < 256 → has c 128 ≡ leb 128 c
release_bit c h = has-pow 7 c ∙ ground arith

translated :
    (stale : Bool) (s c : ℕ)
    → IsPlain c
    → translate stale s c
      ≡ (if leb 128 c then press_or_release s true (c - 128) else press_or_release s false c)
unfolding translate
translated stale s c (small, plain) = elim (Bool-cases (leb 128 c)) [
  | inl e ↦
      rw (translate, ==_ne c 224 plain, release_bit c small, e)
        (ap (press_or_release s true) (low c e small))
  | inr e ↦ rw (translate, ==_ne c 224 plain, release_bit c small, e) refl
]
  where
    low : (x : ℕ) → leb 128 x ≡ true → x < 256 → bit_and x 127 ≡ x - 128
    low x e h = bit_and_ones 7 x ∙ ground (arith, e)

translate_modifier :
    (stale : Bool) (s c k j : ℕ)
    → IsPlain c
    → has s 64 ≡ false
    → IsModifier k j
    → has (translate stale s c).0 (2 ^ j)
      ≡ (if c == k then true else (if c == k + 128 then false else has s (2 ^ j)))
translate_modifier stale s c k j p h m =
    ap (λ r. has r.0 (2 ^ j)) (translated stale s c p) ∙ elim (Bool-cases (leb 128 c)) [
      | inl e ↦ rw e (
          press_or_release_lem s j (c - 128) true h (bounds k j m).1
          ∙ ground (arith, slot_lem (c - 128) k j m, (bounds k j m).0, e))
      | inr e ↦ rw e (
          press_or_release_lem s j c false h (bounds k j m).1
          ∙ ground (arith, slot_lem c k j m, (bounds k j m).0, e))
    ]

translate_escape :
    (stale : Bool) (s c : ℕ) → IsPlain c → has s 64 ≡ false → has (translate stale s c).0 64 ≡ false
translate_escape stale s c p h =
    ap (λ r. has r.0 64) (translated stale s c p) ∙ elim (Bool-cases (leb 128 c)) [
      | inl e ↦ rw e (
          press_or_release_lem s 6 (c - 128) true h (omega arith)
          ∙ ground (arith, slot_not_six (c - 128), h))
      | inr e ↦
          rw e
            (press_or_release_lem s 6 c false h (omega arith) ∙ ground (arith, slot_not_six c, h))
    ]

state_of :
    (a b : Keyboard) (s t : Sched)
    → (let o : Outcome (Keyboard × Sched) = done (a, s) in o ≡ done (b, t))
    → a ≡ b
state_of a b s t h = cc

deliver_state :
    (kb kb' : Keyboard) (s s' : Sched) (key : Option ℕ)
    → deliver kb s key ≡ done (kb', s')
    → kb'.shift_state ≡ kb.shift_state
unfolding deliver
deliver_state kb kb' s s' none h = ap (λ k. k.shift_state) (sym (state_of kb kb' s s' h))
deliver_state kb kb' s s' (some key) h =
    let (w, a, b) = >>=-eq-done (wake_up s kb.wait_queue) _ (kb', s') h in
    ap (λ k. k.shift_state)
      (sym (state_of (record kb { keys = enqueue_keycode kb.keys key }) kb' _ s' b))

handled :
    (stale : Bool) (c : ℕ) (kb kb' : Keyboard) (s s' : Sched)
    → keyboard_interrupt_handler stale 1 c kb s ≡ done (kb', s')
    → kb'.shift_state ≡ (translate stale kb.shift_state c).0
unfolding keyboard_interrupt_handler
handled stale c kb kb' s s' h =
    let (state, key) = translate stale kb.shift_state c in
    deliver_state (record kb { shift_state = state }) kb' s s' key h

-- After any number of interrupts for plain scan codes, from a state without an escape code, the flag
-- of each of left shift, right shift, left control and left alt is set just where the key is held.
pub run-held :
    (cs : List (Bool × ℕ)) (kb kb' : Keyboard) (s s' : Sched) (k j : ℕ)
    → All IsPlain (codes cs)
    → has kb.shift_state 64 ≡ false
    → IsModifier k j
    → run cs kb s ≡ done (kb', s')
    → has kb'.shift_state (2 ^ j) ≡ held k (has kb.shift_state (2 ^ j)) (codes cs)
run-held [] kb kb' s s' k j p h m e =
    ap (λ x. has x.shift_state (2 ^ j)) (sym (state_of kb kb' s s' e))
run-held ((stale, c) ∷ cs) kb kb' s s' k j (p, ps) h m e =
    let ((kb₁, s₁), a, b) = >>=-eq-done (keyboard_interrupt_handler stale 1 c kb s) _ (kb', s') e in
    let state = handled stale c kb kb₁ s s₁ a in
    run-held cs kb₁ kb' s₁ s' k j ps
      (ap (λ x. has x 64) state ∙ translate_escape stale kb.shift_state c p h) m b
    ∙ ap (λ x. held k x (codes cs))
        (ap (λ x. has x (2 ^ j)) state ∙ translate_modifier stale kb.shift_state c k j p h m)
