-- ===== src/Keyboard/Handler.antt =====
-- Keyboard_Interrupt_Handler of src/geekos/keyboard.c.
use geekos.Base.{
  leb, ◌==◌, if◌then◌else◌, get_or, ℕ, ◌-◌, ◌^◌, bit_and, bit_or, Bool, true, false, not, Option,
  none, some,
}
use geekos.Base.Bits.{has}
use geekos.Base.Outcome.{Outcome, done, ◌>>=◌}
use geekos.Keyboard.{KeyQueue, enqueue_keycode}
use geekos.Keyboard.Tables.{special, scan_table_no_shift, scan_table_with_shift}
use geekos.Scheduler.{Sched, wake_up}

abbrev pub scan_table_size : ℕ
scan_table_size = 88

-- KEY_ESCAPE, and the flag ESCAPE
abbrev pub key_escape : ℕ
key_escape = 224

abbrev pub escape : ℕ
escape = 64

-- The flag of a modifier key, from LEFT_SHIFT to RIGHT_ALT, or 0 for another key.
unfoldable pub flag_of : ℕ → ℕ
flag_of keycode =
    if keycode == special 15
    then 1
    else (if keycode == special 16
        then 2
        else (if keycode == special 13
            then 4
            else (if keycode == special 14
                then 8
                else (if keycode == special 17
                    then 16
                    else (if keycode == special 18 then 32 else 0)))))

-- The keycode with its shift, control, alt and release flags.
unfoldable pub format_keycode : ℕ → Bool → Bool → ℕ → ℕ
format_keycode shift_state shift release keycode =
    let k₁ = if shift then bit_or keycode 4096 else keycode in
    let k₂ = if has shift_state 12 then bit_or k₁ 16384 else k₁ in
    let k₃ = if has shift_state 48 then bit_or k₂ 8192 else k₂ in
    if release then bit_or k₃ 32768 else k₃

-- The switch and what follows it: the new shift state, and the keycode to be queued if there is one.
unfoldable pub switch : ℕ → Bool → Bool → ℕ → ℕ × Option ℕ
unfolding format_keycode
switch shift_state shift release keycode =
    let flag = flag_of keycode in
    let escaped = if keycode == key_escape then bit_or shift_state escape else shift_state in
    if not (flag == 0)
    then (if release
        then (bit_and shift_state (2 ^ 32 - 1 - flag), none)
        else (bit_or shift_state flag, none))
    else (escaped, some (format_keycode escaped shift release keycode))

-- A scan code other than 0xe0, without its release bit.
unfoldable pub press_or_release : ℕ → Bool → ℕ → ℕ × Option ℕ
unfolding switch
press_or_release shift_state release code =
    let shift = has shift_state 3 in
    let keycode =
      if shift then get_or scan_table_with_shift code 0 else get_or scan_table_no_shift code 0 in
    if leb scan_table_size code
    then (shift_state, none)
    else switch (bit_and shift_state (2 ^ 32 - 1 - escape)) shift release
        (if has shift_state escape then code else keycode)

-- What the handler makes of a scan code. `stale` is the value of `shift` where nothing was stored in it.
unfoldable pub translate : Bool → ℕ → ℕ → ℕ × Option ℕ
unfolding press_or_release switch
translate stale shift_state scan_code =
    if not (scan_code == key_escape)
    then (if has scan_code 128
        then press_or_release shift_state true (bit_and scan_code (255 - 128))
        else press_or_release shift_state false scan_code)
    else switch shift_state stale false scan_code

pub record Keyboard : Type 0 where
  pub shift_state : ℕ
  pub keys : KeyQueue
  pub wait_queue : ℕ

-- The end of the handler, for a keycode to be queued.
unfoldable pub deliver : Keyboard → Sched → Option ℕ → Outcome (Keyboard × Sched)
deliver kb s none = done (kb, s)
deliver kb s (some keycode) = do
  s' ← wake_up s kb.wait_queue
  done (record kb { keys = enqueue_keycode kb.keys keycode }, record s' { need_reschedule = true })

-- The handler, without the end of the interrupt request; `status` and `scan_code` are what the ports of
-- the keyboard give.
unfoldable pub keyboard_interrupt_handler :
    Bool → ℕ → ℕ → Keyboard → Sched → Outcome (Keyboard × Sched)
unfolding translate deliver
keyboard_interrupt_handler stale status scan_code kb s =
    let (state, key) = translate stale kb.shift_state scan_code in
    if has status 1 then deliver (record kb { shift_state = state }) s key else done (kb, s)
