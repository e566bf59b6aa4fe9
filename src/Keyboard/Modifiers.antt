-- ===== src/Keyboard/Modifiers.antt =====
-- The shift state follows the keys that are held.
use geekos.Base.{
  leb, ◌==◌, if◌then◌else◌, ==_iff, Bool-cases, get_or, ℕ, zero, suc, ◌-◌, ◌^◌, ◌<◌, bit_and, ◌≡◌,
  refl, sym, ap, subst, ◌∙◌, ◌⊎◌, inl, inr, Bool, true, false, not, ◌&&◌, Option, none, some, List,
  arith,
}
use geekos.Base.Bits.{has, pow-pos, has-or_pow, has-and_mask}
use geekos.Keyboard.Handler.{switch, press_or_release, key_escape, flag_of}
use geekos.Keyboard.Tables.{scan_table_no_shift, scan_table_with_shift}

-- The scan code and the place of the flag of left shift, right shift, left control and left alt.
pub data IsModifier : ℕ → ℕ → Type 0 where
  left_shift : IsModifier 42 0
  right_shift : IsModifier 54 1
  left_ctrl : IsModifier 29 2
  left_alt : IsModifier 56 4

abbrev pub slot : ℕ → Option ℕ
slot code =
    if code == 42
    then some 0
    else (if code == 54
        then some 1
        else (if code == 29 then some 2 else (if code == 56 then some 4 else none)))

abbrev flag_at : Option ℕ → ℕ
flag_at none = 0
flag_at (some i) = 2 ^ i

abbrev pub is_slot : Option ℕ → ℕ → Bool
is_slot none j = false
is_slot (some i) j = i == j

pub slot_lem : (code k j : ℕ) → IsModifier k j → is_slot (slot code) j ≡ (code == k)
slot_lem code k j left_shift = ground arith
slot_lem code k j right_shift = ground arith
slot_lem code k j left_ctrl = ground arith
slot_lem code k j left_alt = ground arith

abbrev all_below : ℕ → (ℕ → Bool) → Bool
all_below zero p = true
all_below (suc n) p = p n && all_below n p

all_below_lem : (n : ℕ) (p : ℕ → Bool) (i : ℕ) → all_below n p ≡ true → i < n → p i ≡ true
all_below_lem zero p i h lt = elim lt [ ]
all_below_lem (suc n) p i h lt = elim (Bool-cases (i == n)) [
  | inl e ↦ subst (λ k. p k ≡ true) (sym ((==_iff i n).0 e)) (ground (arith, h))
  | inr e ↦ all_below_lem n p i (ground (arith, h)) (ground (arith, e, lt))
]

-- An entry of a table stands for the modifier of its scan code, and is not KEY_ESCAPE.
abbrev is_right : List ℕ → ℕ → Bool
is_right table code =
    (flag_of (get_or table code 0) == flag_at (slot code))
    && not (get_or table code 0 == key_escape)

no_shift_right : all_below 88 (is_right scan_table_no_shift) ≡ true
unfolding flag_of
no_shift_right = refl

with_shift_right : all_below 88 (is_right scan_table_with_shift) ≡ true
unfolding flag_of
with_shift_right = refl

slot_small : (code : ℕ) → (slot code ≡ none) ⊎ ((i : ℕ) × (slot code ≡ some i) × (i < 32))
slot_small code = elim (Bool-cases (code == 42)) [
  | inl a ↦ inr (0, rw a refl, omega arith)
  | inr a ↦ elim (Bool-cases (code == 54)) [
    | inl b ↦ inr (1, rw (a, b) refl, omega arith)
    | inr b ↦ elim (Bool-cases (code == 29)) [
      | inl c ↦ inr (2, rw (a, b, c) refl, omega arith)
      | inr c ↦ elim (Bool-cases (code == 56)) [
        | inl d ↦ inr (4, rw (a, b, c, d) refl, omega arith)
        | inr d ↦ inl (rw (a, b, c, d) refl)
      ]
    ]
  ]
]

-- What the switch does to a flag.
switch_lem :
    (s : ℕ) (shift release : Bool) (keycode j : ℕ) (o : Option ℕ)
    → flag_of keycode ≡ flag_at o
    → (keycode == key_escape) ≡ false
    → (o ≡ none) ⊎ ((i : ℕ) × (o ≡ some i) × (i < 32))
    → j < 32
    → has (switch s shift release keycode).0 (2 ^ j)
      ≡ (if is_slot o j then not release else has s (2 ^ j))
unfolding switch
switch_lem s shift release keycode j o f n (inl e) lt = rw (switch, f, e, n) refl
switch_lem s shift true keycode j o f n (inr (i, e, small)) lt =
    rw (switch, f, e, pow_nonzero i) (has-and_mask s i j small lt ∙ ground arith)
  where
    pow_nonzero : (k : ℕ) → (2 ^ k == 0) ≡ false
    pow_nonzero k = ground (arith, pow-pos k)
switch_lem s shift false keycode j o f n (inr (i, e, small)) lt =
    rw (switch, f, e, pow_nonzero i) (has-or_pow s i j ∙ ground arith)
  where
    pow_nonzero : (k : ℕ) → (2 ^ k == 0) ≡ false
    pow_nonzero k = ground (arith, pow-pos k)

cleared :
    (s j : ℕ)
    → has s 64 ≡ false
    → j < 32
    → has (bit_and s (2 ^ 32 - 1 - 64)) (2 ^ j) ≡ has s (2 ^ j)
cleared s j h lt = elim (Bool-cases (6 == j)) [
  | inl e ↦
      has-and_mask s 6 j (omega arith) lt
      ∙ rw e (ground arith)
      ∙ sym (subst (λ i. has s (2 ^ i) ≡ false) ((==_iff 6 j).0 e) h)
  | inr e ↦ has-and_mask s 6 j (omega arith) lt ∙ rw e (ground arith)
]

both : (a b : ℕ) (c : Bool) → ((a == b) && not c) ≡ true → (a ≡ b) × (c ≡ false)
both a b c h = (ground (arith, h), ground (arith, h))

-- The keycode of a scan code, with or without shift.
abbrev look_up : Bool → ℕ → ℕ
look_up shift code =
    if shift then get_or scan_table_with_shift code 0 else get_or scan_table_no_shift code 0

entry_right :
    (shift : Bool) (code : ℕ)
    → leb 88 code ≡ false
    → (flag_of (look_up shift code) ≡ flag_at (slot code))
      × ((look_up shift code == key_escape) ≡ false)
entry_right true code h =
    let right =
      all_below_lem 88 (is_right scan_table_with_shift) code with_shift_right (ground (arith, h)) in
    both (flag_of (look_up true code)) (flag_at (slot code)) (look_up true code == key_escape) right
entry_right false code h =
    let right =
      all_below_lem 88 (is_right scan_table_no_shift) code no_shift_right (ground (arith, h)) in
    both (flag_of (look_up false code)) (flag_at (slot code)) (look_up false code == key_escape)
      right

-- A press or a release of a key of the tables, while no escape code came before.
pressed :
    (s code : ℕ) (release : Bool)
    → leb 88 code ≡ false
    → has s 64 ≡ false
    → press_or_release s release code
      ≡ switch (bit_and s (2 ^ 32 - 1 - 64)) (has s 3) release (look_up (has s 3) code)
unfolding press_or_release
pressed s code release e h = rw (e, h) refl

unknown :
    (s code : ℕ) (release : Bool) → leb 88 code ≡ true → (press_or_release s release code).0 ≡ s
unfolding press_or_release
unknown s code release e = rw e refl

pub press_or_release_lem :
    (s j code : ℕ) (release : Bool)
    → has s 64 ≡ false
    → j < 32
    → has (press_or_release s release code).0 (2 ^ j) ≡ (
        if leb 88 code
        then has s (2 ^ j)
        else (if is_slot (slot code) j then not release else has s (2 ^ j)))
press_or_release_lem s j code release h lt = elim (Bool-cases (leb 88 code)) [
  | inl e ↦ rw e (ap (λ t. has t (2 ^ j)) (unknown s code release e))
  | inr e ↦
      let (flag, plain) = entry_right (has s 3) code e in
      rw e (
        ap (λ r. has r.0 (2 ^ j)) (pressed s code release e h)
        ∙ switch_lem (bit_and s (2 ^ 32 - 1 - 64)) (has s 3) release (look_up (has s 3) code) j
            (slot code) flag plain (slot_small code) lt
        ∙ ap (λ b. if is_slot (slot code) j then not release else b) (cleared s j h lt))
]
