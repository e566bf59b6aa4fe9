-- ===== src/Vfs/Atomic.antt =====
-- A Mount or a Format that fails leaves everything as it was.
use geekos.Base.{
  ltb, Bool-cases, get_elem?, set, ℕ, zero, suc, ◌≡◌, refl, sym, ap, subst, ◌∙◌, ◌⊎◌, inl, inr,
  true, false, Option, none, some, List, [], ◌∷◌, ◌++◌,
}
use geekos.Blockdev.{
  BlockDevice, Driver, find_device, set_in_use, open_found, open_block_device, close_found,
  close_block_device,
}
use geekos.CString.{strlen}
use geekos.Errno.{Rc, ok, enodev, ebusy, enomem, enametoolong, enofilesys, is_ok, Rc-cases}
use geekos.Vfs.{max_prefix_len}
use geekos.Vfs.Mount.{
  System, Env, strdup, lookup_filesystem, close_device, mount_on, mount_opened, mount_prefix, mount,
  skip_slashes,
}

Option-cases : {A : Type 0} → (o : Option A) → (o ≡ none) ⊎ ((a : A) × (o ≡ some a))
Option-cases none = inl refl
Option-cases (some a) = inr (a, refl)

module _ {A : Type 0} where
  get_elem?-set_present :
      (xs : List A) (i : ℕ) (a b : A) → get_elem? xs i ≡ some a → get_elem? (set xs i b) i ≡ some b
  get_elem?-set_present [] i a b h = absurd cc
  get_elem?-set_present (x ∷ xs) zero a b h = refl
  get_elem?-set_present (x ∷ xs) (suc i) a b h = get_elem?-set_present xs i a b h

  set-set : (xs : List A) (i : ℕ) (a b : A) → set (set xs i a) i b ≡ set xs i b
  set-set [] i a b = refl
  set-set (x ∷ xs) zero a b = refl
  set-set (x ∷ xs) (suc i) a b = ap (λ l. x ∷ l) (set-set xs i a b)

  set_same : (xs : List A) (i : ℕ) (a : A) → get_elem? xs i ≡ some a → set xs i a ≡ xs
  set_same [] i a h = refl
  set_same (x ∷ xs) zero a h = ap (λ y. y ∷ xs) (first x a h)
    where
      first : (y b : A) → some y ≡ some b → b ≡ y
      first y b e = cc
  set_same (x ∷ xs) (suc i) a h = ap (λ l. x ∷ l) (set_same xs i a h)

-- A device that was not in use, opened and closed.
reclosed :
    (ds : List BlockDevice) (i : ℕ) (d : BlockDevice)
    → get_elem? ds i ≡ some d
    → d.in_use ≡ false
    → set_in_use (set_in_use ds i d true) i (record d { in_use = true }) false ≡ ds
reclosed ds i d e idle =
    set-set ds i (record d { in_use = true }) (record d { in_use = false })
    ∙ ap (λ b. set ds i (record d { in_use = b })) (sym idle)
    ∙ set_same ds i d e

-- What Open_Block_Device leaves.
abbrev IsOpened : List BlockDevice → Option (Rc × Option ℕ × List BlockDevice) → Type 0
IsOpened ds none = Unit
IsOpened ds (some (rc, none, after)) = after ≡ ds
IsOpened ds (some (rc, some i, after)) =
    (d : BlockDevice) × (get_elem? ds i ≡ some d)
    × (d.in_use ≡ false)
    × (after ≡ set_in_use ds i d true)

open-IsOpened :
    (driver : Driver) (ds : List BlockDevice) (name : List ℕ)
    → IsOpened ds (open_block_device driver ds name)
unfolding open_block_device open_found
open-IsOpened driver ds name = elim (Option-cases (find_device ds name)) [
  | inl e ↦ carry none (rw (open_block_device, e) refl) tt
  | inr (none, e) ↦ carry (some (enodev, none, ds)) (rw (open_block_device, e) refl) refl
  | inr (some i, e) ↦ elim (Option-cases (get_elem? ds i)) [
    | inl g ↦ carry none (rw (open_block_device, e, g) refl) tt
    | inr (d, g) ↦ elim (Bool-cases d.in_use) [
      | inl u ↦
          carry (some (ebusy, none, ds)) (rw (open_block_device, e, g, open_found, u) refl) refl
      | inr u ↦ elim (Rc-cases (driver.open_unit d.unit)) [
        | inl r ↦
            let f : open_found driver ds i d ≡ (ok, set_in_use ds i d true) =
              rw (open_found, u, r) refl in
            carry (some (ok, some i, set_in_use ds i d true)) (rw (open_block_device, e, g, f) refl)
              (d, g, u, refl)
        | inr r ↦
            let f : open_found driver ds i d ≡ (driver.open_unit d.unit, ds) =
              rw (open_found, u, r) refl in
            carry (some (driver.open_unit d.unit, none, ds))
              (rw (open_block_device, e, g, f, r) refl) refl
      ]
    ]
  ]
]
  where
    carry :
        (o : Option (Rc × Option ℕ × List BlockDevice))
        → open_block_device driver ds name ≡ o
        → IsOpened ds o
        → IsOpened ds (open_block_device driver ds name)
    carry o e h = subst (IsOpened ds) (sym e) h

-- A result that is a failure comes with the state `v`.
abbrev Keeps : System → Option (Rc × System) → Type 0
Keeps v none = Unit
Keeps v (some (rc, after)) = is_ok rc ≡ false → after ≡ v

carry_over : (v : System) (o p : Option (Rc × System)) → o ≡ p → Keeps v p → Keeps v o
carry_over v o p e h = subst (Keeps v) (sym e) h

-- The driver's Close succeeds.
abbrev pub IsClosing : Env → Type 0
IsClosing env = (u : ℕ) → env.driver.close_unit u ≡ ok

close_device-Keeps :
    (env : Env) (v : System) (ds : List BlockDevice) (i : ℕ) (d : BlockDevice) (rc : Rc)
    → IsClosing env
    → get_elem? v.devices i ≡ some d
    → d.in_use ≡ false
    → ds ≡ set_in_use v.devices i d true
    → close_device env (record v { devices = ds }) i rc ≡ some (rc, v)
unfolding close_device close_block_device
close_device-Keeps env v ds i d rc closes g u e =
    let held = set_in_use v.devices i d true in
    let d' = record d { in_use = true } in
    let f : close_found env.driver held i d' ≡ some (ok, set_in_use held i d' false) =
      rw (close_found, closes d.unit) refl in
    let close : close_block_device env.driver held i ≡ some (ok, v.devices) =
      rw (close_block_device, get_elem?-set_present v.devices i d d' g)
        (f ∙ ap (λ l. some (ok, l)) (reclosed v.devices i d g u)) in
    ap (λ l. close_device env (record v { devices = l }) i rc) e ∙ rw (close_device, close) refl

module _ (env : Env) (v : System) (closes : IsClosing env) where
  mount_on-Keeps :
      (ds : List BlockDevice) (fs i id : ℕ) (prefix : List ℕ) (d : BlockDevice)
      → get_elem? v.devices i ≡ some d
      → d.in_use ≡ false
      → ds ≡ set_in_use v.devices i d true
      → Keeps v (mount_on env (record v { devices = ds }) fs i id prefix)
  unfolding mount_on
  mount_on-Keeps ds fs i id prefix d g u e = elim (Bool-cases (is_ok (env.mount_fs fs i))) [
    | inl m ↦
        carry_over v _
          (some (
            ok,
            record v {
              devices = ds;
              mount_points = v.mount_points ++ record { id = id; path_prefix = prefix } ∷ [];
            },
          ))
          (rw (mount_on, m) refl) (λ x. absurd cc)
    | inr m ↦
        carry_over v _ (some (env.mount_fs fs i, v))
          (rw (mount_on, m) (close_device-Keeps env v ds i d (env.mount_fs fs i) closes g u e))
          (λ x. refl)
  ]

  mount_opened-Keeps :
      (fs : ℕ) (prefix : List ℕ) (r : Rc × Option ℕ × List BlockDevice)
      → IsOpened v.devices (some r)
      → Keeps v (mount_opened env v fs prefix r)
  unfolding mount_opened
  mount_opened-Keeps fs prefix (rc, none, ds) e = λ x. ap (λ l. record v { devices = l }) e
  mount_opened-Keeps fs prefix (rc, some i, ds) (d, g, u, e) =
      elim (Option-cases env.new_mount_point) [
        | inl n ↦
            carry_over v _ (some (enomem, v))
              (rw (mount_opened, n) (close_device-Keeps env v ds i d enomem closes g u e))
              (λ x. refl)
        | inr (id, n) ↦ elim (Option-cases (strdup env.malloc prefix)) [
          | inl c ↦ carry_over v _ none (rw (mount_opened, n, c) refl) tt
          | inr (copy, c) ↦
              carry_over v _ (mount_on env (record v { devices = ds }) fs i id copy)
                (rw (mount_opened, n, c) refl) (mount_on-Keeps ds fs i id copy d g u e)
        ]
      ]

  mount_prefix-Keeps :
      (devname prefix fstype : List ℕ) → Keeps v (mount_prefix env v devname prefix fstype)
  unfolding mount_prefix
  mount_prefix-Keeps devname prefix fstype = elim (Option-cases (strlen prefix)) [
    | inl a ↦ carry_over v _ none (rw (mount_prefix, a) refl) tt
    | inr (n, a) ↦ elim (Bool-cases (ltb max_prefix_len n)) [
      | inl b ↦ carry_over v _ (some (enametoolong, v)) (rw (mount_prefix, a, b) refl) (λ x. refl)
      | inr b ↦ elim (Option-cases (lookup_filesystem v.filesystems fstype)) [
        | inl c ↦ carry_over v _ none (rw (mount_prefix, a, b, c) refl) tt
        | inr (none, c) ↦
            carry_over v _ (some (enofilesys, v)) (rw (mount_prefix, a, b, c) refl) (λ x. refl)
        | inr (some fs, c) ↦ elim (Option-cases (open_block_device env.driver v.devices devname)) [
          | inl o ↦ carry_over v _ none (rw (mount_prefix, a, b, c, o) refl) tt
          | inr (r, o) ↦
              carry_over v _ (mount_opened env v fs.id prefix r)
                (rw (mount_prefix, a, b, c, o) refl)
                (mount_opened-Keeps fs.id prefix r
                  (subst (IsOpened v.devices) o (open-IsOpened env.driver v.devices devname)))
        ]
      ]
    ]
  ]

-- A Mount that returns an error leaves the mount points, the filesystems and the devices as they were: a
-- device that it opened is closed again. The driver's Close is assumed to succeed.
pub mount-restores :
    (env : Env) (v after : System) (devname prefix fstype : List ℕ) (rc : Rc)
    → IsClosing env
    → mount env v devname prefix fstype ≡ some (rc, after)
    → is_ok rc ≡ false
    → after ≡ v
unfolding mount
mount-restores env v after devname prefix fstype rc closes e fails =
    subst (Keeps v) e (mount_prefix-Keeps env v closes devname (skip_slashes prefix) fstype) fails
