-- ===== src/Errno.antt =====
-- include/geekos/errno.h: the codes that kernel functions return; `ok` is 0.
use geekos.Base.{◌≡◌, refl, ◌⊎◌, inl, inr, Bool, true, false}

pub data Rc : Type 0 where
  ok eunspecified enotfound eunsupported enodev eio ebusy enomem enofilesys enametoolong : Rc
  einvalidfs eaccess einvalid emfile enotdir eexist enospace epipe enoexec : Rc

-- `rc == 0`
abbrev pub is_ok : Rc → Bool
is_ok ok = true
is_ok e = false

pub eq_ok : (rc : Rc) → is_ok rc ≡ true → rc ≡ ok
eq_ok ok h = refl
eq_ok e h = cc

pub Rc-cases : (rc : Rc) → (rc ≡ ok) ⊎ (is_ok rc ≡ false)
Rc-cases ok = inl refl
Rc-cases e = inr refl
