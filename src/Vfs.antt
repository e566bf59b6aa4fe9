-- ===== src/Vfs.antt =====
-- src/geekos/vfs.c and include/geekos/vfs.h: paths, mount points and the opening of files.
-- Strings are as in the module `CString`: `none` is a read or a write beyond the end of an object, and
-- here also a failed KASSERT. The filesystem's own Open is a parameter. Each function runs while the
-- list of mount points does not change, since the mutex of the module protects it.
pub mod Paths
pub mod Lookup
pub mod Mount
pub mod Files
pub mod Whole
pub mod Dispatch
pub mod Atomic
mod Tests
use geekos.Base.{
  ltb, ◌==◌, if◌then◌else◌, get_or, set, drop, ℕ, not, ◌||◌, Option, none, some, List, [], ◌∷◌,
}
use geekos.Errno.{Rc, enotfound, is_ok}
use geekos.CString.{map_option, strlen, strcmp, strcpy, strchr}
use geekos.CString.Memory.{memcpy}

abbrev pub max_prefix_len : ℕ
max_prefix_len = 16

-- '/'
abbrev pub slash : ℕ
slash = 47

-- The last assertion of Unpack_Path, on the prefix buffer and the suffix.
unfoldable pub check_suffix : List ℕ × List ℕ → Option (Option (List ℕ × List ℕ))
check_suffix (prefix, suffix) =
    if get_or suffix 0 0 == slash then some (some (prefix, suffix)) else none

-- A path "/prefix", of which `path` is left behind the first slash.
unfoldable pub unpack_root : List ℕ → List ℕ → ℕ → Option (Option (List ℕ × List ℕ))
unfolding check_suffix
unpack_root prefix path len =
    if (len == 0) || ltb max_prefix_len len
    then some none
    else elim (strcpy prefix path) [ none ↦ none | some p ↦ check_suffix (p, slash ∷ 0 ∷ []) ]

-- A path with another slash, at the index `len` of `path`.
unfoldable pub unpack_prefix : List ℕ → List ℕ → ℕ → Option (Option (List ℕ × List ℕ))
unfolding check_suffix
unpack_prefix prefix path len =
    if (len == 0) || ltb max_prefix_len len
    then some none
    else check_suffix (set (memcpy prefix path len) len 0, drop len path)

-- `some none` where the path is not valid, else the prefix buffer and the suffix.
unfoldable pub unpack_path : List ℕ → List ℕ → Option (Option (List ℕ × List ℕ))
unfolding unpack_root unpack_prefix
unpack_path [] prefix = none
unpack_path (c ∷ path) prefix = if not (c == slash) then some none else elim (strchr path slash) [
  | none ↦ none
  | some none ↦ elim (strlen path) [ none ↦ none | some len ↦ unpack_root prefix path len ]
  | some (some len) ↦ unpack_prefix prefix path len
]

pub record MountPoint : Type 0 where
  pub id : ℕ
  pub path_prefix : List ℕ

-- The loop of Lookup_Mount_Point.
unfoldable pub lookup_mount_point : List ℕ → List MountPoint → Option (Option MountPoint)
lookup_mount_point prefix [] = some none
lookup_mount_point prefix (m ∷ ms) =
    let rest = lookup_mount_point prefix ms in
    elim (strcmp prefix m.path_prefix) [
      | none ↦ none
      | some n ↦ if n == 0 then some (some m) else rest
    ]

-- What Do_Open sets in an opened file; `handle` is what the filesystem keeps.
pub record File {ℓ} (H : Type ℓ) : Type ℓ where
  pub mode : ℕ
  pub mount_point : ℕ
  pub handle : H

module _ {ℓ} {H : Type ℓ} where
  -- The end of Do_Open, with the code and the file that the filesystem gives.
  unfoldable pub finish_open : MountPoint → ℕ → Rc × File H → Rc × File H
  finish_open m mode (rc, file) =
      if is_ok rc then (rc, record file { mode = mode; mount_point = m.id }) else (rc, file)

  unfoldable pub open_in :
      (ℕ → List ℕ → ℕ → Rc × File H) → ℕ → File H → List ℕ → Option MountPoint → Rc × File H
  unfolding finish_open
  open_in open_func mode file suffix none = (enotfound, file)
  open_in open_func mode file suffix (some m) = finish_open m mode (open_func m.id suffix mode)

  -- Do_Open on an absolute path; `open_func` is the filesystem's function, `prefix` and `file` are what
  -- the two variables hold before.
  unfoldable pub do_open :
      (ℕ → List ℕ → ℕ → Rc × File H)
      → List MountPoint
      → List ℕ
      → File H
      → List ℕ
      → ℕ
      → Option (Rc × File H)
  unfolding open_in
  do_open open_func mounts prefix file path mode = elim (unpack_path path prefix) [
    | none ↦ none
    | some none ↦ some (enotfound, file)
    | some (some (p, suffix)) ↦
        map_option (open_in open_func mode file suffix) (lookup_mount_point p mounts)
  ]
