-- ===== src/Vfs/Mount.antt =====
-- Register_Filesystem, Format and Mount of src/geekos/vfs.c. The driver of the devices, the allocator and
-- the filesystems' functions are parameters. `none` is as in the parent; it is also an access through a
-- null pointer.
use geekos.Base.{
  ltb, ◌==◌, if◌then◌else◌, set, ℕ, ◌+◌, Bool, true, false, not, Option, none, some, List, [], ◌∷◌,
  ◌++◌,
}
use geekos.Blockdev.{BlockDevice, Driver, open_block_device, close_block_device}
use geekos.CString.{strlen, strcmp, strcpy, strncpy}
use geekos.Errno.{Rc, ok, enomem, enametoolong, enofilesys, eunsupported, is_ok}
use geekos.Vfs.{MountPoint, max_prefix_len, slash}

pub record Filesystem : Type 0 where
  pub id : ℕ
  pub fs_name : List ℕ
  pub has_format : Bool

pub record System : Type 0 where
  pub mount_points : List MountPoint
  pub filesystems : List Filesystem
  pub devices : List BlockDevice

-- The filesystems' Format and Mount, on a filesystem and a device; the address of a new Mount_Point, if
-- there is memory; and the allocator.
pub record Env : Type 0 where
  pub driver : Driver
  pub format_fs : ℕ → ℕ → Rc
  pub mount_fs : ℕ → ℕ → Rc
  pub new_mount_point : Option ℕ
  pub malloc : ℕ → Option (List ℕ)

abbrev pub max_fs_name_len : ℕ
max_fs_name_len = 15

-- strdup of src/common/string.c does not look whether Malloc gave memory.
unfoldable pub strdup : (ℕ → Option (List ℕ)) → List ℕ → Option (List ℕ)
strdup malloc s = elim (strlen s) [
  | none ↦ none
  | some n ↦ elim (malloc (n + 1)) [ none ↦ none | some block ↦ strcpy block s ]
]

-- True where it succeeds; `fresh` is the name field of the memory that Malloc gives.
unfoldable pub register_filesystem :
    Option (List ℕ) → System → List ℕ → ℕ → Bool → Option (Bool × System)
register_filesystem none v name id has_format = some (false, v)
register_filesystem (some fresh) v name id has_format = elim (strncpy fresh name max_fs_name_len) [
  | none ↦ none
  | some copy ↦ some (
    true,
    record v {
      filesystems =
          v.filesystems
          ++ record { id = id; fs_name = set copy max_fs_name_len 0; has_format = has_format } ∷ [];
    },
  )
]

-- One round of the search by name, with the result of the rest.
abbrev pub compare_type :
    Option ℕ → Filesystem → Option (Option Filesystem) → Option (Option Filesystem)
compare_type none fs rest = none
compare_type (some n) fs rest = if n == 0 then some (some fs) else rest

unfoldable pub lookup_filesystem : List Filesystem → List ℕ → Option (Option Filesystem)
lookup_filesystem [] fstype = some none
lookup_filesystem (fs ∷ fss) fstype =
    compare_type (strcmp fs.fs_name fstype) fs (lookup_filesystem fss fstype)

unfoldable pub close_device : Env → System → ℕ → Rc → Option (Rc × System)
close_device env v i rc = elim (close_block_device env.driver v.devices i) [
  | none ↦ none
  | some (code, devices) ↦ some (rc, record v { devices = devices })
]

-- The end of Format, with the result of Open_Block_Device.
unfoldable pub format_opened :
    Env → System → ℕ → Rc × Option ℕ × List BlockDevice → Option (Rc × System)
unfolding close_device
format_opened env v fs (rc, none, devices) = some (rc, record v { devices = devices })
format_opened env v fs (rc, some i, devices) =
    close_device env (record v { devices = devices }) i (env.format_fs fs i)

unfoldable pub format : Env → System → List ℕ → List ℕ → Option (Rc × System)
unfolding format_opened
format env v devname fstype = elim (lookup_filesystem v.filesystems fstype) [
  | none ↦ none
  | some none ↦ some (enofilesys, v)
  | some (some fs) ↦
      if not fs.has_format
      then some (eunsupported, v)
      else elim (open_block_device env.driver v.devices devname) [
        | none ↦ none
        | some opened ↦ format_opened env v fs.id opened
      ]
]

-- `while (*pathPrefix == '/') ++pathPrefix`
abbrev pub skip_slashes : List ℕ → List ℕ
skip_slashes [] = []
skip_slashes (c ∷ s) = if c == slash then skip_slashes s else c ∷ s

-- From the call of the filesystem's Mount on.
unfoldable pub mount_on : Env → System → ℕ → ℕ → ℕ → List ℕ → Option (Rc × System)
unfolding close_device
mount_on env v fs i id prefix =
    if is_ok (env.mount_fs fs i)
    then some (
      ok,
      record v { mount_points = v.mount_points ++ record { id = id; path_prefix = prefix } ∷ [] },
    )
    else close_device env v i (env.mount_fs fs i)

-- The end of Mount, with the result of Open_Block_Device.
unfoldable pub mount_opened :
    Env → System → ℕ → List ℕ → Rc × Option ℕ × List BlockDevice → Option (Rc × System)
unfolding mount_on close_device
mount_opened env v fs prefix (rc, none, devices) = some (rc, record v { devices = devices })
mount_opened env v fs prefix (rc, some i, devices) = elim env.new_mount_point [
  | none ↦ close_device env (record v { devices = devices }) i enomem
  | some id ↦ elim (strdup env.malloc prefix) [
    | none ↦ none
    | some copy ↦ mount_on env (record v { devices = devices }) fs i id copy
  ]
]

unfoldable pub mount_prefix : Env → System → List ℕ → List ℕ → List ℕ → Option (Rc × System)
unfolding mount_opened
mount_prefix env v devname prefix fstype = elim (strlen prefix) [
  | none ↦ none
  | some n ↦
      if ltb max_prefix_len n
      then some (enametoolong, v)
      else elim (lookup_filesystem v.filesystems fstype) [
        | none ↦ none
        | some none ↦ some (enofilesys, v)
        | some (some fs) ↦ elim (open_block_device env.driver v.devices devname) [
          | none ↦ none
          | some opened ↦ mount_opened env v fs.id prefix opened
        ]
      ]
]

unfoldable pub mount : Env → System → List ℕ → List ℕ → List ℕ → Option (Rc × System)
unfolding mount_prefix
mount env v devname path_prefix fstype =
    mount_prefix env v devname (skip_slashes path_prefix) fstype
