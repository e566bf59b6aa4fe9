-- ===== src/Vfs/Dispatch.antt =====
-- The operations of src/geekos/vfs.c on an absolute path that go to the filesystem of its mount point, and
-- Sync. A filesystem's functions are a parameter, on the mount point's number; `none` is a null pointer.
use geekos.Base.{if◌then◌else◌, ℕ, Bool, not, Option, none, some, List, [], ◌∷◌}
use geekos.CString.{map_option}
use geekos.Errno.{Rc, ok, enotfound, eunsupported, is_ok}
use geekos.Vfs.{MountPoint, unpack_path, lookup_mount_point}

module _ {ℓ} {S : Type ℓ} where
  -- The end of Stat, Create_Directory and Delete, with what Lookup_Mount_Point finds.
  unfoldable pub dispatch :
      (ℕ → Option (List ℕ → S → Rc × S)) → List ℕ → S → Option MountPoint → Rc × S
  dispatch ops suffix s none = (enotfound, s)
  dispatch ops suffix s (some m) = elim (ops m.id) [
    | none ↦ (eunsupported, s)
    | some op ↦ op suffix s
  ]

  -- The three functions differ in the filesystem's function only.
  unfoldable pub on_path :
      (ℕ → Option (List ℕ → S → Rc × S)) → List MountPoint → List ℕ → List ℕ → S → Option (Rc × S)
  unfolding dispatch
  on_path ops mounts prefix path s = elim (unpack_path path prefix) [
    | none ↦ none
    | some none ↦ some (enotfound, s)
    | some (some (p, suffix)) ↦ map_option (dispatch ops suffix s) (lookup_mount_point p mounts)
  ]

  unfoldable pub stat :
      (ℕ → Option (List ℕ → S → Rc × S)) → List MountPoint → List ℕ → List ℕ → S → Option (Rc × S)
  unfolding on_path
  stat = on_path

  unfoldable pub create_directory :
      (ℕ → Option (List ℕ → S → Rc × S)) → List MountPoint → List ℕ → List ℕ → S → Option (Rc × S)
  unfolding on_path
  create_directory = on_path

  unfoldable pub delete :
      (ℕ → Option (List ℕ → S → Rc × S)) → List MountPoint → List ℕ → List ℕ → S → Option (Rc × S)
  unfolding on_path
  delete = on_path

  -- Sync up to the first filesystem that fails; a filesystem without Sync fails a KASSERT.
  unfoldable pub sync : (ℕ → Option (S → Rc × S)) → List MountPoint → S → Option (Rc × S)
  sync ops [] s = some (ok, s)
  sync ops (m ∷ ms) s = elim (ops m.id) [
    | none ↦ none
    | some op ↦
        let (rc, s') = op s in
        let rest = sync ops ms s' in if not (is_ok rc) then some (rc, s') else rest
  ]

  unfoldable pub fstat : Option (S → Rc × S) → S → Rc × S
  fstat none file = (eunsupported, file)
  fstat (some op) file = op file

  unfoldable pub read_entry : Option (S → Rc × S) → S → Rc × S
  read_entry none dir = (eunsupported, dir)
  read_entry (some op) dir = op dir

  -- Whether the file object is freed, too.
  unfoldable pub close : Option (S → Rc × S) → S → Option (Rc × Bool × S)
  close none file = none
  close (some op) file = let (rc, file') = op file in some (rc, is_ok rc, file')
