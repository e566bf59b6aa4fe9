-- ===== src/Vfs/Lookup.antt =====
-- Lookup_Mount_Point and Do_Open.
use geekos.Base.{
  if◌then◌else◌, ==_ne, length, drop, All, ℕ, suc, ◌≤◌, ◌<◌, ◌≡◌, refl, ap, ◌∙◌, ◌≢◌, some, List,
  [], ◌∷◌, ◌++◌, arith,
}
use geekos.Errno.{Rc, is_ok}
use geekos.CString.{strcmp}
use geekos.CString.Compare.{NonZero, strcmp-zero_iff}
use geekos.Vfs.{MountPoint, File, lookup_mount_point, finish_open, open_in, do_open}
use geekos.Vfs.Paths.{IsComponent, unpack_path-splits}

-- The prefix of a mount point is the string `p`.
abbrev pub HasPrefix : MountPoint → List ℕ → Type 0
HasPrefix m p = NonZero p × ((r : List ℕ) × (m.path_prefix ≡ p ++ 0 ∷ r))

-- A mount point with another prefix than `p`.
abbrev pub IsOther : List ℕ → MountPoint → Type 0
IsOther p m = (o : List ℕ) × HasPrefix m o × (p ≢ o)

-- Lookup_Mount_Point returns the first mount point whose prefix is the string that it is given.
pub lookup_mount_point-first :
    (p r : List ℕ) (before after : List MountPoint) (m : MountPoint)
    → HasPrefix m p
    → All (IsOther p) before
    → lookup_mount_point (p ++ 0 ∷ r) (before ++ m ∷ after) ≡ some (some m)
unfolding lookup_mount_point
lookup_mount_point-first p r [] after m (nz, (q, e)) others =
    let (n, cmp, same) = strcmp-zero_iff p p r q nz nz in
    rw (lookup_mount_point, ap (strcmp (p ++ 0 ∷ r)) e ∙ cmp, same.1 refl) refl
lookup_mount_point-first p r (x ∷ before) after m mine ((o, (nz, (q, e)), ne), others) =
    let (n, cmp, same) = strcmp-zero_iff p o r q mine.0 nz in
    rw
      (
        lookup_mount_point,
        ap (strcmp (p ++ 0 ∷ r)) e ∙ cmp,
        ==_ne n 0 (λ z. ne (same.0 z)),
        lookup_mount_point-first p r before after m mine others,
      )
      refl

-- Do_Open of "/p/q" calls the filesystem that is mounted first on "p" with "/q", and returns the code of that
-- call. Where the code is 0, the mode and the mount point are stored in the file that the call gives;
-- where it is not, the file is left as it is. For a buffer of 17 characters and a prefix of 1 to 16.
pub do_open-dispatches {ℓ} :
    {H : Type ℓ} (open_func : ℕ → List ℕ → ℕ → Rc × File H) (p q prefix : List ℕ)
    (before after : List MountPoint) (m : MountPoint) (file : File H) (mode : ℕ)
    → IsComponent p
    → 0 < length p
    → length p ≤ 16
    → length prefix ≡ 17
    → HasPrefix m p
    → All (IsOther p) before
    → do_open open_func (before ++ m ∷ after) prefix file (47 ∷ p ++ 47 ∷ q) mode ≡ (
        let (rc, opened) = open_func m.id (47 ∷ q) mode in
        some (
          rc,
          if is_ok rc
              then record { mode = mode; mount_point = m.id; handle = opened.handle }
              else opened,
        ))
unfolding do_open open_in finish_open
do_open-dispatches open_func p q prefix before after m file mode c pos len room mine others =
    rw
      (
        do_open,
        unpack_path-splits p q prefix c pos len room,
        lookup_mount_point-first p (drop (suc (length p)) prefix) before after m mine others,
      )
      (ground arith)
