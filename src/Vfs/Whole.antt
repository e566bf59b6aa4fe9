-- ===== src/Vfs/Whole.antt =====
-- Read_Fully of src/geekos/vfs.c reads the whole file.
use geekos.Base.{
  ltb, leb, if◌then◌else◌, length, length-append, drop, All, ℕ, zero, suc, ◌+◌, ◌-◌, ◌^◌, ◌≤◌, ◌<◌,
  ◌≡◌, refl, sym, ap, ◌∙◌, Bool, true, false, Option, none, some, List, [], ◌∷◌, ◌++◌, append-nil,
  append_assoc, arith,
}
use geekos.Base.Reasons.{done, stop, out_of_fuel}
use geekos.Errno.{Rc, ok, is_ok}
use geekos.Pfat.{concat}
use geekos.Vfs.{MountPoint, File, do_open}
use geekos.Vfs.Dispatch.{stat, on_path, dispatch, close}
use geekos.Vfs.Paths.{IsComponent, unpack_path-splits}
use geekos.Vfs.Lookup.{HasPrefix, IsOther, lookup_mount_point-first, do_open-dispatches}
use geekos.Vfs.Files.{
  ReadResult, bytes, vfs_read, read_loop, finish_read, read_opened, after_open, after_stat,
  read_fully,
}

module _ {ℓ} {T : Type ℓ} (read : T → ℕ → ReadResult T) where
  -- Reads that ask for the `n` bytes that are still missing each time: they give the chunks, none of them
  -- empty and together `n` bytes, and take the file from the first state to the second.
  abbrev pub Delivers : List (List ℕ) → ℕ → T → T → Type ℓ
  Delivers [] n f f' = (n ≡ 0) × (f ≡ f')
  Delivers (c ∷ cs) n f f' =
      (g : T) × (read f n ≡ bytes c g)
      × (0 < length c)
      × (length c ≤ n)
      × Delivers cs (n - length c) g f'

  read_loop-all :
      (fuel size n : ℕ) (chunks : List (List ℕ)) (got : List ℕ) (f f' : T)
      → Delivers chunks n f f'
      → size ≡ length got + n
      → n < fuel
      → read_loop fuel (some read) f size got ≡ done (ok, got ++ concat chunks, f')
  unfolding read_loop vfs_read
  read_loop-all zero size n chunks got f f' d e lt = elim lt [ ]
  read_loop-all (suc fuel) size n [] got f f' (z, same) e lt =
      let full : ltb (length got) size ≡ false = ground (arith, z, e) in
      rw (read_loop, full)
        (ap (λ g. done (ok, got, g)) same ∙ ap (λ l. done (ok, l, f')) (sym (append-nil got)))
  read_loop-all (suc fuel) size n (c ∷ cs) got f f' (g, gives, some_bytes, fits, d) e lt =
      let more : ltb (length got) size ≡ true = ground (arith, e, some_bytes, fits) in
      let missing : size - length got ≡ n = omega (arith, e) in
      rw (read_loop, more, missing, gives)
        (read_loop-all fuel size (n - length c) cs (got ++ c) g f' d
            (omega (arith, e, fits, length-append got c)) (omega (arith, some_bytes, fits, lt))
          ∙ ap (λ l. done (ok, l, f')) (append_assoc got c (concat cs)))

  length-Delivers :
      (chunks : List (List ℕ)) (n : ℕ) (f f' : T)
      → Delivers chunks n f f'
      → length (concat chunks) ≡ n
  length-Delivers [] n f f' (z, same) = sym z
  length-Delivers (c ∷ cs) n f f' (g, gives, some_bytes, fits, d) =
      omega (arith, length-append c (concat cs), length-Delivers cs (n - length c) g f' d, fits)

-- Stat of "/p/q" calls the filesystem that is mounted first on "p".
stat-dispatches {ℓ} :
    {S : Type ℓ} (ops : ℕ → Option (List ℕ → S → Rc × S)) (p q prefix : List ℕ)
    (before after : List MountPoint) (m : MountPoint) (s : S) (op : List ℕ → S → Rc × S)
    → IsComponent p
    → 0 < length p
    → length p ≤ 16
    → length prefix ≡ 17
    → HasPrefix m p
    → All (IsOther p) before
    → ops m.id ≡ some op
    → stat ops (before ++ m ∷ after) prefix (47 ∷ p ++ 47 ∷ q) s ≡ some (op (47 ∷ q) s)
unfolding stat on_path dispatch
stat-dispatches ops p q prefix before after m s op c pos len room mine others has_op =
    rw
      (
        stat,
        on_path,
        unpack_path-splits p q prefix c pos len room,
        lookup_mount_point-first p (drop (suc (length p)) prefix) before after m mine others,
        dispatch,
        has_op,
      )
      refl

module _ {F S : Type 0} (read : F × S → ℕ → ReadResult (F × S)) (op : F × S → Rc × (F × S)) where
  read_opened-all :
      (fuel : ℕ) (has_memory : ℕ → Bool) (size : ℕ) (chunks : List (List ℕ)) (f f' f'' : F)
      (s s' s'' : S) (rc : Rc)
      → Delivers read chunks size (f, s) (f', s')
      → op (f', s') ≡ (rc, (f'', s''))
      → size < 2 ^ 31
      → has_memory size ≡ true
      → size < fuel
      → read_opened fuel has_memory (some read) (some op) size (f, s)
        ≡ done (ok, some (concat chunks), s'')
  unfolding read_opened finish_read close
  read_opened-all fuel has_memory size chunks f f' f'' s s' s'' rc d closes small room lt =
      let positive : leb (2 ^ 31) size ≡ false = ground arith in
      rw
        (
          positive,
          room,
          read_loop-all read fuel size size chunks [] (f, s) (f', s') d (omega arith) lt,
          closes,
        )
        refl

  module _ (fuel : ℕ) (has_memory : ℕ → Bool)
      (open_func : S → ℕ → List ℕ → ℕ → Rc × File (Option F × S)) (mounts : List MountPoint)
      (stat_prefix open_prefix path : List ℕ) where
    after_stat-opened :
        (size mount_point mode : ℕ) (f : F) (s₁ s₂ : S)
        → do_open
            (open_func s₁)
            mounts
            open_prefix
            (record { mode = 0; mount_point = 0; handle = (none, s₁) })
            path
            2
          ≡ some (ok, record { mode = mode; mount_point = mount_point; handle = (some f, s₂) })
        → after_stat fuel has_memory open_func
            (some read)
            (some op)
            mounts
            open_prefix
            path
            (ok, (size, s₁))
          ≡ read_opened fuel has_memory (some read) (some op) size (f, s₂)
    unfolding after_stat after_open
    after_stat-opened size mount_point mode f s₁ s₂ e = rw (after_stat, e) refl

    read_fully-stat :
        (stat_ops : ℕ → Option (List ℕ → ℕ × S → Rc × (ℕ × S))) (junk : ℕ) (s : S)
        (r : Rc × (ℕ × S))
        → stat stat_ops mounts stat_prefix path (junk, s) ≡ some r
        → read_fully fuel has_memory stat_ops open_func
            (some read)
            (some op)
            mounts
            stat_prefix
            open_prefix
            junk
            path
            s
          ≡ after_stat fuel has_memory open_func (some read) (some op) mounts open_prefix path r
    unfolding read_fully
    read_fully-stat stat_ops junk s r e = rw (read_fully, e) refl

  -- Read_Fully of "/p/q" ends with 0 and all the bytes of the file, as many as Stat says, in however many
  -- pieces the filesystem's Read gives them, and the file is closed. For a filesystem that is mounted
  -- first on "p", whose Stat gives a size below 2^31 and whose Open gives a file, where the Reads deliver
  -- that many bytes and there is memory for them.
  pub read_fully-all :
      (p q stat_prefix open_prefix : List ℕ) (before after : List MountPoint) (m : MountPoint)
      (fuel junk size : ℕ) (has_memory : ℕ → Bool)
      (stat_ops : ℕ → Option (List ℕ → ℕ × S → Rc × (ℕ × S)))
      (stat_op : List ℕ → ℕ × S → Rc × (ℕ × S))
      (open_func : S → ℕ → List ℕ → ℕ → Rc × File (Option F × S)) (chunks : List (List ℕ))
      (s₀ s₁ s₂ s₃ s₄ : S) (f₂ f₃ f₄ : F) (mode mount_point : ℕ) (rc : Rc)
      → IsComponent p
      → 0 < length p
      → length p ≤ 16
      → length stat_prefix ≡ 17
      → length open_prefix ≡ 17
      → HasPrefix m p
      → All (IsOther p) before
      → stat_ops m.id ≡ some stat_op
      → stat_op (47 ∷ q) (junk, s₀) ≡ (ok, (size, s₁))
      → open_func s₁ m.id (47 ∷ q) 2
        ≡ (ok, record { mode = mode; mount_point = mount_point; handle = (some f₂, s₂) })
      → Delivers read chunks size (f₂, s₂) (f₃, s₃)
      → op (f₃, s₃) ≡ (rc, (f₄, s₄))
      → size < 2 ^ 31
      → has_memory size ≡ true
      → size < fuel
      → (read_fully fuel has_memory stat_ops open_func
            (some read)
            (some op)
            (before ++ m ∷ after)
            stat_prefix
            open_prefix
            junk
            (47 ∷ p ++ 47 ∷ q)
            s₀
          ≡ done (ok, some (concat chunks), s₄))
        × (length (concat chunks) ≡ size)
  read_fully-all p q stat_prefix open_prefix before after m fuel junk size has_memory stat_ops
        stat_op open_func chunks s₀ s₁ s₂ s₃ s₄ f₂ f₃ f₄ mode mount_point rc c pos len room₁ room₂
        mine others has_stat stats opens d closes small room lt =
      let path = 47 ∷ p ++ 47 ∷ q in
      let mounts = before ++ m ∷ after in
      let stat_done =
        stat-dispatches stat_ops p q stat_prefix before after m (junk, s₀) stat_op c pos len room₁
          mine others has_stat
        ∙ ap some stats in
      let open_done =
        do_open-dispatches (open_func s₁) p q open_prefix before after m
          (record { mode = 0; mount_point = 0; handle = (none, s₁) }) 2 c pos len room₂ mine others
        ∙ ap
            (λ (r : Rc × File (Option F × S)). some (
              r.0,
              if is_ok r.0
                  then record { mode = 2; mount_point = m.id; handle = r.1.handle }
                  else r.1,
            ))
            opens in
      (
        read_fully-stat fuel has_memory open_func mounts stat_prefix open_prefix path stat_ops junk
              s₀ (ok, (size, s₁)) stat_done
            ∙ after_stat-opened fuel has_memory open_func mounts stat_prefix open_prefix path size
                m.id 2 f₂ s₁ s₂ open_done
            ∙ read_opened-all fuel has_memory size chunks f₂ f₃ f₄ s₂ s₃ s₄ rc d closes small room
                lt,
        length-Delivers read chunks size (f₂, s₂) (f₃, s₃) d,
      )

stuck :
    (k n : ℕ)
    → 0 < n
    → read_loop {S = Unit {0} × Unit {0}} k (some (λ f m. bytes [] f)) (tt, tt) n []
      ≡ stop out_of_fuel
unfolding read_loop vfs_read
stuck zero n h = refl
stuck (suc k) n h = let more : ltb 0 n ≡ true = ground arith in rw (read_loop, more) (stuck k n h)

-- A filesystem whose Read goes on to return no byte keeps Read_Fully in its loop: no fuel is enough.
pub read_opened-loops :
    (fuel : ℕ) (has_memory : ℕ → Bool) (op : Unit {0} × Unit {0} → Rc × (Unit {0} × Unit {0}))
    (size : ℕ)
    → 0 < size
    → size < 2 ^ 31
    → has_memory size ≡ true
    → read_opened fuel has_memory (some (λ f n. bytes [] f)) (some op) size (tt, tt)
      ≡ stop out_of_fuel
unfolding read_opened
read_opened-loops fuel has_memory op size lo hi room =
    let positive : leb (2 ^ 31) size ≡ false = ground arith in
    rw (positive, room, stuck fuel size lo) refl
