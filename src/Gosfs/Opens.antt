-- ===== src/Gosfs/Opens.antt =====
-- src/geekos/gosfs.c: GOSFS_Open on the root directory and on files that do not exist, and the bit set.
use geekos.Base.Bits.{has}
use geekos.Errno.{Rc, ok, enomem, enotfound, eunspecified, is_ok}
use geekos.Gosfs.Releases.{do_gosfs_lookup-releases, hold}
use geekos.Base.{
  ◌==◌, if◌then◌else◌, Bool-cases, length, get_elem?, set, ℕ, ◌<◌, ◌≡◌, refl, sym, subst, ◌∙◌, inl,
  inr, Bool, true, false, not, Option, none, some, List, [], ◌∷◌, ◌++◌,
}
use geekos.CString.{strcmp, strcpy, char_diff}
use geekos.Gosfs.{
  DirEntry, DirEntryPtr, PathInfo, Instance, Env, is_held, drop_held, slash, take_buffer,
  release_buffer, do_gosfs_lookup, direntry_used, direntry_is_directory, non_null,
}
use geekos.Gosfs.Files.{
  File, o_create, store_entry, allocate_block, add_file, take_entry, is_open, get_gosfs_file,
  finish_open, open_found, open_missing, gosfs_open, init_path_info, is_enotfound,
}
use geekos.Base.Reasons.{
  done, stop, ◌>>=◌, in_bounds, waits_for_itself, wild_pointer, Ends, Ends-bind, Ends-then,
}
use geekos.Gosfs.Allocation.{Consistent, Consistent-same, allocate_block-Consistent}

add_file-Consistent :
    (inst : Instance) (info : PathInfo) (x : DirEntry)
    → Consistent inst
    → 0 < length x.block_list
    → Ends (λ r. Consistent r.1) (add_file inst info x)
unfolding add_file
add_file-Consistent inst info x c room =
    Ends-bind _ (in_bounds (strcpy x.filename info.suffix)) _ (λ name.
      let make : ℕ → DirEntry = λ p. record x {
        filename = name;
        size = 0;
        flags = direntry_used;
        block_list = set x.block_list 0 p;
      } in
      Ends-then (λ r. Consistent (store_entry r.1 info.dir_entry_ptr (make r.0))) _
        (allocate_block inst) _
        (allocate_block-Consistent inst x info.dir_entry_ptr make c room (λ p. refl)) (λ r h. h))

release_buffer-Consistent :
    (inst : Instance) (n : ℕ) → Consistent inst → Ends Consistent (release_buffer inst n)
unfolding release_buffer
release_buffer-Consistent inst n c = elim (Bool-cases (is_held n inst.held)) [
  | inl held ↦
      rw held
        (Consistent-same inst (record inst { held = drop_held n inst.held }) (refl, refl, refl) c)
  | inr free ↦ rw free tt
]

get_gosfs_file-Consistent :
    (env : Env) (inst : Instance) (ptr : DirEntryPtr)
    → Consistent inst
    → Consistent (get_gosfs_file env inst ptr).1
unfolding get_gosfs_file
get_gosfs_file-Consistent env inst ptr c = elim (Bool-cases (is_open inst.file_list ptr)) [
  | inl there ↦ rw there c
  | inr absent ↦ elim (Bool-cases env.has_object) [
    | inl object ↦
        rw (absent, object)
          (Consistent-same inst (record inst { file_list = inst.file_list ++ ptr ∷ [] })
            (refl, refl, refl) c)
    | inr full ↦ rw (absent, full) c
  ]
]

finish_open-Consistent :
    (env : Env) (info : PathInfo) (file : Option File) (e : DirEntry) (inst : Instance)
    → Consistent inst
    → Ends (λ r. Consistent r.2) (finish_open env info file (e, inst))
unfolding finish_open
finish_open-Consistent env info file e inst c =
    Ends-then Consistent _
      (release_buffer (get_gosfs_file env inst info.dir_entry_ptr).1 info.dir_entry_ptr.base) _
      (release_buffer-Consistent (get_gosfs_file env inst info.dir_entry_ptr).1
        info.dir_entry_ptr.base (get_gosfs_file-Consistent env inst info.dir_entry_ptr c))
      (λ inst₂ h. chosen (get_gosfs_file env inst info.dir_entry_ptr).0 env.has_file inst₂ h)
  where
    chosen :
        (got has_file : Bool) (inst₂ : Instance)
        → Consistent inst₂
        → Ends {A = Rc × Option File × Instance}
            (λ r. Consistent r.2)
            (done (
              if not got
              then (eunspecified, file, inst₂)
              else (if has_file
                  then (
                    ok,
                    some (record {
                      file_pos = 0;
                      end_pos = e.size;
                      gosfs_file = info.dir_entry_ptr;
                    }),
                    inst₂,
                  )
                  else (enomem, file, inst₂))))
    chosen true true inst₂ h = h
    chosen true false inst₂ h = h
    chosen false b inst₂ h = h

-- The entry that is taken is one of the block's.
abbrev Taken : Option DirEntry × Instance → Type 0
Taken r = Consistent r.1 × ((x : DirEntry) → r.0 ≡ some x → 0 < length x.block_list)

take_entry-Taken :
    (env : Env) (inst : Instance) (ptr : DirEntryPtr)
    → Consistent inst
    → Ends Taken (take_entry env inst ptr)
unfolding take_entry take_buffer
take_entry-Taken env inst ptr c = elim (Bool-cases (is_held ptr.base inst.held)) [
  | inl held ↦ rw held tt
  | inr free ↦ elim (Bool-cases (env.fails ptr.base)) [
    | inl bad ↦ rw (free, bad) (c, λ x e. absurd cc)
    | inr good ↦ rw (free, good) (entry (get_elem? (inst.blocks ptr.base) ptr.offset) refl)
  ]
]
  where
    entry :
        (o : Option DirEntry)
        → get_elem? (inst.blocks ptr.base) ptr.offset ≡ o
        → Ends Taken (in_bounds o >>= λ e. done (some e, hold ptr.base inst))
    entry none h = tt
    entry (some x) h = (
      Consistent-same inst (hold ptr.base inst) (refl, refl, refl) c,
      λ y e. c.arrays ptr.base ptr.offset y (h ∙ e),
    )

non_null-some {ℓ} :
    {A : Type ℓ} (o : Option A) (P : A → Type 0)
    → ((x : A) → o ≡ some x → P x)
    → Ends P (non_null o)
non_null-some none P h = tt
non_null-some (some x) P h = h x refl

open_found-Consistent :
    (env : Env) (inst : Instance) (info : PathInfo) (file : Option File)
    → Consistent inst
    → Ends (λ r. Consistent r.2) (open_found env inst info file)
unfolding open_found
open_found-Consistent env inst info file c =
    Ends-then Taken _ (take_entry env inst info.dir_entry_ptr) _
      (take_entry-Taken env inst info.dir_entry_ptr c)
      (λ r h. Ends-bind _ (non_null r.0) _ (λ e.
        elim (Bool-cases (e.flags == direntry_is_directory)) [
          | inl dir ↦ rw dir (
              Ends-then Consistent _ (release_buffer r.1 info.dir_entry_ptr.base) _
                (release_buffer-Consistent r.1 info.dir_entry_ptr.base h.0) (λ inst₂ k. k))
          | inr other ↦ rw other (finish_open-Consistent env info file e r.1 h.0)
        ]))

open_missing-Consistent :
    (env : Env) (inst : Instance) (info : PathInfo) (mode : ℕ) (file : Option File)
    → Consistent inst
    → Ends (λ r. Consistent r.2) (open_missing env inst info mode file)
unfolding open_missing
open_missing-Consistent env inst info mode file c =
    Ends-then Taken _ (take_entry env inst info.dir_entry_ptr) _
      (take_entry-Taken env inst info.dir_entry_ptr c)
      (λ r h.
        Ends-then (λ x. 0 < length x.block_list) _ (non_null r.0) _
          (non_null-some r.0 (λ x. 0 < length x.block_list) h.1)
          (λ e room.
            Ends-then (λ x. Consistent x.1) _
              (if has mode o_create then add_file r.1 info e else done (e, r.1)) _
              (added (has mode o_create) r.1 e h.0 room)
              (λ x k. finish_open-Consistent env info file x.0 x.1 k)))
  where
    added :
        (create : Bool) (inst₁ : Instance) (e : DirEntry)
        → Consistent inst₁
        → 0 < length e.block_list
        → Ends {A = DirEntry × Instance}
            (λ x. Consistent x.1)
            (if create then add_file inst₁ info e else done (e, inst₁))
    added true inst₁ e h room = add_file-Consistent inst₁ info e h room
    added false inst₁ e h room = h

-- GOSFS_Open, whatever it ends with, keeps the bit set right: every entry that is in use has its first
-- block marked there. For a bit set of bytes that has room for the blocks of the disk.
pub gosfs_open-Consistent :
    (fuel : ℕ) (env : Env) (inst : Instance) (path : List ℕ) (mode : ℕ) (file : Option File)
    → Consistent inst
    → Ends (λ r. Consistent r.2) (gosfs_open fuel env inst path mode file)
unfolding gosfs_open
gosfs_open-Consistent fuel env inst path mode file c =
    Ends-then (λ r. r.2 ≡ inst) _ (do_gosfs_lookup fuel env inst path (init_path_info env)) _
      (do_gosfs_lookup-releases fuel env inst path (init_path_info env))
      (λ r e. rest r.0 r.1 r.2 (subst Consistent (sym e) c))
  where
    rest :
        (rc : Rc) (info : PathInfo) (inst' : Instance)
        → Consistent inst'
        → Ends {A = Rc × Option File × Instance}
            (λ r. Consistent r.2)
            (if is_ok rc
              then open_found env inst' info file
              else (if is_enotfound rc
                  then stop wild_pointer
                  else open_missing env inst' info mode file))
    rest ok info inst' h = open_found-Consistent env inst' info file h
    rest enotfound info inst' h = tt
    rest e info inst' h = open_missing-Consistent env inst' info mode file h

-- GOSFS_Open of "/" does not come back while the buffer of the superblock is in use, as it is from the
-- mount on: the lookup leaves the block number 0, and the call waits for that buffer.
pub gosfs_open-root :
    (fuel : ℕ) (env : Env) (inst : Instance) (mode : ℕ) (file : Option File)
    → is_held 0 inst.held ≡ true
    → gosfs_open fuel env inst slash mode file ≡ stop waits_for_itself
unfolding gosfs_open do_gosfs_lookup open_found take_entry take_buffer strcmp char_diff
gosfs_open-root fuel env inst mode file h = rw h refl
