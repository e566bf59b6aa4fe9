-- ===== src/Vfs/Files.antt =====
-- The operations on open files of src/geekos/vfs.c, and Read_Fully. A filesystem's functions are a
-- parameter; `none` is a null pointer in its table.
use geekos.Base.{
  ltb, leb, if◌then◌else◌, length, ℕ, zero, suc, ◌-◌, ◌^◌, Bool, not, Option, none, some, List, [],
  ◌++◌,
}
use geekos.Base.Reasons.{
  Run, done, stop, ◌>>=◌, failed_kassert, out_of_bounds, wild_pointer, out_of_fuel,
}
use geekos.Errno.{Rc, ok, enomem, enotfound, eunsupported, is_ok}
use geekos.Pfat.{o_read}
use geekos.Vfs.{MountPoint, File, do_open}
use geekos.Vfs.Dispatch.{stat, close}

-- What a filesystem's Read returns: a code, or the bytes that it read, with the state of the file.
pub data ReadResult {ℓ} (S : Type ℓ) : Type ℓ where
  error : Rc → S → ReadResult S
  bytes : List ℕ → S → ReadResult S

module _ {ℓ} {S : Type ℓ} where
  unfoldable pub vfs_read : Option (S → ℕ → ReadResult S) → S → ℕ → ReadResult S
  vfs_read none file len = error eunsupported file
  vfs_read (some read) file len = read file len

  unfoldable pub vfs_write : Option (S → List ℕ → Rc × S) → S → List ℕ → Rc × S
  vfs_write none file buf = (eunsupported, file)
  vfs_write (some write) file buf = write file buf

  unfoldable pub vfs_seek : Option (S → ℕ → Rc × S) → S → ℕ → Rc × S
  vfs_seek none file len = (eunsupported, file)
  vfs_seek (some seek) file len = seek file len

  -- The loop of Read_Fully: `got` is the front of the buffer that is filled. A read of no bytes leaves
  -- everything as it is.
  unfoldable pub read_loop :
      ℕ → Option (S → ℕ → ReadResult S) → S → ℕ → List ℕ → Run (Rc × List ℕ × S)
  unfolding vfs_read
  read_loop zero read file size got = stop out_of_fuel
  read_loop (suc fuel) read file size got =
      if not (ltb (length got) size)
      then done (ok, got, file)
      else elim (vfs_read read file (size - length got)) [
        | error rc file' ↦ done (rc, got, file')
        | bytes bs file' ↦ read_loop fuel read file' size (got ++ bs)
      ]

-- Read_Fully: a filesystem's state is `S`, and that of an open file of it `F`; the variable `file` holds
-- an open file or a null pointer.
module _ {F S : Type 0} where
  -- The label fail. The code of Close is not looked at, and a filesystem without Close fails a KASSERT.
  unfoldable pub fail_with :
      Option (F × S → Rc × (F × S)) → Rc → Option F × S → Run (Rc × Option (List ℕ) × S)
  fail_with op rc (none, s) = done (rc, none, s)
  fail_with op rc (some f, s) = elim (close op (f, s)) [
    | none ↦ stop failed_kassert
    | some (rc', freed, (f', s')) ↦ done (rc, none, s')
  ]

  -- The end of Read_Fully, with what the loop ends with.
  unfoldable pub finish_read :
      Option (F × S → Rc × (F × S)) → Rc × List ℕ × (F × S) → Run (Rc × Option (List ℕ) × S)
  unfolding fail_with
  finish_read op (rc, got, (f, s)) =
      if not (is_ok rc) then fail_with op rc (some f, s) else elim (close op (f, s)) [
        | none ↦ stop failed_kassert
        | some (rc', freed, (f', s')) ↦ done (ok, some got, s')
      ]

  -- From the check of the size on, a 32-bit word; whether there is memory for so many bytes is a parameter.
  unfoldable pub read_opened :
      ℕ
      → (ℕ → Bool)
      → Option (F × S → ℕ → ReadResult (F × S))
      → Option (F × S → Rc × (F × S))
      → ℕ
      → F × S
      → Run (Rc × Option (List ℕ) × S)
  unfolding read_loop fail_with finish_read
  read_opened fuel has_memory read op size (f, s) =
      if leb (2 ^ 31) size
      then fail_with op enotfound (some f, s)
      else (if has_memory size
          then (do end ← read_loop fuel read (f, s) size []; finish_read op end)
          else fail_with op enomem (some f, s))

  -- What follows Open: a filesystem that reports success without a file makes Do_Open write through the
  -- null pointer.
  unfoldable pub after_open :
      ℕ
      → (ℕ → Bool)
      → Option (F × S → ℕ → ReadResult (F × S))
      → Option (F × S → Rc × (F × S))
      → ℕ
      → Rc × File (Option F × S)
      → Run (Rc × Option (List ℕ) × S)
  unfolding fail_with read_opened
  after_open fuel has_memory read op size (rc, file) =
      if not (is_ok rc) then fail_with op rc file.handle else elim file.handle.0 [
        | none ↦ stop wild_pointer
        | some f ↦ read_opened fuel has_memory read op size (f, file.handle.1)
      ]

  -- What follows Stat.
  unfoldable pub after_stat :
      ℕ
      → (ℕ → Bool)
      → (S → ℕ → List ℕ → ℕ → Rc × File (Option F × S))
      → Option (F × S → ℕ → ReadResult (F × S))
      → Option (F × S → Rc × (F × S))
      → List MountPoint
      → List ℕ
      → List ℕ
      → Rc × (ℕ × S)
      → Run (Rc × Option (List ℕ) × S)
  unfolding after_open
  after_stat fuel has_memory open_func read op mounts prefix path (rc, (size, s)) =
      if not (is_ok rc)
      then done (rc, none, s)
      else elim (do_open (open_func s) mounts prefix
          (record { mode = 0; mount_point = 0; handle = (none, s) }) path o_read) [
            | none ↦ stop out_of_bounds
            | some opened ↦ after_open fuel has_memory read op size opened
          ]

  -- Read_Fully on an absolute path. The filesystems' functions are parameters: Stat on the size and the
  -- state, Open, Read and Close. `stat_prefix` and `open_prefix` are the variables of Stat and of Do_Open,
  -- `size` is what the uninitialised `stat` holds. A string that is not ended stops with `out_of_bounds`.
  unfoldable pub read_fully :
      ℕ
      → (ℕ → Bool)
      → (ℕ → Option (List ℕ → ℕ × S → Rc × (ℕ × S)))
      → (S → ℕ → List ℕ → ℕ → Rc × File (Option F × S))
      → Option (F × S → ℕ → ReadResult (F × S))
      → Option (F × S → Rc × (F × S))
      → List MountPoint
      → List ℕ
      → List ℕ
      → ℕ
      → List ℕ
      → S
      → Run (Rc × Option (List ℕ) × S)
  unfolding after_stat
  read_fully fuel has_memory stat_ops open_func read op mounts stat_prefix open_prefix size path s =
      elim (stat stat_ops mounts stat_prefix path (size, s)) [
        | none ↦ stop out_of_bounds
        | some r ↦ after_stat fuel has_memory open_func read op mounts open_prefix path r
      ]
