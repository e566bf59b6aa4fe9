-- ===== src/Vfs/Tests.antt =====
-- Paths and mount points at concrete inputs: a filesystem on "c" and one on "d".
use geekos.Base.{
  length, get_or, replicate, All, ℕ, ◌+◌, ◌%◌, ◌≡◌, refl, ap, true, false, Option, none, some, List,
  [], ◌∷◌, ◌++◌, arith,
}
use geekos.Errno.{Rc, ok, eio, eunspecified}
use geekos.CString.{strlen, strcmp, strcpy, char_diff}
use geekos.Blockdev.{open_block_device, find_device, open_found, close_block_device, close_found}
use geekos.Vfs.Mount.{
  System, Env, strdup, lookup_filesystem, close_device, mount_on, mount_opened, mount_prefix, mount,
}
use geekos.Base.Reasons.{done}
use geekos.Bitset.{create_bit_set, num_bytes, is_bit_set, set_bit}
use geekos.CString.Memory.{memset}
use geekos.Pfat
use geekos.Pfat.{
  Disk, DirectoryEntry, PfatFile, Instance, failed, read, copy_stat, round_up_to_block, load_block,
  load_blocks, is_end, copy_out, pfat_read,
}
use geekos.Pfat.Files.{
  Memory, find_entry, do_pfat_lookup, find_open, new_pfat_file, get_pfat_file, finish_open,
  pfat_open, pfat_stat,
}
use geekos.Vfs.Files.{ReadResult, error, bytes, read_fully}
use geekos.Vfs.Whole.{read_fully-all}
use geekos.Vfs.Atomic.{mount-restores}
use geekos.Vfs.{MountPoint, File, unpack_path, lookup_mount_point, do_open}
use geekos.Vfs.Paths.{IsComponent, unpack_path-root}
use geekos.Vfs.Lookup.{HasPrefix, IsOther, lookup_mount_point-first, do_open-dispatches}

abbrev buffer : List ℕ
buffer = replicate 17 1

abbrev on_c : MountPoint
on_c = record { id = 1; path_prefix = 99 ∷ 0 ∷ [] }

abbrev on_d : MountPoint
on_d = record { id = 2; path_prefix = 100 ∷ 0 ∷ [] }

abbrev closed : File ℕ
closed = record { mode = 0; mount_point = 0; handle = 0 }

-- A filesystem that opens every file with a handle of its own.
abbrev opens : ℕ → List ℕ → ℕ → Rc × File ℕ
opens m suffix mode = (ok, record closed { handle = 10 + m })

d-IsComponent : IsComponent (100 ∷ [])
d-IsComponent = omega arith

d-HasPrefix : HasPrefix on_d (100 ∷ [])
d-HasPrefix = (omega arith, ([], refl))

c-IsOther : All (IsOther (100 ∷ [])) (on_c ∷ [])
c-IsOther = (
  (99 ∷ [], (omega arith, ([], refl)), λ e. absurd (omega (arith, ap (λ l. get_or l 0 0) e))),
  tt,
)

unpack_path-root_example :
    unpack_path (47 ∷ 100 ∷ 0 ∷ []) buffer ≡ some (some (100 ∷ 0 ∷ replicate 15 1, 47 ∷ 0 ∷ []))
unpack_path-root_example =
    unpack_path-root (100 ∷ []) [] buffer d-IsComponent (omega arith) (omega arith) refl

lookup_mount_point-first_example :
    lookup_mount_point (100 ∷ 0 ∷ []) (on_c ∷ on_d ∷ []) ≡ some (some on_d)
lookup_mount_point-first_example =
    lookup_mount_point-first (100 ∷ []) [] (on_c ∷ []) [] on_d d-HasPrefix c-IsOther

do_open-dispatches_example :
    do_open opens (on_c ∷ on_d ∷ []) buffer closed (47 ∷ 100 ∷ 47 ∷ 97 ∷ 0 ∷ []) 1
    ≡ some (ok, record { mode = 1; mount_point = 2; handle = 12 })
do_open-dispatches_example =
    do_open-dispatches opens (100 ∷ []) (97 ∷ 0 ∷ []) buffer (on_c ∷ []) [] on_d closed 1
      d-IsComponent (omega arith) (omega arith) refl d-HasPrefix c-IsOther

-- A device "d", and a filesystem "f" whose Mount fails.
abbrev system : System
system = record {
  mount_points = [];
  filesystems = record { id = 1; fs_name = 102 ∷ 0 ∷ []; has_format = false } ∷ [];
  devices = record { name = 100 ∷ 0 ∷ []; unit = 0; in_use = false } ∷ [];
}

abbrev failing : Env
failing = record {
  driver = record { open_unit = λ u. ok; close_unit = λ u. ok };
  format_fs = λ fs i. ok;
  mount_fs = λ fs i. eio;
  new_mount_point = some 500;
  malloc = λ n. some (replicate n 0);
}

refused :
    mount failing system (100 ∷ 0 ∷ []) (47 ∷ 109 ∷ 0 ∷ []) (102 ∷ 0 ∷ []) ≡ some (eio, system)
unfolding mount mount_prefix strlen lookup_filesystem strcmp char_diff open_block_device find_device
    open_found mount_opened strdup strcpy mount_on close_device close_block_device close_found
refused = refl

mount-restores_example : system ≡ system
mount-restores_example =
    mount-restores failing system system (100 ∷ 0 ∷ []) (47 ∷ 109 ∷ 0 ∷ []) (102 ∷ 0 ∷ []) eio
      (λ u. refl) refused refl

-- PFAT mounted on "d", with a file "a" of 600 bytes on two blocks. A PFAT function that hits a failed
-- assertion is given the code EUNSPECIFIED here, which does not happen on this volume.
abbrev disk : Disk
disk = record { sectors = λ n. replicate 512 (n % 256); status = λ n. ok }

abbrev entry : DirectoryEntry
entry = record {
  addr = 100;
  file_name = 97 ∷ 0 ∷ [];
  read_only = true;
  directory = false;
  first_block = 2;
  file_size = 600;
}

abbrev volume : Instance
volume = record {
  fat = 1 ∷ 1 ∷ 3 ∷ 1 ∷ [];
  root_dir = entry ∷ [];
  root_dir_entry = record entry { addr = 50; directory = true };
  file_list = [];
}

abbrev memory : Memory
memory = record {
  has_object = true;
  malloc_sectors = λ n. some (replicate n []);
  malloc_bytes = λ n. some (replicate n 7);
}

stat_on_pfat : List ℕ → ℕ × Instance → Rc × (ℕ × Instance)
stat_on_pfat suffix (size, v) =
    elim (pfat_stat v suffix
      (record { size = size; is_directory = false; is_setuid = false; permission = 0 })) [
        | none ↦ (eunspecified, (size, v))
        | some (rc, st) ↦ (rc, (st.size, v))
      ]

open_on_pfat : Instance → ℕ → List ℕ → ℕ → Rc × File (Option Pfat.File × Instance)
open_on_pfat v m suffix mode = elim (pfat_open memory true v suffix mode none) [
  | none ↦ (eunspecified, record { mode = 0; mount_point = 0; handle = (none, v) })
  | some (rc, f, v') ↦ (rc, record { mode = 0; mount_point = 0; handle = (f, v') })
]

to_result : Pfat.File → Instance → Pfat.Result × PfatFile → ReadResult (Pfat.File × Instance)
to_result f v (failed rc, g) = error rc (record f { pfat_file = g }, v)
to_result f v (read bs, g) = bytes bs (record f { pfat_file = g }, v)

read_on_pfat : Pfat.File × Instance → ℕ → ReadResult (Pfat.File × Instance)
unfolding to_result
read_on_pfat (f, v) n = elim (pfat_read disk v.fat f n) [
  | none ↦ error eunspecified (f, v)
  | some r ↦ to_result f v r
]

-- PFAT_Close
close_on_pfat : Pfat.File × Instance → Rc × (Pfat.File × Instance)
close_on_pfat f = (ok, f)

abbrev opened : Pfat.File
opened = record {
  file_pos = 0;
  end_pos = 600;
  pfat_file = record {
    entry = entry;
    num_blocks = 2;
    file_data_cache = [] ∷ [] ∷ [];
    valid_block_set = 0 ∷ [];
  };
}

abbrev loaded : Pfat.File
loaded = record opened {
  pfat_file = record {
    entry = entry;
    num_blocks = 2;
    file_data_cache = replicate 512 2 ∷ replicate 512 3 ∷ [];
    valid_block_set = 3 ∷ [];
  };
}

abbrev with_a : Instance
with_a = record volume { file_list = opened.pfat_file ∷ [] }

abbrev contents : List ℕ
contents = replicate 512 2 ++ replicate 88 3

reads_all : read_on_pfat (opened, with_a) 600 ≡ bytes contents (loaded, with_a)
unfolding read_on_pfat pfat_read round_up_to_block load_blocks load_block is_bit_set set_bit
    copy_out is_end
reads_all = refl

opens_a :
    open_on_pfat volume 2 (47 ∷ 97 ∷ 0 ∷ []) 2
    ≡ (ok, record { mode = 0; mount_point = 0; handle = (some opened, with_a) })
unfolding open_on_pfat pfat_open do_pfat_lookup find_entry strcmp char_diff get_pfat_file find_open
    new_pfat_file round_up_to_block create_bit_set num_bytes memset finish_open
opens_a = refl

read_fully-all_example :
    (read_fully 601
        (λ n. true)
        (λ m. some stat_on_pfat)
        open_on_pfat
        (some read_on_pfat)
        (some close_on_pfat)
        (on_c ∷ on_d ∷ [])
        buffer
        buffer
        77
        (47 ∷ 100 ∷ 47 ∷ 97 ∷ 0 ∷ [])
        volume
      ≡ done (ok, some (contents ++ []), with_a))
    × (length (contents ++ []) ≡ 600)
unfolding stat_on_pfat pfat_stat do_pfat_lookup find_entry strcmp char_diff copy_stat close_on_pfat
read_fully-all_example =
    read_fully-all read_on_pfat close_on_pfat (100 ∷ []) (97 ∷ 0 ∷ []) buffer buffer (on_c ∷ []) []
      on_d 601 77 600 (λ n. true) (λ m. some stat_on_pfat) stat_on_pfat open_on_pfat (contents ∷ [])
      volume volume with_a with_a with_a opened loaded loaded 0 0 ok d-IsComponent (omega arith)
      (omega arith) refl refl d-HasPrefix c-IsOther refl refl opens_a
      ((loaded, with_a), reads_all, omega arith, omega arith, (refl, refl)) refl (omega arith) refl
      (omega arith)
