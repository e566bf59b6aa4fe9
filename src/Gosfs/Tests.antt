-- ===== src/Gosfs/Tests.antt =====
-- GOSFS on a disk of 32 blocks, with an empty root directory and with the file "a" in it.
use geekos.Base.{
  ◌==◌, if◌then◌else◌, ==_ne, Bool-cases, length, get_elem?, get_or, set, drop, replicate, All, ℕ,
  zero, suc, ◌<◌, ◌≡◌, refl, sym, ap, subst, ◌≢◌, inl, inr, true, false, none, some, List, [], ◌∷◌,
  arith,
}
use geekos.Bitset.{
  at, return_int, find_first_free_bit, scan_bytes, scan_byte, num_bytes, set_bit, is_bit_set,
}
use geekos.CString.{strcmp, char_diff}
use geekos.Errno.{ok}
use geekos.Gosfs.{
  DirEntry, DirEntryPtr, PathInfo, Instance, Env, equal, slash, is_held, is_free, do_gosfs_lookup,
  first_block, get_entry_by_ptr,
}
use geekos.Gosfs.Files.{File, gosfs_open, init_path_info, entry_of}
use geekos.Gosfs.Change.{zero_entry, zero_block, dot_entry, new_directory, gosfs_delete}
use geekos.Gosfs.Entries.{gosfs_read_entry}
use geekos.Base.Reasons.{done, Ends}
use geekos.Gosfs.Releases.{do_gosfs_lookup-releases}
use geekos.Gosfs.Matches.{Named, Absent}
use geekos.Gosfs.Walk.{Ready, Leads, IsName, path_of, do_gosfs_lookup-Leads}
use geekos.Gosfs.Misses.{Misses}
use geekos.Gosfs.Create.{new_file, gosfs_open-creates}
use geekos.Gosfs.Allocation.{Consistent}
use geekos.Gosfs.Opens.{gosfs_open-Consistent}
use geekos.Gosfs.Missing.{gosfs_open-missing}
use geekos.Gosfs.Delete.{without_file, gosfs_delete-frees}
use geekos.Gosfs.Listing.{Gives, gosfs_read_entry-Gives}

abbrev env : Env
env = record {
  fails = λ n. false;
  has_object = true;
  has_file = true;
  address_zero = 0 ∷ [];
  prefix = replicate 17 7;
  path_info = record { suffix = replicate 127 1; dir_entry_ptr = record { base = 5; offset = 9 } };
}

abbrev name_a : List ℕ
name_a = 97 ∷ []

abbrev on_disk : List DirEntry → ℕ → List DirEntry
on_disk root n = if n == 1 then root else zero_block

abbrev empty : Instance
empty = record {
  root_directory_pointer = 1;
  size = 32;
  bitmap = 3 ∷ 0 ∷ 0 ∷ 0 ∷ [];
  blocks = on_disk (new_directory 1 1);
  held = 0 ∷ [];
  root_dir_entry = dot_entry [] 1;
  file_list = [];
}

abbrev slot : DirEntryPtr
slot = record { base = 1; offset = 2 }

abbrev file_a : DirEntry
file_a = new_file zero_entry name_a 2

abbrev with_a : Instance
with_a = record empty {
  bitmap = 7 ∷ 0 ∷ 0 ∷ 0 ∷ [];
  blocks = on_disk (set (new_directory 1 1) 2 file_a);
}

a-IsName : All IsName (name_a ∷ [])
a-IsName = (
  (
    (((omega arith, omega arith), tt), ((λ e. absurd (omega (arith, e))), tt)),
    omega arith,
    omega arith,
  ),
  tt,
)

not_at_zero : equal env.address_zero slash ≡ done false
unfolding strcmp char_diff
not_at_zero = refl

root-Ready : Ready env empty 1
unfolding is_held
root-Ready = ((λ e. absurd (omega (arith, e))), refl, refl)

with_a-Ready : (n : ℕ) → n ≢ 0 → Ready env with_a n
unfolding is_held
with_a-Ready n h = (h, rw (==_ne 0 n (λ e. h (sym e))) refl, refl)

zeros-Absent : (n : ℕ) → Absent (replicate n zero_entry) name_a true
zeros-Absent zero = tt
zeros-Absent (suc n) = (([], (tt, replicate 127 0, refl), inr refl), zeros-Absent n)

differs : (xs : List ℕ) (x : ℕ) → x ≢ 97 → x ∷ xs ≢ name_a
differs xs x h = λ e. h (ap (λ l. get_or l 0 0) e)

dot-Named : Named (dot_entry (46 ∷ []) 1) (46 ∷ [])
dot-Named = (((omega arith, omega arith), tt), replicate 126 0, refl)

dot_dot-Named : Named (dot_entry (46 ∷ 46 ∷ []) 1) (46 ∷ 46 ∷ [])
dot_dot-Named =
    (((omega arith, omega arith), ((omega arith, omega arith), tt)), replicate 125 0, refl)

a-Misses : Misses env empty 1 (name_a ∷ []) slot
unfolding is_free
a-Misses = (
  root-Ready,
  (
    (46 ∷ [], dot-Named, inl (differs [] 46 (λ e. absurd (omega (arith, e))))),
    (
      (46 ∷ 46 ∷ [], dot_dot-Named, inl (differs (46 ∷ []) 46 (λ e. absurd (omega (arith, e))))),
      zeros-Absent 16,
    ),
  ),
  refl,
)

two_free : find_first_free_bit empty.bitmap empty.size ≡ at 2
unfolding find_first_free_bit scan_bytes scan_byte return_int num_bytes
two_free = refl

gosfs_open-creates_example :
    (inst' : Instance) × (info : PathInfo) × (gosfs_open 4 env empty (path_of (name_a ∷ [])) 1 none
      ≡ done (ok, some (record { file_pos = 0; end_pos = 0; gosfs_file = slot }), inst'))
    × (do_gosfs_lookup 4 env inst' (path_of (name_a ∷ [])) (init_path_info env)
        ≡ done (ok, info, inst'))
    × (info.dir_entry_ptr ≡ slot)
    × (inst'.bitmap ≡ set_bit empty.bitmap 2)
    × (inst'.held ≡ empty.held)
gosfs_open-creates_example =
    gosfs_open-creates name_a [] 4 env empty slot zero_entry 2 1 none a-IsName (omega arith) refl
      (omega arith) not_at_zero a-Misses (omega arith) refl (λ e. absurd (omega (arith, e)))
      (omega arith, omega arith) two_free refl refl refl

gosfs_open-missing_example :
    (fs : List DirEntryPtr) × (gosfs_open 4 env empty (path_of (name_a ∷ [])) 2 none
      ≡ done (
        ok,
        some (record { file_pos = 0; end_pos = 0; gosfs_file = slot }),
        record empty { file_list = fs },
      ))
gosfs_open-missing_example =
    gosfs_open-missing name_a [] 4 env empty slot zero_entry 2 none a-IsName (omega arith) refl
      (omega arith) not_at_zero a-Misses refl refl refl refl

do_gosfs_lookup-releases_example :
    Ends (λ r. r.2 ≡ empty) (do_gosfs_lookup 4 env empty (path_of (name_a ∷ [])) env.path_info)
do_gosfs_lookup-releases_example =
    do_gosfs_lookup-releases 4 env empty (path_of (name_a ∷ [])) env.path_info

a-Leads : Leads env with_a 1 (name_a ∷ []) slot
unfolding is_held
a-Leads = (
  2,
  file_a,
  with_a-Ready 1 (λ e. absurd (omega (arith, e))),
  (
    (46 ∷ [], dot-Named, inl (differs [] 46 (λ e. absurd (omega (arith, e))))),
    (
      (46 ∷ 46 ∷ [], dot_dot-Named, inl (differs (46 ∷ []) 46 (λ e. absurd (omega (arith, e))))),
      ((a-IsName.0.0.0, replicate 126 0, refl), refl, refl),
    ),
  ),
  λ e. absurd (omega (arith, e)),
  refl,
)

do_gosfs_lookup-Leads_example :
    (info' : PathInfo) × (do_gosfs_lookup 4 env with_a (path_of (name_a ∷ [])) env.path_info
      ≡ done (ok, info', with_a))
    × (info'.dir_entry_ptr ≡ slot)
do_gosfs_lookup-Leads_example =
    do_gosfs_lookup-Leads name_a [] 4 env with_a env.path_info slot a-IsName (omega arith) refl
      (omega arith) not_at_zero a-Leads

gosfs_delete-frees_example :
    gosfs_delete 4 env with_a (path_of (name_a ∷ [])) ≡ done (ok, without_file with_a slot 2)
gosfs_delete-frees_example =
    gosfs_delete-frees name_a [] 4 env with_a slot file_a a-IsName (omega arith) refl (omega arith)
      not_at_zero a-Leads (with_a-Ready 1 (λ e. absurd (omega (arith, e))))
      (with_a-Ready 2 (λ e. absurd (omega (arith, e)))) (λ e. absurd (omega (arith, e))) refl refl

abbrev root_file : File
root_file = record { file_pos = 0; end_pos = 4096; gosfs_file = record { base = 0; offset = 0 } }

root_entry : entry_of env with_a root_file.gosfs_file ≡ done (with_a.root_dir_entry, with_a)
unfolding entry_of get_entry_by_ptr
root_entry = refl

gosfs_read_entry-Gives_example :
    Gives
      (drop 0 (with_a.blocks 1))
      0
      (replicate 129 1)
      (replicate 40 0)
      root_file
      (gosfs_read_entry 20 env with_a zero_entry root_file (replicate 129 1) (replicate 40 0))
      with_a
gosfs_read_entry-Gives_example =
    gosfs_read_entry-Gives 20 env with_a zero_entry with_a.root_dir_entry root_file
      (replicate 129 1) (replicate 40 0) 0 root_entry
      (with_a-Ready 1 (λ e. absurd (omega (arith, e)))) refl (omega arith) refl refl (omega arith)

-- The entry has room for a block number, and its first block is marked if it is in use.
abbrev Marked : DirEntry → Type 0
Marked e =
    (0 < length e.block_list) × (is_free e ≡ false → is_bit_set empty.bitmap (first_block e) ≡ true)

All-get_elem? :
    (es : List DirEntry) (i : ℕ) (e : DirEntry) → All Marked es → get_elem? es i ≡ some e → Marked e
All-get_elem? [] i e h g = absurd cc
All-get_elem? (x ∷ es) zero e h g = subst Marked (some_inj g) h.0
  where
    some_inj : some x ≡ some e → x ≡ e
    some_inj k = cc
All-get_elem? (x ∷ es) (suc i) e h g = All-get_elem? es i e h.1 g

zeros-Marked : (n : ℕ) → All Marked (replicate n zero_entry)
unfolding is_free
zeros-Marked zero = tt
zeros-Marked (suc n) = ((omega arith, λ h. absurd cc), zeros-Marked n)

empty-Marked : (n : ℕ) → All Marked (empty.blocks n)
unfolding is_bit_set
empty-Marked n = elim (Bool-cases (n == 1)) [
  | inl root ↦ rw root ((omega arith, λ h. refl), ((omega arith, λ h. refl), zeros-Marked 16))
  | inr other ↦ rw other (zeros-Marked 18)
]

empty-Consistent : Consistent empty
unfolding num_bytes
empty-Consistent = record {
  bytes = (omega arith, (omega arith, (omega arith, (omega arith, tt))));
  fits = omega arith;
  small = omega arith;
  arrays = λ n i e g. (All-get_elem? (empty.blocks n) i e (empty-Marked n) g).0;
  marked = λ n i e g u. (All-get_elem? (empty.blocks n) i e (empty-Marked n) g).1 u;
}

gosfs_open-Consistent_example :
    Ends (λ r. Consistent r.2) (gosfs_open 4 env empty (path_of (name_a ∷ [])) 1 none)
gosfs_open-Consistent_example =
    gosfs_open-Consistent 4 env empty (path_of (name_a ∷ [])) 1 none empty-Consistent
