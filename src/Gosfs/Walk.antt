-- ===== src/Gosfs/Walk.antt =====
-- src/geekos/gosfs.c: Do_GOSFS_Lookup on a path of existing directories.
use geekos.Errno.{ok}
use geekos.Base.{
  ◌==◌, ==_ne, length, drop, All, length-append, length-drop, ℕ, zero, suc, ◌+◌, ◌≤◌, ◌<◌, ◌≡◌,
  refl, sym, ap, ◌∙◌, ◌≢◌, Bool, true, false, some, List, [], ◌∷◌, ◌++◌, arith,
}
use geekos.CString.{char_diff, strcmp}
use geekos.CString.Compare.{char_diff_zero, char_diff_self}
use geekos.CString.Copy.{strcpy_lem}
use geekos.Vfs.{unpack_path}
use geekos.Vfs.Paths.{IsComponent, unpack_path-splits, unpack_path-root}
use geekos.Gosfs.{
  DirEntry, DirEntryPtr, PathInfo, Instance, Env, hit, next, is_held, take_buffer, prev_dir,
  visit_entry, visit, lookup_round, lookup_loop, do_gosfs_lookup, first_block, equal, find_entry,
  minus_one_word, slash,
}
use geekos.Base.Reasons.{done}
use geekos.Gosfs.Releases.{hold, held_release}
use geekos.Gosfs.Matches.{First, find_entry-First}

-- The block is not in use, and the cache gives it.
abbrev pub Ready : Env → Instance → ℕ → Type 0
Ready env inst n = (n ≢ 0) × (is_held n inst.held ≡ false) × (env.fails n ≡ false)

-- From the directory in block `base`, the components lead to an entry: each is the first match in its
-- directory, in another place than that of "..", and all but the last are directories.
abbrev pub Leads : Env → Instance → ℕ → List (List ℕ) → DirEntryPtr → Type 0
Leads env inst base [] ptr = ⊥
Leads env inst base (c ∷ []) ptr =
    (k : ℕ) × (e : DirEntry) × Ready env inst base
    × First (inst.blocks base) c true k e
    × (k ≢ prev_dir)
    × (ptr ≡ record { base = base; offset = k })
Leads env inst base (c ∷ d ∷ cs) ptr =
    (k : ℕ) × (e : DirEntry) × Ready env inst base
    × First (inst.blocks base) c false k e
    × (k ≢ prev_dir)
    × Leads env inst (first_block e) (d ∷ cs) ptr

-- One to 16 characters, none of them a slash.
abbrev pub IsName : List ℕ → Type 0
IsName c = IsComponent c × (0 < length c) × (length c ≤ 16)

abbrev pub path_of : List (List ℕ) → List ℕ
path_of [] = 0 ∷ []
path_of (c ∷ cs) = 47 ∷ c ++ path_of cs

pub take_buffer-gives :
    (env : Env) (inst : Instance) (n : ℕ)
    → Ready env inst n
    → take_buffer env inst n ≡ done (true, hold n inst)
unfolding take_buffer
take_buffer-gives env inst n (h, k, l) = rw (k, l) refl

-- A path that goes on is not "/".
pub not_slash : (c q : List ℕ) → IsName c → equal (47 ∷ c ++ q) slash ≡ done false
unfolding strcmp
not_slash [] q h = absurd (omega (arith, h.1))
not_slash (x ∷ c) q ((h, k), l, m) = rw (char_diff_self 47 (omega arith), differs) differs_done
  where
    differs : (char_diff x 0 == 0) ≡ false
    differs =
        ==_ne (char_diff x 0) 0
          (λ e. omega (arith, char_diff_zero x 0 h.0.1 (omega arith) e, h.0.0))

    differs_done : done (char_diff x 0 == 0) ≡ done false
    differs_done = ap (λ b. done b) differs

abbrev pub is_last : List (List ℕ) → Bool
is_last [] = true
is_last (d ∷ cs) = false

-- The suffix behind the first component.
abbrev pub rest_of : List (List ℕ) → List ℕ
rest_of [] = slash
rest_of (d ∷ cs) = path_of (d ∷ cs)

pub unpack_first :
    (c : List ℕ) (cs : List (List ℕ)) (prefix : List ℕ)
    → IsName c
    → length prefix ≡ 17
    → unpack_path (path_of (c ∷ cs)) prefix
      ≡ some (some (c ++ 0 ∷ drop (suc (length c)) prefix, rest_of cs))
unpack_first c [] prefix (h, pos, small) room = unpack_path-root c [] prefix h pos small room
unpack_first c (d ∷ cs) prefix (h, pos, small) room =
    unpack_path-splits c (d ++ path_of cs) prefix h pos small room

pub slash_last : (cs : List (List ℕ)) → All IsName cs → equal (rest_of cs) slash ≡ done (is_last cs)
unfolding strcmp char_diff
slash_last [] h = refl
slash_last (d ∷ cs) h = not_slash d (path_of cs) h.0

-- The pointer and the name that a round leaves.
abbrev pub reached : PathInfo → List ℕ → List ℕ → DirEntryPtr → PathInfo
reached info c prefix ptr = record {
  suffix = c ++ 0 ∷ drop (suc (length c)) info.suffix;
  dir_entry_ptr = ptr;
}

-- A round at a component that has an entry.
pub round-hit :
    (env : Env) (inst : Instance) (base : ℕ) (c q : List ℕ) (cs : List (List ℕ)) (k : ℕ)
    (e : DirEntry) (info : PathInfo)
    → All IsName (c ∷ cs)
    → Ready env inst base
    → First (inst.blocks base) c (is_last cs) k e
    → k ≢ prev_dir
    → length c < length info.suffix
    → lookup_round env inst (c ++ 0 ∷ q) (rest_of cs) base info
      ≡ done (next (first_block e) (reached info c q (record { base = base; offset = k })), inst)
unfolding lookup_round visit visit_entry
round-hit env inst base c q cs k e info (h, hs) ready first k_ne room =
    rw
      (
        ==_ne base 0 ready.0,
        take_buffer-gives env inst base ready,
        slash_last cs hs,
        found,
        ==_ne k prev_dir k_ne,
        strcpy_lem c q info.suffix h.0.0 room,
        held_release inst base,
      )
      refl
  where
    found :
        find_entry (inst.blocks base) (c ++ 0 ∷ q) (is_last cs) 0 minus_one_word ≡ done (hit k e)
    found =
        find_entry-First (inst.blocks base) c q (is_last cs) k e 0 minus_one_word h.0.0 first
        ∙ ap (λ j. done (hit j e)) {x = 0 + k} {y = k} (omega arith)

pub length-copied :
    (c dest : List ℕ)
    → length c < length dest
    → length (c ++ 0 ∷ drop (suc (length c)) dest) ≡ length dest
length-copied c dest h =
    omega
      (arith, length-append c (0 ∷ drop (suc (length c)) dest), length-drop (suc (length c)) dest)

-- The loop from a directory that leads along the components.
lookup_loop-Leads :
    (cs : List (List ℕ)) (c : List ℕ) (fuel : ℕ) (env : Env) (inst : Instance)
    (prefix suffix : List ℕ) (base : ℕ) (info : PathInfo) (ptr : DirEntryPtr)
    → All IsName (c ∷ cs)
    → length cs + 1 < fuel
    → length prefix ≡ 17
    → 17 ≤ length info.suffix
    → equal suffix slash ≡ done false
    → Leads env inst base (c ∷ cs) ptr
    → (info' : PathInfo) × (lookup_loop fuel env inst (path_of (c ∷ cs)) prefix suffix base info
        ≡ done (ok, info', inst))
      × (info'.dir_entry_ptr ≡ ptr)
unfolding lookup_loop
lookup_loop-Leads cs c zero env inst prefix suffix base info ptr h enough room space start leads =
    absurd (omega (arith, enough))
lookup_loop-Leads [] c (suc (suc fuel)) env inst prefix suffix base info ptr h enough room space
      start (k, e, ready, first, k_ne, at_ptr) =
    (
      reached info c (drop (suc (length c)) prefix) (record { base = base; offset = k }),
      rw
          (
            start,
            unpack_first c [] prefix h.0 room,
            round-hit env inst base c (drop (suc (length c)) prefix) [] k e info h ready first k_ne
                (omega (arith, h.0.2, space)),
            slash_last [] tt,
          )
          refl,
      sym at_ptr,
    )
lookup_loop-Leads [] c (suc zero) env inst prefix suffix base info ptr h enough room space start
      leads =
    absurd (omega (arith, enough))
lookup_loop-Leads (d ∷ cs) c (suc fuel) env inst prefix suffix base info ptr h enough room space
      start (k, e, ready, first, k_ne, more) =
    let p = c ++ 0 ∷ drop (suc (length c)) prefix in
    let info₁ =
      reached info c (drop (suc (length c)) prefix) (record { base = base; offset = k }) in
    rw
      (
        start,
        unpack_first c (d ∷ cs) prefix h.0 room,
        round-hit env inst base c (drop (suc (length c)) prefix) (d ∷ cs) k e info h ready first
            k_ne (omega (arith, h.0.2, space)),
      )
      (lookup_loop-Leads cs d fuel env inst p (path_of (d ∷ cs)) (first_block e) info₁ ptr h.1
        (omega arith) (length-copied c prefix (omega (arith, h.0.2, room)) ∙ room)
        (omega (arith, h.0.2, space, length-copied c info.suffix)) (slash_last (d ∷ cs) h.1) more)

-- Do_GOSFS_Lookup finds the entry that the components of a path lead to, and leaves the instance as it
-- was. For names of at most 16 characters, a suffix buffer of at least 17 bytes, the prefix buffer of 17
-- bytes, more rounds than components, and no string "/" at the address 0, which the loop compares first.
pub do_gosfs_lookup-Leads :
    (c : List ℕ) (cs : List (List ℕ)) (fuel : ℕ) (env : Env) (inst : Instance) (info : PathInfo)
    (ptr : DirEntryPtr)
    → All IsName (c ∷ cs)
    → length cs + 1 < fuel
    → length env.prefix ≡ 17
    → 17 ≤ length info.suffix
    → equal env.address_zero slash ≡ done false
    → Leads env inst inst.root_directory_pointer (c ∷ cs) ptr
    → (info' : PathInfo) × (do_gosfs_lookup fuel env inst (path_of (c ∷ cs)) info
        ≡ done (ok, info', inst))
      × (info'.dir_entry_ptr ≡ ptr)
unfolding do_gosfs_lookup
do_gosfs_lookup-Leads c cs fuel env inst info ptr h enough room space start leads =
    rw (not_slash c (path_of cs) h.0) (
      lookup_loop-Leads cs c fuel env inst env.prefix env.address_zero inst.root_directory_pointer
        info ptr h enough room space start leads)
