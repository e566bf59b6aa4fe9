-- ===== src/Gosfs/Create.antt =====
-- src/geekos/gosfs.c: GOSFS_Open with O_CREATE, followed by a lookup of the new file.
use geekos.Gosfs.Releases.{held_release, hold}
use geekos.Errno.{ok}
use geekos.Base.Bits.{has}
use geekos.Base.{
  ◌==◌, if◌then◌else◌, ==_iff, Bool-cases, length, get_elem?, set, drop, All, ℕ, suc, ◌+◌, ◌≤◌, ◌<◌,
  ◌≡◌, refl, sym, ap, subst, ◌∙◌, ◌≢◌, inl, inr, true, false, Option, some, List, [], ◌∷◌, ◌++◌,
  arith,
}
use geekos.Bitset.{at, find_first_free_bit, set_bit}
use geekos.CString.Copy.{strcpy_lem}
use geekos.Gosfs.{
  DirEntry, DirEntryPtr, PathInfo, Instance, Env, is_held, is_free, minus_one_word, prev_dir,
  first_block, equal, slash, direntry_used, do_gosfs_lookup,
}
use geekos.Gosfs.Files.{
  File, o_create, write_block, store_entry, allocate_block, add_file, take_entry, get_gosfs_file,
  is_open, finish_open, open_missing, gosfs_open, init_path_info,
}
use geekos.Base.Reasons.{done}
use geekos.Gosfs.Matches.{Named, First, Absent, can_stand, free_slot}
use geekos.Gosfs.Slots.{free_slot-IsFree, First-set, Absent-set}
use geekos.Gosfs.Walk.{Ready, Leads, IsName, path_of, take_buffer-gives, do_gosfs_lookup-Leads}
use geekos.Gosfs.Misses.{Misses, last_of, do_gosfs_lookup-Misses}

-- What a missing last component says of the directory that it is missing from.
pub record LastDirectory (env : Env) (inst : Instance) (name : List ℕ) (ptr : DirEntryPtr)
    : Type 0 where
  pub is_ready : Ready env inst ptr.base
  pub is_absent : Absent (inst.blocks ptr.base) name true
  pub slot : ptr.offset ≡ free_slot (inst.blocks ptr.base) 0 minus_one_word

pub Misses-LastDirectory :
    (c : List ℕ) (cs : List (List ℕ)) (env : Env) (inst : Instance) (base : ℕ) (ptr : DirEntryPtr)
    → Misses env inst base (c ∷ cs) ptr
    → LastDirectory env inst (last_of c cs) ptr
Misses-LastDirectory c [] env inst base ptr (ready, absent, e) =
    subst (λ p. LastDirectory env inst c p) (sym e)
      (record { is_ready = ready; is_absent = absent; slot = refl })
Misses-LastDirectory c (d ∷ cs) env inst base ptr (k, e, ready, first, k_ne, more) =
    Misses-LastDirectory d cs env inst (first_block e) ptr more

-- The instance with a new entry in a free slot.
record Adds (inst inst' : Instance) (ptr : DirEntryPtr) (x new : DirEntry) : Type 0 where
  same_held : inst'.held ≡ inst.held
  new_blocks :
      inst'.blocks ≡ write_block inst.blocks ptr.base (set (inst.blocks ptr.base) ptr.offset new)
  old : get_elem? (inst.blocks ptr.base) ptr.offset ≡ some x
  free : is_free x ≡ true
  not_prev : ptr.offset ≢ prev_dir

module _ (env : Env) (inst inst' : Instance) (ptr : DirEntryPtr) (x new : DirEntry)
    (adds : Adds inst inst' ptr x new) where
  Ready-after : (n : ℕ) → Ready env inst n → Ready env inst' n
  Ready-after n (h, k, l) = (h, ap (is_held n) adds.same_held ∙ k, l)

  -- A property of a block that holds before and, if it is the one with the new entry, after.
  carry_block :
      (P : List DirEntry → Type 0) (n : ℕ)
      → (ptr.base ≡ n → P (set (inst.blocks n) ptr.offset new))
      → (ptr.base ≢ n → P (inst.blocks n))
      → P (inst'.blocks n)
  carry_block P n h k =
      subst P (sym (ap (λ f. f n) adds.new_blocks)) (elim (Bool-cases (ptr.base == n)) [
        | inl e ↦ rw e (
            subst (λ b. P (set (inst.blocks b) ptr.offset new)) (sym ((==_iff ptr.base n).0 e))
              (h ((==_iff ptr.base n).0 e)))
        | inr m ↦ rw m (k (λ e. ground (arith, m, e)))
      ])

  unhidden :
      (n : ℕ) (c ys : List ℕ) (k : ℕ) (e : DirEntry)
      → Named new ys
      → can_stand new false ≡ false
      → First (inst.blocks n) c false k e
      → First (inst'.blocks n) c false k e
  unhidden n c ys k e named no_dir first =
      carry_block (λ es. First es c false k e) n
        (λ same.
          First-set (inst.blocks n) c k ptr.offset e x new ys first
            (subst (λ b. get_elem? (inst.blocks b) ptr.offset ≡ some x) same adds.old) adds.free
            named no_dir)
        (λ other. first)

  -- A path whose last component was missing leads to the new entry.
  Leads-after :
      (c : List ℕ) (cs : List (List ℕ)) (base : ℕ)
      → Named new (last_of c cs)
      → new.flags ≡ direntry_used
      → Misses env inst base (c ∷ cs) ptr
      → Leads env inst' base (c ∷ cs) ptr
  Leads-after c [] base named used (ready, absent, e) = (
    ptr.offset,
    new,
    Ready-after base ready,
    carry_block (λ es. First es c true ptr.offset new) base
        (λ same.
          Absent-set (inst.blocks base) c ptr.offset x new absent
            (subst (λ b. get_elem? (inst.blocks b) ptr.offset ≡ some x) same adds.old) named
            (rw used refl))
        (λ other. absurd (other (ap (λ p. p.base) e))),
    adds.not_prev,
    ap (λ b. record { base = b; offset = ptr.offset }) (ap (λ p. p.base) e),
  )
  Leads-after c (d ∷ cs) base named used (k, e, ready, first, k_ne, more) = (
    k,
    e,
    Ready-after base ready,
    unhidden base c (last_of d cs) k e named (rw used refl) first,
    k_ne,
    Leads-after d cs (first_block e) named used more,
  )

-- The arrays of an entry have room for a name and a block number.
abbrev pub Roomy : DirEntry → Type 0
Roomy x = (17 ≤ length x.filename) × (0 < length x.block_list)

-- The entry of the new file.
abbrev pub new_file : DirEntry → List ℕ → ℕ → DirEntry
new_file x name p = record x {
  size = 0;
  flags = direntry_used;
  filename = name ++ 0 ∷ drop (suc (length name)) x.filename;
  block_list = set x.block_list 0 p;
}

-- The instance after the creation.
abbrev pub with_file : Instance → DirEntryPtr → DirEntry → ℕ → Instance
with_file inst ptr e p = record inst {
  bitmap = set_bit inst.bitmap p;
  blocks = write_block inst.blocks ptr.base (set (inst.blocks ptr.base) ptr.offset e);
}

pub allocate_block-at :
    (inst : Instance) (p : ℕ)
    → find_first_free_bit inst.bitmap inst.size ≡ at p
    → allocate_block inst ≡ done (p, record inst { bitmap = set_bit inst.bitmap p })
unfolding allocate_block
allocate_block-at inst p f = rw (allocate_block, f) refl

add_file_lem :
    (inst : Instance) (info : PathInfo) (x : DirEntry) (name r : List ℕ) (p : ℕ)
    → IsName name
    → Roomy x
    → info.suffix ≡ name ++ 0 ∷ r
    → find_first_free_bit inst.bitmap inst.size ≡ at p
    → add_file inst info x
      ≡ done (new_file x name p, with_file inst info.dir_entry_ptr (new_file x name p) p)
unfolding add_file store_entry
add_file_lem inst info x name r p h roomy e f =
    rw
      (
        e,
        strcpy_lem name r x.filename h.0.0 (omega (arith, h.2, roomy.0)),
        allocate_block-at inst p f,
      )
      refl

module _ (env : Env) (inst : Instance) (ptr : DirEntryPtr) (x : DirEntry) (p : ℕ)
    (ready : Ready env inst ptr.base) (old : get_elem? (inst.blocks ptr.base) ptr.offset ≡ some x)
    (free : find_first_free_bit inst.bitmap inst.size ≡ at p) (has_object : env.has_object ≡ true)
    (has_file : env.has_file ≡ true) where
  -- The instance after the file is opened, too.
  abbrev opened : DirEntry → Instance
  opened e = record (with_file inst ptr e p) {
    file_list = if is_open inst.file_list ptr then inst.file_list else inst.file_list ++ ptr ∷ [];
  }

  open_missing_lem :
      (info : PathInfo) (mode : ℕ) (file : Option File) (name r : List ℕ)
      → info.dir_entry_ptr ≡ ptr
      → IsName name
      → Roomy x
      → info.suffix ≡ name ++ 0 ∷ r
      → has mode o_create ≡ true
      → open_missing env inst info mode file
        ≡ done (
          ok,
          some (record { file_pos = 0; end_pos = 0; gosfs_file = ptr }),
          opened (new_file x name p),
        )
  unfolding open_missing take_entry finish_open get_gosfs_file
  open_missing_lem info mode file name r at_ptr h roomy e create =
      let new = new_file x name p in
      let added =
        add_file_lem (hold ptr.base inst) (record { suffix = info.suffix; dir_entry_ptr = ptr }) x
          name r p h roomy e free in
      elim (Bool-cases (is_open inst.file_list ptr)) [
        | inl there ↦
            rw
              (
                at_ptr,
                take_buffer-gives env inst ptr.base ready,
                old,
                create,
                added,
                there,
                held_release (with_file inst ptr new p) ptr.base,
                has_file,
              )
              refl
        | inr absent ↦
            rw
              (
                at_ptr,
                take_buffer-gives env inst ptr.base ready,
                old,
                create,
                added,
                absent,
                has_object,
                held_release
                    (record (with_file inst ptr new p) { file_list = inst.file_list ++ ptr ∷ [] })
                    ptr.base,
                has_file,
              )
              refl
      ]

last_of-IsName : (c : List ℕ) (cs : List (List ℕ)) → All IsName (c ∷ cs) → IsName (last_of c cs)
last_of-IsName c [] h = h.0
last_of-IsName c (d ∷ cs) h = last_of-IsName d cs h.1

-- GOSFS_Open with O_CREATE makes the file that is missing: it returns 0 and an empty file, takes the block
-- that the search of the bit set found, leaves no buffer in use, and afterwards the path leads to the new
-- entry, which the next lookup finds. For a path of which only the last name is missing, in a directory
-- with a free slot other than that of "..", under the conditions of the lookup, where memory and the
-- blocks of the path can be had.
pub gosfs_open-creates :
    (c : List ℕ) (cs : List (List ℕ)) (fuel : ℕ) (env : Env) (inst : Instance) (ptr : DirEntryPtr)
    (x : DirEntry) (p mode : ℕ) (file : Option File)
    → All IsName (c ∷ cs)
    → length cs + 1 < fuel
    → length env.prefix ≡ 17
    → 17 ≤ length env.path_info.suffix
    → equal env.address_zero slash ≡ done false
    → Misses env inst inst.root_directory_pointer (c ∷ cs) ptr
    → length (inst.blocks ptr.base) < minus_one_word
    → get_elem? (inst.blocks ptr.base) ptr.offset ≡ some x
    → ptr.offset ≢ prev_dir
    → Roomy x
    → find_first_free_bit inst.bitmap inst.size ≡ at p
    → env.has_object ≡ true
    → env.has_file ≡ true
    → has mode o_create ≡ true
    → (inst' : Instance) × (info : PathInfo) × (gosfs_open fuel env inst
          (path_of (c ∷ cs))
          mode
          file
        ≡ done (ok, some (record { file_pos = 0; end_pos = 0; gosfs_file = ptr }), inst'))
      × (do_gosfs_lookup fuel env inst' (path_of (c ∷ cs)) (init_path_info env)
          ≡ done (ok, info, inst'))
      × (info.dir_entry_ptr ≡ ptr)
      × (inst'.bitmap ≡ set_bit inst.bitmap p)
      × (inst'.held ≡ inst.held)
unfolding gosfs_open
gosfs_open-creates c cs fuel env inst ptr x p mode file h enough room space start misses size old
      not_prev roomy free object has_file create =
    let (info, r, found, at_ptr, suffix) =
      do_gosfs_lookup-Misses c cs fuel env inst (init_path_info env) ptr h (omega arith) room space
        start misses in
    let last = Misses-LastDirectory c cs env inst inst.root_directory_pointer ptr misses in
    let name = last_of c cs in
    let new = new_file x name p in
    let inst' = opened env inst ptr x p last.is_ready old free object has_file new in
    let named = last_of-IsName c cs h in
    let adds : Adds inst inst' ptr x new = record {
      same_held = refl;
      new_blocks = refl;
      old = old;
      free =
          free_slot-IsFree (inst.blocks ptr.base) 0 ptr.offset x (omega (arith, size))
            (omega (arith, last.slot)) old;
      not_prev = not_prev;
    } in
    let leads =
      Leads-after env inst inst' ptr x new adds c cs inst.root_directory_pointer
        (named.0.0, drop (suc (length name)) x.filename, refl) refl misses in
    let (info', found', at_ptr') =
      do_gosfs_lookup-Leads c cs fuel env inst' (init_path_info env) ptr h enough room space start
        leads in
    (
      inst',
      info',
      rw
          (
            found,
            open_missing_lem env inst ptr x p last.is_ready old free object has_file info mode file
                name r at_ptr named roomy suffix create,
          )
          refl,
      found',
      at_ptr',
      refl,
      refl,
    )
