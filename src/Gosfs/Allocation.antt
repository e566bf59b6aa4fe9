-- ===== src/Gosfs/Allocation.antt =====
-- src/geekos/gosfs.c: the bit set of GOSFS and the blocks that the entries name.
use geekos.Bitset.FirstFree.{FirstFree, find_first_free_bit-FirstFree}
use geekos.Bitset.Access.{IsBytes, set_bit-IsBytes, is_bit_set-set_bit}
use geekos.Bitset.{
  BitSet, Found, at, minus_one, negative, assert_failed, find_first_free_bit, set_bit, is_bit_set,
  num_bytes,
}
use geekos.Base.{
  ◌==◌, ==_iff, ==-self, Bool-cases, length, get_elem?, get_or, set, length-set, get_or-set_self, ℕ,
  zero, suc, ◌-◌, ◌*◌, ◌/◌, ◌^◌, ◌≤◌, ◌<◌, ◌≡◌, refl, sym, ap, subst, subst₂, ◌∙◌, ◌⊎◌, inl, inr,
  Bool, true, false, ◌||◌, some, List, [], ◌∷◌, arith,
}
use geekos.Gosfs.{DirEntry, DirEntryPtr, Instance, is_free, first_block}
use geekos.Gosfs.Files.{write_block, store_entry, allocate_block}
use geekos.Base.Reasons.{Run, done, stop, out_of_bounds, failed_kassert, Ends}

-- Every entry that is in use has its first block marked in the bit set.
pub record Consistent (inst : Instance) : Type 0 where
  pub bytes : IsBytes inst.bitmap
  pub fits : num_bytes inst.size ≤ length inst.bitmap
  pub small : inst.size ≤ 2 ^ 32 - 8
  pub arrays :
      (n i : ℕ) (e : DirEntry) → get_elem? (inst.blocks n) i ≡ some e → 0 < length e.block_list
  pub marked :
      (n i : ℕ) (e : DirEntry)
      → get_elem? (inst.blocks n) i ≡ some e
      → is_free e ≡ false
      → is_bit_set inst.bitmap (first_block e) ≡ true

-- What an instance has to keep for that.
abbrev pub SameData : Instance → Instance → Type 0
SameData inst inst' =
    (inst'.bitmap ≡ inst.bitmap) × (inst'.blocks ≡ inst.blocks) × (inst'.size ≡ inst.size)

pub Consistent-same :
    (inst inst' : Instance) → SameData inst inst' → Consistent inst → Consistent inst'
Consistent-same inst inst' (b, l, s) c = record {
  bytes = subst IsBytes (sym b) c.bytes;
  fits = subst₂ (λ n bits. num_bytes n ≤ length bits) (sym s) (sym b) c.fits;
  small = subst (λ n. n ≤ 2 ^ 32 - 8) (sym s) c.small;
  arrays = λ n i e g. c.arrays n i e (ap (λ f. get_elem? (f n) i) (sym l) ∙ g);
  marked = λ n i e g u.
      ap (λ bits. is_bit_set bits (first_block e)) b
      ∙ c.marked n i e (ap (λ f. get_elem? (f n) i) (sym l) ∙ g) u;
}

get_elem?-set_cases :
    (xs : List DirEntry) (o i : ℕ) (v e : DirEntry)
    → get_elem? (set xs o v) i ≡ some e
    → (e ≡ v) ⊎ (get_elem? xs i ≡ some e)
get_elem?-set_cases [] o i v e h = inr h
get_elem?-set_cases (x ∷ xs) zero zero v e h = inl cc
get_elem?-set_cases (x ∷ xs) zero (suc i) v e h = inr h
get_elem?-set_cases (x ∷ xs) (suc o) zero v e h = inr h
get_elem?-set_cases (x ∷ xs) (suc o) (suc i) v e h = get_elem?-set_cases xs o i v e h

stored_cases :
    (blocks : ℕ → List DirEntry) (ptr : DirEntryPtr) (v : DirEntry) (n i : ℕ) (e : DirEntry)
    → get_elem? (write_block blocks ptr.base (set (blocks ptr.base) ptr.offset v) n) i ≡ some e
    → (e ≡ v) ⊎ (get_elem? (blocks n) i ≡ some e)
stored_cases blocks ptr v n i e h = elim (Bool-cases (ptr.base == n)) [
  | inl same ↦ elim (get_elem?-set_cases (blocks ptr.base) ptr.offset i v e (rw same at h)) [
    | inl new ↦ inl new
    | inr old ↦ inr (ap (λ b. get_elem? (blocks b) i) (sym ((==_iff ptr.base n).0 same)) ∙ old)
  ]
  | inr other ↦ inr (rw other at h)
]

-- A block number that the search returns lies in the bit set.
found_inside :
    (inst : Instance) (p : ℕ)
    → Consistent inst
    → find_first_free_bit inst.bitmap inst.size ≡ at p
    → p < 8 * length inst.bitmap
found_inside inst p c f =
    let r =
      subst (FirstFree inst.bitmap (num_bytes inst.size * 8)) f
        (find_first_free_bit-FirstFree inst.bitmap c.bytes inst.size c.small) in
    omega (arith, r.0.0, c.fits)

negative_inside :
    (inst : Instance) (w : ℕ)
    → Consistent inst
    → find_first_free_bit inst.bitmap inst.size ≡ negative w
    → w < 8 * length inst.bitmap
negative_inside inst w c f =
    let r =
      subst (FirstFree inst.bitmap (num_bytes inst.size * 8)) f
        (find_first_free_bit-FirstFree inst.bitmap c.bytes inst.size c.small) in
    omega (arith, r.0.0, c.fits)

length-set_bit : (bits : BitSet) (p : ℕ) → length (set_bit bits p) ≡ length bits
unfolding set_bit
length-set_bit bits p = length-set bits (p / 8) _

or_true : (b : Bool) → (b || true) ≡ true
or_true b = ground arith

-- An entry whose first block has just been taken keeps the bit set right.
pub stored-Consistent :
    (inst : Instance) (ptr : DirEntryPtr) (x v : DirEntry) (p : ℕ)
    → Consistent inst
    → p < 8 * length inst.bitmap
    → 0 < length x.block_list
    → v.block_list ≡ set x.block_list 0 p
    → Consistent (store_entry (record inst { bitmap = set_bit inst.bitmap p }) ptr v)
unfolding store_entry
stored-Consistent inst ptr x v p c inside room list = record {
  bytes = set_bit-IsBytes inst.bitmap p c.bytes;
  fits = omega (arith, c.fits, length-set_bit inst.bitmap p);
  small = c.small;
  arrays = λ n i e g. elim (stored_cases inst.blocks ptr v n i e g) [
    | inl new ↦ omega (
      arith,
      room,
      ap (λ z. length z.block_list) new,
      ap length list,
      length-set x.block_list 0 p,
    )
    | inr old ↦ c.arrays n i e old
  ];
  marked = λ n i e g u. elim (stored_cases inst.blocks ptr v n i e g) [
    | inl new ↦
        ap (λ b. is_bit_set (set_bit inst.bitmap p) b)
          (ap (λ z. get_or z.block_list 0 0) new
            ∙ ap (λ l. get_or l 0 0) list
            ∙ get_or-set_self x.block_list 0 p 0 room)
        ∙ is_bit_set-set_bit inst.bitmap p p c.bytes inside
        ∙ rw (==-self p) refl
    | inr old ↦
        is_bit_set-set_bit inst.bitmap p (first_block e) c.bytes inside
        ∙ ap (λ b. (p == first_block e) || b) (c.marked n i e old u)
        ∙ or_true (p == first_block e)
  ];
}

pub allocate_block-Consistent :
    (inst : Instance) (x : DirEntry) (ptr : DirEntryPtr) (make : ℕ → DirEntry)
    → Consistent inst
    → 0 < length x.block_list
    → ((p : ℕ) → (make p).block_list ≡ set x.block_list 0 p)
    → Ends (λ r. Consistent (store_entry r.1 ptr (make r.0))) (allocate_block inst)
unfolding allocate_block
allocate_block-Consistent inst x ptr make c room list =
    go (find_first_free_bit inst.bitmap inst.size) refl
  where
    go :
        (f : Found)
        → find_first_free_bit inst.bitmap inst.size ≡ f
        → Ends
            (λ r. Consistent (store_entry r.1 ptr (make r.0)))
            (elim f as (λ x. Run (ℕ × Instance)) [
              | at p ↦ done (p, record inst { bitmap = set_bit inst.bitmap p })
              | negative w ↦ done (w, record inst { bitmap = set_bit inst.bitmap w })
              | minus_one ↦ stop out_of_bounds
              | assert_failed ↦ stop failed_kassert
            ])
    go (at p) e = stored-Consistent inst ptr x (make p) p c (found_inside inst p c e) room (list p)
    go (negative w) e =
        stored-Consistent inst ptr x (make w) w c (negative_inside inst w c e) room (list w)
    go minus_one e = tt
    go assert_failed e = tt
