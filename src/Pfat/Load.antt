-- ===== src/Pfat/Load.antt =====
-- The loop of PFAT_Read: the blocks that it brings into the cache.
use geekos.Base.{
  leb, ◌==◌, ==_iff, Bool-cases, length, get_elem?, set, length-set, get_elem?-set_self,
  get_elem?-set_ne, ℕ, zero, suc, ◌+◌, ◌/◌, ◌≤◌, ◌<◌, ◌≡◌, refl, sym, subst, ◌∙◌, inl, inr, true,
  some, List, arith,
}
use geekos.Bitset.{BitSet, is_bit_set, set_bit}
use geekos.Bitset.Access.{is_bit_set-set_bit, set_bit-IsBytes}
use geekos.Errno.{ok}
use geekos.Pfat.{Disk, PfatFile, load_block, load_blocks}
use geekos.Pfat.Blocks.{IsChain, IsCached, IsLoaded}

length-set_bit : (bits : BitSet) (p : ℕ) → length (set_bit bits p) ≡ length bits
unfolding set_bit
length-set_bit bits p = length-set bits (p / 8) _

-- The file after a block was fetched.
abbrev fetched : Disk → PfatFile → ℕ → ℕ → PfatFile
fetched disk f i cur = record f {
  file_data_cache = set f.file_data_cache i (disk.sectors cur);
  valid_block_set = set_bit f.valid_block_set i;
}

fetched-same :
    (disk : Disk) (blk : ℕ → ℕ) (f : PfatFile) (i : ℕ)
    → IsCached disk blk f
    → i < f.num_blocks
    → get_elem? (fetched disk f i (blk i)).file_data_cache i ≡ some (disk.sectors (blk i))
fetched-same disk blk f i c h =
    get_elem?-set_self f.file_data_cache i (disk.sectors (blk i)) (omega (arith, c.size))

fetched-IsCached :
    (disk : Disk) (blk : ℕ → ℕ) (f : PfatFile) (i : ℕ)
    → IsCached disk blk f
    → i < f.num_blocks
    → IsCached disk blk (fetched disk f i (blk i))
fetched-IsCached disk blk f i c h = record {
  size = length-set f.file_data_cache i (disk.sectors (blk i)) ∙ c.size;
  bits = omega (arith, length-set_bit f.valid_block_set i, c.bits);
  bytes = set_bit-IsBytes f.valid_block_set i c.bytes;
  valid = λ j l v. elim (Bool-cases (i == j)) [
    | inl e ↦
        subst
          (λ k.
            get_elem? (fetched disk f i (blk i)).file_data_cache k ≡ some (disk.sectors (blk k)))
          ((==_iff i j).0 e) (fetched-same disk blk f i c h)
    | inr e ↦
        get_elem?-set_ne f.file_data_cache i j (disk.sectors (blk i))
          (λ x. absurd (ground (arith, x, e)))
        ∙ c.valid j l (
            ground (
              arith,
              is_bit_set-set_bit f.valid_block_set i j c.bytes (omega (arith, c.bits)),
              v,
              e,
            ))
  ];
}

-- What the loop makes of the file `f`, once the blocks below `n` are in the cache.
pub record Loads (disk : Disk) (blk : ℕ → ℕ) (f : PfatFile) (n : ℕ) (g : PfatFile) : Type 0 where
  pub cached : IsCached disk blk g
  pub loaded : IsLoaded disk blk n g
  pub same_entry : g.entry ≡ f.entry
  pub same_size : g.num_blocks ≡ f.num_blocks

load_block-Loads :
    (disk : Disk) (blk : ℕ → ℕ) (f : PfatFile) (i : ℕ)
    → IsCached disk blk f
    → IsLoaded disk blk i f
    → i < f.num_blocks
    → disk.status (blk i) ≡ ok
    → (g : PfatFile) × (load_block disk f i (blk i) ≡ (ok, g)) × Loads disk blk f (i + 1) g
unfolding load_block
load_block-Loads disk blk f i c l h e = elim (Bool-cases (is_bit_set f.valid_block_set i)) [
  | inl v ↦ (
    f,
    rw v refl,
    record {
      cached = c;
      loaded = λ j lt. elim (Bool-cases (i == j)) [
        | inl x ↦
            subst (λ k. get_elem? f.file_data_cache k ≡ some (disk.sectors (blk k)))
              ((==_iff i j).0 x) (c.valid i h v)
        | inr x ↦ l j (ground (arith, x, lt))
      ];
      same_entry = refl;
      same_size = refl;
    },
  )
  | inr v ↦ (
    fetched disk f i (blk i),
    rw (v, e) refl,
    record {
      cached = fetched-IsCached disk blk f i c h;
      loaded = λ j lt. elim (Bool-cases (i == j)) [
        | inl x ↦
            subst
              (λ k.
                get_elem? (fetched disk f i (blk i)).file_data_cache k
                ≡ some (disk.sectors (blk k)))
              ((==_iff i j).0 x) (fetched-same disk blk f i c h)
        | inr x ↦
            get_elem?-set_ne f.file_data_cache i j (disk.sectors (blk i))
              (λ y. absurd (ground (arith, x, y)))
            ∙ l j (ground (arith, x, lt))
      ];
      same_entry = refl;
      same_size = refl;
    },
  )
]

pub load_blocks-Loads :
    (disk : Disk) (fat : List ℕ) (blk : ℕ → ℕ) (f : PfatFile) (left i : ℕ)
    → IsChain fat blk (i + left)
    → ((k : ℕ) → k < i + left → disk.status (blk k) ≡ ok)
    → i + left ≤ f.num_blocks
    → IsCached disk blk f
    → IsLoaded disk blk i f
    → (g : PfatFile) × (load_blocks disk fat 0 f left i (blk i) ≡ some (ok, g))
      × Loads disk blk f (i + left) g
unfolding load_blocks
load_blocks-Loads disk fat blk f zero i ch st h c l = (
  f,
  refl,
  record { cached = c; loaded = λ j lt. l j (omega arith); same_entry = refl; same_size = refl },
)
load_blocks-Loads disk fat blk f (suc left) i ch st h c l =
    let (g, e, ls) = load_block-Loads disk blk f i c l (omega arith) (st i (omega arith)) in
    let n : i + 1 + left ≡ i + suc left = omega arith in
    let (g', e', ls') =
      load_blocks-Loads disk fat blk g left (i + 1) (subst (IsChain fat blk) (sym n) ch)
        (λ k lt. st k (omega arith)) (omega (arith, ls.same_size)) ls.cached ls.loaded in
    (
      g',
      rw (load_blocks, ch.in_use i (omega arith), ch.linked i (omega arith), zero_le i, e) e',
      record {
        cached = ls'.cached;
        loaded = λ j lt. ls'.loaded j (omega arith);
        same_entry = ls'.same_entry ∙ ls.same_entry;
        same_size = ls'.same_size ∙ ls.same_size;
      },
    )
  where
    zero_le : (k : ℕ) → leb 0 k ≡ true
    zero_le k = ground arith
