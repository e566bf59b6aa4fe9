-- ===== src/LinkedList/Segment.antt =====
-- When links and end pointers represent a sequence of nodes, and how a change of one link acts on it.
use geekos.Base.{
  ◌==◌, if◌then◌else◌, ==-self, ==_ne, length, ℕ, zero, suc, ◌<◌, ◌≡◌, refl, sym, subst, subst₂,
  ◌∙◌, ◌≢◌, Bool, true, false, List, [], ◌∷◌, ◌++◌, arith,
}
use geekos.Base.Outcome.{done}
use geekos.LinkedList.{Links, LinkedList, set_next, set_prev, is_member_from, is_member_of}

abbrev pub NotIn : ℕ → List ℕ → Type 0
NotIn x [] = Unit
NotIn x (y ∷ ys) = (x ≢ y) × NotIn x ys

abbrev pub Distinct : List ℕ → Type 0
Distinct [] = Unit
Distinct (x ∷ xs) = NotIn x xs × Distinct xs

abbrev pub Disjoint : List ℕ → List ℕ → Type 0
Disjoint [] ys = Unit
Disjoint (x ∷ xs) ys = NotIn x ys × Disjoint xs ys

-- The nodes `xs` from the pointer `c` on: the node before them is `p`, the last of them is `t`, and
-- the pointer that follows them is `e`.
abbrev pub IsSegment : Links → ℕ → ℕ → List ℕ → ℕ → ℕ → Type 0
IsSegment lk p c [] t e = (c ≡ e) × (t ≡ p)
IsSegment lk p c (x ∷ xs) t e =
    (c ≡ x) × (x ≢ 0) × (lk.prev x ≡ p) × IsSegment lk x (lk.next x) xs t e

-- The list `l` holds the nodes `xs`, in this order and each once.
abbrev pub Represents : Links → LinkedList → List ℕ → Type 0
Represents lk l xs = IsSegment lk 0 l.head xs l.tail 0 × Distinct xs

pub IsSegment-append :
    (lk : Links) (p c m t e' e : ℕ) (xs ys : List ℕ)
    → IsSegment lk p c xs m e'
    → IsSegment lk m e' ys t e
    → IsSegment lk p c (xs ++ ys) t e
IsSegment-append lk p c m t e' e [] ys (ce, mp) s =
    subst₂ (λ a b. IsSegment lk a b ys t e) mp (sym ce) s
IsSegment-append lk p c m t e' e (x ∷ xs) ys (cx, nz, px, r) s =
    (cx, nz, px, IsSegment-append lk x (lk.next x) m t e' e xs ys r s)

-- The node and the pointer at which a segment of `xs ++ ys` comes apart.
pub IsSegment-split :
    (lk : Links) (p c t e : ℕ) (xs ys : List ℕ)
    → IsSegment lk p c (xs ++ ys) t e
    → (m : ℕ) × (e' : ℕ) × IsSegment lk p c xs m e' × IsSegment lk m e' ys t e
IsSegment-split lk p c t e [] ys s = (p, c, (refl, refl), s)
IsSegment-split lk p c t e (x ∷ xs) ys (cx, nz, px, r) =
    let (m, e', a, b) = IsSegment-split lk x (lk.next x) t e xs ys r in (m, e', (cx, nz, px, a), b)

-- Writing a link of a node outside a segment leaves the segment alone.
pub set_next-IsSegment :
    (lk : Links) (a v p c t e : ℕ) (xs : List ℕ)
    → NotIn a xs
    → IsSegment lk p c xs t e
    → IsSegment (set_next lk a v) p c xs t e
set_next-IsSegment lk a v p c t e [] out s = s
set_next-IsSegment lk a v p c t e (x ∷ xs) (ne, out) (cx, nz, px, r) =
    (cx, nz, px, rw (==_ne a x ne) (set_next-IsSegment lk a v x (lk.next x) t e xs out r))

pub set_prev-IsSegment :
    (lk : Links) (a v p c t e : ℕ) (xs : List ℕ)
    → NotIn a xs
    → IsSegment lk p c xs t e
    → IsSegment (set_prev lk a v) p c xs t e
set_prev-IsSegment lk a v p c t e [] out s = s
set_prev-IsSegment lk a v p c t e (x ∷ xs) (ne, out) (cx, nz, px, r) =
    (cx, nz, rw (==_ne a x ne) px, set_prev-IsSegment lk a v x (lk.next x) t e xs out r)

segment_last-ne :
    (lk : Links) (a p c t e x : ℕ) (xs : List ℕ)
    → NotIn a (x ∷ xs)
    → IsSegment lk p c (x ∷ xs) t e
    → t ≢ a
segment_last-ne lk a p c t e x [] (ne, out) (cx, nz, px, (xe, tx)) = λ same. ne (sym same ∙ tx)
segment_last-ne lk a p c t e x (y ∷ ys) (ne, out) (cx, nz, px, r) =
    segment_last-ne lk a x (lk.next x) t e y ys out r

-- A new successor for the last node.
pub relink_end :
    (lk : Links) (p c t e e' x : ℕ) (xs : List ℕ)
    → Distinct (x ∷ xs)
    → IsSegment lk p c (x ∷ xs) t e
    → IsSegment (set_next lk t e') p c (x ∷ xs) t e'
relink_end lk p c t e e' x [] d (cx, nz, px, (xe, tx)) = (cx, nz, px, (ground arith, tx))
relink_end lk p c t e e' x (y ∷ ys) (out, d) (cx, nz, px, r) = (
  cx,
  nz,
  px,
  rw (==_ne t x (segment_last-ne lk x x (lk.next x) t e y ys out r))
      (relink_end lk x (lk.next x) t e e' y ys d r),
)

-- A new predecessor for the first node.
pub relink_start :
    (lk : Links) (p p' c t e x : ℕ) (xs : List ℕ)
    → NotIn x xs
    → IsSegment lk p c (x ∷ xs) t e
    → IsSegment (set_prev lk c p') p' c (x ∷ xs) t e
relink_start lk p p' c t e x xs out (cx, nz, px, r) = (
  cx,
  nz,
  ground arith,
  set_prev-IsSegment lk c p' x (lk.next x) t e xs (subst (λ a. NotIn a xs) (sym cx) out) r,
)

-- The last node of a segment that is not empty is a node.
pub segment_last-ne_zero :
    (lk : Links) (p c t e x : ℕ) (xs : List ℕ) → IsSegment lk p c (x ∷ xs) t e → t ≢ 0
segment_last-ne_zero lk p c t e x [] (cx, nz, px, (xe, tx)) = λ z. nz (sym tx ∙ z)
segment_last-ne_zero lk p c t e x (y ∷ ys) (cx, nz, px, r) =
    segment_last-ne_zero lk x (lk.next x) t e y ys r

-- A node outside a segment is not its last one.
pub NotIn-last :
    (a : ℕ) (lk : Links) (p c t e x : ℕ) (xs : List ℕ)
    → NotIn a (x ∷ xs)
    → IsSegment lk p c (x ∷ xs) t e
    → a ≢ t
NotIn-last a lk p c t e x [] (ne, out) (cx, nz, px, (xe, tx)) = λ same. ne (same ∙ tx)
NotIn-last a lk p c t e x (y ∷ ys) (ne, out) (cx, nz, px, r) =
    NotIn-last a lk x (lk.next x) t e y ys out r

-- The ends of two sequences with no node in common.
pub Disjoint-head : (y : ℕ) (ys xs : List ℕ) → Disjoint xs (y ∷ ys) → NotIn y xs
Disjoint-head y ys [] h = tt
Disjoint-head y ys (x ∷ xs) (n, h) = (λ e. n.0 (sym e), Disjoint-head y ys xs h)

pub Disjoint-last :
    (lk : Links) (p c t e x : ℕ) (xs ys : List ℕ)
    → IsSegment lk p c (x ∷ xs) t e
    → Disjoint (x ∷ xs) ys
    → NotIn t ys
Disjoint-last lk p c t e x [] ys (cx, nz, px, (xe, tx)) (n, h) = subst (λ a. NotIn a ys) (sym tx) n
Disjoint-last lk p c t e x (z ∷ zs) ys (cx, nz, px, r) (n, h) =
    Disjoint-last lk x (lk.next x) t e z zs ys r h

-- Whether a node is in a sequence.
abbrev pub mem : ℕ → List ℕ → Bool
mem a [] = false
mem a (x ∷ xs) = if x == a then true else mem a xs

pub mem-NotIn : (a : ℕ) (xs : List ℕ) → NotIn a xs → mem a xs ≡ false
mem-NotIn a [] h = refl
mem-NotIn a (x ∷ xs) (ne, h) = rw (==_ne x a (λ e. ne (sym e))) (mem-NotIn a xs h)

pub mem-split : (a : ℕ) (xs ys : List ℕ) → mem a (xs ++ a ∷ ys) ≡ true
mem-split a [] ys = rw (==-self a)
mem-split a (x ∷ xs) ys = ground (arith, mem-split a xs ys)

-- The loop of Is_Member_Of ends within one round more than the list has nodes, and decides whether
-- the node is in the list.
pub is_member_from-mem :
    (fuel : ℕ) (lk : Links) (p c t a : ℕ) (xs : List ℕ)
    → IsSegment lk p c xs t 0
    → length xs < fuel
    → is_member_from fuel lk c a ≡ done (mem a xs)
unfolding is_member_from
is_member_from-mem zero lk p c t a xs s h = elim h [ ]
is_member_from-mem (suc fuel) lk p c t a [] s h = ground arith
is_member_from-mem (suc fuel) lk p c t a (x ∷ xs) (cx, nz, px, r) h =
    subst (λ c'. is_member_from (suc fuel) lk c' a ≡ done (mem a (x ∷ xs))) (sym cx)
      (ground (arith, is_member_from-mem fuel lk x (lk.next x) t a xs r (omega arith)))

-- Is_Member_Of decides membership, for fuel above the number of nodes.
pub is_member_of-mem :
    (fuel : ℕ) (lk : Links) (l : LinkedList) (a : ℕ) (xs : List ℕ)
    → Represents lk l xs
    → length xs < fuel
    → is_member_of fuel lk l a ≡ done (mem a xs)
unfolding is_member_of
is_member_of-mem fuel lk l a xs r h = is_member_from-mem fuel lk 0 l.head l.tail a xs r.0 h
