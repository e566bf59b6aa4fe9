-- ===== src/LinkedList/Remove.antt =====
-- Remove_From_Front_Of and Remove_From.
use geekos.Base.{
  ==_ne, length, ℕ, ◌<◌, ◌≡◌, refl, sym, ap, subst, subst₂, ◌∙◌, ◌≢◌, List, [], ◌∷◌, ◌++◌,
  append-nil, arith,
}
use geekos.Base.Outcome.{done, assert_failed}
use geekos.LinkedList.{
  Links, LinkedList, set_next, set_prev, remove_from_front_of, unlink_prev, unlink_next,
  remove_from,
}
use geekos.LinkedList.Segment.{
  NotIn-last, Disjoint-head, Disjoint-last, NotIn, Distinct, Disjoint, IsSegment, Represents,
  IsSegment-append, IsSegment-split, set_next-IsSegment, set_prev-IsSegment, relink_end,
  relink_start, segment_last-ne_zero, mem-split, is_member_of-mem,
}

-- Remove_From_Front_Of a list that represents `x ∷ xs` returns `x` and leaves `xs`; of an empty list
-- it fails its assertion.
pub remove_from_front_of-Represents :
    (lk : Links) (l : LinkedList) (x : ℕ) (xs : List ℕ)
    → Represents lk l (x ∷ xs)
    → (lk' : Links) × (l' : LinkedList) × (remove_from_front_of lk l ≡ done (x, lk', l'))
      × Represents lk' l' xs
unfolding remove_from_front_of
remove_from_front_of-Represents lk l x [] ((hx, nz, px, (nx, tx)), d) = (
  lk,
  record { head = lk.next l.head; tail = 0 },
  rw (==_ne l.head 0 (λ z. nz (sym hx ∙ z)))
      (rw (ap lk.next hx ∙ nx) (ap (λ a. done (a, lk, record { head = 0; tail = 0 })) hx)),
  ((ap lk.next hx ∙ nx, refl), tt),
)
remove_from_front_of-Represents lk l x (y ∷ ys) ((hx, nz, px, (ny, nzy, py, r)), (o, d)) =
    let e : lk.next l.head ≡ y = ap lk.next hx ∙ ny in
    (
      set_prev lk y 0,
      record l { head = y },
      rw (==_ne l.head 0 (λ z. nz (sym hx ∙ z))) (
          rw e
            (rw (==_ne y 0 nzy) (ap (λ a. done (a, set_prev lk y 0, record l { head = y })) hx))),
      (relink_start lk x 0 y l.tail 0 y ys d.0 (refl, nzy, py, r), d),
    )

pub remove_from_front_of-empty :
    (lk : Links) (l : LinkedList) → Represents lk l [] → remove_from_front_of lk l ≡ assert_failed
unfolding remove_from_front_of
remove_from_front_of-empty lk l ((hz, tz), d) = rw hz

-- The parts of a sequence with no repetition around one of its nodes.
pub Distinct-around :
    (node : ℕ) (xs ys : List ℕ)
    → Distinct (xs ++ node ∷ ys)
    → NotIn node xs
      × NotIn node ys
      × Distinct xs
      × Distinct ys
      × Distinct (xs ++ ys)
      × Disjoint xs ys
Distinct-around node [] ys (out, d) = (tt, out, tt, d, d, tt)
Distinct-around node (x ∷ xs) ys (out, d) =
    let (nx, ny, dx, dy, dd, dj) = Distinct-around node xs ys d in
    let (a, b, c, f) = parts xs out in ((f, nx), ny, (a, dx), dy, (c, dd), (b, dj))
  where
    parts :
        (zs : List ℕ)
        → NotIn x (zs ++ node ∷ ys)
        → NotIn x zs × NotIn x ys × NotIn x (zs ++ ys) × (node ≢ x)
    parts [] (ne, o) = (tt, o, o, λ e. ne (sym e))
    parts (z ∷ zs) (ne, o) = let (a, b, c, f) = parts zs o in ((ne, a), b, (ne, c), f)

segment_head : (lk : Links) (p c t x : ℕ) (ys : List ℕ) → IsSegment lk p c (x ∷ ys) t 0 → c ≢ 0
segment_head lk p c t x ys s = λ z. s.1 (sym s.0 ∙ z)

-- The four ways in which a node has neighbours.
module _ (lk : Links) (l : LinkedList) (node : ℕ) where
  unlink_alone :
      lk.prev node ≡ 0
      → lk.next node ≡ 0
      → (lk, record { head = lk.next node; tail = lk.prev node })
        ≡ unlink_next (unlink_prev lk l node) node
  unfolding unlink_next unlink_prev
  unlink_alone p n = ground arith

  unlink_first :
      lk.prev node ≡ 0
      → lk.next node ≢ 0
      → (set_prev lk (lk.next node) (lk.prev node), record l { head = lk.next node })
        ≡ unlink_next (unlink_prev lk l node) node
  unfolding unlink_next unlink_prev
  unlink_first p n = ground arith

  unlink_last :
      lk.prev node ≢ 0
      → lk.next node ≡ 0
      → lk.prev node ≢ node
      → (set_next lk (lk.prev node) (lk.next node), record l { tail = lk.prev node })
        ≡ unlink_next (unlink_prev lk l node) node
  unfolding unlink_next unlink_prev
  unlink_last p n q = ground arith

  unlink_inner :
      lk.prev node ≢ 0
      → lk.next node ≢ 0
      → lk.prev node ≢ node
      → (set_prev (set_next lk (lk.prev node) (lk.next node)) (lk.next node) (lk.prev node), l)
        ≡ unlink_next (unlink_prev lk l node) node
  unfolding unlink_next unlink_prev
  unlink_inner p n q = ground arith

-- Unlinking a node with the segment `xs` before it and the segment `ys` behind it.
unlink-Represents :
    (lk : Links) (l : LinkedList) (node m : ℕ) (xs ys : List ℕ)
    → IsSegment lk 0 l.head xs m node
    → lk.prev node ≡ m
    → node ≢ 0
    → IsSegment lk node (lk.next node) ys l.tail 0
    → NotIn node xs
      × NotIn node ys
      × Distinct xs
      × Distinct ys
      × Distinct (xs ++ ys)
      × Disjoint xs ys
    → let (lk', l') = unlink_next (unlink_prev lk l node) node in Represents lk' l' (xs ++ ys)
unfolding unlink_prev unlink_next
unlink-Represents lk l node m [] [] (hn, mz) pm nz (nx, tn) dd =
    subst {A = Links × LinkedList} (λ r. Represents r.0 r.1 [])
      {x = (lk, record { head = lk.next node; tail = lk.prev node })}
      (unlink_alone lk l node (pm ∙ mz) nx) ((nx, pm ∙ mz), tt)
unlink-Represents lk l node m [] (y ∷ ys) (hn, mz) pm nz s dd =
    subst {A = Links × LinkedList} (λ r. Represents r.0 r.1 (y ∷ ys))
      {x = (set_prev lk (lk.next node) (lk.prev node), record l { head = lk.next node })}
      (unlink_first lk l node (pm ∙ mz) (segment_head lk node (lk.next node) l.tail y ys s))
      (
        subst (λ a. IsSegment (set_prev lk (lk.next node) a) 0 (lk.next node) (y ∷ ys) l.tail 0)
            (sym (pm ∙ mz)) (relink_start lk node 0 (lk.next node) l.tail 0 y ys dd.3.0 s),
        dd.3,
      )
unlink-Represents lk l node m (x ∷ xs) [] s pm nz (nx, tn) dd =
    subst {A = Links × LinkedList} (λ r. Represents r.0 r.1 (x ∷ xs ++ []))
      {x = (set_next lk (lk.prev node) (lk.next node), record l { tail = lk.prev node })}
      (unlink_last lk l node prev_ne nx other)
      (
        subst
            (λ zs.
              IsSegment (set_next lk (lk.prev node) (lk.next node)) 0 l.head zs (lk.prev node) 0)
            (sym (append-nil (x ∷ xs)))
            (subst₂ (λ a b. IsSegment (set_next lk a b) 0 l.head (x ∷ xs) a 0) (sym pm) (sym nx)
              (relink_end lk 0 l.head m node 0 x xs dd.2 s)),
        dd.4,
      )
  where
    prev_ne : lk.prev node ≢ 0
    prev_ne z = segment_last-ne_zero lk 0 l.head m node x xs s (sym pm ∙ z)

    other : lk.prev node ≢ node
    other e = NotIn-last node lk 0 l.head m node x xs dd.0 s (sym e ∙ pm)
unlink-Represents lk l node m (x ∷ xs) (y ∷ ys) s pm nz r dd =
    subst {A = Links × LinkedList} (λ r. Represents r.0 r.1 (x ∷ xs ++ y ∷ ys))
      {x = (set_prev (set_next lk (lk.prev node) (lk.next node)) (lk.next node) (lk.prev node), l)}
      (unlink_inner lk l node prev_ne (segment_head lk node (lk.next node) l.tail y ys r) other)
      (
        subst
            (λ a.
              IsSegment (set_prev (set_next lk a (lk.next node)) (lk.next node) a) 0 l.head
                (x ∷ xs ++ y ∷ ys) l.tail 0)
            (sym pm)
            (IsSegment-append (set_prev (set_next lk m (lk.next node)) (lk.next node) m) 0 l.head m
              l.tail (lk.next node) 0 (x ∷ xs) (y ∷ ys)
              (set_prev-IsSegment (set_next lk m (lk.next node)) (lk.next node) m 0 l.head m
                (lk.next node) (x ∷ xs)
                (subst (λ a. NotIn a (x ∷ xs)) (sym r.0) (Disjoint-head y ys (x ∷ xs) dd.5))
                (relink_end lk 0 l.head m node (lk.next node) x xs dd.2 s))
              (relink_start (set_next lk m (lk.next node)) node m (lk.next node) l.tail 0 y ys
                dd.3.0
                (set_next-IsSegment lk m (lk.next node) node (lk.next node) l.tail 0 (y ∷ ys)
                  (Disjoint-last lk 0 l.head m node x xs (y ∷ ys) s dd.5) r))),
        dd.4,
      )
  where
    prev_ne : lk.prev node ≢ 0
    prev_ne z = segment_last-ne_zero lk 0 l.head m node x xs s (sym pm ∙ z)

    other : lk.prev node ≢ node
    other e = NotIn-last node lk 0 l.head m node x xs dd.0 s (sym e ∙ pm)

-- Remove_From takes a node out of a list that represents `xs ++ node ∷ ys`, wherever it stands: the
-- result represents `xs ++ ys`, for fuel above the number of nodes.
pub remove_from-Represents :
    (fuel : ℕ) (lk : Links) (l : LinkedList) (node : ℕ) (xs ys : List ℕ)
    → Represents lk l (xs ++ node ∷ ys)
    → length (xs ++ node ∷ ys) < fuel
    → (lk' : Links) × (l' : LinkedList) × (remove_from fuel lk l node ≡ done (lk', l'))
      × Represents lk' l' (xs ++ ys)
unfolding remove_from
remove_from-Represents fuel lk l node xs ys (s, d) h =
    let (lk', l') = unlink_next (unlink_prev lk l node) node in
    let (m, e', a, (ce, nz, pm, b)) = IsSegment-split lk 0 l.head l.tail 0 xs (node ∷ ys) s in
    (
      lk',
      l',
      rw (is_member_of-mem fuel lk l node (xs ++ node ∷ ys) (s, d) h, mem-split node xs ys),
      unlink-Represents lk l node m xs ys (subst (λ c. IsSegment lk 0 l.head xs m c) ce a) pm nz b
          (Distinct-around node xs ys d),
    )
