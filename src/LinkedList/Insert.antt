-- ===== src/LinkedList/Insert.antt =====
-- Add_To_Front_Of, Add_To_Back_Of and Append.
use geekos.Base.{
  ==-self, ==_ne, length, ℕ, ◌<◌, ◌≡◌, refl, sym, subst, ◌∙◌, ◌≢◌, true, List, [], ◌∷◌, ◌++◌,
  append-nil,
}
use geekos.Base.Outcome.{done, assert_failed}
use geekos.LinkedList.{
  Links, LinkedList, set_next, set_prev, clear, link_front, link_back, add_to_front_of,
  add_to_back_of, append,
}
use geekos.LinkedList.Segment.{
  NotIn, Distinct, Disjoint, Represents, IsSegment-append, set_next-IsSegment, set_prev-IsSegment,
  relink_end, relink_start, segment_last-ne_zero, mem, NotIn-last, Disjoint-head, Disjoint-last,
  mem-NotIn, is_member_of-mem,
}

link_front-Represents :
    (lk : Links) (l : LinkedList) (node : ℕ) (xs : List ℕ)
    → Represents lk l xs
    → node ≢ 0
    → NotIn node xs
    → let (lk', l') = link_front lk l node in Represents lk' l' (node ∷ xs)
unfolding link_front
link_front-Represents lk l node [] ((hz, tz), d) nz out =
    subst (λ r. Represents r.0 r.1 (node ∷ []))
      {x = (set_next (set_prev lk node 0) node 0, record { head = node; tail = node })}
      {y = link_front lk l node} (rw hz)
      ((refl, nz, rw (==-self node), (rw (==-self node), refl)), (tt, tt))
link_front-Represents lk l node (x ∷ xs) (s, d) nz out =
    subst (λ r. Represents r.0 r.1 (node ∷ x ∷ xs))
      {x = (
        set_next (set_prev (set_prev lk node 0) l.head node) node l.head,
        record l { head = node },
      )}
      {y = link_front lk l node} (rw (==_ne l.head 0 (λ z. s.1 (sym s.0 ∙ z))))
      (
        (
          refl,
          nz,
          rw (==_ne l.head node (λ e. out.0 (sym e ∙ s.0))) (rw (==-self node)),
          rw (==-self node) (
              set_next-IsSegment (set_prev (set_prev lk node 0) l.head node) node l.head node l.head
                l.tail 0 (x ∷ xs) out
                (relink_start (set_prev lk node 0) 0 node l.head l.tail 0 x xs d.0
                  (set_prev-IsSegment lk node 0 0 l.head l.tail 0 (x ∷ xs) out s))),
        ),
        (out, d),
      )

-- Add_To_Front_Of succeeds on a list that represents `xs` and a node that is not null and not in it,
-- for fuel above the number of nodes, and the result represents the node followed by `xs`.
pub add_to_front_of-Represents :
    (fuel : ℕ) (lk : Links) (l : LinkedList) (node : ℕ) (xs : List ℕ)
    → Represents lk l xs
    → node ≢ 0
    → NotIn node xs
    → length xs < fuel
    → (lk' : Links) × (l' : LinkedList) × (add_to_front_of fuel lk l node ≡ done (lk', l'))
      × Represents lk' l' (node ∷ xs)
unfolding add_to_front_of
add_to_front_of-Represents fuel lk l node xs r nz out h =
    let (lk', l') = link_front lk l node in
    (
      lk',
      l',
      rw (is_member_of-mem fuel lk l node xs r h, mem-NotIn node xs out),
      link_front-Represents lk l node xs r nz out,
    )

pub Distinct-back : (a : ℕ) (xs : List ℕ) → NotIn a xs → Distinct xs → Distinct (xs ++ a ∷ [])
Distinct-back a [] out d = (tt, tt)
Distinct-back a (x ∷ xs) (ne, out) (xo, d) = (back xs xo, Distinct-back a xs out d)
  where
    back : (ys : List ℕ) → NotIn x ys → NotIn x (ys ++ a ∷ [])
    back [] h = (λ e. ne (sym e), tt)
    back (y ∷ ys) (k, h) = (k, back ys h)

link_back-Represents :
    (lk : Links) (l : LinkedList) (node : ℕ) (xs : List ℕ)
    → Represents lk l xs
    → node ≢ 0
    → NotIn node xs
    → let (lk', l') = link_back lk l node in Represents lk' l' (xs ++ node ∷ [])
unfolding link_back
link_back-Represents lk l node [] ((hz, tz), d) nz out =
    subst (λ r. Represents r.0 r.1 (node ∷ []))
      {x = (set_prev (set_next lk node 0) node 0, record { head = node; tail = node })}
      {y = link_back lk l node} (rw tz)
      ((refl, nz, rw (==-self node), (rw (==-self node), refl)), (tt, tt))
link_back-Represents lk l node (x ∷ xs) (s, d) nz out =
    subst (λ r. Represents r.0 r.1 (x ∷ xs ++ node ∷ []))
      {x = (
        set_prev (set_next (set_next lk node 0) l.tail node) node l.tail,
        record l { tail = node },
      )}
      {y = link_back lk l node}
      (rw (==_ne l.tail 0 (segment_last-ne_zero lk 0 l.head l.tail 0 x xs s)))
      (
        IsSegment-append (set_prev (set_next (set_next lk node 0) l.tail node) node l.tail) 0 l.head
            l.tail node node 0 (x ∷ xs) (node ∷ [])
            (set_prev-IsSegment (set_next (set_next lk node 0) l.tail node) node l.tail 0 l.head
              l.tail node (x ∷ xs) out
              (relink_end (set_next lk node 0) 0 l.head l.tail 0 node x xs d
                (set_next-IsSegment lk node 0 0 l.head l.tail 0 (x ∷ xs) out s)))
            (
              refl,
              nz,
              rw (==-self node),
              (
                rw
                    (==_ne l.tail node
                      (λ e. NotIn-last node lk 0 l.head l.tail 0 x xs out s (sym e)))
                    (rw (==-self node)),
                refl,
              ),
            ),
        Distinct-back node (x ∷ xs) out d,
      )

-- Add_To_Back_Of succeeds on a list that represents `xs` and a node that is not null and not in it,
-- for fuel above the number of nodes, and the result represents `xs` followed by the node.
pub add_to_back_of-Represents :
    (fuel : ℕ) (lk : Links) (l : LinkedList) (node : ℕ) (xs : List ℕ)
    → Represents lk l xs
    → node ≢ 0
    → NotIn node xs
    → length xs < fuel
    → (lk' : Links) × (l' : LinkedList) × (add_to_back_of fuel lk l node ≡ done (lk', l'))
      × Represents lk' l' (xs ++ node ∷ [])
unfolding add_to_back_of
add_to_back_of-Represents fuel lk l node xs r nz out h =
    let (lk', l') = link_back lk l node in
    (
      lk',
      l',
      rw (is_member_of-mem fuel lk l node xs r h, mem-NotIn node xs out),
      link_back-Represents lk l node xs r nz out,
    )

-- A node that is in the list already fails the assertion of both.
pub add_member_asserts :
    (fuel : ℕ) (lk : Links) (l : LinkedList) (node : ℕ) (xs : List ℕ)
    → Represents lk l xs
    → mem node xs ≡ true
    → length xs < fuel
    → (add_to_front_of fuel lk l node ≡ assert_failed)
      × (add_to_back_of fuel lk l node ≡ assert_failed)
unfolding add_to_front_of add_to_back_of
add_member_asserts fuel lk l node xs r m h =
    (rw (is_member_of-mem fuel lk l node xs r h, m), rw (is_member_of-mem fuel lk l node xs r h, m))

Distinct-append :
    (xs ys : List ℕ) → Distinct xs → Distinct ys → Disjoint xs ys → Distinct (xs ++ ys)
Distinct-append [] ys d e h = e
Distinct-append (x ∷ xs) ys (out, d) e (nin, h) = (both xs out, Distinct-append xs ys d e h)
  where
    both : (zs : List ℕ) → NotIn x zs → NotIn x (zs ++ ys)
    both [] k = nin
    both (z ∷ zs) (ne, k) = (ne, both zs k)

-- Append of two lists with no node in common never fails an assertion: the first then represents the
-- nodes of both in order, and the second is empty.
pub append-Represents :
    (lk : Links) (l m : LinkedList) (xs ys : List ℕ)
    → Represents lk l xs
    → Represents lk m ys
    → Disjoint xs ys
    → (lk' : Links) × (l' : LinkedList) × (append lk l m ≡ done (lk', l', clear))
      × Represents lk' l' (xs ++ ys)
      × Represents lk' clear []
unfolding append
append-Represents lk l m xs [] r (s, e) h =
    (lk, l, rw s.0, subst (Represents lk l) (sym (append-nil xs)) r, ((refl, refl), tt))
append-Represents lk l m [] (y ∷ ys) (r, d) (s, e) h = (
  lk,
  record { head = m.head; tail = m.tail },
  rw (==_ne m.head 0 (λ z. s.1 (sym s.0 ∙ z))) (rw r.0),
  (s, e),
  ((refl, refl), tt),
)
append-Represents lk l m (x ∷ xs) (y ∷ ys) (r, d) (s, e) h = (
  set_next (set_prev lk m.head l.tail) l.tail m.head,
  record l { tail = m.tail },
  rw (==_ne m.head 0 (λ z. s.1 (sym s.0 ∙ z))) (
      rw (==_ne l.head 0 (λ z. r.1 (sym r.0 ∙ z)))
        (rw (==_ne l.tail 0 (segment_last-ne_zero lk 0 l.head l.tail 0 x xs r)))),
  (
    IsSegment-append _ 0 l.head l.tail m.tail m.head 0 (x ∷ xs) (y ∷ ys)
        (relink_end (set_prev lk m.head l.tail) 0 l.head l.tail 0 m.head x xs d (
          set_prev-IsSegment lk m.head l.tail 0 l.head l.tail 0 (x ∷ xs)
            (subst (λ a. NotIn a (x ∷ xs)) (sym s.0) (Disjoint-head y ys (x ∷ xs) h)) r))
        (set_next-IsSegment (set_prev lk m.head l.tail) l.tail m.head l.tail m.head m.tail 0
          (y ∷ ys) (Disjoint-last lk 0 l.head l.tail 0 x xs (y ∷ ys) r h)
          (relink_start lk 0 l.tail m.head m.tail 0 y ys e.0 s)),
    Distinct-append (x ∷ xs) (y ∷ ys) d e h,
  ),
  ((refl, refl), tt),
)
