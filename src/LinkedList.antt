-- ===== src/LinkedList.antt =====
-- include/geekos/list.h: the doubly linked lists that IMPLEMENT_LIST defines for a list type and a
-- node type. A node is its address, 0 is the null pointer, and the two link fields that the macro
-- names are functions of the address, since several lists of one type share them.
pub mod Segment
pub mod Insert
pub mod Remove
mod Tests
use geekos.Base.{◌==◌, if◌then◌else◌, ℕ, zero, suc, Bool, true, false, not}
use geekos.Base.Outcome.{Outcome, done, out_of_fuel, kassert, ◌>>=◌, ◌>>◌}

-- The fields of DEFINE_LINK.
pub record Links : Type 0 where
  pub prev : ℕ → ℕ
  pub next : ℕ → ℕ

-- The struct of DEFINE_LIST.
pub record LinkedList : Type 0 where
  pub head : ℕ
  pub tail : ℕ

abbrev pub update : (ℕ → ℕ) → ℕ → ℕ → ℕ → ℕ
update f a v i = if a == i then v else f i

-- Set_Next_In and Set_Prev_In.
abbrev pub set_next : Links → ℕ → ℕ → Links
set_next lk node value = record lk { next = update lk.next node value }

abbrev pub set_prev : Links → ℕ → ℕ → Links
set_prev lk node value = record lk { prev = update lk.prev node value }

-- Clear
abbrev pub clear : LinkedList
clear = record { head = 0; tail = 0 }

-- Is_Empty
unfoldable pub is_empty : LinkedList → Bool
is_empty l = l.head == 0

-- Is_Member_Of, with fuel for the loop.
unfoldable pub is_member_from : ℕ → Links → ℕ → ℕ → Outcome Bool
is_member_from zero lk cur node = out_of_fuel
is_member_from (suc fuel) lk cur node =
    let rest = is_member_from fuel lk (lk.next cur) node in
    if cur == 0 then done false else if cur == node then done true else rest

unfoldable pub is_member_of : ℕ → Links → LinkedList → ℕ → Outcome Bool
is_member_of fuel lk l node = is_member_from fuel lk l.head node

link_front : Links → LinkedList → ℕ → Links × LinkedList
link_front lk l node =
    let cleared = set_prev lk node 0 in
    if l.head == 0
    then (set_next cleared node 0, record { head = node; tail = node })
    else (set_next (set_prev cleared l.head node) node l.head, record l { head = node })

unfoldable pub add_to_front_of : ℕ → Links → LinkedList → ℕ → Outcome (Links × LinkedList)
unfolding link_front
add_to_front_of fuel lk l node = do
  member ← is_member_of fuel lk l node
  kassert (not member)
  done (link_front lk l node)

link_back : Links → LinkedList → ℕ → Links × LinkedList
link_back lk l node =
    let cleared = set_next lk node 0 in
    if l.tail == 0
    then (set_prev cleared node 0, record { head = node; tail = node })
    else (set_prev (set_next cleared l.tail node) node l.tail, record l { tail = node })

unfoldable pub add_to_back_of : ℕ → Links → LinkedList → ℕ → Outcome (Links × LinkedList)
unfolding link_back
add_to_back_of fuel lk l node = do
  member ← is_member_of fuel lk l node
  kassert (not member)
  done (link_back lk l node)

-- Append: the links, the list that grows and the list that is emptied.
unfoldable pub append : Links → LinkedList → LinkedList → Outcome (Links × LinkedList × LinkedList)
append lk modified appended =
    if not (appended.head == 0)
    then (if modified.head == 0
        then done (lk, record { head = appended.head; tail = appended.tail }, clear)
        else do
          kassert (not (appended.head == 0))
          kassert (not (modified.tail == 0))
          done (
            set_next (set_prev lk appended.head modified.tail) modified.tail appended.head,
            record modified { tail = appended.tail },
            clear,
          ))
    else done (lk, modified, clear)

-- Remove_From_Front_Of: the node too.
unfoldable pub remove_from_front_of : Links → LinkedList → Outcome (ℕ × Links × LinkedList)
remove_from_front_of lk l = do
  kassert (not (l.head == 0))
  let rest = lk.next l.head
  (if rest == 0
      then done (l.head, lk, record { head = rest; tail = 0 })
      else done (l.head, set_prev lk rest 0, record l { head = rest }))

unlink_prev : Links → LinkedList → ℕ → Links × LinkedList
unlink_prev lk l node =
    if not (lk.prev node == 0)
    then (set_next lk (lk.prev node) (lk.next node), l)
    else (lk, record l { head = lk.next node })

unlink_next : Links × LinkedList → ℕ → Links × LinkedList
unlink_next (lk, l) node =
    if not (lk.next node == 0)
    then (set_prev lk (lk.next node) (lk.prev node), l)
    else (lk, record l { tail = lk.prev node })

unfoldable pub remove_from : ℕ → Links → LinkedList → ℕ → Outcome (Links × LinkedList)
unfolding unlink_prev unlink_next
remove_from fuel lk l node = do
  member ← is_member_of fuel lk l node
  kassert member
  done (unlink_next (unlink_prev lk l node) node)
