-- ===== src/LinkedList/Tests.antt =====
-- The linked list at concrete inputs.
use geekos.Base.{◌==◌, if◌then◌else◌, ◌≡◌, refl, true, false, [], ◌∷◌, arith}
use geekos.Base.Outcome.{done}
use geekos.LinkedList.{Links, LinkedList, is_member_of, is_member_from, remove_from, is_empty}
use geekos.LinkedList.Segment.{Represents}
use geekos.LinkedList.Remove.{remove_from-Represents}

-- The nodes 3, 5 and 7 in a list, and 9 in another.
abbrev chain : Links
chain = record {
  prev = λ a. if a == 5 then 3 else if a == 7 then 5 else 0;
  next = λ a. if a == 3 then 5 else if a == 5 then 7 else 0;
}

abbrev three : LinkedList
three = record { head = 3; tail = 7 }

abbrev one : LinkedList
one = record { head = 9; tail = 9 }

three-Represents : Represents chain three (3 ∷ 5 ∷ 7 ∷ [])
three-Represents = ground arith

one-Represents : Represents chain one (9 ∷ [])
one-Represents = ground arith

members :
    (is_member_of 4 chain three 7 ≡ done true)
    × (is_member_of 4 chain three 9 ≡ done false)
    × (is_empty three ≡ false)
unfolding is_member_of is_member_from is_empty
members = (refl, refl, refl)

remove_from-Represents_example :
    (lk : Links) × (l : LinkedList) × (remove_from 4 chain three 5 ≡ done (lk, l))
    × Represents lk l (3 ∷ 7 ∷ [])
remove_from-Represents_example =
    remove_from-Represents 4 chain three 5 (3 ∷ []) (7 ∷ []) three-Represents (omega arith)
