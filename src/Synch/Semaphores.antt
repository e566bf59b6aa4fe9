-- ===== src/Synch/Semaphores.antt =====
-- The named semaphores of src/geekos/synch.c.
pub mod Naming
use geekos.Base.{
  ◌==◌, if◌then◌else◌, ℕ, ◌+◌, ◌-◌, ◌%◌, ◌^◌, Bool, true, false, Option, none, some, List, [], ◌∷◌,
  ◌++◌,
}
use geekos.Base.Outcome.{Outcome, done, ◌>>=◌, ◌>>◌}
use geekos.CString.{strcmp, strcpy}
use geekos.Synch.{
  Progress, finished, waiting, World, set_interrupts, mutex_lock, mutex_unlock, cond_wait,
  cond_broadcast,
}

pub record Semaphore : Type 0 where
  pub count : ℕ
  pub sid : ℕ
  pub name : List ℕ
  pub ref_count : ℕ
  pub mutex : ℕ
  pub cond : ℕ

-- s_semaphoreList and the static counter. `slots` is the table of the calling process; 0 is a free slot.
pub record Table : Type 0 where
  pub semaphores : List Semaphore
  pub next_sid : ℕ
  pub slots : List ℕ

-- One round of the search by name, with the result of the rest: `none` is a read beyond the end of a
-- string.
abbrev pub compare_name : Option ℕ → ℕ → Option (Option ℕ) → Option (Option ℕ)
compare_name none sid rest = none
compare_name (some n) sid rest = if n == 0 then some (some sid) else rest

unfoldable pub find_name : List Semaphore → List ℕ → Option (Option ℕ)
find_name [] name = some none
find_name (s ∷ ss) name = compare_name (strcmp s.name name) s.sid (find_name ss name)

unfoldable pub find_sid : List Semaphore → ℕ → Option Semaphore
find_sid [] sid = none
find_sid (s ∷ ss) sid = if s.sid == sid then some s else find_sid ss sid

-- A change of the semaphore that the search by `sid` finds.
unfoldable pub change : (Semaphore → Semaphore) → List Semaphore → ℕ → List Semaphore
change f [] sid = []
change f (s ∷ ss) sid = if s.sid == sid then f s ∷ ss else s ∷ change f ss sid

unfoldable pub remove_sid : List Semaphore → ℕ → List Semaphore
remove_sid [] sid = []
remove_sid (s ∷ ss) sid = if s.sid == sid then ss else s ∷ remove_sid ss sid

-- The first slot that holds `a` is overwritten.
unfoldable pub replace_slot : ℕ → ℕ → List ℕ → List ℕ
replace_slot a b [] = []
replace_slot a b (x ∷ xs) = if x == a then b ∷ xs else x ∷ replace_slot a b xs

-- sema->refCount++
abbrev pub count_reference : Semaphore → Semaphore
count_reference s = record s { ref_count = (s.ref_count + 1) % 2 ^ 32 }

-- A semaphore that was found by its name.
unfoldable pub share : Table → ℕ → ℕ × Table
share tb sid = (sid, record tb { semaphores = change count_reference tb.semaphores sid })

-- `fresh` is the memory that Malloc gives, with its mutex and its condition.
unfoldable pub add_semaphore : Semaphore → Table → List ℕ → ℕ → ℕ × Table
add_semaphore fresh tb name ival = (
  tb.next_sid,
  record tb {
    semaphores =
        tb.semaphores
        ++ record fresh {
          sid = tb.next_sid;
          name = name;
          count = ival;
          ref_count = (fresh.ref_count + 1) % 2 ^ 32;
        }
          ∷ [];
    next_sid = (tb.next_sid + 1) % 2 ^ 32;
    slots = replace_slot 0 tb.next_sid tb.slots;
  },
)

unfoldable pub create_semaphore : Semaphore → Table → List ℕ → ℕ → Option (ℕ × Table)
unfolding share add_semaphore
create_semaphore fresh tb name ival = elim (find_name tb.semaphores name) [
  | none ↦ none
  | some (some sid) ↦ some (share tb sid)
  | some none ↦ elim (strcpy fresh.name name) [
    | none ↦ none
    | some copy ↦ some (add_semaphore fresh tb copy ival)
  ]
]

-- True for 0, false for -1.
unfoldable pub destroy_semaphore : Table → ℕ → Bool × Table
destroy_semaphore tb sid = elim (find_sid tb.semaphores sid) [
  | none ↦ (false, tb)
  | some s ↦
      let count = (s.ref_count + 2 ^ 32 - 1) % 2 ^ 32 in
      (
        true,
        record tb {
          semaphores =
              if count == 0
              then remove_sid tb.semaphores sid
              else change (λ x. record x { ref_count = count }) tb.semaphores sid;
          slots = replace_slot sid 0 tb.slots;
        },
      )
]

-- P and V up to the end of Mutex_Lock, `none` for -1.
unfoldable pub enter : World → Table → ℕ → Outcome (Option (Progress × World))
enter w tb sid = elim (find_sid tb.semaphores sid) [
  | none ↦ done none
  | some s ↦ do r ← mutex_lock (set_interrupts w true) s.mutex; done (some r)
]

-- P once the mutex was acquired, also after a wait: the test of the loop and what follows.
unfoldable pub p_body : World → Semaphore → Outcome (Progress × World × Semaphore)
p_body w s =
    if s.count == 0 then (do w' ← cond_wait w s.cond s.mutex; done (waiting, w', s)) else (do
      w' ← mutex_unlock w s.mutex
      done (finished, set_interrupts w' false, record s { count = s.count - 1 }))

unfoldable pub v_body : World → Semaphore → Outcome (World × Semaphore)
v_body w s = do
  w₁ ← cond_broadcast w s.cond
  w₂ ← mutex_unlock w₁ s.mutex
  done (set_interrupts w₂ false, record s { count = (s.count + 1) % 2 ^ 32 })
