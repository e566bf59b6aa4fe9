-- ===== src/Synch/Semaphores/Naming.antt =====
-- A semaphore is shared by its name.
use geekos.Base.{
  ◌==◌, ==_iff, ==_ne, Bool-cases, length, drop, All, ℕ, suc, ◌+◌, ◌%◌, ◌^◌, ◌<◌, ◌≡◌, refl, sym,
  ap, ◌∙◌, ◌↔◌, ◌⊎◌, inl, inr, Option, none, some, List, [], ◌∷◌, ◌++◌, arith,
}
use geekos.CString.{strcmp, strcpy}
use geekos.CString.Copy.{strcpy_lem}
use geekos.CString.Compare.{NonZero, strcmp-zero_iff}
use geekos.Synch.Semaphores.{
  Table, share, add_semaphore, count_reference, create_semaphore, compare_name, change, Semaphore,
  find_name,
}

-- Every semaphore has a string for its name.
abbrev pub IsNamed : Semaphore → Type 0
IsNamed s = (p : List ℕ) × (r : List ℕ) × NonZero p × (s.name ≡ p ++ 0 ∷ r)

-- The search that meets a semaphore of the name asked for, or one of another name.
find_name-cons :
    (s : Semaphore) (ss : List Semaphore) (p r : List ℕ)
    → IsNamed s
    → NonZero p
    → (find_name (s ∷ ss) (p ++ 0 ∷ r) ≡ some (some s.sid))
      ⊎ (find_name (s ∷ ss) (p ++ 0 ∷ r) ≡ find_name ss (p ++ 0 ∷ r))
unfolding find_name
find_name-cons s ss p r (q, x, nz, e) k =
    let (n, cmp, same) = strcmp-zero_iff q p x r nz k in
    let met = ap (λ l. strcmp l (p ++ 0 ∷ r)) e ∙ cmp in
    elim (Bool-cases (n == 0)) [
      | inl z ↦ inl (rw (find_name, met, z) refl)
      | inr z ↦ inr (rw (find_name, met, z) refl)
    ]

found-or-not :
    (ss : List Semaphore) (p r : List ℕ)
    → All IsNamed ss
    → NonZero p
    → (find_name ss (p ++ 0 ∷ r) ≡ some none)
      ⊎ ((sid : ℕ) × (find_name ss (p ++ 0 ∷ r) ≡ some (some sid)))
unfolding find_name
found-or-not [] p r h k = inl refl
found-or-not (s ∷ ss) p r (h, hs) k = elim (find_name-cons s ss p r h k) [
  | inl e ↦ inr (s.sid, e)
  | inr e ↦ elim (found-or-not ss p r hs k) [
    | inl f ↦ inl (e ∙ f)
    | inr (sid, f) ↦ inr (sid, e ∙ f)
  ]
]

find_name-round :
    (s : Semaphore) (ss : List Semaphore) (name : List ℕ)
    → find_name (s ∷ ss) name ≡ compare_name (strcmp s.name name) s.sid (find_name ss name)
unfolding find_name
find_name-round s ss name = refl

-- A change that keeps the names and the numbers does not change what the search finds.
find_name-change :
    (f : Semaphore → Semaphore) (ss : List Semaphore) (sid : ℕ) (name : List ℕ)
    → ((s : Semaphore) → ((f s).name ≡ s.name) × ((f s).sid ≡ s.sid))
    → find_name (change f ss sid) name ≡ find_name ss name
unfolding change
find_name-change f [] sid name same = refl
find_name-change f (s ∷ ss) sid name same = elim (Bool-cases (s.sid == sid)) [
  | inl z ↦
      rw z (cc (find_name-round (f s) ss name, find_name-round s ss name, (same s).0, (same s).1))
  | inr z ↦ rw z (
      cc (
        find_name-round s (change f ss sid) name,
        find_name-round s ss name,
        find_name-change f ss sid name same,
      ))
]

zero_test : (a b : ℕ) → (a ≡ 0) ↔ (b ≡ 0) → (a == 0) ≡ (b == 0)
zero_test a b i = elim (Bool-cases (a == 0)) [
  | inl z ↦ ground (arith, z, i.0 ((==_iff a 0).0 z))
  | inr z ↦ z ∙ sym (==_ne b 0 (λ e. absurd (ground (arith, z, i.1 e))))
]

-- The characters behind the nul of the name make no difference.
find_name-tail :
    (ss : List Semaphore) (p r x : List ℕ)
    → All IsNamed ss
    → NonZero p
    → find_name ss (p ++ 0 ∷ r) ≡ find_name ss (p ++ 0 ∷ x)
unfolding find_name
find_name-tail [] p r x h k = refl
find_name-tail (s ∷ ss) p r x ((q, y, nz, e), hs) k =
    let (n, cmp, i) = strcmp-zero_iff q p y r nz k in
    let (m, cmp', j) = strcmp-zero_iff q p y x nz k in
    let met = ap (λ l. strcmp l (p ++ 0 ∷ r)) e ∙ cmp in
    let met' = ap (λ l. strcmp l (p ++ 0 ∷ x)) e ∙ cmp' in
    rw
      (
        find_name,
        met,
        met',
        zero_test n m (λ z. j.1 (i.0 z), λ z. i.1 (j.0 z)),
        find_name-tail ss p r x hs k,
      )
      refl

length-change :
    (f : Semaphore → Semaphore) (ss : List Semaphore) (sid : ℕ)
    → length (change f ss sid) ≡ length ss
unfolding change
length-change f [] sid = refl
length-change f (s ∷ ss) sid = elim (Bool-cases (s.sid == sid)) [
  | inl z ↦ rw z refl
  | inr z ↦ rw z (ap suc (length-change f ss sid))
]

some-none : {o : Option (Option ℕ)} {sid : ℕ} → o ≡ some none → o ≡ some (some sid) → ⊥
some-none e f = cc

find_name-add :
    (ss : List Semaphore) (s : Semaphore) (p r x : List ℕ)
    → All IsNamed ss
    → NonZero p
    → s.name ≡ p ++ 0 ∷ x
    → find_name ss (p ++ 0 ∷ r) ≡ some none
    → find_name (ss ++ s ∷ []) (p ++ 0 ∷ r) ≡ some (some s.sid)
unfolding find_name
find_name-add [] s p r x h k e absent =
    let (n, cmp, same) = strcmp-zero_iff p p x r k k in
    rw (find_name, ap (λ l. strcmp l (p ++ 0 ∷ r)) e ∙ cmp, same.1 refl) refl
find_name-add (t ∷ ss) s p r x ((q, y, nz, f), hs) k e absent =
    let (n, cmp, same) = strcmp-zero_iff q p y r nz k in
    let met = ap (λ l. strcmp l (p ++ 0 ∷ r)) f ∙ cmp in
    let hit =
      find_name-round t ss (p ++ 0 ∷ r)
      ∙ ap (λ c. compare_name c t.sid (find_name ss (p ++ 0 ∷ r))) met in
    elim (Bool-cases (n == 0)) [
      | inl z ↦ absurd (some-none {sid = t.sid} absent (hit ∙ rw z refl))
      | inr z ↦
          rw (find_name, met, z) (find_name-add ss s p r x hs k e (sym (hit ∙ rw z refl) ∙ absent))
    ]

again :
    (tb : Table) (fresh : Semaphore) (name : List ℕ) (ival sid : ℕ)
    → find_name tb.semaphores name ≡ some (some sid)
    → create_semaphore fresh tb name ival ≡ some (share tb sid)
unfolding create_semaphore
again tb fresh name ival sid f = rw (create_semaphore, f) refl

first :
    (tb : Table) (fresh : Semaphore) (name copy : List ℕ) (ival : ℕ)
    → find_name tb.semaphores name ≡ some none
    → strcpy fresh.name name ≡ some copy
    → create_semaphore fresh tb name ival ≡ some (add_semaphore fresh tb copy ival)
unfolding create_semaphore
first tb fresh name copy ival f c = rw (create_semaphore, f, c) refl

-- Create_Semaphore with the name of a string, twice: the second call gives the number that the first
-- one gave, and adds no semaphore.
pub create_semaphore-shares :
    (tb : Table) (fresh₁ fresh₂ : Semaphore) (p r₁ r₂ : List ℕ) (ival₁ ival₂ : ℕ)
    → All IsNamed tb.semaphores
    → NonZero p
    → length p < length fresh₁.name
    → (sid : ℕ) × (tb₁ : Table) × (tb₂ : Table) × (create_semaphore fresh₁ tb (p ++ 0 ∷ r₁) ival₁
        ≡ some (sid, tb₁))
      × (create_semaphore fresh₂ tb₁ (p ++ 0 ∷ r₂) ival₂ ≡ some (sid, tb₂))
      × (length tb₂.semaphores ≡ length tb₁.semaphores)
unfolding share add_semaphore
create_semaphore-shares tb fresh₁ fresh₂ p r₁ r₂ ival₁ ival₂ h k room =
    elim (found-or-not tb.semaphores p r₁ h k) [
      | inr (sid, f) ↦
          let tb₁ = (share tb sid).1 in
          (
            sid,
            tb₁,
            (share tb₁ sid).1,
            again tb fresh₁ (p ++ 0 ∷ r₁) ival₁ sid f,
            again tb₁ fresh₂ (p ++ 0 ∷ r₂) ival₂ sid (
                find_name-change count_reference tb.semaphores sid (p ++ 0 ∷ r₂) (λ s. (refl, refl))
                ∙ find_name-tail tb.semaphores p r₂ r₁ h k
                ∙ f),
            length-change count_reference tb₁.semaphores sid,
          )
      | inl f ↦
          let copy = p ++ 0 ∷ drop (suc (length p)) fresh₁.name in
          let tb₁ = (add_semaphore fresh₁ tb copy ival₁).1 in
          (
            tb.next_sid,
            tb₁,
            (share tb₁ tb.next_sid).1,
            first tb fresh₁ (p ++ 0 ∷ r₁) copy ival₁ f (strcpy_lem p r₁ fresh₁.name k room),
            again tb₁ fresh₂ (p ++ 0 ∷ r₂) ival₂ tb.next_sid (
                find_name-add tb.semaphores
                  (record fresh₁ {
                    count = ival₁;
                    sid = tb.next_sid;
                    name = copy;
                    ref_count = (fresh₁.ref_count + 1) % 2 ^ 32;
                  })
                  p r₂ (drop (suc (length p)) fresh₁.name) h k refl
                  (find_name-tail tb.semaphores p r₂ r₁ h k ∙ f)),
            length-change count_reference tb₁.semaphores tb.next_sid,
          )
    ]
