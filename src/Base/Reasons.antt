-- ===== src/Base/Reasons.antt =====
-- What running kernel code comes to where more can go wrong: a result, or the reason for which it has
-- none.
use mathlib.Core.Option.{Option, none, some}
use mathlib.Core.Bool.{Bool, true, false}

-- A failed KASSERT, a wait for a buffer that the caller itself keeps, an access outside an object, the
-- use of a pointer that is null or not set, or no end within the fuel.
pub data Reason : Type 0 where
  failed_kassert waits_for_itself out_of_bounds wild_pointer out_of_fuel : Reason

pub data Run {ℓ} (A : Type ℓ) : Type ℓ where
  done : A → Run A
  stop : Reason → Run A

infixl 5 ◌>>=◌ ◌>>◌
abbrev pub ◌>>=◌ {ℓ κ} : {A : Type ℓ} {B : Type κ} → Run A → (A → Run B) → Run B
done a >>= f = f a
stop r >>= f = stop r

abbrev pub ◌>>◌ {ℓ} : {B : Type ℓ} → Run (Unit {0}) → Run B → Run B
m >> k = m >>= λ _. k

abbrev pub kassert : Bool → Run (Unit {0})
kassert true = done tt
kassert false = stop failed_kassert

-- Reads and writes beyond the end of a string or an array.
abbrev pub in_bounds {ℓ} : {A : Type ℓ} → Option A → Run A
in_bounds none = stop out_of_bounds
in_bounds (some a) = done a

-- What holds of the result, if there is one.
abbrev pub Ends {ℓ} : {A : Type ℓ} → (A → Type 0) → Run A → Type 0
Ends P (done a) = P a
Ends P (stop r) = Unit

pub Ends-bind {ℓ κ} :
    {A : Type ℓ} {B : Type κ} (Q : B → Type 0) (m : Run A) (f : A → Run B)
    → ((a : A) → Ends Q (f a))
    → Ends Q (m >>= f)
Ends-bind Q (done a) f k = k a
Ends-bind Q (stop r) f k = tt

pub Ends-then {ℓ κ} :
    {A : Type ℓ} {B : Type κ} (P : A → Type 0) (Q : B → Type 0) (m : Run A) (f : A → Run B)
    → Ends P m
    → ((a : A) → P a → Ends Q (f a))
    → Ends Q (m >>= f)
Ends-then P Q (done a) f h k = k a h
Ends-then P Q (stop r) f h k = tt

-- There is a result, and it holds of it.
abbrev pub Total {ℓ} : {A : Type ℓ} → (A → Type 0) → Run A → Type 0
Total P (done a) = P a
Total P (stop r) = ⊥

pub Total-bind {ℓ κ} :
    {A : Type ℓ} {B : Type κ} (P : A → Type 0) (Q : B → Type 0) (m : Run A) (f : A → Run B)
    → Total P m
    → ((a : A) → P a → Total Q (f a))
    → Total Q (m >>= f)
Total-bind P Q (done a) f h k = k a h
Total-bind P Q (stop r) f h k = h
