-- ===== src/Blockdev.antt =====
-- src/geekos/blockdev.c: the list of block devices. A device is known by its place in the list, and the
-- driver's functions are a parameter. The mutex of the list makes each function one step. `none` is a
-- failed KASSERT or a read beyond the end of a string.
pub mod Requests
pub mod Delivery
mod Tests
use geekos.Base.{
  ◌==◌, if◌then◌else◌, get_elem?, set, ℕ, suc, Bool, true, false, not, Option, none, some, List, [],
  ◌∷◌, ◌++◌,
}
use geekos.CString.{strcmp, strcpy}
use geekos.Errno.{Rc, ok, enodev, ebusy, enomem, is_ok}

pub record BlockDevice : Type 0 where
  pub name : List ℕ
  pub unit : ℕ
  pub in_use : Bool

-- The driver's Open and Close, on the unit.
pub record Driver : Type 0 where
  pub open_unit : ℕ → Rc
  pub close_unit : ℕ → Rc

-- `fresh` is the name field of the memory that Malloc gives.
unfoldable pub register_block_device :
    Option (List ℕ) → List BlockDevice → List ℕ → ℕ → Option (Rc × List BlockDevice)
register_block_device none devices name unit = some (enomem, devices)
register_block_device (some fresh) devices name unit = elim (strcpy fresh name) [
  | none ↦ none
  | some copy ↦ some (ok, devices ++ record { name = copy; unit = unit; in_use = false } ∷ [])
]

-- One round of the search by name, with the result of the rest.
abbrev pub compare_device : Option ℕ → Option (Option ℕ) → Option (Option ℕ)
compare_device none rest = none
compare_device (some n) rest =
    if n == 0
    then some (some 0)
    else elim rest [ none ↦ none | some none ↦ some none | some (some i) ↦ some (some (suc i)) ]

unfoldable pub find_device : List BlockDevice → List ℕ → Option (Option ℕ)
find_device [] name = some none
find_device (d ∷ ds) name = compare_device (strcmp d.name name) (find_device ds name)

abbrev pub set_in_use : List BlockDevice → ℕ → BlockDevice → Bool → List BlockDevice
set_in_use devices i d b = set devices i (record d { in_use = b })

-- The device at the place `i`: the code, and the devices.
unfoldable pub open_found : Driver → List BlockDevice → ℕ → BlockDevice → Rc × List BlockDevice
open_found driver devices i d =
    if d.in_use
    then (ebusy, devices)
    else (if is_ok (driver.open_unit d.unit)
        then (ok, set_in_use devices i d true)
        else (driver.open_unit d.unit, devices))

unfoldable pub open_block_device :
    Driver → List BlockDevice → List ℕ → Option (Rc × Option ℕ × List BlockDevice)
unfolding open_found
open_block_device driver devices name = elim (find_device devices name) [
  | none ↦ none
  | some none ↦ some (enodev, none, devices)
  | some (some i) ↦ elim (get_elem? devices i) [
    | none ↦ none
    | some d ↦
        let (rc, devices') = open_found driver devices i d in
        some (rc, (if is_ok rc then some i else none), devices')
  ]
]

unfoldable pub close_found :
    Driver → List BlockDevice → ℕ → BlockDevice → Option (Rc × List BlockDevice)
close_found driver devices i d =
    if not d.in_use
    then none
    else some (
      driver.close_unit d.unit,
      (if is_ok (driver.close_unit d.unit) then set_in_use devices i d false else devices),
    )

unfoldable pub close_block_device : Driver → List BlockDevice → ℕ → Option (Rc × List BlockDevice)
unfolding close_found
close_block_device driver devices i = elim (get_elem? devices i) [
  | none ↦ none
  | some d ↦ close_found driver devices i d
]
