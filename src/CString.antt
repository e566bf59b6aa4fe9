-- ===== src/CString.antt =====
-- src/common/string.c: the functions on strings.
-- A pointer is the list of the bytes from it to the end of its object. `none` is a read or a write
-- beyond that end. An `int` result is its 32-bit word.
pub mod Memory
pub mod Compare
pub mod Copy
mod Tests
use geekos.Base.{
  ltb, leb, ◌==◌, if◌then◌else◌, get_or, ℕ, zero, suc, ◌+◌, ◌-◌, ◌*◌, ◌%◌, ◌^◌, not, ◌&&◌, ◌||◌,
  Option, none, some, List, [], ◌∷◌,
}

abbrev pub map_option {ℓ κ} : {A : Type ℓ} {B : Type κ} → (A → B) → Option A → Option B
map_option f none = none
map_option f (some a) = some (f a)

-- `*s1 - *s2`, where a char is signed.
unfoldable pub char_diff : ℕ → ℕ → ℕ
char_diff a b = (sign_extend a + 2 ^ 32 - sign_extend b) % 2 ^ 32
  where
    sign_extend : ℕ → ℕ
    sign_extend c = if ltb c 128 then c else c + (2 ^ 32 - 256)

unfoldable pub strlen : List ℕ → Option ℕ
strlen [] = none
strlen (c ∷ s) = let rest = strlen s in if c == 0 then some 0 else map_option suc rest

unfoldable pub strnlen : List ℕ → ℕ → Option ℕ
strnlen s zero = some 0
strnlen [] (suc n) = none
strnlen (c ∷ s) (suc n) = let rest = strnlen s n in if c == 0 then some 0 else map_option suc rest

-- The loop of memcmp while `n > 0`, which the loop does not change.
unfoldable pub memcmp_loop : List ℕ → List ℕ → Option ℕ
memcmp_loop [] t = none
memcmp_loop (a ∷ s) [] = none
memcmp_loop (a ∷ s) (b ∷ t) =
    let rest = memcmp_loop s t in if char_diff a b == 0 then rest else some (char_diff a b)

unfoldable pub memcmp : List ℕ → List ℕ → ℕ → Option ℕ
memcmp s t n = if n == 0 then some 0 else memcmp_loop s t

unfoldable pub strcmp : List ℕ → List ℕ → Option ℕ
strcmp [] t = none
strcmp (a ∷ s) [] = none
strcmp (a ∷ s) (b ∷ t) =
    let rest = strcmp s t in
    if not (char_diff a b == 0) || (a == 0) || (b == 0) then some (char_diff a b) else rest

unfoldable pub strncmp : List ℕ → List ℕ → ℕ → Option ℕ
strncmp s t zero = some 0
strncmp [] t (suc n) = none
strncmp (a ∷ s) [] (suc n) = none
strncmp (a ∷ s) (b ∷ t) (suc n) =
    let rest = strncmp s t n in
    if not (char_diff a b == 0) || (a == 0) || (b == 0) then some (char_diff a b) else rest

-- The copying functions return the destination as it is afterwards.
unfoldable pub strcpy : List ℕ → List ℕ → Option (List ℕ)
strcpy dest [] = none
strcpy [] (c ∷ src) = none
strcpy (d ∷ dest) (c ∷ src) =
    let rest = strcpy dest src in if c == 0 then some (0 ∷ dest) else map_option (λ r. c ∷ r) rest

-- From the end of the first string on, the loop is that of strcpy.
unfoldable pub strcat : List ℕ → List ℕ → Option (List ℕ)
strcat [] t = none
strcat (c ∷ s) t =
    let rest = strcat s t in if c == 0 then strcpy (c ∷ s) t else map_option (λ r. c ∷ r) rest

unfoldable pub strncpy : List ℕ → List ℕ → ℕ → Option (List ℕ)
strncpy dest [] limit = none
strncpy dest (c ∷ src) zero = some dest
strncpy [] (c ∷ src) (suc limit) = none
strncpy (d ∷ dest) (c ∷ src) (suc limit) =
    let rest = strncpy dest src limit in
    if c == 0 then some (0 ∷ dest) else map_option (λ r. c ∷ r) rest

unfoldable pub atoi_loop : ℕ → List ℕ → Option ℕ
atoi_loop ret [] = none
atoi_loop ret (c ∷ buf) =
    let rest = atoi_loop ((ret * 10 + (c - 48)) % 2 ^ 32) buf in
    if leb 48 c && leb c 57 then rest else some ret

unfoldable pub atoi : List ℕ → Option ℕ
atoi buf = atoi_loop 0 buf

-- The searches return an index, or `none` for a null pointer.
unfoldable pub strchr : List ℕ → ℕ → Option (Option ℕ)
strchr [] c = none
strchr (x ∷ s) c =
    let rest = strchr s c in
    if x == 0
    then some none
    else (if x == c then some (some 0) else map_option (map_option suc) rest)

-- The loop of strrchr, from the index `p` down.
unfoldable pub strrchr_loop : List ℕ → ℕ → ℕ → Option ℕ
strrchr_loop s zero c = none
strrchr_loop s (suc p) c =
    let rest = strrchr_loop s p c in if get_or s p 0 == c then some p else rest

unfoldable pub strrchr : List ℕ → ℕ → Option (Option ℕ)
strrchr s c = map_option (λ len. strrchr_loop s len c) (strlen s)
