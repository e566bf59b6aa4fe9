-- ===== src/CString/Copy.antt =====
-- Copies of strings.
use geekos.Base.{
  length, take, drop, ℕ, zero, suc, ◌≤◌, ◌<◌, ◌≡◌, refl, some, List, [], ◌∷◌, ◌++◌, arith,
}
use geekos.CString.{strcpy, strcat, strncpy}
use geekos.CString.Compare.{NonZero, nonzero}

-- strcpy into an object with room for the characters and the nul writes just these.
pub strcpy_lem :
    (xs r dest : List ℕ)
    → NonZero xs
    → length xs < length dest
    → strcpy dest (xs ++ 0 ∷ r) ≡ some (xs ++ 0 ∷ drop (suc (length xs)) dest)
unfolding strcpy
strcpy_lem xs r [] h lt = elim lt [ ]
strcpy_lem [] r (d ∷ dest) h lt = refl
strcpy_lem (x ∷ xs) r (d ∷ dest) (h, hs) lt =
    rw (nonzero x h, strcpy_lem xs r dest hs (omega arith)) refl

-- strcat puts the characters of the second string and a nul behind those of the first, if there is room
-- for them.
pub strcat_lem :
    (xs ys r ds : List ℕ)
    → NonZero xs
    → NonZero ys
    → length ys ≤ length ds
    → strcat (xs ++ 0 ∷ ds) (ys ++ 0 ∷ r) ≡ some (xs ++ ys ++ 0 ∷ drop (length ys) ds)
unfolding strcat
strcat_lem [] ys r ds h k le = strcpy_lem ys r (0 ∷ ds) k (omega arith)
strcat_lem (x ∷ xs) ys r ds (h, hs) k le = rw (nonzero x h, strcat_lem xs ys r ds hs k le) refl

-- strncpy of a string that is not shorter than the limit copies as many characters and writes no nul.
pub strncpy-unterminated :
    (xs r dest : List ℕ) (limit : ℕ)
    → NonZero xs
    → limit ≤ length xs
    → limit ≤ length dest
    → strncpy dest (xs ++ 0 ∷ r) limit ≡ some (take limit xs ++ drop limit dest)
unfolding strncpy
strncpy-unterminated [] r dest zero h le room = refl
strncpy-unterminated (x ∷ xs) r dest zero h le room = refl
strncpy-unterminated [] r dest (suc limit) h le room = elim le [ ]
strncpy-unterminated (x ∷ xs) r [] (suc limit) h le room = elim room [ ]
strncpy-unterminated (x ∷ xs) r (d ∷ dest) (suc limit) (h, hs) le room =
    rw (nonzero x h, strncpy-unterminated xs r dest limit hs (omega arith) (omega arith)) refl
