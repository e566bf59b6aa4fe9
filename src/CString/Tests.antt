-- ===== src/CString/Tests.antt =====
-- Strings at concrete inputs.
use geekos.Base.{ℕ, ◌≡◌, refl, ◌↔◌, some, List, [], ◌∷◌, arith}
use geekos.CString.{strlen, strcmp, strcpy, atoi, atoi_loop, strrchr, strrchr_loop}
use geekos.CString.Memory.{memcpy, memcpy_lem}
use geekos.CString.Compare.{NonZero, strlen-length, strcmp-zero_iff}
use geekos.CString.Copy.{strcpy_lem}

-- "ab" and "ac", without the nul.
abbrev ab : List ℕ
ab = 97 ∷ 98 ∷ []

abbrev ac : List ℕ
ac = 97 ∷ 99 ∷ []

ab-NonZero : NonZero ab
ab-NonZero = omega arith

ac-NonZero : NonZero ac
ac-NonZero = omega arith

atoi_test : atoi (52 ∷ 50 ∷ 32 ∷ 0 ∷ []) ≡ some 42
unfolding atoi atoi_loop
atoi_test = refl

strrchr_test : strrchr (97 ∷ 47 ∷ 98 ∷ 47 ∷ 99 ∷ 0 ∷ []) 47 ≡ some (some 3)
unfolding strrchr strrchr_loop strlen
strrchr_test = refl

strlen-length_example : strlen (97 ∷ 98 ∷ 0 ∷ 7 ∷ []) ≡ some 2
strlen-length_example = strlen-length ab (7 ∷ []) ab-NonZero

strcmp-zero_iff_example :
    (n : ℕ) × (strcmp (97 ∷ 98 ∷ 0 ∷ []) (97 ∷ 99 ∷ 0 ∷ 5 ∷ []) ≡ some n) × ((n ≡ 0) ↔ (ab ≡ ac))
strcmp-zero_iff_example = strcmp-zero_iff ab ac [] (5 ∷ []) ab-NonZero ac-NonZero

strcpy_lem_example : strcpy (1 ∷ 2 ∷ 3 ∷ 4 ∷ []) (97 ∷ 98 ∷ 0 ∷ []) ≡ some (97 ∷ 98 ∷ 0 ∷ 4 ∷ [])
strcpy_lem_example = strcpy_lem ab [] (1 ∷ 2 ∷ 3 ∷ 4 ∷ []) ab-NonZero (omega arith)

memcpy_lem_example : memcpy (1 ∷ 2 ∷ 3 ∷ []) ab 2 ≡ 97 ∷ 98 ∷ 3 ∷ []
memcpy_lem_example = memcpy_lem (1 ∷ 2 ∷ 3 ∷ []) ab 2 (omega arith) (omega arith)
