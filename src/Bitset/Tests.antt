-- ===== src/Bitset/Tests.antt =====
-- The bit set at concrete inputs.
use geekos.Base.{
  replicate, ℕ, zero, suc, ◌+◌, ◌-◌, ◌*◌, ◌<◌, ◌≡◌, refl, sym, ◌∙◌, true, false, some, [], ◌∷◌,
  arith,
}
use geekos.Bitset.{
  BitSet, at, minus_one, num_bytes, create_bit_set, is_bit_set, find_first_free_bit,
  find_first_n_free, get_count_of_all_free_bit, scan_byte, scan_bytes, run_end, scan_runs,
  count_byte, count_bytes, pos, return_int, word_to_int,
}
use geekos.Bitset.Access.{IsBytes}
use geekos.Bitset.FirstFree.{FirstFree, find_first_free_bit-FirstFree}
use geekos.Bitset.Runs.{RunFree, FirstRun, find_first_n_free-FirstRun}
use geekos.Bitset.Count.{clear_from, get_count_of_all_free_bit_lem}

-- Positions 0 to 7 and 9 are set.
abbrev sample : BitSet
sample = 255 ∷ 2 ∷ []

sample-IsBytes : IsBytes sample
sample-IsBytes = omega arith

-- Positions 0 to 11 are set.
abbrev twelve : BitSet
twelve = 255 ∷ 15 ∷ []

-- Positions 0 to 4 are set.
abbrev low_five : BitSet
low_five = 31 ∷ []

created : create_bit_set (λ n. some (replicate n 170)) 12 ≡ some (0 ∷ 0 ∷ [])
unfolding create_bit_set num_bytes geekos.CString.Memory.memset
created = refl

searches :
    (find_first_free_bit sample 16 ≡ at 8)
    × (find_first_n_free sample 3 16 ≡ at 10)
    × (find_first_n_free sample 7 16 ≡ minus_one)
    × (get_count_of_all_free_bit sample 16 ≡ pos 7)
unfolding find_first_free_bit num_bytes scan_bytes scan_byte find_first_n_free scan_runs run_end
    is_bit_set get_count_of_all_free_bit count_bytes count_byte return_int word_to_int
searches = (refl, refl, refl, refl)

find_first_free_bit-FirstFree_example :
    FirstFree sample (num_bytes 16 * 8) (find_first_free_bit sample 16)
find_first_free_bit-FirstFree_example =
    find_first_free_bit-FirstFree sample sample-IsBytes 16 (omega arith)

twelve_set : (q : ℕ) → q < 12 → is_bit_set twelve q ≡ true
unfolding is_bit_set
twelve_set zero h = refl
twelve_set (suc zero) h = refl
twelve_set (suc (suc zero)) h = refl
twelve_set (suc (suc (suc zero))) h = refl
twelve_set (suc (suc (suc (suc zero)))) h = refl
twelve_set (suc (suc (suc (suc (suc zero))))) h = refl
twelve_set (suc (suc (suc (suc (suc (suc zero)))))) h = refl
twelve_set (suc (suc (suc (suc (suc (suc (suc zero))))))) h = refl
twelve_set (suc (suc (suc (suc (suc (suc (suc (suc zero)))))))) h = refl
twelve_set (suc (suc (suc (suc (suc (suc (suc (suc (suc zero))))))))) h = refl
twelve_set (suc (suc (suc (suc (suc (suc (suc (suc (suc (suc zero)))))))))) h = refl
twelve_set (suc (suc (suc (suc (suc (suc (suc (suc (suc (suc (suc zero))))))))))) h = refl
twelve_set (suc (suc (suc (suc (suc (suc (suc (suc (suc (suc (suc (suc q)))))))))))) h =
    absurd (omega arith)

twelve_clear : is_bit_set twelve 12 ≡ false
unfolding is_bit_set
twelve_clear = refl

find_first_n_free-FirstRun_example : FirstRun sample 3 (16 - 3) (find_first_n_free sample 3 16)
find_first_n_free-FirstRun_example =
    find_first_n_free-FirstRun sample 3 (omega arith) 16 (omega arith) (omega arith)

low_five_free : RunFree low_five 3 5
unfolding is_bit_set
low_five_free zero h = refl
low_five_free (suc zero) h = refl
low_five_free (suc (suc zero)) h = refl
low_five_free (suc (suc (suc k))) h = absurd (omega arith)

set_here : (q : ℕ) → is_bit_set low_five (q + 0) ≡ true → ¬ RunFree low_five 3 q
set_here q t free = cc (sym t ∙ free 0 (omega arith))

low_five_only : (q : ℕ) → q < 5 → ¬ RunFree low_five 3 q
unfolding is_bit_set
low_five_only zero h = set_here 0 refl
low_five_only (suc zero) h = set_here 1 refl
low_five_only (suc (suc zero)) h = set_here 2 refl
low_five_only (suc (suc (suc zero))) h = set_here 3 refl
low_five_only (suc (suc (suc (suc zero)))) h = set_here 4 refl
low_five_only (suc (suc (suc (suc (suc q))))) h = absurd (omega arith)

get_count_of_all_free_bit_lem_example :
    get_count_of_all_free_bit sample 16 ≡ pos (clear_from sample 0 (num_bytes 16 * 8))
get_count_of_all_free_bit_lem_example = get_count_of_all_free_bit_lem sample 16 (omega arith)
