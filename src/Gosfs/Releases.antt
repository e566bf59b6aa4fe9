-- ===== src/Gosfs/Releases.antt =====
-- Do_GOSFS_Lookup and the buffers of the cache.
use geekos.Vfs.{unpack_path}
use geekos.Errno.{Rc}
use geekos.CString.{strcpy}
use geekos.Base.{
  ◌==◌, ==-self, Bool-cases, get_elem?, get_or, ℕ, zero, suc, ◌≡◌, refl, sym, subst, inl, inr, Bool,
  true, false, not, List, ◌∷◌, arith,
}
use geekos.Gosfs.{
  DirEntryPtr, PathInfo, Instance, Env, Search, hit, missing, Round, finished, next, is_held,
  drop_held, take_buffer, release_buffer, get_entry_by_ptr, prev_dir, visit_missing, visit_prev,
  visit_entry, visit, lookup_round, lookup_loop, do_gosfs_lookup, first_block, find_block, non_null,
  equal, find_entry, minus_one_word, slash, or_unchanged,
}
use geekos.Base.Reasons.{Run, done, stop, ◌>>=◌, in_bounds, kassert, Ends, Ends-bind}

pub held_release :
    (inst : Instance) (n : ℕ) → release_buffer (record inst { held = n ∷ inst.held }) n ≡ done inst
unfolding release_buffer is_held drop_held
held_release inst n = rw (==-self n) refl

-- A result comes with the instance as it was.
abbrev pub Same {ℓ} : {A : Type ℓ} → Instance → Run (A × Instance) → Type 0
Same inst m = Ends (λ r. r.1 ≡ inst) m

pub Same-bind {ℓ κ} :
    {A : Type ℓ} {B : Type κ} (Q : B → Type 0) (inst : Instance) (m : Run (A × Instance))
    (f : A × Instance → Run B)
    → Same inst m
    → ((a : A) → Ends Q (f (a, inst)))
    → Ends Q (m >>= f)
Same-bind Q inst (done (a, inst')) f h k = subst (λ i. Ends Q (f (a, i))) (sym h) (k a)
Same-bind Q inst (stop r) f h k = tt

get_entry_by_ptr-Same :
    (env : Env) (inst : Instance) (ptr : DirEntryPtr) → Same inst (get_entry_by_ptr env inst ptr)
unfolding get_entry_by_ptr take_buffer
get_entry_by_ptr-Same env inst ptr = ground (arith, held_release inst ptr.base)

abbrev pub hold : ℕ → Instance → Instance
hold n inst = record inst { held = n ∷ inst.held }

visit-Same :
    (env : Env) (inst : Instance) (base : ℕ) (prefix : List ℕ) (last : Bool) (info : PathInfo)
    (s : Search)
    → Same inst (visit env (hold base inst) base prefix last info s)
unfolding visit visit_missing visit_prev visit_entry
visit-Same env inst base prefix last info (missing f) =
    Ends-bind _ (in_bounds (strcpy info.suffix prefix)) _ (λ s. rw (held_release inst base) refl)
visit-Same env inst base prefix last info (hit i e) = elim (Bool-cases (i == prev_dir)) [
  | inl p ↦
      rw (p, held_release inst base)
        (Same-bind _ inst (get_entry_by_ptr env inst (record { base = first_block e; offset = 0 }))
          _ (get_entry_by_ptr-Same env inst (record { base = first_block e; offset = 0 }))
          (λ q. Ends-bind _ (non_null q) _ (λ es.
            Ends-bind _ (in_bounds (get_elem? es prev_dir)) _ (λ up.
              Same-bind _ inst
                (get_entry_by_ptr env inst (record { base = first_block up; offset = 0 })) _
                (get_entry_by_ptr-Same env inst (record { base = first_block up; offset = 0 }))
                (λ a. Ends-bind _ (non_null a) _ (λ above.
                  Ends-bind _ (in_bounds (find_block above (first_block e) 0)) _ (λ found.
                    Ends-bind _ (in_bounds (strcpy info.suffix found.1.filename)) _
                      (λ t. refl))))))))
  | inr p ↦ rw p (
      Ends-bind _ (in_bounds (strcpy info.suffix prefix)) _ (λ s. rw (held_release inst base) refl))
]

take-Same {ℓ} :
    {B : Type ℓ} (env : Env) (inst : Instance) (n : ℕ) (f : Bool × Instance → Run (B × Instance))
    → Same inst (f (false, inst))
    → Same inst (f (true, hold n inst))
    → Same inst (take_buffer env inst n >>= f)
unfolding take_buffer
take-Same env inst n f h k = elim (Bool-cases (is_held n inst.held)) [
  | inl held ↦ rw held tt
  | inr free ↦ elim (Bool-cases (env.fails n)) [
    | inl bad ↦ rw (free, bad) h
    | inr good ↦ rw (free, good) k
  ]
]

lookup_round-Same :
    (env : Env) (inst : Instance) (prefix suffix : List ℕ) (base : ℕ) (info : PathInfo)
    → Same inst (lookup_round env inst prefix suffix base info)
unfolding lookup_round
lookup_round-Same env inst prefix suffix base info = Ends-bind _ (kassert (not (base == 0))) _ (λ u.
    take-Same env inst base _ refl (
      Ends-bind _ (equal suffix slash) _ (λ last.
        Ends-bind _ (find_entry (inst.blocks base) prefix last 0 minus_one_word) _
          (λ s. visit-Same env inst base prefix last info s))))

round-Same :
    (go : ℕ → PathInfo → Run (Rc × PathInfo × Instance)) (inst : Instance) (r : Round)
    → ((base : ℕ) (info : PathInfo) → Ends (λ x. x.2 ≡ inst) (go base info))
    → Ends
        (λ x. x.2 ≡ inst)
        (elim r as (λ x. Run (Rc × PathInfo × Instance)) [
          | finished rc info' ↦ done (rc, info', inst)
          | next base' info' ↦ go base' info'
        ])
round-Same go inst (finished rc info') h = refl
round-Same go inst (next base' info') h = h base' info'

lookup_loop-Same :
    (fuel : ℕ) (env : Env) (inst : Instance) (path prefix suffix : List ℕ) (base : ℕ)
    (info : PathInfo)
    → Ends (λ r. r.2 ≡ inst) (lookup_loop fuel env inst path prefix suffix base info)
unfolding lookup_loop
lookup_loop-Same zero env inst path prefix suffix base info = tt
lookup_loop-Same (suc fuel) env inst path prefix suffix base info =
    Ends-bind _ (equal suffix slash) _ (λ over. elim (Bool-cases over) [
      | inl yes_over ↦ rw yes_over refl
      | inr not_over ↦ rw not_over (
          Ends-bind _ (in_bounds (unpack_path path prefix)) _ (λ unpacked.
            let ps = or_unchanged (prefix, suffix) unpacked in
            Same-bind _ inst (lookup_round env inst ps.0 ps.1 base info) _
              (lookup_round-Same env inst ps.0 ps.1 base info)
              (λ r.
                round-Same (lookup_loop fuel env inst ps.1 ps.0 ps.1) inst r
                  (lookup_loop-Same fuel env inst ps.1 ps.0 ps.1))))
    ])

-- Every lookup that comes to an end leaves the instance as it was: the buffers that it took are
-- released, also on every path on which it fails, and no other buffer is.
pub do_gosfs_lookup-releases :
    (fuel : ℕ) (env : Env) (inst : Instance) (path : List ℕ) (info : PathInfo)
    → Ends (λ r. r.2 ≡ inst) (do_gosfs_lookup fuel env inst path info)
unfolding do_gosfs_lookup
do_gosfs_lookup-releases fuel env inst path info =
    Ends-bind _ (kassert (get_or path 0 0 == 47)) _ (λ u. Ends-bind _ (equal path slash) _ (λ root.
      elim (Bool-cases root) [
        | inl at_root ↦ rw at_root refl
        | inr below ↦ rw below (
            lookup_loop-Same fuel env inst path env.prefix env.address_zero
              inst.root_directory_pointer info)
      ]))
