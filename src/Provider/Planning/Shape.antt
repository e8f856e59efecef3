-- ===== src/Provider/Planning/Shape.antt =====
-- internal/provider/provider.go: the shape of a plan of buildTypePlan for records that are there.
use mathlib.Core.List.{Perm, perm_middle}
use dns_update.Prelude.{
  ℕ, ◌<◌, ◌++◌, ◌+◌, suc, ◌≡◌, refl, ap, inl, inr, some, List, [], ◌∷◌, arith, length, get_or,
  Bool-cases, Option-cases, if◌then◌else◌,
}
use dns_update.Stdlib.{Stdlib}
use dns_update.Provider.{Record, Operation}
use dns_update.Provider.Order.{sort_operations-perm}
use dns_update.Provider.Planning.{
  record_matches_desired, update_operation, delete_all, keep_index_from, keep_index, delete_others,
  plan_of_current,
}

-- A list around the place `length before`.
delete_others_past :
    (i keep : ℕ) (l : List Record) → keep < i → delete_others i keep l ≡ delete_all l
unfolding delete_others
delete_others_past i keep [] h = refl
delete_others_past i keep (r ∷ l) h = ground (arith, delete_others_past (suc i) keep l)

delete_others_around :
    (i keep : ℕ) (before : List Record) (k : Record) (after : List Record)
    → keep ≡ length before + i
    → delete_others i keep (before ++ k ∷ after) ≡ delete_all (before ++ after)
unfolding delete_others
delete_others_around i keep [] k after h = ground (arith, delete_others_past (suc i) keep after)
delete_others_around i keep (r ∷ before) k after h =
    ground (arith, delete_others_around (suc i) keep before k after)

get_or_around :
    (before : List Record) (k : Record) (after : List Record) (d : Record)
    → get_or (before ++ k ∷ after) (length before) d ≡ k
get_or_around [] k after d = refl
get_or_around (r ∷ before) k after d = get_or_around before k after d

-- A found index is a place in the list.
keep_index_from_place :
    (i : ℕ) (l : List Record) (d : Record) (j : ℕ)
    → keep_index_from i l d ≡ some j
    → (before : List Record) × (k : Record) × (after : List Record) × (l ≡ before ++ k ∷ after)
      × (j ≡ length before + i)
unfolding keep_index_from
keep_index_from_place i [] d j h = cc
keep_index_from_place i (r ∷ l) d j h = elim (Bool-cases (record_matches_desired r d)) [
  | inl yes_match ↦ ([], r, l, refl, ground arith)
  | inr no_match ↦
      let (before, k, after, e, n) = keep_index_from_place (suc i) l d j (ground arith) in
      (r ∷ before, k, after, ap (◌∷◌ r) e, omega (arith, n))
]

keep_index_place :
    (first : Record) (rest : List Record) (d : Record)
    → (before : List Record) × (k : Record) × (after : List Record) × (first ∷ rest
        ≡ before ++ k ∷ after)
      × (keep_index (first ∷ rest) d ≡ length before)
unfolding keep_index
keep_index_place first rest d = elim (Option-cases (keep_index_from 0 (first ∷ rest) d)) [
  | inl e ↦ ([], first, rest, refl, rw (e, keep_index))
  | inr (j, e) ↦
      let (before, k, after, l, n) = keep_index_from_place 0 (first ∷ rest) d j e in
      (before, k, after, l, rw (e, keep_index) (omega (arith, n)))
]

-- The operations that buildTypePlan appends for the record that it keeps.
abbrev pub keep_operations : Record → Record → List Operation
keep_operations k d = if record_matches_desired k d then [] else update_operation k d ∷ []

module _ ⦃std : Stdlib⦄ where
  pub plan_of_current-shape :
      (first : Record) (rest : List Record) (d : Record)
      → (k : Record) × (others : List Record) × Perm (first ∷ rest) (k ∷ others)
        × Perm (plan_of_current first rest d) (delete_all others ++ keep_operations k d)
  unfolding plan_of_current
  plan_of_current-shape first rest d =
      let (before, k, after, l, n) = keep_index_place first rest d in
      (
        k,
        before ++ after,
        rw l (perm_middle before after),
        rw
            (
              n,
              l,
              get_or_around before k after first,
              delete_others_around 0 (length before) before k after (omega arith),
            )
            (sort_operations-perm _),
      )
