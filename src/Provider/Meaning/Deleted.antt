-- ===== src/Provider/Meaning/Deleted.antt =====
-- internal/provider/provider.go: BuildDeletePlan against VerifyDeletedTypes.
use mathlib.Core.List.{Memᴰ, Perm}
use mathlib.Core.Path.{ap₂}
use dns_update.Prelude.{
  ℕ, ◌≡◌, refl, sym, ◌∙◌, ap, subst, inl, inr, Bool, true, false, not, ◌&&◌, ◌||◌, List, [], ◌∷◌,
  ◌++◌, map, arith, select, select-append, any_of, any_of-append, append-nil, ◌==◌, Bool-cases,
  if◌then◌else◌,
}
use dns_update.Prelude.Rearrange.{any_of-perm, select-perm, perm_nil}
use dns_update.Text.{Text, text_eq}
use dns_update.Text.Laws.{text_eq_apart, eq-of_text_eq}
use dns_update.Stdlib.{Stdlib}
use dns_update.Failure.{ok}
use dns_update.Provider.{
  Record, RecordType, State, Plan, RecordSelection, selection_includes, has_bit, type_a, type_aaaa,
}
use dns_update.Provider.Order.{sort_operations, sort_operations-perm, sort_records-perm}
use dns_update.Provider.Planning.{has_type, by_type, delete_all, delete_types, build_delete_plan}
use dns_update.Provider.Verify.{verify_type_state, verify_types, verify_deleted_types}
use dns_update.Provider.Meaning.{
  deletes_id, is_deleted, is_update, is_create, has_id, distinct_ids, apply_updates, created,
  meaning, after_plan,
}
use dns_update.Provider.Meaning.Family.{has_id_of_mem, has_id_of_other_type}
use dns_update.Provider.Meaning.TypePlan.{
  is_deleted-delete_all, select_update-delete_all, select_create-delete_all,
}

-- The record is in a selected family.
abbrev pub selected : RecordSelection → Record → Bool
selected s r = selection_includes s r.record_type

one_of_two :
    (a b x y : Bool)
    → (a ≡ true → b ≡ false)
    → ((x && a) || ((y && b) || false)) ≡ (if a then x else if b then y else false)
one_of_two a b x y h = ground arith

-- Two tests that agree on a list select the same.
select_agree :
    (p q : Record → Bool) (l : List Record)
    → ((r : Record) → Memᴰ r l → p r ≡ q r)
    → select p l ≡ select q l
select_agree p q [] h = refl
select_agree p q (r ∷ l) h =
    ground (arith, h r (Memᴰ.head refl), select_agree p q l (λ s m. h s (Memᴰ.tail m)))

map_same : (l : List Record) → map (λ r. r) l ≡ l
map_same [] = refl
map_same (r ∷ l) = ap (◌∷◌ r) (map_same l)

mem-select :
    (p : Record → Bool) (r : Record) (l : List Record) → Memᴰ r l → p r ≡ true → Memᴰ r (select p l)
mem-select p r [] m h = elim m [ ]
mem-select p r (x ∷ l) (Memᴰ.head e) h = rw (ap p (sym e) ∙ h) (Memᴰ.head e)
mem-select p r (x ∷ l) (Memᴰ.tail m) h = elim (Bool-cases (p x)) [
  | inl k ↦ rw k (Memᴰ.tail (mem-select p r l m h))
  | inr k ↦ rw k (mem-select p r l m h)
]

module _ ⦃std : Stdlib⦄ where
  -- The plan's operations are deletes.
  no_writes :
      (current : State) (s : RecordSelection) (ts : List RecordType)
      → (select is_update (delete_types current s ts) ≡ [])
        × (select is_create (delete_types current s ts) ≡ [])
  unfolding delete_types
  no_writes current s [] = (refl, refl)
  no_writes current s (t ∷ ts) = elim (Bool-cases (selection_includes s t)) [
    | inl h ↦ rw h (
        let rest = no_writes current s ts in
        let l = by_type current t in
        (
          select-append is_update (delete_all l) _ ∙ ap₂ ◌++◌ (select_update-delete_all l) rest.0,
          select-append is_create (delete_all l) _ ∙ ap₂ ◌++◌ (select_create-delete_all l) rest.1,
        ))
    | inr h ↦ rw h (no_writes current s ts)
  ]

  -- A record of the list is deleted exactly if its type is one of the types and selected.
  abbrev listed : RecordSelection → List RecordType → Record → Bool
  listed s ts r = any_of (λ t. selection_includes s t && has_type t r) ts

  has_id-by_type :
      (current : State) (t : RecordType) (r : Record)
      → Memᴰ r current.records
      → distinct_ids current.records ≡ true
      → has_id r.id (by_type current t) ≡ has_type t r
  unfolding by_type
  has_id-by_type current t r m d =
      any_of-perm (λ x. text_eq x.id r.id) (sort_records-perm _)
      ∙ elim (Bool-cases (has_type t r)) [
        | inl h ↦ has_id_of_mem r _ (mem-select (has_type t) r current.records m h) ∙ sym h
        | inr h ↦ has_id_of_other_type t r current.records m d h ∙ sym h
      ]

  is_deleted-delete_types :
      (current : State) (s : RecordSelection) (ts : List RecordType) (r : Record)
      → Memᴰ r current.records
      → distinct_ids current.records ≡ true
      → is_deleted (delete_types current s ts) r.id ≡ listed s ts r
  unfolding delete_types
  is_deleted-delete_types current s [] r m d = refl
  is_deleted-delete_types current s (t ∷ ts) r m d = elim (Bool-cases (selection_includes s t)) [
    | inl h ↦ rw h (
        any_of-append (deletes_id r.id) (delete_all (by_type current t)) _
        ∙ ap₂ ◌||◌ (is_deleted-delete_all (by_type current t) r.id ∙ has_id-by_type current t r m d)
            (is_deleted-delete_types current s ts r m d))
    | inr h ↦ rw h (is_deleted-delete_types current s ts r m d)
  ]

  listed-selected :
      (s : RecordSelection) (r : Record) → listed s (type_a ∷ type_aaaa ∷ []) r ≡ selected s r
  unfolding selection_includes
  listed-selected s r =
      one_of_two (text_eq r.record_type type_a) (text_eq r.record_type type_aaaa) (has_bit s 0)
        (has_bit s 1) (λ h. text_eq_apart r.record_type type_a type_aaaa h refl)

  pub build_delete_inv :
      (current : State) (s : RecordSelection) (plan : Plan)
      → build_delete_plan current s ≡ ok plan
      → ((s == 0) ≡ false)
        × (plan.operations ≡ sort_operations (delete_types current s (type_a ∷ type_aaaa ∷ [])))
  unfolding build_delete_plan
  build_delete_inv current s plan h = ground arith

  -- The effect of the plan: the records outside the selected families, as they were.
  deletes_effect :
      (fresh : ℕ → Text) (current : State) (s : RecordSelection)
      → distinct_ids current.records ≡ true
      → meaning fresh
          (sort_operations (delete_types current s (type_a ∷ type_aaaa ∷ [])))
          current.records
        ≡ select (λ r. not (selected s r)) current.records
  unfolding meaning
  deletes_effect fresh current s d =
      let ts : List RecordType = type_a ∷ type_aaaa ∷ [] in
      let ops = delete_types current s ts in
      let p = sort_operations-perm ops in
      let (no_update, no_create) = no_writes current s ts in
      let updates = perm_nil (
        subst (Perm (select is_update (sort_operations ops))) no_update
          (select-perm is_update p)) in
      let creates = perm_nil (
        subst (Perm (select is_create (sort_operations ops))) no_create
          (select-perm is_create p)) in
      let left =
        select_agree (λ r. not (is_deleted (sort_operations ops) r.id)) (λ r. not (selected s r))
          current.records
          (λ r m. ap not (
            any_of-perm (deletes_id r.id) p
            ∙ is_deleted-delete_types current s ts r m d
            ∙ listed-selected s r)) in
      ap₂ ◌++◌ (ap₂ (λ us l. map (apply_updates us) l) updates left) (ap (created fresh 0) creates)
      ∙ append-nil _
      ∙ map_same _

  no_selected :
      (s : RecordSelection) (t : RecordType) (l : List Record)
      → selection_includes s t ≡ true
      → select (has_type t) (select (λ r. not (selected s r)) l) ≡ []
  no_selected s t [] h = refl
  no_selected s t (r ∷ l) h = elim (Bool-cases (has_type t r)) [
    | inl k ↦
        rw (ap (selection_includes s) (eq-of_text_eq r.record_type t k) ∙ h) (no_selected s t l h)
    | inr k ↦ elim (Bool-cases (selected s r)) [
      | inl j ↦ rw j (no_selected s t l h)
      | inr j ↦ rw (j, k) (no_selected s t l h)
    ]
  ]

  verify_remaining :
      (state : State) (s : RecordSelection) (l : List Record) (ts : List RecordType)
      → state.records ≡ select (λ r. not (selected s r)) l
      → verify_types state s ts ≡ ok tt
  unfolding verify_types verify_type_state by_type
  verify_remaining state s l [] e = refl
  verify_remaining state s l (t ∷ ts) e = elim (Bool-cases (selection_includes s t)) [
    | inl h ↦
        let gone : select (has_type t) state.records ≡ [] =
          ap (select (has_type t)) e ∙ no_selected s t l h in
        rw (h, gone, perm_nil (sort_records-perm [])) (verify_remaining state s l ts e)
    | inr h ↦ rw h (verify_remaining state s l ts e)
  ]

  -- After the plan of BuildDeletePlan, carried out on records with distinct IDs, exactly the records
  -- outside the selected families are left, in their order, and VerifyDeletedTypes passes.
  pub delete_plan_verifies :
      (fresh : ℕ → Text) (current : State) (s : RecordSelection) (plan : Plan)
      → distinct_ids current.records ≡ true
      → build_delete_plan current s ≡ ok plan
      → ((after_plan fresh plan current).records ≡ select (λ r. not (selected s r)) current.records)
        × (verify_deleted_types (after_plan fresh plan current) s ≡ ok tt)
  unfolding after_plan
  delete_plan_verifies fresh current s plan d h =
      let (some_family, ops) = build_delete_inv current s plan h in
      let effect =
        ap (λ l. meaning fresh l current.records) ops ∙ deletes_effect fresh current s d in
      (
        effect,
        (unfold verify_deleted_types in
            rw some_family (verify_remaining _ s current.records (type_a ∷ type_aaaa ∷ []) effect)),
      )
