-- ===== src/Cloudflare/Plans.antt =====
-- buildBatchParams on the plans of internal/provider.
use dns_update.Prelude.{
  ℕ, ◌≡◌, refl, ◌∙◌, ap, inl, inr, Bool, true, false, not, Option, none, some, List, [], ◌∷◌, ◌++◌,
  arith, any_of, all_of, any_of-append, Bool-cases,
}
use dns_update.Prelude.Rearrange.{any_of-perm}
use dns_update.Text.{Text}
use dns_update.Stdlib.{Stdlib}
use dns_update.Failure.{ok}
use dns_update.Provider.{
  Record, RecordType, RecordOptions, State, DesiredState, ObservedFamilies, RecordSelection,
  observed_includes, selection_includes, Operation, Plan, type_a, type_aaaa,
}
use dns_update.Provider.Order.{sort_operations-perm}
use dns_update.Provider.Planning.{
  by_type, delete_all, desired_record, plan_for_record, build_type_plan, family_plan, delete_types,
  build_observed_address_plan, build_delete_plan, record_matches_desired,
}
use dns_update.Provider.Planning.Shape.{keep_operations, plan_of_current-shape}
use dns_update.Provider.Meaning.Observed.{build_observed_inv}
use dns_update.Provider.Meaning.Deleted.{build_delete_inv}
use dns_update.Cloudflare.{build_batch_params}
use dns_update.Cloudflare.Batches.{address_type, supported, params_of, build_batch_params-supported}

-- An operation that the batch has no place for.
abbrev unsupported : Operation → Bool
unsupported op = not (supported op)

all-supported :
    (ops : List Operation) → any_of unsupported ops ≡ false → all_of supported ops ≡ true
all-supported [] h = refl
all-supported (op ∷ ops) h = ground (arith, all-supported ops)

delete_all-supported : (l : List Record) → any_of unsupported (delete_all l) ≡ false
delete_all-supported [] = refl
delete_all-supported (r ∷ l) = delete_all-supported l

keep-supported :
    (k d : Record)
    → address_type d.record_type ≡ true
    → any_of unsupported (keep_operations k d) ≡ false
keep-supported k d h = elim (Bool-cases (record_matches_desired k d)) [
  | inl m ↦ rw m refl
  | inr m ↦ rw m (rw h refl)
]

no_unsupported :
    (xs ys : List Operation)
    → any_of unsupported xs ≡ false
    → any_of unsupported ys ≡ false
    → any_of unsupported (xs ++ ys) ≡ false
no_unsupported xs ys h k = rw (any_of-append unsupported xs ys, h, k)

module _ ⦃std : Stdlib⦄ where
  plan_for_record-supported :
      (l : List Record) (d : Record)
      → address_type d.record_type ≡ true
      → any_of unsupported (plan_for_record l d) ≡ false
  plan_for_record-supported [] d h = rw h refl
  plan_for_record-supported (first ∷ rest) d h =
      let (k, others, _, shape) = plan_of_current-shape first rest d in
      any_of-perm unsupported shape
      ∙ no_unsupported (delete_all others) (keep_operations k d) (delete_all-supported others)
          (keep-supported k d h)

  build_type_plan-supported :
      (l : List Record) (name : Text) (t : RecordType) (address : Option std.Addr) (ttl : ℕ)
      (o : RecordOptions)
      → address_type t ≡ true
      → any_of unsupported (build_type_plan l name t address ttl o) ≡ false
  unfolding build_type_plan desired_record
  build_type_plan-supported l name t none ttl o h = delete_all-supported l
  build_type_plan-supported l name t (some address) ttl o h =
      plan_for_record-supported l (desired_record name t address ttl o) h

  family_plan-supported :
      (current : State) (desired : DesiredState std.Addr) (observed : ObservedFamilies)
      (t : RecordType) (address : Option std.Addr)
      → address_type t ≡ true
      → any_of unsupported (family_plan current desired observed t address) ≡ false
  unfolding family_plan
  family_plan-supported current desired observed t address h =
      elim (Bool-cases (observed_includes observed t)) [
        | inl k ↦ rw k (
            build_type_plan-supported (by_type current t) desired.name t address desired.ttl_seconds
              desired.options h)
        | inr k ↦ rw k refl
      ]

  delete_types-supported :
      (current : State) (s : RecordSelection) (ts : List RecordType)
      → any_of unsupported (delete_types current s ts) ≡ false
  unfolding delete_types
  delete_types-supported current s [] = refl
  delete_types-supported current s (t ∷ ts) = elim (Bool-cases (selection_includes s t)) [
    | inl k ↦ rw k (
        no_unsupported (delete_all (by_type current t)) (delete_types current s ts)
          (delete_all-supported (by_type current t)) (delete_types-supported current s ts))
    | inr k ↦ rw k (delete_types-supported current s ts)
  ]

  -- buildBatchParams succeeds for every plan that BuildObservedAddressPlan returns, with the batch of
  -- the plan's operations.
  pub observed_plan_batches :
      (zone_id : Text) (current : State) (desired : DesiredState std.Addr)
      (observed : ObservedFamilies) (plan : Plan)
      → build_observed_address_plan current desired observed ≡ ok plan
      → build_batch_params zone_id plan ≡ ok (params_of zone_id plan.operations)
  observed_plan_batches zone_id current desired observed plan h =
      let (_, _, ops) = build_observed_inv current desired observed plan h in
      build_batch_params-supported zone_id plan (
        all-supported plan.operations (
          ap (any_of unsupported) ops
          ∙ no_unsupported (family_plan current desired observed type_a desired.ipv4)
              (family_plan current desired observed type_aaaa desired.ipv6)
              (family_plan-supported current desired observed type_a desired.ipv4 refl)
              (family_plan-supported current desired observed type_aaaa desired.ipv6 refl)))

  -- buildBatchParams succeeds for every plan that BuildDeletePlan returns, with the batch of the
  -- plan's operations.
  pub delete_plan_batches :
      (zone_id : Text) (current : State) (s : RecordSelection) (plan : Plan)
      → build_delete_plan current s ≡ ok plan
      → build_batch_params zone_id plan ≡ ok (params_of zone_id plan.operations)
  delete_plan_batches zone_id current s plan h =
      let (_, ops) = build_delete_inv current s plan h in
      let ts : List RecordType = type_a ∷ type_aaaa ∷ [] in
      build_batch_params-supported zone_id plan (
        all-supported plan.operations (
          ap (any_of unsupported) ops
          ∙ any_of-perm unsupported (sort_operations-perm (delete_types current s ts))
          ∙ delete_types-supported current s ts))
