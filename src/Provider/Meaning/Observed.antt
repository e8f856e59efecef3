-- ===== src/Provider/Meaning/Observed.antt =====
-- internal/provider/provider.go: BuildObservedAddressPlan against VerifyObservedAddressState.
use dns_update.Prelude.{
  ℕ, ◌+◌, ◌≡◌, refl, ◌∙◌, ap, inl, inr, true, false, Option, List, [], subst, ◌++◌, arith, select,
  length, ◌==◌, Bool-cases, is_empty,
}
use dns_update.Text.{Text, text_eq}
use dns_update.Text.Laws.{eq-of_text_eq}
use dns_update.Stdlib.{Stdlib}
use dns_update.Failure.{ok}
use dns_update.Provider.{
  Record, RecordType, State, DesiredState, Plan, ObservedFamilies, observed_includes, Operation,
  type_a, type_aaaa, type_cname,
}
use dns_update.Provider.Order.{sort_records, sort_records-perm}
use dns_update.Provider.Planning.{
  has_type, by_type, contents, cname_targets, family_plan, build_observed_address_plan,
}
use dns_update.Provider.Verify.{verify_family, verify_observed_address_state}
use dns_update.Provider.Meaning.{is_create, distinct_ids, meaning, after_plan}
use dns_update.Provider.Meaning.Rearranged.{distinct_ids-select}
use dns_update.Provider.Meaning.Family.{IsFamily}
use dns_update.Provider.Meaning.Split.{
  family_meaning, family_meaning_nil, select-meaning_first, select-meaning_second,
  select-meaning_other,
}
use dns_update.Provider.Meaning.Outcome.{Outcome, build_type_plan-Outcome}

module _ ⦃std : Stdlib⦄ where
  -- A plan is built only for some observed family and without CNAME records.
  pub build_observed_inv :
      (current : State) (desired : DesiredState std.Addr) (observed : ObservedFamilies)
      (plan : Plan)
      → build_observed_address_plan current desired observed ≡ ok plan
      → ((observed == 0) ≡ false)
        × (is_empty (cname_targets current) ≡ true)
        × (plan.operations
            ≡ family_plan current desired observed type_a desired.ipv4
              ++ family_plan current desired observed type_aaaa desired.ipv6)
  unfolding build_observed_address_plan
  build_observed_inv current desired observed plan h = ground arith

  module _ (current : State) (distinct : distinct_ids current.records ≡ true)
      (desired : DesiredState std.Addr) (observed : ObservedFamilies) where
    abbrev of_type : RecordType → List Record
    of_type t = select (has_type t) current.records

    family_Outcome :
        (t : RecordType) (address : Option std.Addr)
        → observed_includes observed t ≡ true
        → Outcome t
            (select (has_type t) current.records)
            address
            desired.ttl_seconds
            desired.options
            (family_plan current desired observed t address)
    unfolding family_plan by_type
    family_Outcome t address h = rw h (
        build_type_plan-Outcome _ _ desired.name t address desired.ttl_seconds desired.options
          (sort_records-perm _) (distinct_ids-select (has_type t) current.records distinct))

    family_plan-IsFamily :
        (t : RecordType) (address : Option std.Addr)
        → IsFamily t
            (select (has_type t) current.records)
            (family_plan current desired observed t address)
    family_plan-IsFamily t address = elim (Bool-cases (observed_includes observed t)) [
      | inl h ↦ (family_Outcome t address h).family
      | inr h ↦ (unfold family_plan in rw h (record { named = λ id k. refl; typed = refl }))
    ]

    abbrev ops_a : List Operation
    ops_a = family_plan current desired observed type_a desired.ipv4

    abbrev ops_aaaa : List Operation
    ops_aaaa = family_plan current desired observed type_aaaa desired.ipv6

    abbrev after : (ℕ → Text) → State
    after fresh = record current { records = meaning fresh (ops_a ++ ops_aaaa) current.records }

    after_a :
        (fresh : ℕ → Text)
        → select (has_type type_a) (after fresh).records
          ≡ family_meaning fresh 0 ops_a (select (has_type type_a) current.records)
    after_a =
        select-meaning_first current.records distinct type_a type_aaaa refl ops_a ops_aaaa
          (family_plan-IsFamily type_a desired.ipv4) (family_plan-IsFamily type_aaaa desired.ipv6)

    after_aaaa :
        (fresh : ℕ → Text)
        → select (has_type type_aaaa) (after fresh).records
          ≡ family_meaning fresh
              (length (select is_create ops_a) + 0)
              ops_aaaa
              (select (has_type type_aaaa) current.records)
    after_aaaa =
        select-meaning_second current.records distinct type_a type_aaaa refl ops_a ops_aaaa
          (family_plan-IsFamily type_a desired.ipv4) (family_plan-IsFamily type_aaaa desired.ipv6)

    after_other :
        (fresh : ℕ → Text) (t : RecordType)
        → text_eq type_a t ≡ false
        → text_eq type_aaaa t ≡ false
        → select (has_type t) (after fresh).records ≡ select (has_type t) current.records
    after_other =
        select-meaning_other current.records distinct type_a type_aaaa refl ops_a ops_aaaa
          (family_plan-IsFamily type_a desired.ipv4) (family_plan-IsFamily type_aaaa desired.ipv6)

    verify_after_a :
        (fresh : ℕ → Text)
        → verify_family (after fresh) desired observed type_a desired.ipv4 ≡ ok tt
    unfolding verify_family by_type
    verify_after_a fresh = elim (Bool-cases (observed_includes observed type_a)) [
      | inl h ↦ rw (h, after_a fresh) ((family_Outcome type_a desired.ipv4 h).verified fresh 0)
      | inr h ↦ rw h
    ]

    verify_after_aaaa :
        (fresh : ℕ → Text)
        → verify_family (after fresh) desired observed type_aaaa desired.ipv6 ≡ ok tt
    unfolding verify_family by_type
    verify_after_aaaa fresh = elim (Bool-cases (observed_includes observed type_aaaa)) [
      | inl h ↦
          rw (h, after_aaaa fresh) ((family_Outcome type_aaaa desired.ipv6 h).verified fresh _)
      | inr h ↦ rw h
    ]

    skipped_family :
        (t : RecordType) (address : Option std.Addr)
        → observed_includes observed t ≡ false
        → family_plan current desired observed t address ≡ []
    unfolding family_plan
    skipped_family t address h = rw h

    frame_at :
        (fresh : ℕ → Text) (t : RecordType)
        → observed_includes observed t ≡ false
        → select (has_type t) (after fresh).records ≡ select (has_type t) current.records
    frame_at fresh t h = elim (Bool-cases (text_eq type_a t)) [
      | inl is_a ↦
          let e = eq-of_text_eq type_a t is_a in
          subst
            (λ u. select (has_type u) (after fresh).records ≡ select (has_type u) current.records) e
            (after_a fresh
              ∙ ap (λ ops. family_meaning fresh 0 ops (of_type type_a))
                  (skipped_family type_a desired.ipv4 (ap (observed_includes observed) e ∙ h))
              ∙ family_meaning_nil fresh 0 (of_type type_a))
      | inr not_a ↦ elim (Bool-cases (text_eq type_aaaa t)) [
        | inl is_aaaa ↦
            let e = eq-of_text_eq type_aaaa t is_aaaa in
            subst
              (λ u. select (has_type u) (after fresh).records ≡ select (has_type u) current.records)
              e
              (after_aaaa fresh
                ∙ ap
                    (λ ops.
                      family_meaning fresh (length (select is_create ops_a) + 0) ops
                        (of_type type_aaaa))
                    (skipped_family type_aaaa desired.ipv6 (ap (observed_includes observed) e ∙ h))
                ∙ family_meaning_nil fresh (length (select is_create ops_a) + 0)
                    (of_type type_aaaa))
        | inr not_aaaa ↦ after_other fresh t not_a not_aaaa
      ]
    ]

    cnames_after : (fresh : ℕ → Text) → cname_targets (after fresh) ≡ cname_targets current
    unfolding cname_targets by_type
    cnames_after fresh =
        ap (λ l. contents (sort_records l)) (after_other fresh type_cname refl refl)

    verify_after :
        (fresh : ℕ → Text)
        → (observed == 0) ≡ false
        → is_empty (cname_targets current) ≡ true
        → verify_observed_address_state (after fresh) desired observed ≡ ok tt
    unfolding verify_observed_address_state
    verify_after fresh some_family no_cname =
        rw
          (some_family, cnames_after fresh, no_cname, verify_after_a fresh, verify_after_aaaa fresh)

  -- A plan that BuildObservedAddressPlan returns, carried out on records with distinct IDs, leaves a
  -- state that passes VerifyObservedAddressState for the same desired state and families.
  pub observed_plan_verifies :
      (fresh : ℕ → Text) (current : State) (desired : DesiredState std.Addr)
      (observed : ObservedFamilies) (plan : Plan)
      → distinct_ids current.records ≡ true
      → build_observed_address_plan current desired observed ≡ ok plan
      → verify_observed_address_state (after_plan fresh plan current) desired observed ≡ ok tt
  unfolding after_plan
  observed_plan_verifies fresh current desired observed plan distinct h =
      let (some_family, no_cname, ops) = build_observed_inv current desired observed plan h in
      rw ops (verify_after current distinct desired observed fresh some_family no_cname)

  -- A plan that BuildObservedAddressPlan returns leaves the records of every type but A and AAAA as
  -- they are, and those of A or AAAA too where that family was not observed.
  pub observed_plan_frame :
      (fresh : ℕ → Text) (current : State) (desired : DesiredState std.Addr)
      (observed : ObservedFamilies) (plan : Plan) (t : RecordType)
      → distinct_ids current.records ≡ true
      → build_observed_address_plan current desired observed ≡ ok plan
      → observed_includes observed t ≡ false
      → select (has_type t) (after_plan fresh plan current).records
        ≡ select (has_type t) current.records
  unfolding after_plan
  observed_plan_frame fresh current desired observed plan t distinct h skipped =
      let (some_family, no_cname, ops) = build_observed_inv current desired observed plan h in
      rw ops (frame_at current distinct desired observed fresh t skipped)
