-- ===== src/Provider/Planning/Idle.antt =====
-- internal/provider/provider.go: BuildObservedAddressPlan on a state that the verification accepts.
use dns_update.Prelude.{
  ℕ, ◌≡◌, refl, ◌∙◌, inl, inr, Bool, true, false, not, ◌==◌, Option, none, some, List, [], ◌∷◌,
  arith, select, any_of, all_of, Bool-cases, is_empty,
}
use dns_update.Prelude.Rearrange.{any_of-perm, perm_nil}
use dns_update.Text.{Text, text_eq}
use dns_update.Stdlib.{Stdlib}
use dns_update.Failure.{ok, step_ok}
use dns_update.Provider.{
  Record, RecordType, RecordOptions, State, DesiredState, ObservedFamilies, observed_includes,
  normalize_name, type_a, type_aaaa,
}
use dns_update.Provider.Order.{sort_operations-perm, sort_records-perm}
use dns_update.Provider.Planning.{
  has_type, by_type, keep_index, keep_index_from, delete_others, record_matches_desired,
  desired_record, plan_of_current, build_type_plan, family_plan, build_observed_address_plan,
  cname_targets,
}
use dns_update.Provider.Verify.{
  expected_record, verify_type_state, verify_family, verify_observed_address_state,
}

-- The record has this name, in the form that NormalizeName gives.
abbrev pub has_name : Text → Record → Bool
has_name name r = text_eq (normalize_name r.name) (normalize_name name)

abbrev misnamed : Text → Record → Bool
misnamed name r = not (has_name name r)

no_misnamed :
    (name : Text) (l : List Record)
    → all_of (has_name name) l ≡ true
    → any_of (misnamed name) l ≡ false
no_misnamed name [] h = refl
no_misnamed name (r ∷ l) h = ground (arith, no_misnamed name l)

misnamed-select :
    (name : Text) (p : Record → Bool) (l : List Record)
    → any_of (misnamed name) l ≡ false
    → any_of (misnamed name) (select p l) ≡ false
misnamed-select name p [] h = refl
misnamed-select name p (r ∷ l) h = ground (arith, misnamed-select name p l)

module _ ⦃std : Stdlib⦄ where
  -- The names apart, the planner and the verification compare a record in the same way.
  matches_named :
      (r : Record) (name : Text) (t : RecordType) (address : std.Addr) (ttl : ℕ) (o : RecordOptions)
      → has_name name r ≡ true
      → record_matches_desired r (expected_record t address ttl o) ≡ true
      → record_matches_desired r (desired_record name t address ttl o) ≡ true
  unfolding record_matches_desired expected_record desired_record
  matches_named r name t address ttl o named h = elim (Bool-cases (text_eq name [])) [
    | inl e ↦ rw e h
    | inr e ↦ rw (e, named) h
  ]

  only_kept : (r d : Record) → keep_index (r ∷ []) d ≡ 0
  unfolding keep_index keep_index_from
  only_kept r d = elim (Bool-cases (record_matches_desired r d)) [
    | inl h ↦ rw (keep_index, h) refl
    | inr h ↦ rw (keep_index, h) refl
  ]

  matched_idle : (r d : Record) → record_matches_desired r d ≡ true → plan_of_current r [] d ≡ []
  unfolding plan_of_current delete_others
  matched_idle r d h = rw (only_kept r d, h) (perm_nil (sort_operations-perm []))

  type_idle :
      (l : List Record) (name : Text) (t : RecordType) (address : Option std.Addr) (ttl : ℕ)
      (o : RecordOptions)
      → any_of (misnamed name) l ≡ false
      → verify_type_state l t address ttl o ≡ ok tt
      → build_type_plan l name t address ttl o ≡ []
  unfolding verify_type_state build_type_plan
  type_idle [] name t none ttl o named h = refl
  type_idle (r ∷ l) name t none ttl o named h = absurd (cc)
  type_idle [] name t (some address) ttl o named h = absurd (cc)
  type_idle (r ∷ s ∷ l) name t (some address) ttl o named h = absurd (cc)
  type_idle (r ∷ []) name t (some address) ttl o named h =
      elim (Bool-cases (record_matches_desired r (expected_record t address ttl o))) [
        | inl k ↦ matched_idle r _ (matches_named r name t address ttl o (ground arith) k)
        | inr k ↦ absurd (ground arith)
      ]

  module _ (current : State) (desired : DesiredState std.Addr) (observed : ObservedFamilies)
      (named : all_of (has_name desired.name) current.records ≡ true) where
    by_type_named : (t : RecordType) → any_of (misnamed desired.name) (by_type current t) ≡ false
    unfolding by_type
    by_type_named t =
        any_of-perm (misnamed desired.name)
          (sort_records-perm (select (has_type t) current.records))
        ∙ misnamed-select desired.name (has_type t) current.records
            (no_misnamed desired.name current.records named)

    family_idle :
        (t : RecordType) (address : Option std.Addr)
        → verify_family current desired observed t address ≡ ok tt
        → family_plan current desired observed t address ≡ []
    unfolding verify_family family_plan
    family_idle t address h = elim (Bool-cases (observed_includes observed t)) [
      | inl k ↦ rw k (
          type_idle (by_type current t) desired.name t address desired.ttl_seconds desired.options
            (by_type_named t) (rw k at h))
      | inr k ↦ rw k refl
    ]

    -- Where all records have the desired name, a state that passes VerifyObservedAddressState gets an
    -- empty plan from BuildObservedAddressPlan, for the same desired state and families.
    pub verified_plan_idle :
        verify_observed_address_state current desired observed ≡ ok tt
        → build_observed_address_plan current desired observed ≡ ok (record { operations = [] })
    unfolding verify_observed_address_state build_observed_address_plan
    verified_plan_idle h = elim (Bool-cases (observed == 0)) [
      | inl e ↦ absurd (ground arith)
      | inr e ↦ elim (Bool-cases (is_empty (cname_targets current))) [
        | inr c ↦ absurd (ground arith)
        | inl c ↦
            let both =
              step_ok (verify_family current desired observed type_a desired.ipv4)
                (λ _. verify_family current desired observed type_aaaa desired.ipv6)
                (rw (e, c) at h) in
            let (done, first_ok, second_ok) = both in
            rw (
              e,
              c,
              family_idle type_a desired.ipv4 (cc),
              family_idle type_aaaa desired.ipv6 second_ok,
            )
      ]
    ]
