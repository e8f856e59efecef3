-- ===== src/Provider/Verify.antt =====
-- VerifyObservedAddressState, VerifyDeletedTypes and verifyTypeState.
use dns_update.Prelude.{
  ℕ, not, Option, none, some, List, [], ◌∷◌, ◌++◌, ◌==◌, if◌then◌else◌, is_empty,
}
use dns_update.Text.{codes, decimal}
use dns_update.Stdlib.{Stdlib}
use dns_update.Failure.{
  Result, ok, err, message, no_observed_families, still_cname_records, no_delete_selection,
  expected_none, expected_one, record_differs, ◌>>◌,
}
use dns_update.Provider.{
  RecordType, type_a, type_aaaa, RecordOptions, Record, State, DesiredState, RecordSelection,
  selection_none, ObservedFamilies, observed_none, selection_includes, observed_includes,
  zero_options, clone_record_options,
}
use dns_update.Provider.Order.{format_options, describe_records}
use dns_update.Provider.Planning.{by_type, cname_targets, record_matches_desired}

module _ ⦃std : Stdlib⦄ where
  -- `expected` of verifyTypeState, which leaves the name empty.
  unfoldable pub expected_record : RecordType → std.Addr → ℕ → RecordOptions → Record
  expected_record t address ttl_seconds options = record {
    id = [];
    name = [];
    record_type = t;
    content = std.addr_string address;
    ttl_seconds = ttl_seconds;
    options = clone_record_options options;
  }

  abbrev verify_none : List Record → RecordType → Result (Unit {0})
  verify_none [] t = ok tt
  verify_none (r ∷ rs) t = err (message (expected_none t (describe_records (r ∷ rs))))

  abbrev verify_one : List Record → RecordType → std.Addr → ℕ → RecordOptions → Result (Unit {0})
  verify_one (r ∷ []) t address ttl_seconds options =
      if record_matches_desired r (expected_record t address ttl_seconds options)
      then ok tt
      else err (
          message (
            record_differs t
              (std.addr_string address
                ++ (codes " ttl=" ++ (decimal ttl_seconds ++ format_options options)))
              (describe_records (r ∷ []))))
  verify_one current t address ttl_seconds options =
      err (message (expected_one t (std.addr_string address) (describe_records current)))

  unfoldable pub verify_type_state :
      List Record → RecordType → Option std.Addr → ℕ → RecordOptions → Result (Unit {0})
  verify_type_state current t none ttl_seconds options = verify_none current t
  verify_type_state current t (some address) ttl_seconds options =
      verify_one current t address ttl_seconds options

  unfoldable pub verify_family :
      State
      → DesiredState std.Addr
      → ObservedFamilies
      → RecordType
      → Option std.Addr
      → Result (Unit {0})
  verify_family state desired observed t address =
      if observed_includes observed t
      then verify_type_state (by_type state t) t address desired.ttl_seconds desired.options
      else ok tt

  unfoldable pub verify_observed_address_state :
      State → DesiredState std.Addr → ObservedFamilies → Result (Unit {0})
  unfolding verify_family
  verify_observed_address_state state desired observed =
      let targets = cname_targets state in
      if observed == observed_none
      then err (message no_observed_families)
      else if not (is_empty targets)
      then err (message (still_cname_records desired.name targets))
      else (do
        verify_family state desired observed type_a desired.ipv4
        verify_family state desired observed type_aaaa desired.ipv6)

  -- The loop of VerifyDeletedTypes over the two types.
  unfoldable pub verify_types : State → RecordSelection → List RecordType → Result (Unit {0})
  verify_types state selection [] = ok tt
  verify_types state selection (t ∷ ts) =
      let rest = verify_types state selection ts in
      if selection_includes selection t
      then (verify_type_state (by_type state t) t none 0 zero_options >> rest)
      else rest

  unfoldable pub verify_deleted_types : State → RecordSelection → Result (Unit {0})
  unfolding verify_types
  verify_deleted_types state selection =
      if selection == selection_none
      then err (message no_delete_selection)
      else verify_types state selection (type_a ∷ type_aaaa ∷ [])
