-- ===== src/Provider/Planning.antt =====
-- State.ByType, CNAMETargets, recordMatchesDesired and the three plan builders.
pub mod Shape
pub mod Idle
use dns_update.Prelude.{
  ℕ, suc, Bool, false, not, ◌&&◌, Option, none, some, List, [], ◌∷◌, ◌++◌, ◌==◌, if◌then◌else◌,
  is_empty, get_or, select,
}
use dns_update.Text.{Text, text_eq}
use dns_update.Stdlib.{Stdlib}
use dns_update.Failure.{
  Result, ok, err, message, no_observed_families, cname_records, no_delete_selection,
}
use dns_update.Provider.{
  RecordType, type_a, type_aaaa, type_cname, RecordOptions, Record, State, DesiredState,
  RecordSelection, selection_none, ObservedFamilies, observed_none, selection_includes,
  observed_includes, kind_create, kind_update, kind_delete, Operation, Plan, zero_record,
  normalize_name, clone_record_options, record_options_equal,
}
use dns_update.Provider.Order.{sort_operations, sort_records}

abbrev pub has_type : RecordType → Record → Bool
has_type t r = text_eq r.record_type t

unfoldable pub record_matches_desired : Record → Record → Bool
unfolding record_options_equal
record_matches_desired current desired =
    if not (text_eq desired.name [])
      && not (text_eq (normalize_name current.name) (normalize_name desired.name))
    then false
    else if not (text_eq current.record_type desired.record_type)
    then false
    else if not (text_eq current.content desired.content)
    then false
    else if not (current.ttl_seconds == desired.ttl_seconds)
    then false
    else record_options_equal current.options desired.options

abbrev pub delete_operation : Record → Operation
delete_operation r = record { kind = kind_delete; current = r; desired = zero_record }

abbrev pub create_operation : Record → Operation
create_operation r = record { kind = kind_create; current = zero_record; desired = r }

abbrev pub update_operation : Record → Record → Operation
update_operation r d = record { kind = kind_update; current = r; desired = d }

-- A delete of each record, in order.
abbrev pub delete_all : List Record → List Operation
delete_all [] = []
delete_all (r ∷ rs) = delete_operation r ∷ delete_all rs

-- The first loop of buildTypePlan: the index of the first match, counted from `index`.
keep_index_from : ℕ → List Record → Record → Option ℕ
keep_index_from index [] desired = none
keep_index_from index (r ∷ rs) desired =
    let rest = keep_index_from (suc index) rs desired in
    if record_matches_desired r desired then some index else rest

-- `keepIndex`, which falls back to the first record.
unfoldable pub keep_index : List Record → Record → ℕ
unfolding keep_index_from
keep_index current desired = elim (keep_index_from 0 current desired) [
  | none ↦ 0
  | some index ↦ index
]

-- The second loop: a delete of each record but the one at `keep`.
unfoldable pub delete_others : ℕ → ℕ → List Record → List Operation
delete_others index keep [] = []
delete_others index keep (r ∷ rs) =
    let rest = delete_others (suc index) keep rs in
    if index == keep then rest else delete_operation r ∷ rest

module _ ⦃std : Stdlib⦄ where
  unfoldable pub by_type : State → RecordType → List Record
  by_type s t = sort_records (select (has_type t) s.records)

  pub contents : List Record → List Text
  contents [] = []
  contents (r ∷ rs) = r.content ∷ contents rs

  unfoldable pub cname_targets : State → List Text
  unfolding by_type contents
  cname_targets s = contents (by_type s type_cname)

  -- The record that an address stands for.
  unfoldable pub desired_record : Text → RecordType → std.Addr → ℕ → RecordOptions → Record
  desired_record name t address ttl_seconds options = record {
    id = [];
    name = name;
    record_type = t;
    content = std.addr_string address;
    ttl_seconds = ttl_seconds;
    options = clone_record_options options;
  }

  -- buildTypePlan for a desired address, at a first record and the others.
  unfoldable pub plan_of_current : Record → List Record → Record → List Operation
  plan_of_current first rest desired =
      let current : List Record = first ∷ rest in
      let kept = keep_index current desired in
      let deletes = delete_others 0 kept current in
      let keep = get_or current kept first in
      sort_operations (
        deletes
        ++ (if record_matches_desired keep desired then [] else update_operation keep desired ∷ []))

  abbrev pub plan_for_record : List Record → Record → List Operation
  plan_for_record [] desired = create_operation desired ∷ []
  plan_for_record (first ∷ rest) desired = plan_of_current first rest desired

  unfoldable pub build_type_plan :
      List Record → Text → RecordType → Option std.Addr → ℕ → RecordOptions → List Operation
  build_type_plan current name t none ttl_seconds options = delete_all current
  build_type_plan current name t (some address) ttl_seconds options =
      plan_for_record current (desired_record name t address ttl_seconds options)

  -- The operations for one family, none where it was not observed.
  unfoldable pub family_plan :
      State
      → DesiredState std.Addr
      → ObservedFamilies
      → RecordType
      → Option std.Addr
      → List Operation
  family_plan current desired observed t address =
      if observed_includes observed t
      then build_type_plan (by_type current t) desired.name t address desired.ttl_seconds
          desired.options
      else []

  unfoldable pub build_observed_address_plan :
      State → DesiredState std.Addr → ObservedFamilies → Result Plan
  unfolding family_plan
  build_observed_address_plan current desired observed =
      let targets = cname_targets current in
      if observed == observed_none
      then err (message no_observed_families)
      else if not (is_empty targets)
      then err (message (cname_records desired.name targets))
      else ok (record {
        operations =
            family_plan current desired observed type_a desired.ipv4
            ++ family_plan current desired observed type_aaaa desired.ipv6;
      })

  -- The loop of BuildDeletePlan over the two types.
  unfoldable pub delete_types : State → RecordSelection → List RecordType → List Operation
  delete_types current selection [] = []
  delete_types current selection (t ∷ ts) =
      let rest = delete_types current selection ts in
      if selection_includes selection t then delete_all (by_type current t) ++ rest else rest

  unfoldable pub build_delete_plan : State → RecordSelection → Result Plan
  unfolding delete_types
  build_delete_plan current selection =
      if selection == selection_none
      then err (message no_delete_selection)
      else ok (record {
        operations = sort_operations (delete_types current selection (type_a ∷ type_aaaa ∷ []));
      })
