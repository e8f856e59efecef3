-- ===== src/Tests/Plans.antt =====
-- Plans for the sample records.
use dns_update.Prelude.{◌≡◌, refl, [], ◌∷◌, not, select, all_of, true, false}
use dns_update.Text.{codes, trim_suffix, to_lower, trim_space}
use dns_update.Failure.{ok}
use dns_update.Provider.{
  Plan, type_a, type_aaaa, normalize_name, observed_includes, selection_includes,
  clone_record_options,
}
use dns_update.Provider.Planning.{
  has_type, delete_operation, update_operation, cname_targets, by_type, build_type_plan,
  plan_of_current, keep_index, delete_others, record_matches_desired, desired_record,
  build_observed_address_plan, build_delete_plan,
}
use dns_update.Provider.Order.{sort_records, sort_operations}
use dns_update.Provider.Verify.{
  verify_type_state, expected_record, verify_observed_address_state, verify_deleted_types,
}
use dns_update.Provider.Meaning.{after_plan}
use dns_update.Provider.Meaning.Deleted.{selected, delete_plan_verifies}
use dns_update.Provider.Meaning.Observed.{observed_plan_verifies, observed_plan_frame}
use dns_update.Provider.Planning.Idle.{has_name, verified_plan_idle}
use dns_update.Tests.Instance.{sample_std}
use dns_update.Tests.Fixtures.{sample_record, sample_state, settled_state, sample_desired, fresh_id}

-- The plan keeps the record with the smaller ID, and updates it.
abbrev pub observed_plan : Plan
observed_plan = record {
  operations =
      delete_operation (sample_record (codes "r2") type_a (codes "192.0.2.2"))
      ∷ update_operation (sample_record (codes "r1") type_a (codes "192.0.2.1"))
          (record (sample_record [] type_a (codes "192.0.2.7")) { name = sample_desired.name })
      ∷ delete_operation (sample_record (codes "r3") type_aaaa (codes "2001:db8::3"))
      ∷ [];
}

abbrev pub delete_plan : Plan
delete_plan = record {
  operations =
      delete_operation (sample_record (codes "r1") type_a (codes "192.0.2.1"))
      ∷ delete_operation (sample_record (codes "r2") type_a (codes "192.0.2.2"))
      ∷ delete_operation (sample_record (codes "r3") type_aaaa (codes "2001:db8::3"))
      ∷ [];
}

pub observed_plan_built :
    build_observed_address_plan sample_state sample_desired 3 ≡ ok observed_plan
unfolding build_observed_address_plan cname_targets sort_records observed_includes build_type_plan
    normalize_name trim_suffix to_lower trim_space plan_of_current keep_index delete_others
    sort_operations record_matches_desired desired_record clone_record_options
observed_plan_built = refl

pub delete_plan_built : build_delete_plan sample_state 3 ≡ ok delete_plan
unfolding build_delete_plan sort_operations selection_includes by_type sort_records normalize_name
    trim_suffix to_lower trim_space
delete_plan_built = refl

settled_state_after : after_plan fresh_id observed_plan sample_state ≡ settled_state
unfolding after_plan
settled_state_after = refl

settled_state_verified : verify_observed_address_state settled_state sample_desired 3 ≡ ok tt
unfolding verify_observed_address_state cname_targets sort_records observed_includes
    verify_type_state record_matches_desired expected_record clone_record_options
settled_state_verified = refl

observed_plan_verifies_example :
    verify_observed_address_state (after_plan fresh_id observed_plan sample_state) sample_desired 3
    ≡ ok tt
observed_plan_verifies_example =
    observed_plan_verifies fresh_id sample_state sample_desired 3 observed_plan refl
      observed_plan_built

txt_not_observed : observed_includes 3 (codes "TXT") ≡ false
unfolding observed_includes
txt_not_observed = refl

observed_plan_frame_example :
    select (has_type (codes "TXT")) (after_plan fresh_id observed_plan sample_state).records
    ≡ select (has_type (codes "TXT")) sample_state.records
observed_plan_frame_example =
    observed_plan_frame fresh_id sample_state sample_desired 3 observed_plan (codes "TXT") refl
      observed_plan_built txt_not_observed

delete_plan_verifies_example :
    ((after_plan fresh_id delete_plan sample_state).records
      ≡ select (λ r. not (selected 3 r)) sample_state.records)
    × (verify_deleted_types (after_plan fresh_id delete_plan sample_state) 3 ≡ ok tt)
delete_plan_verifies_example =
    delete_plan_verifies fresh_id sample_state 3 delete_plan refl delete_plan_built

settled_state_named : all_of (has_name sample_desired.name) settled_state.records ≡ true
unfolding normalize_name trim_suffix to_lower trim_space
settled_state_named = refl

verified_plan_idle_example :
    build_observed_address_plan settled_state sample_desired 3 ≡ ok (record { operations = [] })
verified_plan_idle_example =
    verified_plan_idle settled_state sample_desired 3 settled_state_named settled_state_verified
