-- ===== src/Tests/Runs.antt =====
-- Runs over the sample records.
use dns_update.Prelude.{◌≡◌, ◌≢◌, refl, none, some, arith}
use dns_update.Prelude.Int.{pos}
use dns_update.Text.{trim_suffix, to_lower, trim_space}
use dns_update.Failure.{ok, err, eof}
use dns_update.Retry.{mark_error, after}
use dns_update.Provider.{
  State, Plan, is_noop, observed_includes, normalize_name, clone_record_options,
}
use dns_update.Provider.Planning.{
  build_observed_address_plan, cname_targets, build_type_plan, plan_of_current, delete_others,
  keep_index, record_matches_desired, desired_record,
}
use dns_update.Provider.Order.{sort_records, sort_operations}
use dns_update.Provider.Verify.{verify_type_state, expected_record, verify_observed_address_state}
use dns_update.Provider.Meaning.{after_plan}
use dns_update.App.{
  ObservedState, collect, run, run_once, run_reconcile_once, desired_state, families,
}
use dns_update.App.ProbeErrors.{collect_probe_error, both_probes_error}
use dns_update.App.Errors.{either_delay, after-both_probes_error}
use dns_update.App.Once.{Settled, reconcile_ok}
use dns_update.App.Loop.{run_once_ok, run-ne-none, run_ok}
use dns_update.App.Effects.{dry_run_applies_nothing, delete_skips_probes}
use dns_update.Tests.Instance.{sample_std}
use dns_update.Tests.Fixtures.{
  sample_state, settled_state, sample_settings, sample_env, wet_options, dry_options,
  delete_options,
}

reconciled :
    run_reconcile_once sample_env sample_settings wet_options sample_state ≡ (ok tt, settled_state)
unfolding run_reconcile_once collect_probe_error build_observed_address_plan cname_targets
    sort_records is_noop observed_includes build_type_plan normalize_name trim_suffix to_lower
    trim_space plan_of_current sort_operations delete_others keep_index record_matches_desired
    desired_record clone_record_options after_plan verify_observed_address_state verify_type_state
    expected_record
reconciled = refl

reconcile_ok_example :
    (seen : ObservedState) × (current : State) × (u : State) × (plan : Plan) × (collect sample_env
        sample_settings sample_state
      ≡ (ok (seen, current), u))
    × (build_observed_address_plan current (desired_state sample_settings seen) (families seen)
        ≡ ok plan)
    × Settled sample_env sample_settings wet_options seen current plan u settled_state
reconcile_ok_example =
    reconcile_ok sample_env sample_settings wet_options sample_state settled_state refl reconciled

run-ne-none_example : run sample_env sample_settings wet_options sample_state ≢ none
run-ne-none_example = run-ne-none sample_env sample_settings wet_options sample_state

once : run_once sample_env sample_settings wet_options sample_state ≡ (ok tt, settled_state)
unfolding run_once
once = reconciled

ran : run sample_env sample_settings wet_options sample_state ≡ some (ok tt, settled_state)
ran = run_once_ok sample_env sample_settings wet_options sample_state settled_state once

run_ok_example :
    (u : State) × (run_once sample_env sample_settings wet_options u ≡ (ok tt, settled_state))
run_ok_example = run_ok sample_env sample_settings wet_options sample_state settled_state ran

dry_run_applies_nothing_example :
    run_once
      (record sample_env { apply = λ plan w. (err eof, w) })
      sample_settings
      dry_options
      sample_state
    ≡ run_once sample_env sample_settings dry_options sample_state
dry_run_applies_nothing_example =
    dry_run_applies_nothing sample_env sample_settings dry_options (λ plan w. (err eof, w))
      sample_state refl

delete_skips_probes_example :
    run_once
      (record sample_env {
        lookup_ipv4 = λ w. err eof;
        lookup_ipv6 = λ w. err eof;
        cause = λ w. some eof;
      })
      sample_settings
      delete_options
      sample_state
    ≡ run_once sample_env sample_settings delete_options sample_state
delete_skips_probes_example =
    delete_skips_probes sample_env sample_settings delete_options (λ w. err eof) (λ w. err eof)
      (λ w. some eof) sample_state (λ p. omega (arith, p))

-- One of the two errors is not retryable, and the whole is.
after-both_probes_error_example :
    after (both_probes_error eof (mark_error eof (pos 5)))
    ≡ either_delay (after eof) (after (mark_error eof (pos 5)))
after-both_probes_error_example = after-both_probes_error eof (mark_error eof (pos 5))
