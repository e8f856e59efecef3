-- ===== src/App.antt =====
-- internal/app/run.go: the runner. Its collaborators (the provider, the prober, the context and the
-- sleep) are an interface over a world that each call may change. The two probes run beside the first
-- read of the provider; their answers are read from the world in which `collect` starts. Log lines
-- are left out.
pub mod ProbeErrors
pub mod Errors
pub mod Once
pub mod Effects
pub mod Loop
pub mod Converges
pub mod Deletes
pub mod Construction
pub mod Formats
use dns_update.Prelude.{
  ℕ, zero, suc, ◌+◌, Bool, true, false, not, ◌||◌, Option, none, some, List, [], ◌∷◌, ◌++◌, bit_or,
  ◌==◌, if◌then◌else◌, is_empty,
}
use dns_update.Prelude.Int.{ℤ, pos, negsuc, pos_part, max_ℤ}
use dns_update.Text.{Text, codes}
use dns_update.Stdlib.{Stdlib}
use dns_update.Failure.{Error, wrapped, joined, Result, ok, err}
use dns_update.Retry.{Duration, Policy, mark_error, after, normalized, delay, can_retry}
use dns_update.Provider.{
  Record, RecordType, RecordOptions, State, DesiredState, ObservedFamilies, RecordSelection,
  selection_none, observed_includes, Operation, Plan, kind_update, type_a, type_aaaa, is_noop,
}
use dns_update.Provider.Planning.{
  by_type, build_observed_address_plan, build_delete_plan, update_operation,
}
use dns_update.App.ProbeErrors.{error_of, collect_probe_error}
use dns_update.Provider.Verify.{verify_observed_address_state, verify_deleted_types}

pub record RunOptions : Type 0 where
  pub dry_run : Bool
  pub force_push : Bool
  pub delete : RecordSelection

-- A call that may fail, and the world after it.
abbrev pub Exec : Type 0 → Type 0 → Type 0
Exec W A = W → Result A × W

module _ ⦃std : Stdlib⦄ where
  pub record ObservedState : Type 0 where
    pub ipv4 : Option std.Addr
    pub ipv6 : Option std.Addr
    pub ipv4_observed : Bool
    pub ipv6_observed : Bool

  -- observedState.Families
  unfoldable pub families : ObservedState → ObservedFamilies
  families s =
      let observed : ℕ = if s.ipv4_observed then bit_or 0 1 else 0 in
      if s.ipv6_observed then bit_or observed 2 else observed

  -- What the calls of the runner do. `cause` is context.Cause of the probes' context when both are
  -- done, and `jitter` the random part of a delay.
  pub record Collaborators (W : Type 0) : Type 0 where
    pub read_state : Text → Exec W State
    pub apply : Plan → Exec W (Unit {0})
    pub lookup_ipv4 : W → Result (Option std.Addr)
    pub lookup_ipv6 : W → Result (Option std.Addr)
    pub cause : W → Option Error
    pub wait : Duration → Exec W (Unit {0})
    pub jitter : W → Duration → Duration

  -- The parts of the configuration that the runner reads.
  pub record Settings : Type 0 where
    pub record_name : Text
    pub ttl_seconds : ℕ
    pub allow_partial_failure : Bool
    pub desired_options : RecordOptions
    pub retries : Policy

  abbrev found : Result (Option std.Addr) → Option std.Addr
  found (ok address) = address
  found (err e) = none

  abbrev succeeded : Result (Option std.Addr) → Bool
  succeeded (ok address) = true
  succeeded (err e) = false

  -- What the two goroutines store.
  abbrev pub observe : Result (Option std.Addr) → Result (Option std.Addr) → ObservedState
  observe ipv4 ipv6 = record {
    ipv4 = found ipv4;
    ipv6 = found ipv6;
    ipv4_observed = succeeded ipv4;
    ipv6_observed = succeeded ipv6;
  }

  unfoldable pub desired_state : Settings → ObservedState → DesiredState std.Addr
  desired_state cfg observed = record {
    name = cfg.record_name;
    ttl_seconds = cfg.ttl_seconds;
    ipv4 = observed.ipv4;
    ipv6 = observed.ipv6;
    options = cfg.desired_options;
  }

  abbrev force_operation : List Record → Record → List Operation
  force_operation [] desired = []
  force_operation (first ∷ rest) desired = update_operation first desired ∷ []

  unfoldable pub force_push_operation :
      List Record → Text → RecordType → Option std.Addr → ℕ → RecordOptions → List Operation
  force_push_operation current name t none ttl_seconds options = []
  force_push_operation current name t (some address) ttl_seconds options =
      force_operation current (record {
        id = [];
        name = name;
        record_type = t;
        content = std.addr_string address;
        ttl_seconds = ttl_seconds;
        options = options;
      })

  force_family :
      State
      → DesiredState std.Addr
      → ObservedFamilies
      → RecordType
      → Option std.Addr
      → List Operation
  force_family current desired observed t address =
      if observed_includes observed t
      then force_push_operation (by_type current t) desired.name t address desired.ttl_seconds
          desired.options
      else []

  unfoldable pub force_push_plan : State → DesiredState std.Addr → ObservedFamilies → Plan
  unfolding force_family force_push_operation
  force_push_plan current desired observed = record {
    operations =
        force_family current desired observed type_a desired.ipv4
        ++ force_family current desired observed type_aaaa desired.ipv6;
  }

  module _ {W : Type 0} (env : Collaborators W) (cfg : Settings) where
    -- After the probes and the read: the error of the probes, or what was seen.
    abbrev pub probes_done :
        Option Error → ObservedState → State → W → Result (ObservedState × State) × W
    probes_done (some e) observed current w = (err e, w)
    probes_done none observed current w = (ok (observed, current), w)

    abbrev pub after_read :
        Result (Option std.Addr)
        → Result (Option std.Addr)
        → Result State × W
        → Result (ObservedState × State) × W
    after_read ipv4 ipv6 (err e, w) = (err (wrapped (codes "read current provider state") e), w)
    after_read ipv4 ipv6 (ok current, w) =
        probes_done
          (collect_probe_error (env.cause w) (error_of ipv4) (error_of ipv6)
            cfg.allow_partial_failure)
          (observe ipv4 ipv6) current w

    unfoldable pub collect : Exec W (ObservedState × State)
    collect w =
        after_read (env.lookup_ipv4 w) (env.lookup_ipv6 w) (env.read_state cfg.record_name w)

    -- The read after an apply, and the verification of what was read.
    abbrev pub check_read : (State → Result (Unit {0})) → Result State × W → Result (Unit {0}) × W
    check_read verify (err e, w) = (err (wrapped (codes "verify updated records") e), w)
    check_read verify (ok verified, w) = (verify verified, w)

    abbrev pub check_applied :
        (State → Result (Unit {0})) → Result (Unit {0}) × W → Result (Unit {0}) × W
    check_applied verify (err e, w) = (err (wrapped (codes "apply update") e), w)
    check_applied verify (ok done, w) = check_read verify (env.read_state cfg.record_name w)

    unfoldable pub apply_and_verify : Plan → (State → Result (Unit {0})) → Exec W (Unit {0})
    apply_and_verify plan verify w = check_applied verify (env.apply plan w)

    -- What is done with a plan that has operations.
    abbrev pub carry_out : RunOptions → Plan → (State → Result (Unit {0})) → Exec W (Unit {0})
    carry_out options plan verify w =
        if options.dry_run then (ok tt, w) else apply_and_verify plan verify w

    abbrev pub reconcile_plan :
        RunOptions → State → DesiredState std.Addr → ObservedFamilies → Plan → Exec W (Unit {0})
    reconcile_plan options current desired observed plan w =
        let verify = λ (state : State). verify_observed_address_state state desired observed in
        let forced = force_push_plan current desired observed in
        if is_noop plan
        then (if options.force_push
            then (if is_noop forced then (ok tt, w) else carry_out options forced verify w)
            else (ok tt, w))
        else carry_out options plan verify w

    abbrev pub reconcile_built :
        RunOptions
        → State
        → DesiredState std.Addr
        → ObservedFamilies
        → Result Plan
        → Exec W (Unit {0})
    reconcile_built options current desired observed (err e) w = (err e, w)
    reconcile_built options current desired observed (ok plan) w =
        reconcile_plan options current desired observed plan w

    abbrev pub reconcile_collected :
        RunOptions → Result (ObservedState × State) × W → Result (Unit {0}) × W
    reconcile_collected options (err e, w) = (err e, w)
    reconcile_collected options (ok (observed, current), w) =
        let desired = desired_state cfg observed in
        let seen = families observed in
        reconcile_built options current desired seen
          (build_observed_address_plan current desired seen) w

    unfoldable pub run_reconcile_once : RunOptions → Exec W (Unit {0})
    unfolding collect desired_state families force_push_plan apply_and_verify
    run_reconcile_once options w = reconcile_collected options (collect w)

    abbrev pub delete_built : RunOptions → Result Plan → Exec W (Unit {0})
    delete_built options (err e) w = (err e, w)
    delete_built options (ok plan) w =
        if is_noop plan
        then (ok tt, w)
        else carry_out options plan (λ state. verify_deleted_types state options.delete) w

    abbrev pub delete_read : RunOptions → Result State × W → Result (Unit {0}) × W
    delete_read options (err e, w) = (err (wrapped (codes "read current provider state") e), w)
    delete_read options (ok current, w) =
        delete_built options (build_delete_plan current options.delete) w

    unfoldable pub run_delete_once : RunOptions → Exec W (Unit {0})
    unfolding apply_and_verify
    run_delete_once options w = delete_read options (env.read_state cfg.record_name w)

    unfoldable pub run_once : RunOptions → Exec W (Unit {0})
    run_once options w =
        if not (options.delete == selection_none)
        then run_delete_once options w
        else run_reconcile_once options w

    -- A round of Run after the wait, after CanRetry, and after runOnce; `again` is the next round.
    abbrev pub resume :
        (W → Option (Result (Unit {0}) × W))
        → Result (Unit {0}) × W
        → Option (Result (Unit {0}) × W)
    resume again (err wait_err, w) = some (err wait_err, w)
    resume again (ok done, w) = again w

    abbrev pub retry_round :
        ℕ
        → (W → Option (Result (Unit {0}) × W))
        → Error
        → Option Duration
        → W
        → Option (Result (Unit {0}) × W)
    retry_round attempt again e none w = some (err e, w)
    retry_round attempt again e (some retry_after) w =
        resume again (env.wait (delay cfg.retries (env.jitter w) attempt retry_after) w)

    abbrev pub finish_round :
        ℕ
        → (W → Option (Result (Unit {0}) × W))
        → Result (Unit {0}) × W
        → Option (Result (Unit {0}) × W)
    finish_round attempt again (ok done, w) = some (ok tt, w)
    finish_round attempt again (err e, w) =
        retry_round attempt again e (can_retry cfg.retries attempt e) w

    -- The loop of Run from an attempt on, with fuel for the attempts left.
    unfoldable pub run_from : ℕ → ℕ → RunOptions → W → Option (Result (Unit {0}) × W)
    run_from zero attempt options w = none
    run_from (suc fuel) attempt options w =
        finish_round attempt (run_from fuel (attempt + 1) options) (run_once options w)

    -- Run. The policy's attempts are fuel enough.
    unfoldable pub run : RunOptions → W → Option (Result (Unit {0}) × W)
    run options w = run_from (pos_part (normalized cfg.retries).max_attempts) 1 options w
