-- ===== src/Program/Outcome.antt =====
-- cmd/dns-update/main.go: the command with its production dependencies, from the arguments to the records.
use dns_update.Prelude.{
  ℕ, ◌≡◌, ap, sym, ◌∙◌, subst, Bool, false, Option, some, List, not, ◌==◌, if◌then◌else◌,
}
use dns_update.Text.{Text}
use dns_update.Stdlib.{Stdlib}
use dns_update.Failure.{ok}
use dns_update.Provider.{State, Plan, selection_none}
use dns_update.Provider.Planning.{build_observed_address_plan}
use dns_update.Config.Sections.{Config}
use dns_update.Config.Loading.Sources.{IsLoaded, load_with_options-IsLoaded}
use dns_update.App.{
  ObservedState, collect, desired_state, families, run_once, run_reconcile_once, run_delete_once,
}
use dns_update.Config.Loading.{load_with_options}
use dns_update.App.Loop.{run_ok}
use dns_update.App.Once.{Settled, reconcile_ok}
use dns_update.App.Construction.{Runner, settings_of}
use dns_update.App.Construction.Provided.{IsProvided, new-IsProvided}
use dns_update.Egress.{new_prober}
use dns_update.Cli.{CliFlagValues, RuntimeOptions, resolve_runtime_options, delete_flag_set}
use dns_update.Cli.Main.{
  Console, Dependencies, Parsing, parsed, run_options, load_options, deadline,
}
use dns_update.Cli.Main
use dns_update.Cli.Exit.{IsRun, run-exit_zero}
use dns_update.Program.{
  prober_client, Process, Service, collaborators, run_app, production_dependencies,
}

module _ ⦃std : Stdlib⦄ {W : Type 0} (process : Process W) (console : Console W)
    (version_line : Text) where
  abbrev pub program : List Text → W → Option (ℕ × W)
  program args w =
      Main.run process.parsers process.printers console (production_dependencies process)
        version_line args w

  -- The runner that was built from a configuration, and its last attempt.
  pub record IsUpdated (options : RuntimeOptions) (w v : W) : Type 0 where
    pub config : Config
    pub config-IsLoaded :
        IsLoaded process.os process.disk process.parsers (load_options options) config
    pub r : Runner W (Service W)
    pub r-cfg : r.cfg ≡ config
    pub r-IsProvided :
        IsProvided process.service process.parsers process.os config.provider r.provider
          r.desired_options
    pub last : W
    pub last-ok :
        run_once
          (collaborators process r (process.context (deadline options)))
          (settings_of r)
          (run_options options)
          last
        ≡ (ok tt, v)

  updated :
      (options : RuntimeOptions) (w v : W)
      → IsRun process.parsers process.printers console
          (production_dependencies process)
          version_line
          options
          w
          v
      → IsUpdated options w v
  unfolding run_app load_with_options production_dependencies
  updated options w v ran =
      let loaded =
        load_with_options-IsLoaded process.os process.disk process.parsers (load_options options)
          ran.config ran.config-loaded in
      let (same, provided) =
        new-IsProvided process.service process.parsers process.os
          (λ (x : W). new_prober (prober_client process x) process.new_request) ran.config
          ran.app_runner ran.app_runner-new in
      let (last, attempt) =
        run_ok (collaborators process ran.app_runner (process.context (deadline options)))
          (settings_of ran.app_runner) (run_options options) w v ran.app_runner-run in
      record {
        config = ran.config;
        config-IsLoaded = loaded;
        r = ran.app_runner;
        r-cfg = same;
        r-IsProvided = provided;
        last = last;
        last-ok = attempt;
      }

  -- What the last attempt has done, where it reconciled.
  abbrev pub Reconciled : (options : RuntimeOptions) (w v : W) → IsUpdated options w v → Type 0
  Reconciled options w v s =
      let env = collaborators process s.r (process.context (deadline options)) in
      let cfg = settings_of s.r in
      (seen : ObservedState) × (current : State) × (u : W) × (plan : Plan) × (collect env cfg s.last
        ≡ (ok (seen, current), u))
      × (build_observed_address_plan current (desired_state cfg seen) (families seen) ≡ ok plan)
      × Settled env cfg (run_options options) seen current plan u v

  reconciled :
      (options : RuntimeOptions) (w v : W) (s : IsUpdated options w v)
      → options.dry_run ≡ false
      → options.delete_selection ≡ selection_none
      → Reconciled options w v s
  unfolding run_once
  reconciled options w v s wet update =
      let env = collaborators process s.r (process.context (deadline options)) in
      let cfg = settings_of s.r in
      let once : run_reconcile_once env cfg (run_options options) s.last ≡ (ok tt, v) =
        sym (
          ap
            (λ (d : ℕ).
              if not (d == selection_none)
              then run_delete_once env cfg (run_options options) s.last
              else run_reconcile_once env cfg (run_options options) s.last)
            update)
        ∙ s.last-ok in
      reconcile_ok env cfg (run_options options) s.last v wet once

  -- Exit code 0 of the command, without -version, -validate-config, -print-effective-config, -dry-run and
  -- -delete: a valid configuration was read, each part of it from its entry in the file at its source
  -- path, but for a token file that the environment names; the provider was made for it with a token
  -- from a private file, and the last attempt collected the probes and the current state and found
  -- nothing to do, or applied its plan, or the forced one, and verified the state.
  pub program_reconciles :
      (args : List Text) (values : CliFlagValues) (set_flags : Text → Bool)
      (options : RuntimeOptions) (w v : W)
      → process.parse_flags delete_flag_set args ≡ parsed values set_flags
      → values.version ≡ false
      → values.validate_config ≡ false
      → values.print_effective_config ≡ false
      → resolve_runtime_options process.parsers set_flags values process.os.lookup_env ≡ ok options
      → options.dry_run ≡ false
      → options.delete_selection ≡ selection_none
      → program args w ≡ some (0, v)
      → (s : IsUpdated options w v) × Reconciled options w v s
  unfolding production_dependencies
  program_reconciles args values set_flags options w v flags update quiet quiet' resolved wet kept
        h =
      let (found, found_ok, ran) =
        run-exit_zero process.parsers process.printers console (production_dependencies process)
          version_line args values set_flags w v flags update quiet quiet' h in
      let same : found ≡ options = cc (found_ok, resolved) in
      let s = subst (λ o. IsUpdated o w v) same (updated found w v ran) in
      (s, reconciled options w v s wet kept)
