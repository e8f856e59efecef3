-- ===== src/Cli/Exit.antt =====
-- cmd/dns-update/main.go: what an exit code says about the run.
use dns_update.Prelude.{◌≡◌, refl, Bool, false, Option, none, some, List, arith}
use dns_update.Text.{Text}
use dns_update.Failure.{Result, ok, err}
use dns_update.Config.Urls.{Parsers}
use dns_update.Config.Sections.{Config}
use dns_update.Cli.{
  CliFlagValues, RuntimeOptions, IntrospectionMode, mode_none, mode_validate_config,
  mode_print_effective_config, resolve_runtime_options, delete_flag_set,
}
use dns_update.Cli.Options.{Requested, resolve_runtime_options-IsAllowed}
use dns_update.Cli.Main.{
  Printers, parsed, Console, Dependencies, run_options, load_options, deadline, after_run, start,
  handle_introspection, after_introspection, with_config, with_options, run,
}

module _ {W Runner : Type 0} (parsers : Parsers) (printers : Printers) (console : Console W)
    (deps : Dependencies W Runner) (version_line : Text) where
  -- The configuration was loaded, the app was built from it, and its run returned nil.
  pub record IsRun (options : RuntimeOptions) (w v : W) : Type 0 where
    pub config : Config
    pub config-loaded : deps.load_config (load_options options) ≡ ok config
    pub app_runner : Runner
    pub app_runner-new : deps.new_runner config options.verbose ≡ ok app_runner
    pub app_runner-run :
        deps.run_app app_runner (deadline options) (run_options options) w ≡ some (ok tt, v)

  nil_returned :
      (final : Option (Result (Unit {0}) × W)) (v : W)
      → after_run parsers printers console deps version_line final ≡ some (0, v)
      → final ≡ some (ok tt, v)
  nil_returned none v h = absurd (cc)
  nil_returned (some (ok done, u)) v h = cc
  nil_returned (some (err e, u)) v h = absurd (ground arith)

  started :
      (options : RuntimeOptions) (config : Config) (built : Result Runner) (w v : W)
      → deps.load_config (load_options options) ≡ ok config
      → deps.new_runner config options.verbose ≡ built
      → start parsers printers console deps version_line options built w ≡ some (0, v)
      → IsRun options w v
  started options config (err e) w v loaded built h = absurd (ground arith)
  started options config (ok app_runner) w v loaded built h = record {
    config = config;
    config-loaded = loaded;
    app_runner = app_runner;
    app_runner-new = built;
    app_runner-run = nil_returned _ v h;
  }

  not_introspected :
      (options : RuntimeOptions) (config : Config) (mode : IntrospectionMode)
      (values : CliFlagValues) (w v : W)
      → deps.load_config (load_options options) ≡ ok config
      → values.validate_config ≡ false
      → values.print_effective_config ≡ false
      → Requested mode values
      → after_introspection parsers printers console deps version_line config options w
          (handle_introspection parsers printers console deps version_line mode config options w)
        ≡ some (0, v)
      → IsRun options w v
  not_introspected options config mode_none values w v loaded quiet quiet' mode h =
      started options config _ w v loaded refl h
  not_introspected options config mode_validate_config values w v loaded quiet quiet' mode h =
      absurd (ground arith)
  not_introspected options config mode_print_effective_config values w v loaded quiet quiet' mode
        h =
      absurd (ground arith)

  with_loaded :
      (options : RuntimeOptions) (loaded : Result Config) (values : CliFlagValues) (w v : W)
      → deps.load_config (load_options options) ≡ loaded
      → values.validate_config ≡ false
      → values.print_effective_config ≡ false
      → Requested options.introspection_mode values
      → with_config parsers printers console deps version_line options loaded w ≡ some (0, v)
      → IsRun options w v
  with_loaded options (err e) values w v loaded quiet quiet' mode h = absurd (ground arith)
  with_loaded options (ok config) values w v loaded quiet quiet' mode h =
      not_introspected options config options.introspection_mode values w v loaded quiet quiet' mode
        h

  with_resolved :
      (resolved : Result RuntimeOptions) (set_flags : Text → Bool) (values : CliFlagValues)
      (w v : W)
      → resolve_runtime_options parsers set_flags values deps.lookup_env ≡ resolved
      → values.validate_config ≡ false
      → values.print_effective_config ≡ false
      → with_options parsers printers console deps version_line resolved w ≡ some (0, v)
      → (options : RuntimeOptions) × (resolved ≡ ok options) × IsRun options w v
  with_resolved (err e) set_flags values w v resolved quiet quiet' h = absurd (ground arith)
  with_resolved (ok options) set_flags values w v resolved quiet quiet' h =
      let (allowed, dry, verbose, timeout) =
        resolve_runtime_options-IsAllowed parsers set_flags values deps.lookup_env options
          resolved in
      (
        options,
        refl,
        with_loaded options (deps.load_config (load_options options)) values w v refl quiet quiet'
            allowed.mode h,
      )

  -- The exit code 0 of a command that asks for no version and no introspection means that the options
  -- were resolved, the configuration was loaded, the app was built from it, and its run returned nil.
  pub run-exit_zero :
      (args : List Text) (values : CliFlagValues) (set_flags : Text → Bool) (w v : W)
      → deps.parse_flags delete_flag_set args ≡ parsed values set_flags
      → values.version ≡ false
      → values.validate_config ≡ false
      → values.print_effective_config ≡ false
      → run parsers printers console deps version_line args w ≡ some (0, v)
      → (options : RuntimeOptions) × (resolve_runtime_options parsers set_flags values
            deps.lookup_env
          ≡ ok options)
        × IsRun options w v
  unfolding run
  run-exit_zero args values set_flags w v flags unversioned quiet quiet' h =
      with_resolved (resolve_runtime_options parsers set_flags values deps.lookup_env) set_flags
        values w v refl quiet quiet' (rw (flags, unversioned) at h)
