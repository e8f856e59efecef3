-- ===== src/Cli/Main.antt =====
-- cmd/dns-update/main.go, inspect.go and version.go: run, from the arguments to the exit code. What is
-- written to stdout and stderr, the loader, the app and the flag package are parameters over a world.
use dns_update.Prelude.{ℕ, Bool, false, Option, none, some, List, [], if◌then◌else◌}
use dns_update.Prelude.Int.{pos, ltb_ℤ}
use dns_update.Text.{Text, codes}
use dns_update.Failure.{Error, Result, ok, err}
use dns_update.Retry.{Duration}
use dns_update.Provider.{RecordSelection, selection_string}
use dns_update.Config.Urls.{Url, Parsers}
use dns_update.Config.Sections.{Config, CloudflareConfig}
use dns_update.Config.Loading.{LoadOptions}
use dns_update.App.{RunOptions, Exec}
use dns_update.Cli.{
  CliFlagValues, RuntimeOptions, IntrospectionMode, mode_none, mode_validate_config,
  mode_print_effective_config, LookupEnv, resolve_runtime_options, delete_flag_set,
}

-- What printEffectiveConfig encodes.
pub record EffectiveRuntimeConfig : Type 0 where
  pub config_path : Text
  pub delete : Text
  pub dry_run : Bool
  pub force_push : Bool
  pub verbose : Bool
  pub timeout : Text

pub record EffectiveRecordConfig : Type 0 where
  pub name : Text
  pub zone : Text
  pub ttl_seconds : ℕ

pub record EffectiveProbeConfig : Type 0 where
  pub ipv4_url : Text
  pub ipv6_url : Text
  pub timeout : Text
  pub allow_insecure_http : Bool
  pub allow_partial_failure : Bool

pub record EffectiveCloudflareConfig : Type 0 where
  pub zone_id : Text
  pub api_token_file : Text
  pub base_url : Text
  pub proxied : Bool

pub record EffectiveProviderConfig : Type 0 where
  pub provider_type : Text
  pub timeout : Text
  pub cloudflare : EffectiveCloudflareConfig

pub record EffectiveConfig : Type 0 where
  pub runtime : EffectiveRuntimeConfig
  pub record_section : EffectiveRecordConfig
  pub probe : EffectiveProbeConfig
  pub provider : EffectiveProviderConfig

-- URL.String and Duration.String.
pub record Printers : Type 0 where
  pub url_string : Url → Text
  pub duration_string : Duration → Text

module _ (printers : Printers) where
  abbrev pub effective_cloudflare : Option CloudflareConfig → EffectiveCloudflareConfig
  effective_cloudflare none = record {
    zone_id = [];
    api_token_file = [];
    base_url = [];
    proxied = false;
  }
  effective_cloudflare (some cloudflare) = record {
    zone_id = cloudflare.zone_id;
    api_token_file = cloudflare.api_token_file;
    base_url = printers.url_string cloudflare.base_url;
    proxied = cloudflare.proxied;
  }

  unfoldable pub effective_config : Config → RuntimeOptions → EffectiveConfig
  unfolding selection_string
  effective_config cfg options = record {
    runtime = record {
      config_path = cfg.source_path;
      delete = selection_string options.delete_selection;
      dry_run = options.dry_run;
      force_push = options.force_push;
      verbose = options.verbose;
      timeout = printers.duration_string options.timeout;
    };
    record_section = record {
      name = cfg.record_section.name;
      zone = cfg.record_section.zone;
      ttl_seconds = cfg.record_section.ttl_seconds;
    };
    probe = record {
      ipv4_url = printers.url_string cfg.probe.ipv4_url;
      ipv6_url = printers.url_string cfg.probe.ipv6_url;
      timeout = printers.duration_string cfg.probe.timeout;
      allow_insecure_http = cfg.probe.allow_insecure_http;
      allow_partial_failure = cfg.probe.allow_partial_failure;
    };
    provider = record {
      provider_type = cfg.provider.provider_type;
      timeout = printers.duration_string cfg.provider.timeout;
      cloudflare = effective_cloudflare cfg.provider.cloudflare;
    };
  }

-- flags.Parse: the values with the names of the flags that were set, flag.ErrHelp, or another error.
pub data Parsing : Type 0 where
  parsed : CliFlagValues → (Text → Bool) → Parsing
  help_wanted : Parsing
  bad_flags : Parsing

-- The writes of the program.
pub record Console (W : Type 0) : Type 0 where
  pub print_line : Text → Exec W (Unit {0})
  pub encode_json : EffectiveConfig → Exec W (Unit {0})
  pub write_error : Text → Error → W → W

-- dependencies, with flags.Parse; the context's timeout is none where there is no deadline. A run is
-- none only if it does not end.
pub record Dependencies (W Runner : Type 0) : Type 0 where
  pub parse_flags : (Text → Result RecordSelection) → List Text → Parsing
  pub load_config : LoadOptions → Result Config
  pub new_runner : Config → Bool → Result Runner
  pub run_app : Runner → Option Duration → RunOptions → W → Option (Result (Unit {0}) × W)
  pub lookup_env : LookupEnv

abbrev pub run_options : RuntimeOptions → RunOptions
run_options options = record {
  dry_run = options.dry_run;
  force_push = options.force_push;
  delete = options.delete_selection;
}

abbrev pub load_options : RuntimeOptions → LoadOptions
load_options options = record {
  path = options.config_path;
  explicit_path = options.explicit_config_path;
  working_dir = [];
  env = none;
}

abbrev pub deadline : RuntimeOptions → Option Duration
deadline options = if ltb_ℤ (pos 0) options.timeout then some options.timeout else none

module _ {W Runner : Type 0} (parsers : Parsers) (printers : Printers) (console : Console W)
    (deps : Dependencies W Runner) (version_line : Text) where
  -- An exit code, and the world at the exit.
  abbrev pub Exit : Type 0
  Exit = Option (ℕ × W)

  -- The exit after a write that may have failed.
  abbrev pub exit_of : Text → Result (Unit {0}) × W → Exit
  exit_of text (ok done, w) = some (0, w)
  exit_of text (err e, w) = some (1, console.write_error text e w)

  abbrev pub after_run : Option (Result (Unit {0}) × W) → Exit
  after_run none = none
  after_run (some final) = exit_of (codes "dns update run failed") final

  abbrev pub start : RuntimeOptions → Result Runner → W → Exit
  start options (err e) w = some (1, console.write_error (codes "failed to initialize app") e w)
  start options (ok app_runner) w =
      after_run (deps.run_app app_runner (deadline options) (run_options options) w)

  -- handleIntrospection: none where it has not handled the options.
  abbrev pub handle_introspection :
      IntrospectionMode → Config → RuntimeOptions → W → Option (Result (Unit {0}) × W)
  handle_introspection mode_print_effective_config cfg options w =
      some (console.encode_json (effective_config printers cfg options) w)
  handle_introspection mode_validate_config cfg options w =
      some (console.print_line (codes "config is valid") w)
  handle_introspection mode_none cfg options w = none

  abbrev pub after_introspection :
      Config → RuntimeOptions → W → Option (Result (Unit {0}) × W) → Exit
  after_introspection cfg options w (some printed) =
      exit_of (codes "failed to print config") printed
  after_introspection cfg options w none = start options (deps.new_runner cfg options.verbose) w

  abbrev pub with_config : RuntimeOptions → Result Config → W → Exit
  with_config options (err e) w = some (1, console.write_error (codes "failed to load config") e w)
  with_config options (ok cfg) w =
      after_introspection cfg options w
        (handle_introspection options.introspection_mode cfg options w)

  abbrev pub with_options : Result RuntimeOptions → W → Exit
  with_options (err e) w = some (2, console.write_error (codes "failed to parse flags") e w)
  with_options (ok options) w = with_config options (deps.load_config (load_options options)) w

  abbrev pub with_flags : Parsing → W → Exit
  with_flags help_wanted w = some (0, w)
  with_flags bad_flags w = some (2, w)
  with_flags (parsed values set_flags) w =
      if values.version
      then exit_of (codes "failed to print version") (console.print_line version_line w)
      else with_options (resolve_runtime_options parsers set_flags values deps.lookup_env) w

  unfoldable pub run : List Text → W → Exit
  unfolding resolve_runtime_options delete_flag_set
  run args w = with_flags (deps.parse_flags delete_flag_set args) w
