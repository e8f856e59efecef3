-- ===== src/Tests/Programs.antt =====
-- The command over a zone without records, whose only probe answer is an IPv4 address.
use dns_update.Http.Client.{new_with_network}
use dns_update.Cli.Options.{IsAllowed, Precedence, resolve_runtime_options-IsAllowed}
use dns_update.Cli.Usage.{Misused, run-exit_code}
use dns_update.Provider.Verify.{verify_observed_address_state, verify_type_state, expected_record}
use dns_update.Provider.Order.{sort_records, sort_operations}
use dns_update.Provider.Planning.{
  build_observed_address_plan, cname_targets, build_type_plan, plan_of_current, delete_others,
  keep_index, record_matches_desired, desired_record,
}
use dns_update.Retry.{default_policy, normalized}
use dns_update.App.ProbeErrors.{collect_probe_error}
use dns_update.App.{run_from, run_once, run_reconcile_once}
use dns_update.Cloudflare.Construction.{new_client}
use dns_update.SecureFile.{read_single_token}
use dns_update.App.Construction.{new}
use dns_update.Config.Urls.{
  parse_probe_url, is_loopback_host, parse_duration_or_default, parse_https_url,
  validate_client_config, is_allowed_base_url,
}
use dns_update.Config.{normalize_fqdn, is_name_within_zone}
use dns_update.Config.Sections.{normalize, validate_cloudflare_ttl, validate_secret_file}
use dns_update.Config.Loading.{load_with_options}
use dns_update.Prelude.{
  ℕ, ◌≡◌, ◌≤◌, ◌⊎◌, refl, Bool, true, false, Option, none, some, List, [], ◌∷◌, ◌++◌, map,
  if◌then◌else◌,
}
use dns_update.Prelude.Int.{pos}
use dns_update.Text.{
  Text, codes, text_eq, trim_space, to_lower, has_suffix, trim_suffix, has_prefix, trim_prefix,
}
use dns_update.Failure.{ok}
use dns_update.Http.{Clock}
use dns_update.Egress.{Response, lookup, client_for_family, request_builder, parse_response}
use dns_update.Provider.{
  selection_none, is_noop, observed_includes, normalize_name, clone_record_options,
}
use dns_update.Cloudflare.{
  RecordResponse, RecordParam, normalize_api_name, normalize_provider_name, record_options,
  build_batch_params, state_records, add_operations, add_operation, to_record_post,
}
use dns_update.Cli.{
  CliFlagValues, RuntimeOptions, mode_none, resolve_runtime_options, delete_flag_set, env_dry_run,
  env_verbose, env_timeout, parse_bool_value,
}
use dns_update.Cli.Main.{Parsing, parsed, bad_flags, Console, run}
use dns_update.Program.{Service, Context, Process, production_dependencies, run_app}
use dns_update.Program.Outcome.{program, IsUpdated, Reconciled, program_reconciles}
use dns_update.App
use dns_update.Tests.Instance.{sample_std}
use dns_update.Tests.Hosts.{sample_os}
use dns_update.Tests.Configs.{sample_parsers}
use dns_update.Tests.Starts.{sample_disk}

-- The records of the zone.
abbrev pub Zone : Type 0
Zone = List RecordResponse

abbrev posted : RecordParam → RecordResponse
posted param = record {
  id = codes "new";
  name = param.name;
  record_type = param.record_type;
  content = param.content;
  ttl = param.ttl;
  proxied = true;
}

abbrev posts_of : Option (List RecordParam) → Zone
posts_of none = []
posts_of (some params) = map posted params

abbrev sample_service : Service Zone
sample_service = record {
  list_auto_paging = λ params w. (record { pulled = w; failure = none }, w);
  batch = λ params w. (ok tt, w ++ posts_of params.posts);
}

abbrev sample_response : Text → Response
sample_response network = record {
  status_code = 200;
  retry_after = [];
  read_body =
      λ n. ok (if text_eq network (codes "tcp4") then codes "ip=192.0.2.7 " else codes "ip=none");
}

abbrev sample_clock : Clock
sample_clock = record { parse_time = λ t. none; now = pos 0; parse_milliseconds = λ t. none }

abbrev pub sample_context : Context Zone
sample_context = record {
  cause = λ w. none;
  probe_cause = λ family w. none;
  probes_cause = λ w. none;
  timer = λ d w. (none, w);
  jitter = λ w d. d;
  clock = λ w. sample_clock;
}

abbrev sample_values : CliFlagValues
sample_values = record {
  config_path = [];
  delete_selection = selection_none;
  dry_run = false;
  force_push = false;
  validate_config = false;
  print_effective_config = false;
  verbose = true;
  version = false;
  timeout = pos 0;
}

abbrev sample_options : RuntimeOptions
sample_options = record {
  config_path = [];
  delete_selection = selection_none;
  explicit_config_path = false;
  dry_run = false;
  force_push = false;
  introspection_mode = mode_none;
  verbose = true;
  timeout = pos 0;
}

abbrev verbose_set : Text → Bool
verbose_set name = text_eq name (codes "verbose")

-- `-verbose` and nothing else.
abbrev sample_flags : List Text → Parsing
sample_flags [] = bad_flags
sample_flags (t ∷ ts) = parsed sample_values verbose_set

abbrev pub sample_process : Process Zone
sample_process = record {
  os = sample_os;
  disk = sample_disk;
  parsers = sample_parsers;
  printers = record {
    url_string = λ u. u.scheme ++ (codes "://" ++ (u.host ++ u.path));
    duration_string = λ d. [];
  };
  service = λ config. sample_service;
  http_client = λ w settings url. ok (sample_response settings.transport.dialer.forced_network);
  new_request = λ url. none;
  context = λ timeout. sample_context;
  parse_flags = λ set args. sample_flags args;
}

abbrev sample_console : Console Zone
sample_console = record {
  print_line = λ line w. (ok tt, w);
  encode_json = λ cfg w. (ok tt, w);
  write_error = λ text e w. w;
}

abbrev updated_zone : Zone
updated_zone =
    record {
      id = codes "new";
      name = codes "www.example.com";
      record_type = codes "A";
      content = codes "192.0.2.7";
      ttl = 300;
      proxied = true;
    }
    ∷ []

abbrev arguments : List Text
arguments = codes "-verbose" ∷ []

options_resolved :
    resolve_runtime_options sample_parsers verbose_set sample_values sample_os.lookup_env
    ≡ ok sample_options
unfolding resolve_runtime_options
options_resolved = refl

program_exits :
    program sample_process sample_console (codes "v1") arguments [] ≡ some (0, updated_zone)
unfolding resolve_runtime_options delete_flag_set run production_dependencies run_app
    load_with_options trim_space to_lower has_suffix trim_suffix has_prefix trim_prefix normalize
    validate_cloudflare_ttl validate_secret_file normalize_fqdn is_name_within_zone parse_probe_url
    is_loopback_host parse_duration_or_default parse_https_url validate_client_config
    is_allowed_base_url new read_single_token new_client normalize_api_name normalize_provider_name
    record_options build_batch_params state_records add_operations add_operation to_record_post
    run_from run_once run_reconcile_once collect_probe_error default_policy normalized lookup
    client_for_family request_builder parse_response is_noop observed_includes normalize_name
    clone_record_options build_observed_address_plan cname_targets build_type_plan plan_of_current
    delete_others keep_index record_matches_desired desired_record sort_records sort_operations
    verify_observed_address_state verify_type_state expected_record App.run new_with_network
program_exits = refl

program_reconciles_example :
    (s : IsUpdated sample_process sample_console (codes "v1") sample_options [] updated_zone)
    × Reconciled sample_process sample_console (codes "v1") sample_options [] updated_zone s
program_reconciles_example =
    program_reconciles sample_process sample_console (codes "v1") arguments sample_values
      verbose_set sample_options [] updated_zone refl refl refl refl options_resolved refl refl
      program_exits

usage_exits :
    run sample_parsers sample_process.printers sample_console
      (production_dependencies sample_process)
      (codes "v1")
      []
      []
    ≡ some (2, [])
unfolding run production_dependencies
usage_exits = refl

run-exit_code_example :
    (2 ≤ 1)
    ⊎ ((◌≡◌ {A = ℕ} 2 2)
        × Misused sample_parsers sample_process.printers sample_console
            (production_dependencies sample_process)
            (codes "v1")
            []
            []
            [])
run-exit_code_example =
    run-exit_code sample_parsers sample_process.printers sample_console
      (production_dependencies sample_process) (codes "v1") [] [] [] 2 usage_exits

resolve_runtime_options-IsAllowed_example :
    IsAllowed sample_values sample_options
    × Precedence false false (sample_os.lookup_env env_dry_run) false parse_bool_value false
    × Precedence true true (sample_os.lookup_env env_verbose) false parse_bool_value true
    × Precedence false
        (pos 0)
        (sample_os.lookup_env env_timeout)
        (pos 0)
        sample_parsers.parse_duration
        (pos 0)
resolve_runtime_options-IsAllowed_example =
    resolve_runtime_options-IsAllowed sample_parsers verbose_set sample_values sample_os.lookup_env
      sample_options options_resolved
