-- ===== src/Cli.antt =====
-- cmd/dns-update/flags.go: the flags, the environment behind them, and the options of a run. The flag
-- package is a parameter: what Parse makes of the arguments, given the setter of -delete.
pub mod Options
pub mod Selection
pub mod Main
pub mod Exit
pub mod Usage
use dns_update.Prelude.{
  Bool, true, false, not, ◌&&◌, ◌||◌, Option, none, some, [], ◌∷◌, ◌++◌, ◌==◌, if◌then◌else◌,
  is_empty,
}
use dns_update.Prelude.Int.{pos, ltb_ℤ}
use dns_update.Text.{Text, codes, text_eq, to_lower, trim_space}
use dns_update.Failure.{Result, ok, err, ◌>>=◌, ◌>>◌}
use dns_update.Retry.{Duration}
use dns_update.Provider.{
  RecordSelection, selection_none, selection_a, selection_aaaa, selection_both, selection_string,
}
use dns_update.Config.Urls.{Parsers, fail, within}

abbrev pub env_config_path : Text
env_config_path = codes "DNS_UPDATE_CONFIG"

abbrev pub env_dry_run : Text
env_dry_run = codes "DNS_UPDATE_DRY_RUN"

abbrev pub env_verbose : Text
env_verbose = codes "DNS_UPDATE_VERBOSE"

abbrev pub env_timeout : Text
env_timeout = codes "DNS_UPDATE_TIMEOUT"

pub record CliFlagValues : Type 0 where
  pub config_path : Text
  pub delete_selection : RecordSelection
  pub dry_run : Bool
  pub force_push : Bool
  pub validate_config : Bool
  pub print_effective_config : Bool
  pub verbose : Bool
  pub version : Bool
  pub timeout : Duration

pub data IntrospectionMode : Type 0 where
  mode_none : IntrospectionMode
  mode_validate_config : IntrospectionMode
  mode_print_effective_config : IntrospectionMode

pub record RuntimeOptions : Type 0 where
  pub config_path : Text
  pub delete_selection : RecordSelection
  pub explicit_config_path : Bool
  pub dry_run : Bool
  pub force_push : Bool
  pub introspection_mode : IntrospectionMode
  pub verbose : Bool
  pub timeout : Duration

abbrev pub LookupEnv : Type 0
LookupEnv = Text → Option Text

unfoldable pub parse_bool_value : Text → Result Bool
parse_bool_value value =
    let low = to_lower value in
    if text_eq low (codes "1")
      || (text_eq low (codes "t")
          || (text_eq low (codes "true") || (text_eq low (codes "y") || text_eq low (codes "yes"))))
    then ok true
    else if text_eq low (codes "0")
        || (text_eq low (codes "f")
            || (text_eq low (codes "false")
                || (text_eq low (codes "n") || text_eq low (codes "no"))))
    then ok false
    else fail (codes "invalid syntax")

unfoldable pub parse_delete_selection : Text → Result RecordSelection
parse_delete_selection value =
    let word = to_lower (trim_space value) in
    if is_empty word || (text_eq word (codes "true") || text_eq word (codes "both"))
    then ok selection_both
    else if text_eq word (codes "a")
    then ok selection_a
    else if text_eq word (codes "aaaa")
    then ok selection_aaaa
    else if text_eq word (codes "false") || text_eq word (codes "none")
    then ok selection_none
    else fail (codes "invalid delete value " ++ value)

-- deleteFlagValue.Set: the selection behind the flag after it, and deleteFlagValue.String.
unfoldable pub delete_flag_set : Text → Result RecordSelection
unfolding parse_delete_selection
delete_flag_set value = parse_delete_selection value

unfoldable pub delete_flag_string : Option RecordSelection → Text
unfolding selection_string
delete_flag_string none = []
delete_flag_string (some selection) = selection_string selection

abbrev pub env_path : Option Text → Text × Bool
env_path none = ([], false)
env_path (some value) = (value, true)

unfoldable pub resolve_config_path : Text → Bool → LookupEnv → Text × Bool
resolve_config_path flag_value set lookup_env =
    if set then (flag_value, true) else env_path (lookup_env env_config_path)

abbrev pub bool_of : Text → Bool → Option Text → Result Bool
bool_of env_name default_value none = ok default_value
bool_of env_name default_value (some raw_value) =
    within (env_name ++ codes ": parse bool") (parse_bool_value (trim_space raw_value))

unfoldable pub resolve_bool_flag : Bool → Bool → LookupEnv → Text → Bool → Result Bool
unfolding parse_bool_value
resolve_bool_flag flag_value set lookup_env env_name default_value =
    if set then ok flag_value else bool_of env_name default_value (lookup_env env_name)

module _ (parsers : Parsers) where
  abbrev pub duration_of : Text → Duration → Option Text → Result Duration
  duration_of env_name default_value none = ok default_value
  duration_of env_name default_value (some raw_value) =
      within (env_name ++ codes ": parse duration") (parsers.parse_duration (trim_space raw_value))

  unfoldable pub resolve_duration_flag :
      Duration → Bool → LookupEnv → Text → Duration → Result Duration
  resolve_duration_flag flag_value set lookup_env env_name default_value =
      if set then ok flag_value else duration_of env_name default_value (lookup_env env_name)

  abbrev pub introspection_of : CliFlagValues → IntrospectionMode
  introspection_of values =
      let mode = if values.validate_config then mode_validate_config else mode_none in
      if values.print_effective_config then mode_print_effective_config else mode

  -- What resolveRuntimeOptions does after the flags have their values.
  abbrev pub checked_options :
      CliFlagValues → Text × Bool → Bool → Bool → Duration → Result RuntimeOptions
  checked_options values (config_path, explicit_config_path) dry_run verbose timeout =
      if ltb_ℤ timeout (pos 0)
      then fail (codes "timeout must be greater than or equal to 0")
      else if not (values.delete_selection == selection_none) && values.force_push
      then fail (codes "delete and force-push are mutually exclusive")
      else if values.validate_config && values.print_effective_config
      then fail (codes "validate-config and print-effective-config are mutually exclusive")
      else ok (record {
        config_path = config_path;
        delete_selection = values.delete_selection;
        explicit_config_path = explicit_config_path;
        dry_run = dry_run;
        force_push = values.force_push;
        introspection_mode = introspection_of values;
        verbose = verbose;
        timeout = timeout;
      })

  -- `set_flags` are the names that visitedFlags finds.
  unfoldable pub resolve_runtime_options :
      (Text → Bool) → CliFlagValues → LookupEnv → Result RuntimeOptions
  unfolding resolve_config_path resolve_bool_flag resolve_duration_flag
  resolve_runtime_options set_flags values lookup_env = do
    let path = resolve_config_path values.config_path (set_flags (codes "config")) lookup_env
    dry_run ←
        resolve_bool_flag values.dry_run (set_flags (codes "dry-run")) lookup_env env_dry_run false
    verbose ←
        resolve_bool_flag values.verbose (set_flags (codes "verbose")) lookup_env env_verbose false
    timeout ←
        resolve_duration_flag values.timeout (set_flags (codes "timeout")) lookup_env env_timeout
          (pos 0)
    checked_options values path dry_run verbose timeout
