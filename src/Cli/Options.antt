-- ===== src/Cli/Options.antt =====
-- cmd/dns-update/flags.go: what resolveRuntimeOptions refuses, and where its options come from.
use dns_update.Prelude.{
  ◌≡◌, refl, inl, inr, Bool, true, false, not, ◌&&◌, Option, none, some, subst, arith, ◌==◌,
  Bool-cases,
}
use dns_update.Prelude.Int.{pos, ◌≤ℤ◌, ltb_ℤ}
use dns_update.Text.{Text, codes, trim_space}
use dns_update.Failure.{Result, ok, step_ok}
use dns_update.Retry.{Duration}
use dns_update.Provider.{selection_none}
use dns_update.Config.Urls.{Parsers}
use dns_update.Config.Urls.Trusted.{within-ok}
use dns_update.Cli.{
  bool_of, duration_of, parse_bool_value, CliFlagValues, IntrospectionMode, mode_none,
  mode_validate_config, mode_print_effective_config, RuntimeOptions, LookupEnv, env_dry_run,
  env_verbose, env_timeout, resolve_config_path, resolve_bool_flag, resolve_duration_flag,
  checked_options, resolve_runtime_options, introspection_of,
}

-- The flags that ask for a mode.
abbrev pub Requested : IntrospectionMode → CliFlagValues → Type 0
Requested mode_none values =
    (values.validate_config ≡ false) × (values.print_effective_config ≡ false)
Requested mode_validate_config values =
    (values.validate_config ≡ true) × (values.print_effective_config ≡ false)
Requested mode_print_effective_config values =
    (values.validate_config ≡ false) × (values.print_effective_config ≡ true)

-- The options that a run may have.
pub record IsAllowed (values : CliFlagValues) (options : RuntimeOptions) : Type 0 where
  pub timeout : pos 0 ≤ℤ options.timeout
  pub exclusive : (not (options.delete_selection == selection_none) && options.force_push) ≡ false
  pub selection : options.delete_selection ≡ values.delete_selection
  pub mode : Requested options.introspection_mode values

-- A flag that is set comes before the environment, and the environment before the default.
abbrev pub Precedence {ℓ} :
    {A : Type ℓ} → Bool → A → Option Text → A → (Text → Result A) → A → Type ℓ
Precedence true flag_value raw default_value parse chosen = chosen ≡ flag_value
Precedence false flag_value none default_value parse chosen = chosen ≡ default_value
Precedence false flag_value (some raw) default_value parse chosen =
    parse (trim_space raw) ≡ ok chosen

module _ (parsers : Parsers) where
  requested :
      (values : CliFlagValues)
      → (values.validate_config && values.print_effective_config) ≡ false
      → Requested (introspection_of parsers values) values
  requested values alone = elim (Bool-cases values.print_effective_config) [
    | inl print ↦
        let quiet : values.validate_config ≡ false = ground arith in rw (print, quiet) (refl, refl)
    | inr quiet ↦ elim (Bool-cases values.validate_config) [
      | inl validate ↦ rw (quiet, validate) (refl, refl)
      | inr run ↦ rw (quiet, run) (refl, refl)
    ]
  ]

  abbrev made : CliFlagValues → Text → Bool → Bool → Bool → Duration → RuntimeOptions
  made values path explicit dry_run verbose timeout = record {
    config_path = path;
    delete_selection = values.delete_selection;
    explicit_config_path = explicit;
    dry_run = dry_run;
    force_push = values.force_push;
    introspection_mode = introspection_of parsers values;
    verbose = verbose;
    timeout = timeout;
  }

  -- The options, with the sources of their fields.
  abbrev pub Chosen : CliFlagValues → Text × Bool → Bool → Bool → Duration → RuntimeOptions → Type 0
  Chosen values path dry_run verbose timeout options =
      IsAllowed values options
      × (options.dry_run ≡ dry_run)
      × (options.force_push ≡ values.force_push)
      × (options.verbose ≡ verbose)
      × (options.timeout ≡ timeout)
      × ((options.config_path, options.explicit_config_path) ≡ path)

  made_options :
      (values : CliFlagValues) (path : Text) (explicit dry_run verbose : Bool) (timeout : Duration)
      (options : RuntimeOptions)
      → ltb_ℤ timeout (pos 0) ≡ false
      → (not (values.delete_selection == selection_none) && values.force_push) ≡ false
      → (values.validate_config && values.print_effective_config) ≡ false
      → ok (made values path explicit dry_run verbose timeout) ≡ ok options
      → Chosen values (path, explicit) dry_run verbose timeout options
  made_options values path explicit dry_run verbose timeout options later one alone h =
      let same : made values path explicit dry_run verbose timeout ≡ options = cc h in
      subst (Chosen values (path, explicit) dry_run verbose timeout) same (
        record {
          timeout = ground arith;
          exclusive = one;
          selection = refl;
          mode = requested values alone;
        },
        refl,
        refl,
        refl,
        refl,
        refl,
      )

  checked :
      (values : CliFlagValues) (path : Text × Bool) (dry_run verbose : Bool) (timeout : Duration)
      (options : RuntimeOptions)
      → checked_options parsers values path dry_run verbose timeout ≡ ok options
      → Chosen values path dry_run verbose timeout options
  checked values (path, explicit) dry_run verbose timeout options h =
      elim (Bool-cases (ltb_ℤ timeout (pos 0))) [
        | inl early ↦ absurd (ground arith)
        | inr later ↦
            elim (Bool-cases
              (not (values.delete_selection == selection_none) && values.force_push)) [
                | inl both ↦ absurd (ground arith)
                | inr one ↦
                    elim (Bool-cases (values.validate_config && values.print_effective_config)) [
                      | inl twice ↦ absurd (ground arith)
                      | inr alone ↦
                          made_options values path explicit dry_run verbose timeout options later
                            one alone (rw (later, one, alone) at h)
                    ]
              ]
      ]

  bool_flag :
      (set flag_value : Bool) (lookup_env : LookupEnv) (name : Text) (chosen : Bool)
      → resolve_bool_flag flag_value set lookup_env name false ≡ ok chosen
      → Precedence set flag_value (lookup_env name) false parse_bool_value chosen
  unfolding resolve_bool_flag
  bool_flag true flag_value lookup_env name chosen h = cc h
  bool_flag false flag_value lookup_env name chosen h = from_env (lookup_env name) h
    where
      from_env :
          (raw : Option Text)
          → bool_of name false raw ≡ ok chosen
          → Precedence false flag_value raw false parse_bool_value chosen
      from_env none k = cc k
      from_env (some raw) k = within-ok _ _ k

  duration_flag :
      (set : Bool) (flag_value : Duration) (lookup_env : LookupEnv) (chosen : Duration)
      → resolve_duration_flag parsers flag_value set lookup_env env_timeout (pos 0) ≡ ok chosen
      → Precedence set flag_value (lookup_env env_timeout) (pos 0) parsers.parse_duration chosen
  unfolding resolve_duration_flag
  duration_flag true flag_value lookup_env chosen h = cc h
  duration_flag false flag_value lookup_env chosen h = from_env (lookup_env env_timeout) h
    where
      from_env :
          (raw : Option Text)
          → duration_of parsers env_timeout (pos 0) raw ≡ ok chosen
          → Precedence false flag_value raw (pos 0) parsers.parse_duration chosen
      from_env none k = cc k
      from_env (some raw) k = within-ok _ _ k

  -- Options that resolveRuntimeOptions returns have a timeout that is not negative, never select records
  -- for deletion together with a forced push, and ask for at most one mode of introspection; -dry-run,
  -- -verbose and -timeout come from the flag where it is set, else from the environment, and else from
  -- the default.
  pub resolve_runtime_options-IsAllowed :
      (set_flags : Text → Bool) (values : CliFlagValues) (lookup_env : LookupEnv)
      (options : RuntimeOptions)
      → resolve_runtime_options parsers set_flags values lookup_env ≡ ok options
      → IsAllowed values options
        × Precedence
            (set_flags (codes "dry-run"))
            values.dry_run
            (lookup_env env_dry_run)
            false
            parse_bool_value
            options.dry_run
        × Precedence
            (set_flags (codes "verbose"))
            values.verbose
            (lookup_env env_verbose)
            false
            parse_bool_value
            options.verbose
        × Precedence
            (set_flags (codes "timeout"))
            values.timeout
            (lookup_env env_timeout)
            (pos 0)
            parsers.parse_duration
            options.timeout
  unfolding resolve_runtime_options
  resolve_runtime_options-IsAllowed set_flags values lookup_env options h =
      let (dry_run, dry_ok, rest) =
        step_ok
          (resolve_bool_flag values.dry_run (set_flags (codes "dry-run")) lookup_env env_dry_run
            false)
          _ h in
      let (verbose, verbose_ok, rest2) =
        step_ok
          (resolve_bool_flag values.verbose (set_flags (codes "verbose")) lookup_env env_verbose
            false)
          _ rest in
      let (timeout, timeout_ok, last) =
        step_ok
          (resolve_duration_flag parsers values.timeout (set_flags (codes "timeout")) lookup_env
            env_timeout (pos 0))
          _ rest2 in
      let (allowed, same_dry, same_force, same_verbose, same_timeout, same_path) =
        checked values
          (resolve_config_path values.config_path (set_flags (codes "config")) lookup_env) dry_run
          verbose timeout options last in
      (
        allowed,
        rw same_dry (bool_flag _ values.dry_run lookup_env env_dry_run dry_run dry_ok),
        rw same_verbose (bool_flag _ values.verbose lookup_env env_verbose verbose verbose_ok),
        rw same_timeout (duration_flag _ values.timeout lookup_env timeout timeout_ok),
      )
