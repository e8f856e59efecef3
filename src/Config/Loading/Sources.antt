-- ===== src/Config/Loading/Sources.antt =====
-- internal/config: which file LoadWithOptions has read when it returns a configuration.
use dns_update.Prelude.{
  ◌≡◌, ◌≢◌, refl, sym, ap, subst, ◌∙◌, ◌⊎◌, inl, inr, Bool, true, false, not, ◌||◌, Option, none,
  some, arith, if◌then◌else◌, is_empty, Bool-cases,
}
use dns_update.Text.{Text, trim_space, to_lower}
use dns_update.Text.Trim.{trim_space_idem}
use dns_update.Failure.{Result, ok, err, ◌>>=◌, step_ok}
use dns_update.Os.{Os}
use dns_update.Config.{normalize_fqdn}
use dns_update.Config.Urls.{Parsers}
use dns_update.Config.Sections.{
  FileConfig, Config, normalize, normalize_record_config, RecordConfig,
}
use dns_update.Config.Accepted.{IsValid, normalize-IsValid}
use dns_update.Config.Taken.{IsTaken, normalize-IsTaken}
use dns_update.Config.Loading.{
  Disk, LoadOptions, empty_file_config, apply_environment, load_file_config,
  resolve_default_config_path, at_path, raw_config, normalized_config, load_with_options,
  resolve_working_dir, resolve_path, lookup_env_of, env_token_file,
}
use dns_update.Config.Loading.Content.{IsFile, load_explicit, load_any}

module _ (os : Os) (disk : Disk) where
  at_path_same :
      (path : Text) (loaded : Result (FileConfig × Text)) (raw : FileConfig) (dir source : Text)
      → (loaded >>= at_path os disk path) ≡ ok (raw, dir, source)
      → (loaded ≡ ok (raw, dir)) × (source ≡ path)
  at_path_same path (ok (r, d)) raw dir source h = (cc, cc)
  at_path_same path (err e) raw dir source h = absurd (cc)

  -- A path that was given.
  given_path :
      (options : LoadOptions) (raw : FileConfig) (dir : Text)
      → (not (is_empty (trim_space options.path)) || options.explicit_path) ≡ true
      → load_file_config os disk options.path options.explicit_path ≡ ok (raw, dir)
      → (raw ≡ empty_file_config) ⊎ IsFile os disk (trim_space options.path) raw dir
  given_path options raw dir given loaded = elim (Bool-cases options.explicit_path) [
    | inl explicit ↦ inr (load_explicit os disk options.path raw dir (rw explicit at loaded))
    | inr guessed ↦
        load_any os disk options.path options.explicit_path raw dir (ground arith) loaded
  ]

  -- The configuration comes from the file at the source path, or it is empty.
  raw_config-source :
      (options : LoadOptions) (working_dir : Text) (raw : FileConfig) (dir source : Text)
      → raw_config os disk options working_dir ≡ ok (raw, dir, source)
      → (raw ≡ empty_file_config) ⊎ IsFile os disk (trim_space source) raw dir
  raw_config-source options working_dir raw dir source h =
      elim (Bool-cases (not (is_empty (trim_space options.path)) || options.explicit_path)) [
        | inl given ↦
            let (loaded, same) =
              at_path_same (trim_space options.path)
                (load_file_config os disk options.path options.explicit_path) raw dir source
                (rw given at h) in
            rw (same, trim_space_idem options.path) (given_path options raw dir given loaded)
        | inr default ↦
            let (default_path, found, rest) =
              step_ok (resolve_default_config_path os disk working_dir)
                (λ path. load_file_config os disk path true >>= at_path os disk path)
                (rw default at h) in
            let (loaded, same) =
              at_path_same default_path (load_file_config os disk default_path true) raw dir source
                rest in
            rw same (inr (load_explicit os disk default_path raw dir loaded))
      ]

  record_section_kept :
      (raw : FileConfig) (env : Option (Text → Option Text)) (working_dir : Text)
      → (apply_environment os raw env working_dir).record_section ≡ raw.record_section
  unfolding apply_environment
  record_section_kept raw env working_dir = ground arith

  module _ (parsers : Parsers) where
    abbrev succeeds : Result RecordConfig → Bool
    succeeds (ok r) = true
    succeeds (err e) = false

    not_ok :
        (outcome : Result RecordConfig) (r : RecordConfig)
        → succeeds outcome ≡ false
        → outcome ≢ ok r
    not_ok (ok x) r failed h = cc (failed)
    not_ok (err e) r failed h = cc (h)

    no_name : (r : RecordConfig) → normalize_record_config (empty_file_config.record_section) ≢ ok r
    unfolding normalize_record_config normalize_fqdn trim_space to_lower
    no_name r = not_ok (normalize_record_config (empty_file_config.record_section)) r refl

    not_empty :
        (base_dir : Text) (raw : FileConfig) (c : Config)
        → raw.record_section ≡ empty_file_config.record_section
        → normalize parsers os raw base_dir ≢ ok c
    unfolding normalize
    not_empty base_dir raw c same h =
        let (r, r_ok, rest) = step_ok (normalize_record_config raw.record_section) _ h in
        no_name r (ap normalize_record_config (sym same) ∙ r_ok)

    abbrev pub base_of : Text → Text → Text
    base_of working_dir dir = if is_empty dir then working_dir else dir

    -- The entries of the file, but for its token file.
    abbrev pub naming : Text → FileConfig → FileConfig
    naming token_file raw = record raw {
      provider = record (raw.provider) {
        cloudflare = record (raw.provider.cloudflare) { api_token_file = token_file };
      };
    }

    -- The token file that the environment gives, in the working directory, or that of the file.
    abbrev pub TokenFile : LoadOptions → Text → Text → Text → Type 0
    TokenFile options working_dir of_file chosen =
        ((lookup_env_of os options.env env_token_file ≡ none) × (chosen ≡ of_file))
        ⊎ ((path : Text) × (lookup_env_of os options.env env_token_file ≡ some path)
            × (chosen ≡ (
                if is_empty (trim_space path) || os.paths.is_abs path
                then path
                else os.paths.join_path working_dir path)))

    -- What a configuration is made of: the file at its source path, decoded to `raw`, and the token file.
    -- Relative paths are those of the directory of the file, or of the working directory.
    pub record IsLoaded (options : LoadOptions) (cfg : Config) : Type 0 where
      pub working_dir : Text
      pub working_dir-resolved : resolve_working_dir os options.working_dir ≡ ok working_dir
      pub raw : FileConfig
      pub dir : Text
      pub raw-IsFile : IsFile os disk (trim_space cfg.source_path) raw dir
      pub token_file : Text
      pub token_file-TokenFile :
          TokenFile options working_dir raw.provider.cloudflare.api_token_file token_file
      pub cfg-IsTaken : IsTaken parsers os (base_of working_dir dir) (naming token_file raw) cfg
      pub cfg-IsValid : IsValid parsers os cfg

    environment_token :
        (options : LoadOptions) (working_dir : Text) (raw : FileConfig) (found : Option Text)
        → lookup_env_of os options.env env_token_file ≡ found
        → (chosen : Text) × TokenFile options working_dir raw.provider.cloudflare.api_token_file
            chosen
          × (apply_environment os raw options.env working_dir ≡ naming chosen raw)
    unfolding apply_environment resolve_path
    environment_token options working_dir raw none same =
        (raw.provider.cloudflare.api_token_file, inl (same, refl), cc (same))
    environment_token options working_dir raw (some path) same =
        (_, inr (path, same, refl), cc (same))

    source_kept :
        (base_dir : Text) (raw : FileConfig) (c : Config) (source : Text)
        → IsValid parsers os c
        → IsTaken parsers os base_dir raw c
        → IsValid parsers os (record c { source_path = source })
          × IsTaken parsers os base_dir raw (record c { source_path = source })
    source_kept base_dir raw c source v t = (
      record { names = v.names; probes = v.probes; backend = v.backend },
      record { record_section = t.record_section; probe = t.probe; provider = t.provider },
    )

    normalized-IsLoaded :
        (options : LoadOptions) (working_dir : Text) (raw : FileConfig) (dir source : Text)
        (cfg : Config)
        → resolve_working_dir os options.working_dir ≡ ok working_dir
        → (raw ≡ empty_file_config) ⊎ IsFile os disk (trim_space source) raw dir
        → normalized_config os disk parsers options working_dir (raw, dir, source) ≡ ok cfg
        → IsLoaded options cfg
    normalized-IsLoaded options working_dir raw dir source cfg resolved (inl nothing) h =
        let (c, c_ok, last) =
          step_ok
            (normalize parsers os (apply_environment os raw options.env working_dir)
              (base_of working_dir dir))
            _ h in
        absurd (
          not_empty (base_of working_dir dir) (apply_environment os raw options.env working_dir) c
            (record_section_kept raw options.env working_dir
              ∙ ap (λ (f : FileConfig). f.record_section) nothing)
            c_ok)
    normalized-IsLoaded options working_dir raw dir source cfg resolved (inr file) h =
        let base_dir = base_of working_dir dir in
        let given = apply_environment os raw options.env working_dir in
        let (c, c_ok, last) = step_ok (normalize parsers os given base_dir) _ h in
        let same : record c { source_path = source } ≡ cfg = cc last in
        let (chosen, token, applied) =
          environment_token options working_dir raw (lookup_env_of os options.env env_token_file)
            refl in
        let (valid, taken) =
          source_kept base_dir given c source (normalize-IsValid parsers os given base_dir c c_ok)
            (normalize-IsTaken parsers os base_dir given c c_ok) in
        record {
          working_dir = working_dir;
          working_dir-resolved = resolved;
          raw = raw;
          dir = dir;
          raw-IsFile =
              subst (λ path. IsFile os disk (trim_space path) raw dir)
                (ap (λ (x : Config). x.source_path) same) file;
          token_file = chosen;
          token_file-TokenFile = token;
          cfg-IsTaken =
              subst (λ f. IsTaken parsers os base_dir f cfg) applied
                (subst (IsTaken parsers os base_dir given) same taken);
          cfg-IsValid = subst (IsValid parsers os) same valid;
        }

    -- The configuration that LoadWithOptions returns is valid. The file at its source path was read, and
    -- all its content is one JSON value; each part of the configuration is what its entry in that value
    -- says, in normal form, or the default of an empty entry, but for the token file, which is that of
    -- the environment where it names one.
    pub load_with_options-IsLoaded :
        (options : LoadOptions) (cfg : Config)
        → load_with_options os disk parsers options ≡ ok cfg
        → IsLoaded options cfg
    unfolding load_with_options
    load_with_options-IsLoaded options cfg h =
        let (working_dir, resolved, rest) =
          step_ok (resolve_working_dir os options.working_dir) _ h in
        let ((raw, dir, source), loaded, last) =
          step_ok (raw_config os disk options working_dir)
            (normalized_config os disk parsers options working_dir) rest in
        normalized-IsLoaded options working_dir raw dir source cfg resolved
          (raw_config-source options working_dir raw dir source loaded) last
