-- ===== src/Config/Loading.antt =====
-- internal/config: Load and LoadWithOptions of config.go, load.go and env.go.
pub mod Content
pub mod Sources
use dns_update.Prelude.{
  Bool, true, false, not, ◌&&◌, ◌||◌, Option, none, some, List, [], ◌∷◌, ◌++◌, if◌then◌else◌,
  is_empty,
}
use dns_update.Text.{Text, codes, trim_space}
use dns_update.Failure.{
  Error, message, wrapped, joined, retryable, url_error, eof, not_exist, Result, ok, err,
  config_not_found, ◌>>=◌,
}
use dns_update.Os.{Os}
use dns_update.Config.Urls.{Parsers, fail, within}
use dns_update.Config.Sections.{
  FileConfig, FileProviderConfig, FileCloudflareConfig, Config, normalize,
}

abbrev pub default_config_file_name : Text
default_config_file_name = codes "config.json"

abbrev pub system_config_path : Text
system_config_path = codes "/etc/dns-update/config.json"

abbrev pub env_token_file : Text
env_token_file = codes "DNS_UPDATE_PROVIDER_CLOUDFLARE_API_TOKEN_FILE"

-- os.ReadFile, the error of os.Stat, and a json.Decoder that refuses unknown fields: the configuration
-- at the front of the data with what follows it, and the second Decode.
pub record Disk : Type 0 where
  pub read_file : Text → Result Text
  pub stat_error : Text → Option Error
  pub decode : Text → Result (FileConfig × Text)
  pub decode_empty : Text → Result (Unit {0})

-- LoadOptions; a nil Env is none.
pub record LoadOptions : Type 0 where
  pub path : Text
  pub explicit_path : Bool
  pub working_dir : Text
  pub env : Option (Text → Option Text)

-- errors.Is(err, os.ErrNotExist), and err == io.EOF.
unfoldable pub is_not_exist : Error → Bool
is_not_exist (not_exist path) = true
is_not_exist (wrapped context e) = is_not_exist e
is_not_exist (retryable e d) = is_not_exist e
is_not_exist (url_error e) = is_not_exist e
is_not_exist (joined a b) = is_not_exist a || is_not_exist b
is_not_exist e = false

abbrev is_eof : Error → Bool
is_eof eof = true
is_eof e = false

-- The zero value of fileConfig.
abbrev pub empty_file_config : FileConfig
empty_file_config = record {
  record_section = record { name = []; zone = []; ttl_seconds = 0 };
  probe = record {
    ipv4_url = [];
    ipv6_url = [];
    timeout = [];
    allow_insecure_http = false;
    allow_partial_failure = false;
  };
  provider = record {
    provider_type = [];
    timeout = [];
    cloudflare = record { zone_id = []; api_token_file = []; base_url = []; proxied = false };
  };
}

module _ (os : Os) where
  unfoldable pub resolve_path : Text → Text → Text
  resolve_path path base_dir =
      if is_empty (trim_space path) || os.paths.is_abs path
      then path
      else os.paths.join_path base_dir path

  abbrev pub lookup_env_of : Option (Text → Option Text) → Text → Option Text
  lookup_env_of none key = os.lookup_env key
  lookup_env_of (some env) key = env key

  abbrev pub with_token_file : FileConfig → Text → FileConfig
  with_token_file raw file = record raw {
    provider = record (raw.provider) {
      cloudflare = record (raw.provider.cloudflare) { api_token_file = file };
    };
  }

  unfoldable pub apply_environment : FileConfig → Option (Text → Option Text) → Text → FileConfig
  unfolding resolve_path
  apply_environment raw env working_dir = elim (lookup_env_of env env_token_file) [
    | none ↦ raw
    | some token_path ↦ with_token_file raw (resolve_path token_path working_dir)
  ]

  unfoldable pub resolve_working_dir : Text → Result Text
  resolve_working_dir working_dir =
      if not (is_empty (trim_space working_dir))
      then ok working_dir
      else within (codes "resolve working directory") os.working_dir

  abbrev pub default_config_candidates : Text → List Text
  default_config_candidates working_dir =
      os.paths.join_path working_dir default_config_file_name ∷ system_config_path ∷ []

  module _ (disk : Disk) where
    abbrev pub after_decode : Text → FileConfig → Result (Unit {0}) → Result (FileConfig × Text)
    after_decode path raw (ok done) = fail (codes "decode config: unexpected trailing JSON data")
    after_decode path raw (err e) =
        if is_eof e then ok (raw, os.paths.dir path) else err (wrapped (codes "decode config") e)

    abbrev pub decoded : Text → Result (FileConfig × Text) → Result (FileConfig × Text)
    decoded path (err e) = err (wrapped (codes "decode config") e)
    decoded path (ok (raw, rest)) = after_decode path raw (disk.decode_empty rest)

    abbrev pub file_read : Text → Bool → Result Text → Result (FileConfig × Text)
    file_read path explicit (ok data_read) = decoded path (disk.decode data_read)
    file_read path explicit (err e) =
        if not explicit && is_not_exist e
        then ok (empty_file_config, [])
        else err (wrapped (codes "read config") e)

    unfoldable pub load_file_config : Text → Bool → Result (FileConfig × Text)
    load_file_config path explicit =
        let trimmed = trim_space path in
        if is_empty trimmed
        then (if explicit
            then fail (codes "config path is required")
            else ok (empty_file_config, []))
        else file_read trimmed explicit (disk.read_file trimmed)

    -- The loop of resolveDefaultConfigPath, over the candidates left of all of them.
    unfoldable pub find_config : List Text → List Text → Result Text
    find_config candidates [] = err (message (config_not_found candidates))
    find_config candidates (candidate ∷ rest) =
        let later = find_config candidates rest in
        elim (disk.stat_error candidate) [
          | none ↦ ok candidate
          | some e ↦
              if is_not_exist e then later else err (wrapped (codes "stat config " ++ candidate) e)
        ]

    unfoldable pub resolve_default_config_path : Text → Result Text
    unfolding find_config
    resolve_default_config_path working_dir =
        find_config (default_config_candidates working_dir) (default_config_candidates working_dir)

    abbrev pub at_path : Text → FileConfig × Text → Result (FileConfig × Text × Text)
    at_path source_path (raw, dir) = ok (raw, dir, source_path)

    -- The configuration file, its directory and its path.
    abbrev pub raw_config : LoadOptions → Text → Result (FileConfig × Text × Text)
    raw_config options working_dir =
        let source_path = trim_space options.path in
        if not (is_empty source_path) || options.explicit_path
        then (load_file_config options.path options.explicit_path >>= at_path source_path)
        else (resolve_default_config_path working_dir >>= λ default_path.
            load_file_config default_path true >>= at_path default_path)

    abbrev pub normalized_config :
        Parsers → LoadOptions → Text → FileConfig × Text × Text → Result Config
    normalized_config parsers options working_dir (raw, dir, source_path) =
        let base_dir = if is_empty dir then working_dir else dir in
        normalize parsers os (apply_environment raw options.env working_dir) base_dir >>= λ cfg.
        ok (record cfg { source_path = source_path })

    unfoldable pub load_with_options : Parsers → LoadOptions → Result Config
    unfolding resolve_working_dir load_file_config resolve_default_config_path apply_environment
    load_with_options parsers options = resolve_working_dir options.working_dir >>= λ working_dir.
        raw_config options working_dir >>= λ found.
        normalized_config parsers options working_dir found

    unfoldable pub load : Parsers → Text → Result Config
    unfolding load_with_options
    load parsers path =
        load_with_options parsers
          (record { path = path; explicit_path = true; working_dir = []; env = none })
