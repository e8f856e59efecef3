-- ===== src/Config/Sections.antt =====
-- internal/config/config.go: the sections of the configuration file, and normalize over them.
use dns_update.Prelude.{
  [], Option, some, ℕ, Bool, not, ◌&&◌, ◌||◌, ◌==◌, leb, if◌then◌else◌, is_empty, length, all_of,
}
use dns_update.Prelude.Int.{pos}
use dns_update.Text.{Text, codes, text_eq, to_lower, trim_space}
use dns_update.Failure.{message, Result, ok, err, outside_zone, unsupported_provider, ◌>>=◌, ◌>>◌}
use dns_update.Retry.{Duration}
use dns_update.Os.{Os}
use dns_update.SecureFile.{validate}
use dns_update.Config.{normalize_fqdn, is_name_within_zone}
use dns_update.Config.Urls.{
  Url, Parsers, fail, within, parse_duration_or_default, parse_probe_url, parse_https_url,
}

abbrev pub default_probe_ipv4_url : Text
default_probe_ipv4_url = codes "https://4.ip.omsab.net/"

abbrev pub default_probe_ipv6_url : Text
default_probe_ipv6_url = codes "https://6.ip.omsab.net/"

abbrev pub default_timeout : Duration
default_timeout = pos 10_000_000_000

abbrev pub default_cloudflare_base_url : Text
default_cloudflare_base_url = codes "https://api.cloudflare.com/client/v4/"

abbrev pub cloudflare_zone_id_example : Text
cloudflare_zone_id_example = codes "CLOUDFLARE_ZONE_ID"

-- What the file holds.
pub record FileRecordConfig : Type 0 where
  pub name : Text
  pub zone : Text
  pub ttl_seconds : ℕ

pub record FileProbeConfig : Type 0 where
  pub ipv4_url : Text
  pub ipv6_url : Text
  pub timeout : Text
  pub allow_insecure_http : Bool
  pub allow_partial_failure : Bool

pub record FileCloudflareConfig : Type 0 where
  pub zone_id : Text
  pub api_token_file : Text
  pub base_url : Text
  pub proxied : Bool

pub record FileProviderConfig : Type 0 where
  pub provider_type : Text
  pub timeout : Text
  pub cloudflare : FileCloudflareConfig

pub record FileConfig : Type 0 where
  pub record_section : FileRecordConfig
  pub probe : FileProbeConfig
  pub provider : FileProviderConfig

-- What normalize makes of it.
pub record RecordConfig : Type 0 where
  pub name : Text
  pub zone : Text
  pub ttl_seconds : ℕ

pub record ProbeConfig : Type 0 where
  pub ipv4_url : Url
  pub ipv6_url : Url
  pub timeout : Duration
  pub allow_insecure_http : Bool
  pub allow_partial_failure : Bool

pub record CloudflareConfig : Type 0 where
  pub zone_id : Text
  pub api_token_file : Text
  pub base_url : Url
  pub proxied : Bool

pub record ProviderConfig : Type 0 where
  pub provider_type : Text
  pub timeout : Duration
  pub cloudflare : Option CloudflareConfig

pub record Config : Type 0 where
  pub source_path : Text
  pub record_section : RecordConfig
  pub probe : ProbeConfig
  pub provider : ProviderConfig

abbrev pub checked_record : Text → Text → ℕ → Result RecordConfig
checked_record record_name zone_name ttl_seconds =
    if not (is_name_within_zone record_name zone_name)
    then err (message (outside_zone record_name zone_name))
    else if ttl_seconds == 0
    then fail (codes "record.ttl_seconds must be greater than zero")
    else ok (record { name = record_name; zone = zone_name; ttl_seconds = ttl_seconds })

unfoldable pub normalize_record_config : FileRecordConfig → Result RecordConfig
normalize_record_config raw = do
  record_name ← within (codes "record.name") (normalize_fqdn raw.name)
  zone_name ← within (codes "record.zone") (normalize_fqdn raw.zone)
  checked_record record_name zone_name raw.ttl_seconds

unfoldable pub validate_cloudflare_ttl : ℕ → Result (Unit {0})
validate_cloudflare_ttl ttl_seconds =
    if ttl_seconds == 1
    then ok tt
    else if leb 30 ttl_seconds && leb ttl_seconds 86400
    then ok tt
    else fail
        (codes "for Cloudflare, ttl_seconds must be 1 (automatic) or between 30 and 86400 seconds")

-- cloudflareZoneIDPattern: 32 hexadecimal digits.
abbrev pub is_hex : ℕ → Bool
is_hex c = (leb 48 c && leb c 57) || ((leb 97 c && leb c 102) || (leb 65 c && leb c 70))

unfoldable pub is_zone_id : Text → Bool
is_zone_id t = (length t == 32) && all_of is_hex t

unfoldable pub validate_secret_file : Os → Text → Result (Unit {0})
unfolding validate
validate_secret_file os path = validate os path

module _ (parsers : Parsers) where
  unfoldable pub normalize_probe_config : FileProbeConfig → Result ProbeConfig
  normalize_probe_config raw = do
    ipv4_url ←
        within (codes "probe.ipv4_url")
          (parse_probe_url parsers raw.ipv4_url default_probe_ipv4_url raw.allow_insecure_http)
    ipv6_url ←
        within (codes "probe.ipv6_url")
          (parse_probe_url parsers raw.ipv6_url default_probe_ipv6_url raw.allow_insecure_http)
    timeout ←
        within (codes "probe.timeout")
          (parse_duration_or_default parsers raw.timeout default_timeout)
    ok (record {
      ipv4_url = ipv4_url;
      ipv6_url = ipv6_url;
      timeout = timeout;
      allow_insecure_http = raw.allow_insecure_http;
      allow_partial_failure = raw.allow_partial_failure;
    })

  module _ (os : Os) where
    abbrev pub token_path : Text → Text → Text
    token_path base_dir file =
        if not (os.paths.is_abs file) then os.paths.join_path base_dir file else file

    abbrev pub cloudflare_config : FileCloudflareConfig → Text → Text → Result CloudflareConfig
    cloudflare_config raw base_dir zone_id = do
      within (codes "provider.cloudflare.api_token_file")
          (validate_secret_file os (token_path base_dir raw.api_token_file))
      base_url ←
          within (codes "provider.cloudflare.base_url")
            (parse_https_url parsers raw.base_url default_cloudflare_base_url)
      ok (record {
        zone_id = zone_id;
        api_token_file = token_path base_dir raw.api_token_file;
        base_url = base_url;
        proxied = raw.proxied;
      })

    abbrev pub checked_cloudflare : FileCloudflareConfig → Text → Result CloudflareConfig
    checked_cloudflare raw base_dir =
        let zone_id = trim_space raw.zone_id in
        if is_empty zone_id
        then fail (codes "provider.cloudflare.zone_id is required")
        else if not (text_eq zone_id cloudflare_zone_id_example) && not (is_zone_id zone_id)
        then fail (
            codes
              "provider.cloudflare.zone_id must be a 32-character hexadecimal Cloudflare zone ID")
        else if is_empty (trim_space raw.api_token_file)
        then fail (codes "provider.cloudflare.api_token_file is required")
        else cloudflare_config raw base_dir
            (if is_zone_id zone_id then to_lower zone_id else zone_id)

    unfoldable pub normalize_provider_config :
        Text → Duration → FileCloudflareConfig → Text → ℕ → Result ProviderConfig
    unfolding is_zone_id
    normalize_provider_config provider_type timeout raw base_dir ttl_seconds =
        if text_eq provider_type (codes "cloudflare")
        then (do
          within (codes "record.ttl_seconds") (validate_cloudflare_ttl ttl_seconds)
          cloudflare ← checked_cloudflare raw base_dir
          ok (record {
            provider_type = provider_type;
            timeout = timeout;
            cloudflare = some cloudflare;
          }))
        else err (message (unsupported_provider provider_type))

    abbrev pub required_provider :
        Text → Duration → FileCloudflareConfig → Text → ℕ → Result ProviderConfig
    required_provider provider_type timeout raw base_dir ttl_seconds =
        if is_empty provider_type
        then fail (codes "provider.type is required")
        else normalize_provider_config provider_type timeout raw base_dir ttl_seconds

    unfoldable pub normalize_top_level_provider_config :
        FileProviderConfig → Text → ℕ → Result ProviderConfig
    unfolding normalize_provider_config
    normalize_top_level_provider_config raw base_dir ttl_seconds = do
      timeout ←
          within (codes "provider.timeout")
            (parse_duration_or_default parsers raw.timeout default_timeout)
      required_provider (trim_space (to_lower raw.provider_type)) timeout raw.cloudflare base_dir
          ttl_seconds

    unfoldable pub normalize : FileConfig → Text → Result Config
    unfolding normalize_record_config normalize_probe_config normalize_top_level_provider_config
    normalize raw base_dir = do
      record_config ← normalize_record_config raw.record_section
      probe_config ← normalize_probe_config raw.probe
      provider_config ←
          normalize_top_level_provider_config raw.provider base_dir record_config.ttl_seconds
      ok (record {
        source_path = [];
        record_section = record_config;
        probe = probe_config;
        provider = provider_config;
      })
