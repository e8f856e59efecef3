-- ===== src/Tests/Starts.antt =====
-- A start of the program: its configuration file, and the provider that it names.
use dns_update.Config.{normalize_fqdn, is_name_within_zone}
use dns_update.Prelude.{◌≡◌, refl, true, false, none, some, [], is_empty, if◌then◌else◌, inr, arith}
use dns_update.Text.{
  codes, text_eq, trim_space, to_lower, has_suffix, trim_suffix, has_prefix, trim_prefix,
}
use dns_update.Failure.{ok, err, not_exist, eof}
use dns_update.SecureFile.{read_single_token}
use dns_update.Cloudflare.{record_options}
use dns_update.Cloudflare.Construction.{ClientConfig}
use dns_update.Config.Urls.{
  parse_probe_url, is_loopback_host, parse_duration_or_default, parse_https_url,
}
use dns_update.Config.Sections.{Config, normalize, validate_cloudflare_ttl, validate_secret_file}
use dns_update.Config.Accepted.{IsProviderValid}
use dns_update.Prelude.Int.{pos}
use dns_update.Config.Loading.{Disk, LoadOptions, load_with_options}
use dns_update.Config.Loading.Sources.{IsLoaded, load_with_options-IsLoaded}
use dns_update.App.Construction.{new_provider, new_provider_accepted}
use dns_update.Tests.Hosts.{sample_os}
use dns_update.Tests.Configs.{
  sample_parsers, raw_config, accepted, accepted_cloudflare, url_of, section_valid, built_in_parsed,
}

abbrev pub sample_disk : Disk
sample_disk = record {
  read_file = λ t. ok (codes "{}");
  stat_error = λ t. if text_eq t (codes "/etc/config.json") then none else some (not_exist t);
  decode = λ t. ok (raw_config, []);
  decode_empty = λ t. if is_empty t then err eof else ok tt;
}

abbrev sample_options : LoadOptions
sample_options = record { path = []; explicit_path = false; working_dir = codes "/etc"; env = none }

abbrev loaded : Config
loaded = record accepted { source_path = codes "/etc/config.json" }

config_loaded : load_with_options sample_os sample_disk sample_parsers sample_options ≡ ok loaded
unfolding load_with_options trim_space normalize normalize_fqdn to_lower has_suffix trim_suffix
    is_name_within_zone parse_probe_url has_prefix trim_prefix is_loopback_host
    parse_duration_or_default validate_cloudflare_ttl validate_secret_file parse_https_url
config_loaded = refl

load_with_options-IsLoaded_example :
    IsLoaded sample_os sample_disk sample_parsers sample_options loaded
load_with_options-IsLoaded_example =
    load_with_options-IsLoaded sample_os sample_disk sample_parsers sample_options loaded
      config_loaded

secret_read : read_single_token sample_os (codes "/etc/token") ≡ ok (codes "secret")
unfolding read_single_token has_prefix trim_prefix trim_space
secret_read = refl

abbrev provider_valid : IsProviderValid sample_parsers sample_os 300 accepted.provider
provider_valid = record {
  kind = refl;
  timeout = omega arith;
  ttl_range = inr (omega arith, omega arith);
  section = accepted_cloudflare;
  section-present = refl;
  section-IsCloudflareValid = section_valid;
}

abbrev same_config : ClientConfig → ClientConfig
same_config c = c

new_provider_accepted_example :
    new_provider same_config sample_parsers sample_os accepted.provider
    ≡ ok (
      record {
        zone_id = codes "0123456789abcdef0123456789abcdef";
        records = record {
          zone_id = codes "0123456789abcdef0123456789abcdef";
          api_token = codes "secret";
          base_url = some (url_of (codes "https") (codes "api.cloudflare.com/client/v4/"));
          timeout = pos 10_000_000_000;
          proxied = true;
        };
      },
      record_options true,
    )
unfolding to_lower
new_provider_accepted_example =
    new_provider_accepted same_config sample_parsers sample_os 300 accepted.provider provider_valid
      (codes "secret") (url_of (codes "https") (codes "api.cloudflare.com/client/v4/")) secret_read
      built_in_parsed refl
