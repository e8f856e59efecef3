-- ===== src/Tests/Configs.antt =====
-- A configuration, its names and its URLs.
use dns_update.Prelude.{
  subst, ◌≡◌, refl, true, false, some, List, [], ◌∷◌, ◌++◌, ◌==◌, if◌then◌else◌,
}
use dns_update.Prelude.Int.{pos}
use dns_update.Text.{
  Text, codes, text_eq, has_prefix, has_suffix, trim_prefix, trim_space, to_lower, trim_suffix,
}
use dns_update.Failure.{ok, err, message, foreign}
use dns_update.Tests.Hosts.{sample_os}
use dns_update.Config.{normalize_fqdn, is_name_within_zone}
use dns_update.Config.Names.{IsFqdn, labels_of, normalize_fqdn-IsFqdn, normalize_fqdn_idem}
use dns_update.Config.Zones.{is_name_within_zone-labels}
use dns_update.Config.Urls.{
  Url, Parsers, parse_probe_url, parse_https_url, is_loopback_host, parse_duration_or_default,
}
use dns_update.Config.Sections.{
  FileConfig, CloudflareConfig, Config, normalize, default_cloudflare_base_url,
  validate_cloudflare_ttl, validate_secret_file,
}
use dns_update.Config.Accepted.{IsCloudflareValid, normalize-IsValid}

abbrev pub before_slash : Text → Text
before_slash [] = []
before_slash (c ∷ cs) = let rest = before_slash cs in if c == 47 then [] else c ∷ rest

abbrev pub from_slash : Text → Text
from_slash [] = []
from_slash (c ∷ cs) = let rest = from_slash cs in if c == 47 then c ∷ cs else rest

-- A host and a path behind a scheme.
abbrev pub url_of : Text → Text → Url
url_of scheme rest = record {
  scheme = scheme;
  host = before_slash rest;
  hostname = before_slash rest;
  has_user = false;
  fragment = [];
  raw_query = [];
  path = from_slash rest;
}

abbrev pub sample_parsers : Parsers
sample_parsers = record {
  parse_url = λ t.
      if has_prefix t (codes "https://")
      then ok (url_of (codes "https") (trim_prefix t (codes "https://")))
      else if has_prefix t (codes "http://")
      then ok (url_of (codes "http") (trim_prefix t (codes "http://")))
      else err (message (foreign (codes "no scheme")));
  parse_duration = λ t. ok (pos 5_000_000_000);
  is_loopback_ip = λ t. text_eq t (codes "127.0.0.1");
}

abbrev pub raw_config : FileConfig
raw_config = record {
  record_section = record {
    name = codes "WWW.Example.com";
    zone = codes "example.com.";
    ttl_seconds = 300;
  };
  probe = record {
    ipv4_url = [];
    ipv6_url = codes "http://127.0.0.1/ip";
    timeout = codes "5s";
    allow_insecure_http = true;
    allow_partial_failure = false;
  };
  provider = record {
    provider_type = codes "Cloudflare";
    timeout = [];
    cloudflare = record {
      zone_id = codes "0123456789ABCDEF0123456789abcdef";
      api_token_file = codes "token";
      base_url = [];
      proxied = true;
    };
  };
}

abbrev pub accepted_cloudflare : CloudflareConfig
accepted_cloudflare = record {
  zone_id = codes "0123456789abcdef0123456789abcdef";
  api_token_file = codes "/etc/token";
  base_url = url_of (codes "https") (codes "api.cloudflare.com/client/v4/");
  proxied = true;
}

abbrev pub accepted : Config
accepted = record {
  source_path = [];
  record_section = record {
    name = codes "www.example.com.";
    zone = codes "example.com.";
    ttl_seconds = 300;
  };
  probe = record {
    ipv4_url = url_of (codes "https") (codes "4.ip.omsab.net/");
    ipv6_url = url_of (codes "http") (codes "127.0.0.1/ip");
    timeout = pos 5_000_000_000;
    allow_insecure_http = true;
    allow_partial_failure = false;
  };
  provider = record {
    provider_type = codes "cloudflare";
    timeout = pos 10_000_000_000;
    cloudflare = some accepted_cloudflare;
  };
}

pub config_accepted : normalize sample_parsers sample_os raw_config (codes "/etc") ≡ ok accepted
unfolding normalize normalize_fqdn trim_space to_lower has_suffix trim_suffix is_name_within_zone
    parse_probe_url has_prefix trim_prefix is_loopback_host parse_duration_or_default
    validate_cloudflare_ttl parse_https_url validate_secret_file
config_accepted = refl

pub built_in_parsed :
    sample_parsers.parse_url default_cloudflare_base_url
    ≡ ok (url_of (codes "https") (codes "api.cloudflare.com/client/v4/"))
unfolding has_prefix trim_prefix
built_in_parsed = refl

pub section_valid : IsCloudflareValid sample_parsers sample_os accepted_cloudflare
section_valid =
    let v =
      (normalize-IsValid sample_parsers sample_os raw_config (codes "/etc") accepted
        config_accepted).backend in
    let same : v.section ≡ accepted_cloudflare = cc (v.section-present) in
    subst (IsCloudflareValid sample_parsers sample_os) same v.section-IsCloudflareValid

name_normalized : normalize_fqdn (codes " WWW.Example.com") ≡ ok (codes "www.example.com.")
unfolding normalize_fqdn trim_space to_lower has_suffix trim_suffix
name_normalized = refl

normalize_fqdn-IsFqdn_example : IsFqdn (codes "www.example.com.")
normalize_fqdn-IsFqdn_example =
    normalize_fqdn-IsFqdn (codes " WWW.Example.com") (codes "www.example.com.") name_normalized

normalize_fqdn_idem_example :
    normalize_fqdn (codes "www.example.com.") ≡ ok (codes "www.example.com.")
normalize_fqdn_idem_example =
    normalize_fqdn_idem (codes " WWW.Example.com") (codes "www.example.com.") name_normalized

name_inside : is_name_within_zone (codes "www.example.com.") (codes "example.com.") ≡ true
unfolding is_name_within_zone trim_suffix has_suffix
name_inside = refl

is_name_within_zone-labels_example :
    (front : List Text) × (labels_of (codes "www.example.com.")
      ≡ front ++ labels_of (codes "example.com."))
is_name_within_zone-labels_example =
    is_name_within_zone-labels (codes "www.example.com.") (codes "example.com.") name_inside
