-- ===== src/Config/Urls.antt =====
-- internal/config/config.go: durations and URLs, with internal/netutil/host.go and the base URL of
-- internal/provider/cloudflare/client.go.
pub mod Trusted
use dns_update.Prelude.{
  Bool, true, false, not, ◌&&◌, ◌||◌, Option, none, some, List, [], ◌∷◌, ◌++◌, if◌then◌else◌,
  is_empty,
}
use dns_update.Prelude.Int.{ℤ, pos, leb_ℤ}
use dns_update.Text.{Text, codes, text_eq, to_lower, trim_space, has_suffix}
use dns_update.Failure.{
  Error, message, wrapped, Result, ok, err, foreign, unsupported_scheme, untrusted_host, ◌>>=◌,
  ◌>>◌,
}
use dns_update.Retry.{Duration}

-- url.URL: the fields that the code reads, with Hostname() as `hostname` and `User != nil` as
-- `has_user`.
pub record Url : Type 0 where
  pub scheme : Text
  pub host : Text
  pub hostname : Text
  pub has_user : Bool
  pub fragment : Text
  pub raw_query : Text
  pub path : Text

-- url.Parse, time.ParseDuration, and net.ParseIP(s) != nil && IsLoopback().
pub record Parsers : Type 0 where
  pub parse_url : Text → Result Url
  pub parse_duration : Text → Result Duration
  pub is_loopback_ip : Text → Bool

abbrev pub fail {ℓ} : {A : Type ℓ} → Text → Result A
fail t = err (message (foreign t))

-- Wraps the error of a result.
abbrev pub within {ℓ} : {A : Type ℓ} → Text → Result A → Result A
within context (ok a) = ok a
within context (err e) = err (wrapped context e)

abbrev pub or_default : Text → Text → Text
or_default value fallback = if is_empty value then fallback else value

module _ (parsers : Parsers) where
  -- netutil.IsLoopbackHost
  unfoldable pub is_loopback_host : Text → Bool
  is_loopback_host host =
      let normalized = trim_space (to_lower host) in
      if is_empty normalized
      then false
      else if text_eq normalized (codes "localhost")
      then true
      else parsers.is_loopback_ip normalized

  abbrev pub positive : Duration → Result Duration
  positive duration =
      if leb_ℤ duration (pos 0) then fail (codes "must be greater than zero") else ok duration

  unfoldable pub parse_duration_or_default : Text → Duration → Result Duration
  parse_duration_or_default raw fallback =
      let value = trim_space raw in
      if is_empty value then ok fallback else parsers.parse_duration value >>= positive

  abbrev pub trusted : Url → Url → Result (Unit {0})
  trusted parsed fallback_url =
      let host = to_lower parsed.hostname in
      let allowed_host = to_lower fallback_url.hostname in
      if text_eq host allowed_host || is_loopback_host host
      then ok tt
      else err (message (untrusted_host allowed_host))

  unfoldable pub validate_trusted_host : Url → Text → Result (Unit {0})
  validate_trusted_host parsed fallback =
      within (codes "parse fallback URL") (parsers.parse_url fallback) >>= trusted parsed

  unfoldable pub validate_url_structure : Url → Text → Result (Unit {0})
  unfolding validate_trusted_host
  validate_url_structure parsed fallback =
      if is_empty parsed.host
      then fail (codes "host is required")
      else if parsed.has_user
      then fail (codes "userinfo is not allowed")
      else if not (is_empty parsed.fragment)
      then fail (codes "fragments are not allowed")
      else if not (is_empty parsed.raw_query)
      then fail (codes "query parameters are not allowed")
      else validate_trusted_host parsed fallback

  -- The switch on the scheme.
  abbrev pub probe_scheme : Bool → Text → Result (Unit {0})
  probe_scheme allow_http scheme =
      if text_eq scheme (codes "https")
      then ok tt
      else if text_eq scheme (codes "http")
      then (if not allow_http
          then fail (codes "http is disabled; set probe.allow_insecure_http to true to allow it")
          else ok tt)
      else err (message (unsupported_scheme scheme))

  abbrev pub checked_probe_url : Text → Bool → Url → Result Url
  checked_probe_url fallback allow_http parsed =
      probe_scheme allow_http parsed.scheme
      >> (validate_url_structure parsed fallback
          >> (if text_eq parsed.scheme (codes "http") && not (is_loopback_host parsed.hostname)
              then fail (codes "http probe URLs must use loopback or localhost")
              else ok parsed))

  unfoldable pub parse_probe_url : Text → Text → Bool → Result Url
  unfolding validate_url_structure
  parse_probe_url raw fallback allow_http =
      within (codes "parse URL") (parsers.parse_url (or_default (trim_space raw) fallback))
      >>= checked_probe_url fallback allow_http

  abbrev pub with_slash : Url → Url
  with_slash parsed =
      if not (has_suffix parsed.path (codes "/"))
      then record parsed { path = parsed.path ++ codes "/" }
      else parsed

  abbrev pub checked_https_url : Text → Url → Result Url
  checked_https_url fallback parsed =
      if not (text_eq parsed.scheme (codes "https"))
      then fail (codes "must use https")
      else validate_url_structure parsed fallback >> ok (with_slash parsed)

  unfoldable pub parse_https_url : Text → Text → Result Url
  unfolding validate_url_structure
  parse_https_url raw fallback =
      within (codes "parse URL") (parsers.parse_url (or_default (trim_space raw) fallback))
      >>= checked_https_url fallback

  -- isAllowedBaseURL of the Cloudflare client.
  unfoldable pub is_allowed_base_url : Url → Bool
  is_allowed_base_url base_url =
      let host = trim_space (to_lower base_url.hostname) in
      if text_eq host (codes "api.cloudflare.com") && text_eq base_url.scheme (codes "https")
      then true
      else is_loopback_host host

  -- Config.validate of the Cloudflare client, with its three other fields.
  abbrev checked_base_url : Option Url → Result (Unit {0})
  checked_base_url none = fail (codes "base URL is required")
  checked_base_url (some u) =
      if is_empty u.host
      then fail (codes "base URL host is required")
      else if u.has_user
      then fail (codes "base URL userinfo is not allowed")
      else if not (is_empty u.raw_query)
      then fail (codes "base URL query parameters are not allowed")
      else if not (is_empty u.fragment)
      then fail (codes "base URL fragments are not allowed")
      else if not (is_allowed_base_url u)
      then fail (codes "base URL host must be api.cloudflare.com or loopback/localhost")
      else ok tt

  unfoldable pub validate_client_config : Text → Text → Option Url → Result (Unit {0})
  unfolding is_allowed_base_url
  validate_client_config zone_id api_token base_url =
      if is_empty zone_id
      then fail (codes "zone ID is required")
      else if is_empty api_token
      then fail (codes "API token is required")
      else checked_base_url base_url
