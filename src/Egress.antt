-- ===== src/Egress.antt =====
-- internal/egress/probe.go: the prober's lookup and the parser of a probe's response.
pub mod Laws
pub mod Lookups
use dns_update.Prelude.{
  ℕ, zero, suc, Bool, true, false, not, ◌&&◌, ◌||◌, Option, none, some, List, [], ◌∷◌, ◌==◌,
  if◌then◌else◌, is_empty,
}
use dns_update.Prelude.Int.{pos}
use dns_update.Text.{Text, codes, text_eq, trim_space, has_prefix, trim_prefix}
use dns_update.Stdlib.{Stdlib}
use dns_update.Failure.{
  Error, message, wrapped, Result, ok, err, unexpected_status, response_without_prefix,
  response_without_value, invalid_address, expected_ipv4, expected_ipv6, unsupported_family,
  foreign, ◌>>=◌,
}
use dns_update.Retry.{Duration, mark_error, should_retry_http_status}
use dns_update.Http.{Clock, is_redirect, retry_after_header}

-- Family: 4 and 6, and any other int.
abbrev pub Family : Type 0
Family = ℕ

abbrev pub ipv4 : Family
ipv4 = 4

abbrev pub ipv6 : Family
ipv6 = 6

abbrev pub max_response_bytes : ℕ
max_response_bytes = 64

-- A response: its status, its Retry-After header, and what reading at most n bytes of it gives.
pub record Response : Type 0 where
  pub status_code : ℕ
  pub retry_after : Text
  pub read_body : ℕ → Result Text

-- client.Do of a request for a URL.
abbrev pub HttpClient : Type 0
HttpClient = Text → Result Response

-- The error of http.NewRequestWithContext, if it has one.
abbrev pub RequestBuilder : Type 0
RequestBuilder = Text → Option Error

pub record Prober : Type 0 where
  pub ipv4_client : Option HttpClient
  pub ipv6_client : Option HttpClient
  pub new_request : Option RequestBuilder

-- NewProber. `client` is httpclient.NewWithNetwork, and `standard` http.NewRequestWithContext.
abbrev pub new_prober : (Duration → Text → HttpClient) → RequestBuilder → Duration → Prober
new_prober client standard timeout = record {
  ipv4_client = some (client timeout (codes "tcp4"));
  ipv6_client = some (client timeout (codes "tcp6"));
  new_request = some standard;
}

abbrev configured : Option HttpClient → Error → Result HttpClient
configured none e = err e
configured (some client) e = ok client

unfoldable pub client_for_family : Prober → Family → Result HttpClient
client_for_family p family =
    if family == ipv4
    then configured p.ipv4_client (message (foreign (codes "IPv4 probe client is not configured")))
    else if family == ipv6
    then configured p.ipv6_client (message (foreign (codes "IPv6 probe client is not configured")))
    else err (message (unsupported_family family))

-- `standard` is http.NewRequestWithContext.
unfoldable pub request_builder : RequestBuilder → Prober → RequestBuilder
request_builder standard p = elim p.new_request [ none ↦ standard | some builder ↦ builder ]

-- An error of client.Do is retryable, unless it is a redirect or the context is done.
unfoldable pub request_failed : Option Error → Error → Error
request_failed (some cause) e = wrapped (codes "perform request") e
request_failed none e =
    let whole = wrapped (codes "perform request") e in
    if is_redirect e then whole else mark_error whole (pos 0)

module _ ⦃std : Stdlib⦄ where
  -- The family test on a parsed address.
  of_family : Text → Family → std.Addr → Result (Option std.Addr)
  of_family raw family address =
      if family == ipv4
      then (if std.is4 address then ok (some address) else err (message (expected_ipv4 raw)))
      else if family == ipv6
      then (if not (std.is6 address) || std.is4_in6 address
          then err (message (expected_ipv6 raw))
          else ok (some address))
      else err (message (unsupported_family family))

  of_parsed : Text → Family → Option std.Addr → Result (Option std.Addr)
  unfolding of_family
  of_parsed raw family none = err (message (invalid_address raw))
  of_parsed raw family (some address) = of_family raw family address

  -- The value behind `ip=`.
  of_value : Text → Family → Result (Option std.Addr)
  unfolding of_parsed
  of_value raw family =
      if is_empty raw
      then err (message response_without_value)
      else if text_eq raw (codes "none")
      then ok none
      else of_parsed raw family (std.parse_addr raw)

  unfoldable pub parse_response : Text → Family → Result (Option std.Addr)
  unfolding of_value
  parse_response body family =
      let value = trim_space body in
      if not (has_prefix value (codes "ip="))
      then err (message response_without_prefix)
      else of_value (trim_space (trim_prefix value (codes "ip="))) family

  module _ (clock : Clock) where
    status_failed : Response → Error
    status_failed response =
        let whole = message (unexpected_status response.status_code) in
        if should_retry_http_status response.status_code
        then mark_error whole (retry_after_header clock response.retry_after)
        else whole

    body_parsed : Family → Result Text → Result (Option std.Addr)
    body_parsed family (err e) = err (wrapped (codes "read response body") e)
    body_parsed family (ok body) = parse_response body family

    answered : Option Error → Family → Result Response → Result (Option std.Addr)
    unfolding request_failed status_failed body_parsed
    answered cause family (err e) = err (request_failed cause e)
    answered cause family (ok response) =
        if not (response.status_code == 200)
        then err (status_failed response)
        else body_parsed family (response.read_body max_response_bytes)

    request : Option Error → Family → Text → HttpClient → Option Error → Result (Option std.Addr)
    unfolding answered
    request cause family endpoint client (some e) = err (wrapped (codes "build request") e)
    request cause family endpoint client none = answered cause family (client endpoint)

    -- Lookup. `cause` is context.Cause of the context after the request.
    unfoldable pub lookup :
        RequestBuilder → Prober → Option Error → Text → Family → Result (Option std.Addr)
    unfolding request
    lookup standard p cause endpoint family = do
      client ← client_for_family p family
      request cause family endpoint client (request_builder standard p endpoint)
