-- ===== src/Http/Client.antt =====
-- internal/httpclient/httpclient.go: the settings of the program's HTTP clients. What net/http does with
-- them is a parameter of the code that uses a client.
use dns_update.Prelude.{ℕ, Bool, true, false, not, Option, some, [], if◌then◌else◌, is_empty}
use dns_update.Prelude.Int.{pos}
use dns_update.Text.{Text}
use dns_update.Failure.{Error, redirect_not_allowed}
use dns_update.Retry.{Duration}

abbrev pub max_response_header_bytes : ℕ
max_response_header_bytes = 8192

-- The lowest TLS version that a client accepts.
pub data TlsVersion : Type 0 where
  version_tls13 : TlsVersion

-- net.Dialer, and the network that the dial function puts in place of the transport's.
pub record Dialer : Type 0 where
  pub timeout : Duration
  pub keep_alive : Duration
  pub forced_network : Text

-- The network that dialContext dials.
abbrev pub dialed_network : Dialer → Text → Text
dialed_network dialer network =
    if not (is_empty dialer.forced_network) then dialer.forced_network else network

abbrev pub dial_context : Duration → Text → Dialer
dial_context timeout forced_network = record {
  timeout = timeout;
  keep_alive = pos 30_000_000_000;
  forced_network = forced_network;
}

pub record Transport : Type 0 where
  pub has_proxy : Bool
  pub force_attempt_http2 : Bool
  pub max_idle_conns : ℕ
  pub max_idle_conns_per_host : ℕ
  pub max_conns_per_host : ℕ
  pub idle_conn_timeout : Duration
  pub response_header_timeout : Duration
  pub expect_continue_timeout : Duration
  pub tls_handshake_timeout : Duration
  pub max_response_header_bytes : ℕ
  pub disable_compression : Bool
  pub min_version : TlsVersion
  pub dialer : Dialer

-- http.Client; `check_redirect` is what CheckRedirect returns for every redirect.
pub record ClientSettings : Type 0 where
  pub transport : Transport
  pub timeout : Duration
  pub check_redirect : Option Error

unfoldable pub new_with_network : Duration → Text → ClientSettings
new_with_network timeout forced_network = record {
  transport = record {
    has_proxy = false;
    force_attempt_http2 = true;
    max_idle_conns = 4;
    max_idle_conns_per_host = 2;
    max_conns_per_host = 4;
    idle_conn_timeout = pos 30_000_000_000;
    response_header_timeout = timeout;
    expect_continue_timeout = pos 1_000_000_000;
    tls_handshake_timeout = timeout;
    max_response_header_bytes = max_response_header_bytes;
    disable_compression = true;
    min_version = version_tls13;
    dialer = dial_context timeout forced_network;
  };
  timeout = timeout;
  check_redirect = some redirect_not_allowed;
}

-- New.
unfoldable pub new_client_settings : Duration → ClientSettings
unfolding new_with_network
new_client_settings timeout = new_with_network timeout []
