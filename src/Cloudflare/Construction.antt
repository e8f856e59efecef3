-- ===== src/Cloudflare/Construction.antt =====
-- internal/provider/cloudflare/client.go: New, over the SDK's client as a parameter.
use dns_update.Prelude.{Option, Bool}
use dns_update.Text.{Text}
use dns_update.Failure.{Result, ok, ◌>>◌}
use dns_update.Retry.{Duration}
use dns_update.Provider.{RecordOptions}
use dns_update.Cloudflare.{record_options}
use dns_update.Config.Urls.{Url, Parsers, validate_client_config}

pub record ClientConfig : Type 0 where
  pub zone_id : Text
  pub api_token : Text
  pub base_url : Option Url
  pub timeout : Duration
  pub proxied : Bool

-- A client, with the records service of the SDK.
pub record Client (Service : Type 0) : Type 0 where
  pub zone_id : Text
  pub records : Service

-- Config.RecordOptions
abbrev pub record_options_of : ClientConfig → RecordOptions
record_options_of config = record_options config.proxied

-- `service` is the records service of a new SDK client.
unfoldable pub new_client :
    {Service : Type 0} → (ClientConfig → Service) → Parsers → ClientConfig → Result (Client Service)
unfolding validate_client_config
new_client service parsers config =
    validate_client_config parsers config.zone_id config.api_token config.base_url
    >> ok (record { zone_id = config.zone_id; records = service config })
