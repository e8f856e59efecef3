-- ===== src/App/Construction.antt =====
-- internal/app/provider.go and run.go: newProvider and New.
pub mod Provided
use dns_update.Prelude.{
  ℕ, ◌≡◌, refl, ap, ◌∙◌, sym, subst, inl, inr, ◌++◌, arith, Bool-cases, Option-cases, Option, none,
  some, if◌then◌else◌,
}
use dns_update.Text.{Text, codes, text_eq, to_lower}
use dns_update.Failure.{Result, ok, err, message, unsupported_provider, foreign, ◌>>=◌, step_ok}
use dns_update.Stdlib.{Stdlib}
use dns_update.Os.{Os}
use dns_update.Retry.{Duration, Policy, default_policy}
use dns_update.Egress.{Prober}
use dns_update.App.{Settings}
use dns_update.SecureFile.{read_single_token}
use dns_update.SecureFile.Private.{IsFromPrivateFile, read_single_token-IsFromPrivateFile}
use dns_update.Provider.{RecordOptions}
use dns_update.Config.Urls.{Url, Parsers, within, validate_client_config}
use dns_update.Config.Sections.{
  CloudflareConfig, ProviderConfig, Config, default_cloudflare_base_url,
}
use dns_update.Config.Urls.Trusted.{within-ok}
use dns_update.Config.Accepted.{IsProviderValid}
use dns_update.Config.Client.{accepted_client_valid}
use dns_update.Cloudflare.{record_options}
use dns_update.Cloudflare.Construction.{ClientConfig, Client, record_options_of, new_client}

-- What the runner holds; its HTTP clients answer by the world.
pub record Runner (W Service : Type 0) : Type 0 where
  pub cfg : Config
  pub prober : W → Prober
  pub provider : Client Service
  pub desired_options : RecordOptions
  pub retries : Policy

module _ ⦃std : Stdlib⦄ where
  abbrev pub settings_of : {W Service : Type 0} → Runner W Service → Settings
  settings_of r = record {
    record_name = r.cfg.record_section.name;
    ttl_seconds = r.cfg.record_section.ttl_seconds;
    allow_partial_failure = r.cfg.probe.allow_partial_failure;
    desired_options = r.desired_options;
    retries = r.retries;
  }

module _ {Service : Type 0} (service : ClientConfig → Service) (parsers : Parsers) (os : Os) where
  abbrev pub client_config : ProviderConfig → CloudflareConfig → Text → ClientConfig
  client_config cfg cloudflare token = record {
    zone_id = cloudflare.zone_id;
    api_token = token;
    base_url = some cloudflare.base_url;
    timeout = cfg.timeout;
    proxied = cloudflare.proxied;
  }

  abbrev pub new_cloudflare :
      ProviderConfig → Option CloudflareConfig → Result (Client Service × RecordOptions)
  new_cloudflare cfg none = err (
      message (
        foreign (codes "provider.cloudflare is required when provider.type=" ++ cfg.provider_type)))
  new_cloudflare cfg (some cloudflare) =
      within (codes "read Cloudflare API token file " ++ cloudflare.api_token_file)
        (read_single_token os cloudflare.api_token_file)
      >>= λ token.
          within (codes "build Cloudflare provider")
            (new_client service parsers (client_config cfg cloudflare token))
          >>= λ client. ok (client, record_options_of (client_config cfg cloudflare token))

  unfoldable pub new_provider : ProviderConfig → Result (Client Service × RecordOptions)
  unfolding new_client
  new_provider cfg =
      if text_eq cfg.provider_type (codes "cloudflare")
      then new_cloudflare cfg cfg.cloudflare
      else err (message (unsupported_provider cfg.provider_type))

  abbrev pub app_of :
      {W : Type 0}
      → (W → Duration → Prober)
      → Config
      → Client Service × RecordOptions
      → Runner W Service
  app_of prober cfg (client, options) = record {
    cfg = cfg;
    prober = λ w. prober w cfg.probe.timeout;
    provider = client;
    desired_options = options;
    retries = default_policy;
  }

  -- New.
  unfoldable pub new : {W : Type 0} → (W → Duration → Prober) → Config → Result (Runner W Service)
  unfolding new_provider
  new prober cfg = new_provider cfg.provider >>= λ made. ok (app_of prober cfg made)

  new_cloudflare_made :
      (cfg : ProviderConfig) (cloudflare : CloudflareConfig) (token : Text)
      → read_single_token os cloudflare.api_token_file ≡ ok token
      → validate_client_config parsers cloudflare.zone_id token (some cloudflare.base_url) ≡ ok tt
      → new_cloudflare cfg (some cloudflare)
        ≡ ok (
          record {
            zone_id = cloudflare.zone_id;
            records = service (client_config cfg cloudflare token);
          },
          record_options cloudflare.proxied,
        )
  unfolding new_client
  new_cloudflare_made cfg cloudflare token read valid = rw (read, valid) refl

  -- For every provider section that the configuration accepts, newProvider succeeds as soon as the token
  -- file can be read as one token, with a client for the section's zone and the options of its records,
  -- where url.Parse finds the host api.cloudflare.com in the built-in base URL.
  pub new_provider_accepted :
      (ttl : ℕ) (cfg : ProviderConfig) (valid : IsProviderValid parsers os ttl cfg) (token : Text)
      (built_in : Url)
      → read_single_token os valid.section.api_token_file ≡ ok token
      → parsers.parse_url default_cloudflare_base_url ≡ ok built_in
      → to_lower built_in.hostname ≡ codes "api.cloudflare.com"
      → new_provider cfg
        ≡ ok (
          record {
            zone_id = valid.section.zone_id;
            records = service (client_config cfg valid.section token);
          },
          record_options valid.section.proxied,
        )
  unfolding new_provider
  new_provider_accepted ttl cfg valid token built_in read parsed api =
      let (from_file, full, single) =
        read_single_token-IsFromPrivateFile os valid.section.api_token_file token read in
      rw (valid.kind, valid.section-present)
        (new_cloudflare_made cfg valid.section token read (
          accepted_client_valid parsers os valid.section token built_in
            valid.section-IsCloudflareValid full parsed api))
