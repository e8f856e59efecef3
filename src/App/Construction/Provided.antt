-- ===== src/App/Construction/Provided.antt =====
-- internal/app/provider.go and run.go: what the provider of a runner that New returns was made of.
use dns_update.Prelude.{
  ◌≡◌, refl, ap, ◌∙◌, sym, subst, inl, inr, ◌++◌, arith, Bool-cases, Option-cases, some,
}
use dns_update.Text.{Text, codes, text_eq}
use dns_update.Failure.{ok, step_ok}
use dns_update.Os.{Os}
use dns_update.Retry.{Duration}
use dns_update.Egress.{Prober}
use dns_update.SecureFile.{read_single_token}
use dns_update.SecureFile.Private.{IsFromPrivateFile, read_single_token-IsFromPrivateFile}
use dns_update.Provider.{RecordOptions}
use dns_update.Config.Urls.{Parsers, within, validate_client_config}
use dns_update.Config.Sections.{CloudflareConfig, ProviderConfig, Config}
use dns_update.Config.Urls.Trusted.{within-ok}
use dns_update.Cloudflare.{record_options}
use dns_update.Cloudflare.Construction.{ClientConfig, Client, new_client}
use dns_update.App.Construction.{Runner, client_config, new_cloudflare, new_provider, app_of, new}

module _ {Service : Type 0} (service : ClientConfig → Service) (parsers : Parsers) (os : Os) where
  -- What a provider was made of: the section, and a token from a private file.
  pub record IsProvided (cfg : ProviderConfig) (client : Client Service) (options : RecordOptions)
      : Type 0 where
    pub section : CloudflareConfig
    pub section-present : cfg.cloudflare ≡ some section
    pub token : Text
    pub token-IsFromPrivateFile : IsFromPrivateFile os section.api_token_file token
    pub zone : client.zone_id ≡ section.zone_id
    pub records : client.records ≡ service (client_config service parsers os cfg section token)
    pub proxied : options ≡ record_options section.proxied

  made_of :
      (cfg : ProviderConfig) (section : CloudflareConfig) (client : Client Service)
      (options : RecordOptions)
      → cfg.cloudflare ≡ some section
      → new_cloudflare service parsers os cfg (some section) ≡ ok (client, options)
      → IsProvided cfg client options
  unfolding new_client
  made_of cfg section client options present h =
      let (token, read, rest) =
        step_ok
          (within (codes "read Cloudflare API token file " ++ section.api_token_file)
            (read_single_token os section.api_token_file))
          _ h in
      let (made, made_ok, last) =
        step_ok
          (within (codes "build Cloudflare provider")
            (new_client service parsers (client_config service parsers os cfg section token)))
          _ rest in
      let (done, valid, last') =
        step_ok (validate_client_config parsers section.zone_id token (some section.base_url)) _
          (within-ok _ _ made_ok) in
      let (from_file, full, single) =
        read_single_token-IsFromPrivateFile os section.api_token_file token (within-ok _ _ read) in
      let same : ◌≡◌ {A = Client Service × RecordOptions} (made, record_options section.proxied)
          (client, options) =
        cc last in
      let built : ◌≡◌ {A = Client Service}
          (record {
            zone_id = section.zone_id;
            records = service (client_config service parsers os cfg section token);
          })
          made =
        cc last' in
      record {
        section = section;
        section-present = present;
        token = token;
        token-IsFromPrivateFile = from_file;
        zone =
            ap (λ (c : Client Service × RecordOptions). c.0.zone_id) (sym same)
            ∙ ap (λ (c : Client Service). c.zone_id) (sym built);
        records =
            ap (λ (c : Client Service × RecordOptions). c.0.records) (sym same)
            ∙ ap (λ (c : Client Service). c.records) (sym built);
        proxied = ap (λ (c : Client Service × RecordOptions). c.1) (sym same);
      }

  new_provider-IsProvided :
      (cfg : ProviderConfig) (client : Client Service) (options : RecordOptions)
      → new_provider service parsers os cfg ≡ ok (client, options)
      → IsProvided cfg client options
  unfolding new_provider
  new_provider-IsProvided cfg client options h =
      elim (Bool-cases (text_eq cfg.provider_type (codes "cloudflare"))) [
        | inr other ↦ absurd (ground arith)
        | inl cloudflare ↦ elim (Option-cases cfg.cloudflare) [
          | inl missing ↦ absurd (ground arith)
          | inr (section, present) ↦
              made_of cfg section client options present
                (ap (new_cloudflare service parsers os cfg) (sym present) ∙ (rw cloudflare at h))
        ]
      ]

  -- A runner that New returns holds the configuration, and a provider for it.
  pub new-IsProvided :
      {W : Type 0} (prober : W → Duration → Prober) (cfg : Config) (r : Runner W Service)
      → new service parsers os prober cfg ≡ ok r
      → (r.cfg ≡ cfg) × IsProvided cfg.provider r.provider r.desired_options
  unfolding new
  new-IsProvided prober cfg r h =
      let ((client, options), made, last) =
        step_ok (new_provider service parsers os cfg.provider)
          (λ made. ok (app_of service parsers os prober cfg made)) h in
      let same : app_of service parsers os prober cfg (client, options) ≡ r = cc last in
      let provided = new_provider-IsProvided cfg.provider client options made in
      subst
        (λ (x : Runner _ Service).
          (x.cfg ≡ cfg) × IsProvided cfg.provider x.provider x.desired_options)
        same (refl, provided)
