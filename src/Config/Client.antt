-- ===== src/Config/Client.antt =====
-- internal/provider/cloudflare/client.go: Config.validate on the section that internal/config returns.
use dns_update.Prelude.{
  ◌≡◌, refl, ◌∙◌, ap, inl, inr, true, false, ◌||◌, some, [], ◌∷◌, arith, is_empty, Bool-cases,
}
use dns_update.Text.{Text, codes, text_eq, to_lower, trim_space}
use dns_update.Text.Laws.{to_lower_idem, eq-of_text_eq}
use dns_update.Text.Trim.{trim_space_idem, to_lower-trim_space}
use dns_update.Failure.{ok}
use dns_update.Os.{Os}
use dns_update.Config.Urls.{
  Url, Parsers, is_loopback_host, is_allowed_base_url, validate_client_config,
}
use dns_update.Config.Sections.{CloudflareConfig, default_cloudflare_base_url, is_zone_id}
use dns_update.Config.Accepted.{IsCloudflareValid, zone_id_fine}

zone_id_full : (z : Text) → zone_id_fine z ≡ true → is_empty z ≡ false
unfolding is_zone_id
zone_id_full [] h = absurd (cc h)
zone_id_full (x ∷ z) h = refl

api_host_trimmed : trim_space (codes "api.cloudflare.com") ≡ codes "api.cloudflare.com"
unfolding trim_space
api_host_trimmed = refl

module _ (parsers : Parsers) where
  -- The two tests for a loopback host prepare the name differently, and agree.
  loopback_trimmed :
      (host : Text)
      → is_loopback_host parsers (trim_space (to_lower host))
        ≡ is_loopback_host parsers (to_lower host)
  unfolding is_loopback_host
  loopback_trimmed host =
      let low = to_lower_idem host in
      let trimmed : trim_space (to_lower (trim_space (to_lower host)))
          ≡ trim_space (to_lower host) =
        ap trim_space (to_lower-trim_space (to_lower host) low) ∙ trim_space_idem (to_lower host) in
      rw (trimmed, low) refl

  allowed :
      (u b : Url)
      → text_eq u.scheme (codes "https") ≡ true
      → to_lower b.hostname ≡ codes "api.cloudflare.com"
      → (text_eq (to_lower u.hostname) (to_lower b.hostname)
          || is_loopback_host parsers (to_lower u.hostname))
        ≡ true
      → is_allowed_base_url parsers u ≡ true
  unfolding is_allowed_base_url
  allowed u b https api known =
      elim (Bool-cases (text_eq (to_lower u.hostname) (to_lower b.hostname))) [
        | inl k ↦
            let host : trim_space (to_lower u.hostname) ≡ codes "api.cloudflare.com" =
              ap trim_space (eq-of_text_eq _ _ k ∙ api) ∙ api_host_trimmed in
            rw (host, https) refl
        | inr k ↦
            let loop : is_loopback_host parsers (to_lower u.hostname) ≡ true = ground arith in
            let looped = loopback_trimmed u.hostname ∙ loop in ground arith
      ]

  -- The client takes every accepted Cloudflare section: with a token, and where url.Parse finds the host
  -- api.cloudflare.com in the built-in base URL, Config.validate of the client has no objection to its
  -- zone ID and base URL.
  pub accepted_client_valid :
      (os : Os) (c : CloudflareConfig) (api_token : Text) (built_in : Url)
      → IsCloudflareValid parsers os c
      → is_empty api_token ≡ false
      → parsers.parse_url default_cloudflare_base_url ≡ ok built_in
      → to_lower built_in.hostname ≡ codes "api.cloudflare.com"
      → validate_client_config parsers c.zone_id api_token (some c.base_url) ≡ ok tt
  unfolding validate_client_config
  accepted_client_valid os c api_token built_in valid token parsed api =
      let zone = zone_id_full c.zone_id valid.zone in
      let t = valid.base in
      let same : t.built_in ≡ built_in = cc (t.built_in-parsed, parsed) in
      let allow =
        allowed c.base_url t.built_in valid.base_scheme
          (ap (λ (u : Url). to_lower u.hostname) same ∙ api) t.known in
      rw (zone, token, t.host, t.user, t.query, t.fragment, allow) refl
