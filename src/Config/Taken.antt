-- ===== src/Config/Taken.antt =====
-- internal/config/config.go: where normalize takes each part of a configuration from.
use dns_update.Prelude.{
  ℕ, ◌≡◌, refl, subst, some, [], inl, inr, false, arith, if◌then◌else◌, Bool-cases, is_empty,
}
use dns_update.Text.{Text, codes, text_eq, to_lower, trim_space}
use dns_update.Failure.{ok, step_ok}
use dns_update.Retry.{Duration}
use dns_update.Os.{Os}
use dns_update.Config.{normalize_fqdn}
use dns_update.Config.Urls.{
  Parsers, within, parse_duration_or_default, parse_probe_url, parse_https_url,
}
use dns_update.Config.Urls.Trusted.{within-ok}
use dns_update.Config.Valid.{checked_record-ok}
use dns_update.Config.Sections.{
  FileRecordConfig, FileProbeConfig, FileCloudflareConfig, FileProviderConfig, FileConfig,
  RecordConfig, ProbeConfig, CloudflareConfig, ProviderConfig, Config, default_probe_ipv4_url,
  default_probe_ipv6_url, default_timeout, default_cloudflare_base_url, is_zone_id, token_path,
  cloudflare_config, checked_cloudflare, validate_secret_file, validate_cloudflare_ttl,
  required_provider, normalize_provider_config, normalize_record_config, normalize_probe_config,
  normalize_top_level_provider_config, normalize,
}

pub record RecordTaken (raw : FileRecordConfig) (c : RecordConfig) : Type 0 where
  pub name : normalize_fqdn raw.name ≡ ok c.name
  pub zone : normalize_fqdn raw.zone ≡ ok c.zone
  pub ttl : c.ttl_seconds ≡ raw.ttl_seconds

normalize_record_config-RecordTaken :
    (raw : FileRecordConfig) (c : RecordConfig)
    → normalize_record_config raw ≡ ok c
    → RecordTaken raw c
unfolding normalize_record_config
normalize_record_config-RecordTaken raw c h =
    let (name, name_ok, rest) =
      step_ok (within (codes "record.name") (normalize_fqdn raw.name)) _ h in
    let (zone, zone_ok, last) =
      step_ok (within (codes "record.zone") (normalize_fqdn raw.zone)) _ rest in
    let (inside, ttl, same) = checked_record-ok name zone raw.ttl_seconds c last in
    subst (RecordTaken raw) same
      (record { name = within-ok _ _ name_ok; zone = within-ok _ _ zone_ok; ttl = refl })

module _ (parsers : Parsers) where
  pub record ProbeTaken (raw : FileProbeConfig) (c : ProbeConfig) : Type 0 where
    pub ipv4_url :
        parse_probe_url parsers raw.ipv4_url default_probe_ipv4_url raw.allow_insecure_http
        ≡ ok c.ipv4_url
    pub ipv6_url :
        parse_probe_url parsers raw.ipv6_url default_probe_ipv6_url raw.allow_insecure_http
        ≡ ok c.ipv6_url
    pub timeout : parse_duration_or_default parsers raw.timeout default_timeout ≡ ok c.timeout
    pub insecure : c.allow_insecure_http ≡ raw.allow_insecure_http
    pub partial : c.allow_partial_failure ≡ raw.allow_partial_failure

  normalize_probe_config-ProbeTaken :
      (raw : FileProbeConfig) (c : ProbeConfig)
      → normalize_probe_config parsers raw ≡ ok c
      → ProbeTaken raw c
  unfolding normalize_probe_config
  normalize_probe_config-ProbeTaken raw c h =
      let (u4, ok4, rest4) =
        step_ok
          (within (codes "probe.ipv4_url")
            (parse_probe_url parsers raw.ipv4_url default_probe_ipv4_url raw.allow_insecure_http))
          _ h in
      let (u6, ok6, rest6) =
        step_ok
          (within (codes "probe.ipv6_url")
            (parse_probe_url parsers raw.ipv6_url default_probe_ipv6_url raw.allow_insecure_http))
          _ rest4 in
      let (t, okt, last) =
        step_ok
          (within (codes "probe.timeout")
            (parse_duration_or_default parsers raw.timeout default_timeout))
          _ rest6 in
      let made : ProbeConfig = record {
        ipv4_url = u4;
        ipv6_url = u6;
        timeout = t;
        allow_insecure_http = raw.allow_insecure_http;
        allow_partial_failure = raw.allow_partial_failure;
      } in
      let same : made ≡ c = cc last in
      subst (ProbeTaken raw) same (record {
        ipv4_url = within-ok _ _ ok4;
        ipv6_url = within-ok _ _ ok6;
        timeout = within-ok _ _ okt;
        insecure = refl;
        partial = refl;
      })

  module _ (os : Os) (base_dir : Text) where
    -- A token file with a relative path is one of the base directory.
    pub record CloudflareTaken (raw : FileCloudflareConfig) (c : CloudflareConfig) : Type 0 where
      pub zone :
          c.zone_id ≡ (let id = trim_space raw.zone_id in if is_zone_id id then to_lower id else id)
      pub token : c.api_token_file ≡ (
          if os.paths.is_abs raw.api_token_file
          then raw.api_token_file
          else os.paths.join_path base_dir raw.api_token_file)
      pub base : parse_https_url parsers raw.base_url default_cloudflare_base_url ≡ ok c.base_url
      pub proxied : c.proxied ≡ raw.proxied

    checked_cloudflare-CloudflareTaken :
        (raw : FileCloudflareConfig) (c : CloudflareConfig)
        → checked_cloudflare parsers os raw base_dir ≡ ok c
        → CloudflareTaken raw c
    checked_cloudflare-CloudflareTaken raw c h =
        let id = trim_space raw.zone_id in
        let zone_id = if is_zone_id id then to_lower id else id in
        let made_of : cloudflare_config parsers os raw base_dir zone_id ≡ ok c = ground arith in
        let (done, token_ok, rest) =
          step_ok
            (within (codes "provider.cloudflare.api_token_file")
              (validate_secret_file os (token_path parsers os base_dir raw.api_token_file)))
            _ made_of in
        let (u, url_ok, last) =
          step_ok
            (within (codes "provider.cloudflare.base_url")
              (parse_https_url parsers raw.base_url default_cloudflare_base_url))
            _ rest in
        let made : CloudflareConfig = record {
          zone_id = zone_id;
          api_token_file = token_path parsers os base_dir raw.api_token_file;
          base_url = u;
          proxied = raw.proxied;
        } in
        let same : made ≡ c = cc last in
        subst (CloudflareTaken raw) same (record {
          zone = refl;
          token = ground arith;
          base = within-ok _ _ url_ok;
          proxied = refl;
        })

    pub record ProviderTaken (raw : FileProviderConfig) (c : ProviderConfig) : Type 0 where
      pub kind : c.provider_type ≡ trim_space (to_lower raw.provider_type)
      pub timeout : parse_duration_or_default parsers raw.timeout default_timeout ≡ ok c.timeout
      pub section : CloudflareConfig
      pub section-present : c.cloudflare ≡ some section
      pub section-taken : CloudflareTaken raw.cloudflare section

    provider_taken :
        (raw : FileProviderConfig) (t : Duration) (ttl : ℕ) (c : ProviderConfig)
        → parse_duration_or_default parsers raw.timeout default_timeout ≡ ok t
        → required_provider parsers os
            (trim_space (to_lower raw.provider_type))
            t
            raw.cloudflare
            base_dir
            ttl
          ≡ ok c
        → ProviderTaken raw c
    unfolding normalize_provider_config
    provider_taken raw t ttl c timed h =
        let kind = trim_space (to_lower raw.provider_type) in
        elim (Bool-cases (text_eq kind (codes "cloudflare"))) [
          | inr k ↦ absurd (ground arith)
          | inl k ↦
              let named : is_empty kind ≡ false = ground arith in
              let (done, ttl_ok, rest) =
                step_ok (within (codes "record.ttl_seconds") (validate_cloudflare_ttl ttl)) _
                  (rw (named, k) at h) in
              let (cloud, cloud_ok, last) =
                step_ok (checked_cloudflare parsers os raw.cloudflare base_dir) _ rest in
              let made : ProviderConfig = record {
                provider_type = kind;
                timeout = t;
                cloudflare = some cloud;
              } in
              let same : made ≡ c = cc last in
              subst (ProviderTaken raw) same (record {
                kind = refl;
                timeout = timed;
                section = cloud;
                section-present = refl;
                section-taken = checked_cloudflare-CloudflareTaken raw.cloudflare cloud cloud_ok;
              })
        ]

    -- Each part of the configuration is what its entry in the file says, in normal form, or the default.
    pub record IsTaken (raw : FileConfig) (c : Config) : Type 0 where
      pub record_section : RecordTaken raw.record_section c.record_section
      pub probe : ProbeTaken raw.probe c.probe
      pub provider : ProviderTaken raw.provider c.provider

    pub normalize-IsTaken :
        (raw : FileConfig) (c : Config) → normalize parsers os raw base_dir ≡ ok c → IsTaken raw c
    unfolding normalize normalize_top_level_provider_config
    normalize-IsTaken raw c h =
        let (r, r_ok, rest) = step_ok (normalize_record_config raw.record_section) _ h in
        let (p, p_ok, rest2) = step_ok (normalize_probe_config parsers raw.probe) _ rest in
        let (b, b_ok, last) =
          step_ok
            (normalize_top_level_provider_config parsers os raw.provider base_dir r.ttl_seconds) _
            rest2 in
        let (t, t_ok, required) =
          step_ok
            (within (codes "provider.timeout")
              (parse_duration_or_default parsers raw.provider.timeout default_timeout))
            _ b_ok in
        let made : Config = record {
          source_path = [];
          record_section = r;
          probe = p;
          provider = b;
        } in
        let same : made ≡ c = cc last in
        subst (IsTaken raw) same (record {
          record_section = normalize_record_config-RecordTaken raw.record_section r r_ok;
          probe = normalize_probe_config-ProbeTaken raw.probe p p_ok;
          provider = provider_taken raw.provider t r.ttl_seconds b (within-ok _ _ t_ok) required;
        })
