-- ===== src/Config/Accepted.antt =====
-- internal/config/config.go: the provider section, and the configuration as a whole.
use dns_update.Prelude.{
  some, ℕ, suc, ◌≤◌, ◌≡◌, refl, subst, ap, ◌⊎◌, inl, inr, Bool, true, false, ◌&&◌, ◌||◌, [], ◌∷◌,
  ◌==◌, arith, is_empty, length, all_of, Bool-cases,
}
use dns_update.Prelude.Int.{pos, ◌≤ℤ◌}
use dns_update.Text.{Text, codes, text_eq, to_lower, lower_byte, trim_space, has_suffix}
use dns_update.Text.Laws.{to_lower_idem, text_eq_refl}
use dns_update.Failure.{ok, step_ok}
use dns_update.Retry.{Duration}
use dns_update.Os.{Os}
use dns_update.Config.Urls.{Parsers, within, parse_duration_or_default, parse_https_url}
use dns_update.Config.Urls.Trusted.{within-ok, IsTrusted, parse_https_url-IsTrusted}
use dns_update.Config.Sections.{
  FileCloudflareConfig, CloudflareConfig, FileProviderConfig, ProviderConfig, FileConfig, Config,
  validate_secret_file, default_timeout, default_cloudflare_base_url, cloudflare_zone_id_example,
  is_hex, is_zone_id, normalize_record_config, validate_cloudflare_ttl, normalize_probe_config,
  token_path, cloudflare_config, checked_cloudflare, normalize_provider_config, required_provider,
  normalize_top_level_provider_config, normalize,
}
use dns_update.Config.Valid.{
  IsRecordValid, normalize_record_config-IsRecordValid, timeout_positive, IsProbeValid,
  normalize_probe_config-IsProbeValid,
}

-- The zone ID of the example, or 32 hexadecimal digits in lower case.
abbrev pub zone_id_fine : Text → Bool
zone_id_fine z = text_eq z cloudflare_zone_id_example || (is_zone_id z && text_eq (to_lower z) z)

lower_hex : (t : Text) → all_of is_hex t ≡ true → all_of is_hex (to_lower t) ≡ true
unfolding to_lower lower_byte
lower_hex [] h = refl
lower_hex (c ∷ t) h = ground (arith, lower_hex t)

lower_length : (t : Text) → length (to_lower t) ≡ length t
unfolding to_lower
lower_length [] = refl
lower_length (c ∷ t) = ap suc (lower_length t)

zone_id_lower : (z : Text) → is_zone_id z ≡ true → zone_id_fine (to_lower z) ≡ true
unfolding is_zone_id
zone_id_lower z h =
    rw (lower_length z, to_lower_idem z, text_eq_refl (to_lower z)) (ground (arith, lower_hex z))

-- The TTL that Cloudflare takes: automatic, or half a minute to a day.
abbrev pub TtlFine : ℕ → Type 0
TtlFine ttl = (ttl ≡ 1) ⊎ ((30 ≤ ttl) × (ttl ≤ 86400))

ttl_fine : (ttl : ℕ) → validate_cloudflare_ttl ttl ≡ ok tt → TtlFine ttl
unfolding validate_cloudflare_ttl
ttl_fine ttl h = elim (Bool-cases (ttl == 1)) [
  | inl k ↦ inl (ground arith)
  | inr k ↦ inr (ground arith, ground arith)
]

module _ (parsers : Parsers) (os : Os) where
  -- The Cloudflare section: a zone ID, a token file that passed its check, and a trusted https URL whose
  -- path ends in a slash.
  pub record IsCloudflareValid (c : CloudflareConfig) : Type 0 where
    pub zone : zone_id_fine c.zone_id ≡ true
    pub token : validate_secret_file os c.api_token_file ≡ ok tt
    pub base : IsTrusted parsers default_cloudflare_base_url c.base_url
    pub base_scheme : text_eq c.base_url.scheme (codes "https") ≡ true
    pub base_path : has_suffix c.base_url.path (codes "/") ≡ true

  cloudflare_config-IsCloudflareValid :
      (raw : FileCloudflareConfig) (base_dir zone_id : Text) (c : CloudflareConfig)
      → zone_id_fine zone_id ≡ true
      → cloudflare_config parsers os raw base_dir zone_id ≡ ok c
      → IsCloudflareValid c
  cloudflare_config-IsCloudflareValid raw base_dir zone_id c fine h =
      let (done, token_ok, rest) =
        step_ok
          (within (codes "provider.cloudflare.api_token_file")
            (validate_secret_file os (token_path parsers os base_dir raw.api_token_file)))
          _ h in
      let (u, url_ok, last) =
        step_ok
          (within (codes "provider.cloudflare.base_url")
            (parse_https_url parsers raw.base_url default_cloudflare_base_url))
          _ rest in
      let (trusted, https, path) =
        parse_https_url-IsTrusted parsers raw.base_url default_cloudflare_base_url u
          (within-ok _ _ url_ok) in
      let token : validate_secret_file os (token_path parsers os base_dir raw.api_token_file)
          ≡ ok done =
        within-ok _ _ token_ok in
      let made : CloudflareConfig = record {
        zone_id = zone_id;
        api_token_file = token_path parsers os base_dir raw.api_token_file;
        base_url = u;
        proxied = raw.proxied;
      } in
      let same : made ≡ c = cc last in
      subst IsCloudflareValid same (record {
        zone = fine;
        token = cc token;
        base = trusted;
        base_scheme = https;
        base_path = path;
      })

  checked_cloudflare-IsCloudflareValid :
      (raw : FileCloudflareConfig) (base_dir : Text) (c : CloudflareConfig)
      → checked_cloudflare parsers os raw base_dir ≡ ok c
      → IsCloudflareValid c
  checked_cloudflare-IsCloudflareValid raw base_dir c h =
      let z = trim_space raw.zone_id in
      elim (Bool-cases (is_zone_id z)) [
        | inl k ↦
            cloudflare_config-IsCloudflareValid raw base_dir (to_lower z) c (zone_id_lower z k)
              (ground arith)
        | inr k ↦ cloudflare_config-IsCloudflareValid raw base_dir z c (ground arith) (ground arith)
      ]

  pub record IsProviderValid (ttl : ℕ) (c : ProviderConfig) : Type 0 where
    pub kind : text_eq c.provider_type (codes "cloudflare") ≡ true
    pub timeout : pos 1 ≤ℤ c.timeout
    pub ttl_range : TtlFine ttl
    pub section : CloudflareConfig
    pub section-present : c.cloudflare ≡ some section
    pub section-IsCloudflareValid : IsCloudflareValid section

  provider_valid :
      (kind : Text) (t : Duration) (raw : FileCloudflareConfig) (base_dir : Text) (ttl : ℕ)
      (c : ProviderConfig)
      → pos 1 ≤ℤ t
      → required_provider parsers os kind t raw base_dir ttl ≡ ok c
      → IsProviderValid ttl c
  unfolding normalize_provider_config
  provider_valid kind t raw base_dir ttl c later h =
      elim (Bool-cases (text_eq kind (codes "cloudflare"))) [
        | inr k ↦ absurd (ground arith)
        | inl k ↦
            let named : is_empty kind ≡ false = ground arith in
            let (done, ttl_ok, rest) =
              step_ok (within (codes "record.ttl_seconds") (validate_cloudflare_ttl ttl)) _
                (rw (named, k) at h) in
            let (cloud, cloud_ok, last) =
              step_ok (checked_cloudflare parsers os raw base_dir) _ rest in
            let valid = checked_cloudflare-IsCloudflareValid raw base_dir cloud cloud_ok in
            let in_range : validate_cloudflare_ttl ttl ≡ ok done = within-ok _ _ ttl_ok in
            let made : ProviderConfig = record {
              provider_type = kind;
              timeout = t;
              cloudflare = some cloud;
            } in
            let same : made ≡ c = cc last in
            subst (IsProviderValid ttl) same (record {
              kind = k;
              timeout = later;
              ttl_range = ttl_fine ttl (cc in_range);
              section = cloud;
              section-present = refl;
              section-IsCloudflareValid = valid;
            })
      ]

  normalize_top_level_provider_config-IsProviderValid :
      (raw : FileProviderConfig) (base_dir : Text) (ttl : ℕ) (c : ProviderConfig)
      → normalize_top_level_provider_config parsers os raw base_dir ttl ≡ ok c
      → IsProviderValid ttl c
  unfolding normalize_top_level_provider_config
  normalize_top_level_provider_config-IsProviderValid raw base_dir ttl c h =
      let (t, t_ok, last) =
        step_ok
          (within (codes "provider.timeout")
            (parse_duration_or_default parsers raw.timeout default_timeout))
          _ h in
      provider_valid (trim_space (to_lower raw.provider_type)) t raw.cloudflare base_dir ttl c
        (timeout_positive parsers raw.timeout t (within-ok _ _ t_ok)) last

  -- A configuration that the program runs with.
  pub record IsValid (c : Config) : Type 0 where
    pub names : IsRecordValid c.record_section
    pub probes : IsProbeValid parsers c.probe
    pub backend : IsProviderValid c.record_section.ttl_seconds c.provider

  pub normalize-IsValid :
      (raw : FileConfig) (base_dir : Text) (c : Config)
      → normalize parsers os raw base_dir ≡ ok c
      → IsValid c
  unfolding normalize
  normalize-IsValid raw base_dir c h =
      let (r, r_ok, rest) = step_ok (normalize_record_config raw.record_section) _ h in
      let (p, p_ok, rest2) = step_ok (normalize_probe_config parsers raw.probe) _ rest in
      let (b, b_ok, last) =
        step_ok (normalize_top_level_provider_config parsers os raw.provider base_dir r.ttl_seconds)
          _ rest2 in
      let made : Config = record {
        source_path = [];
        record_section = r;
        probe = p;
        provider = b;
      } in
      let same : made ≡ c = cc last in
      subst IsValid same (record {
        names = normalize_record_config-IsRecordValid raw.record_section r r_ok;
        probes = normalize_probe_config-IsProbeValid parsers raw.probe p p_ok;
        backend =
            normalize_top_level_provider_config-IsProviderValid raw.provider base_dir r.ttl_seconds
              b b_ok;
      })
