-- ===== src/Config/Valid.antt =====
-- internal/config/config.go: the record and probe sections that normalize returns.
use dns_update.Prelude.{ℕ, ◌≤◌, ◌≡◌, subst, inl, inr, true, arith, is_empty, Bool-cases}
use dns_update.Prelude.Int.{pos, ◌≤ℤ◌}
use dns_update.Text.{Text, codes, trim_space}
use dns_update.Failure.{ok, step_ok}
use dns_update.Retry.{Duration}
use dns_update.Config.{normalize_fqdn, is_name_within_zone}
use dns_update.Config.Names.{IsFqdn, normalize_fqdn-IsFqdn}
use dns_update.Config.Urls.{Parsers, within, positive, parse_duration_or_default, parse_probe_url}
use dns_update.Config.Urls.Trusted.{
  within-ok, IsTrusted, parse_probe_url-IsTrusted, probe_scheme_fine,
}
use dns_update.Config.Sections.{
  FileRecordConfig, RecordConfig, FileProbeConfig, ProbeConfig, default_probe_ipv4_url,
  default_probe_ipv6_url, default_timeout, checked_record, normalize_record_config,
  normalize_probe_config,
}

-- The record section: two names in normal form, one inside the other, and a TTL.
pub record IsRecordValid (c : RecordConfig) : Type 0 where
  pub name : IsFqdn c.name
  pub zone : IsFqdn c.zone
  pub inside : is_name_within_zone c.name c.zone ≡ true
  pub ttl : 1 ≤ c.ttl_seconds

pub checked_record-ok :
    (name zone : Text) (ttl : ℕ) (c : RecordConfig)
    → checked_record name zone ttl ≡ ok c
    → (is_name_within_zone name zone ≡ true)
      × (1 ≤ ttl)
      × (record { name = name; zone = zone; ttl_seconds = ttl } ≡ c)
checked_record-ok name zone ttl c h = (ground arith, ground arith, ground arith)

pub normalize_record_config-IsRecordValid :
    (raw : FileRecordConfig) (c : RecordConfig)
    → normalize_record_config raw ≡ ok c
    → IsRecordValid c
unfolding normalize_record_config
normalize_record_config-IsRecordValid raw c h =
    let (name, name_ok, rest) =
      step_ok (within (codes "record.name") (normalize_fqdn raw.name)) _ h in
    let (zone, zone_ok, last) =
      step_ok (within (codes "record.zone") (normalize_fqdn raw.zone)) _ rest in
    let (inside, ttl, same) = checked_record-ok name zone raw.ttl_seconds c last in
    subst IsRecordValid same (record {
      name = normalize_fqdn-IsFqdn raw.name name (within-ok _ _ name_ok);
      zone = normalize_fqdn-IsFqdn raw.zone zone (within-ok _ _ zone_ok);
      inside = inside;
      ttl = ttl;
    })

module _ (parsers : Parsers) where
  positive-ok : (d t : Duration) → positive parsers d ≡ ok t → pos 1 ≤ℤ t
  positive-ok d t h = ground arith

  pub timeout_positive :
      (raw : Text) (t : Duration)
      → parse_duration_or_default parsers raw default_timeout ≡ ok t
      → pos 1 ≤ℤ t
  unfolding parse_duration_or_default
  timeout_positive raw t h = elim (Bool-cases (is_empty (trim_space raw))) [
    | inl k ↦ let same : default_timeout ≡ t = cc (rw k at h) in rw (← same) (omega arith)
    | inr k ↦
        let (d, parsed, good) =
          step_ok (parsers.parse_duration (trim_space raw)) (positive parsers) (rw k at h) in
        positive-ok d t good
  ]

  -- The probe section: two trusted URLs, with http only where it is allowed, and a timeout.
  pub record IsProbeValid (c : ProbeConfig) : Type 0 where
    pub ipv4 : IsTrusted parsers default_probe_ipv4_url c.ipv4_url
    pub ipv4_scheme : probe_scheme_fine parsers c.allow_insecure_http c.ipv4_url ≡ true
    pub ipv6 : IsTrusted parsers default_probe_ipv6_url c.ipv6_url
    pub ipv6_scheme : probe_scheme_fine parsers c.allow_insecure_http c.ipv6_url ≡ true
    pub timeout : pos 1 ≤ℤ c.timeout

  pub normalize_probe_config-IsProbeValid :
      (raw : FileProbeConfig) (c : ProbeConfig)
      → normalize_probe_config parsers raw ≡ ok c
      → IsProbeValid c
  unfolding normalize_probe_config
  normalize_probe_config-IsProbeValid raw c h =
      let (u4, ok4, rest4) =
        step_ok
          (within (codes "probe.ipv4_url")
            (parse_probe_url parsers raw.ipv4_url default_probe_ipv4_url raw.allow_insecure_http))
          _ h in
      let (u6, ok6, rest6) =
        step_ok
          (within (codes "probe.ipv6_url")
            (parse_probe_url parsers raw.ipv6_url default_probe_ipv6_url raw.allow_insecure_http))
          _ rest4 in
      let (t, okt, last) =
        step_ok
          (within (codes "probe.timeout")
            (parse_duration_or_default parsers raw.timeout default_timeout))
          _ rest6 in
      let (trusted4, scheme4) =
        parse_probe_url-IsTrusted parsers raw.ipv4_url default_probe_ipv4_url
          raw.allow_insecure_http u4 (within-ok _ _ ok4) in
      let (trusted6, scheme6) =
        parse_probe_url-IsTrusted parsers raw.ipv6_url default_probe_ipv6_url
          raw.allow_insecure_http u6 (within-ok _ _ ok6) in
      let made : ProbeConfig = record {
        ipv4_url = u4;
        ipv6_url = u6;
        timeout = t;
        allow_insecure_http = raw.allow_insecure_http;
        allow_partial_failure = raw.allow_partial_failure;
      } in
      let same : made ≡ c = cc last in
      subst IsProbeValid same (record {
        ipv4 = trusted4;
        ipv4_scheme = scheme4;
        ipv6 = trusted6;
        ipv6_scheme = scheme6;
        timeout = timeout_positive raw.timeout t (within-ok _ _ okt);
      })
