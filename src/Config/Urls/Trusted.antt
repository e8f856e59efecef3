-- ===== src/Config/Urls/Trusted.antt =====
-- internal/config/config.go: the URLs that parseProbeURL and parseHTTPSURL return.
use dns_update.Prelude.{
  ◌≡◌, refl, subst, ◌∙◌, ap, inl, inr, Bool, true, false, not, ◌&&◌, ◌||◌, arith, if◌then◌else◌,
  is_empty, Bool-cases,
}
use dns_update.Text.{Text, codes, text_eq, to_lower, trim_space, has_suffix}
use dns_update.Config.Names.{has_suffix-append}
use dns_update.Failure.{Result, ok, err, ◌>>=◌, step_ok}
use dns_update.Config.Urls.{
  Url, Parsers, fail, within, or_default, is_loopback_host, trusted, validate_trusted_host,
  validate_url_structure, probe_scheme, checked_probe_url, parse_probe_url, with_slash,
  checked_https_url, parse_https_url,
}

pub within-ok {ℓ} :
    {A : Type ℓ} (context : Text) (r : Result A) {a : A} → within context r ≡ ok a → r ≡ ok a
within-ok context (ok a) h = h
within-ok context (err e) h = absurd (cc)

module _ (parsers : Parsers) where
  -- A URL with a host, and nothing but a host, a path and perhaps a port, whose host is the host of the
  -- built-in URL or a loopback host.
  pub record IsTrusted (fallback : Text) (u : Url) : Type 0 where
    pub host : is_empty u.host ≡ false
    pub user : u.has_user ≡ false
    pub fragment : is_empty u.fragment ≡ true
    pub query : is_empty u.raw_query ≡ true
    pub built_in : Url
    pub built_in-parsed : parsers.parse_url fallback ≡ ok built_in
    pub known :
        (text_eq (to_lower u.hostname) (to_lower built_in.hostname)
          || is_loopback_host parsers (to_lower u.hostname))
        ≡ true

  trusted_known :
      (u b : Url)
      → trusted parsers u b ≡ ok tt
      → (text_eq (to_lower u.hostname) (to_lower b.hostname)
          || is_loopback_host parsers (to_lower u.hostname))
        ≡ true
  trusted_known u b h = ground arith

  validate_url_structure-IsTrusted :
      (u : Url) (fallback : Text)
      → validate_url_structure parsers u fallback ≡ ok tt
      → IsTrusted fallback u
  unfolding validate_url_structure validate_trusted_host
  validate_url_structure-IsTrusted u fallback h =
      let reached : (within (codes "parse fallback URL") (parsers.parse_url fallback)
            >>= trusted parsers u)
          ≡ ok tt =
        ground arith in
      let (b, parsed, good) =
        step_ok (within (codes "parse fallback URL") (parsers.parse_url fallback))
          (trusted parsers u) reached in
      record {
        host = ground arith;
        user = ground arith;
        fragment = ground arith;
        query = ground arith;
        built_in = b;
        built_in-parsed =
            within-ok (codes "parse fallback URL") (parsers.parse_url fallback) parsed;
        known = trusted_known u b good;
      }

  -- The scheme of a probe URL: https, or http to a loopback host where that is allowed.
  abbrev pub probe_scheme_fine : Bool → Url → Bool
  probe_scheme_fine allow_http u =
      text_eq u.scheme (codes "https")
      || (text_eq u.scheme (codes "http") && (allow_http && is_loopback_host parsers u.hostname))

  local_http :
      (allow_http : Bool) (v u : Url)
      → probe_scheme parsers allow_http v.scheme ≡ ok tt
      → (if text_eq v.scheme (codes "http") && not (is_loopback_host parsers v.hostname)
          then fail (codes "http probe URLs must use loopback or localhost")
          else ok v)
        ≡ ok u
      → (v ≡ u) × (probe_scheme_fine allow_http v ≡ true)
  local_http allow_http v u h k = (ground arith, ground arith)

  checked_probe :
      (fallback : Text) (allow_http : Bool) (v u : Url)
      → checked_probe_url parsers fallback allow_http v ≡ ok u
      → IsTrusted fallback u × (probe_scheme_fine allow_http u ≡ true)
  checked_probe fallback allow_http v u h =
      let (first, scheme_ok, rest) = step_ok (probe_scheme parsers allow_http v.scheme) _ h in
      let (second, structure_ok, last) =
        step_ok (validate_url_structure parsers v fallback) _ rest in
      let (same, fine) = local_http allow_http v u (cc) last in
      (
        subst (IsTrusted fallback) same (validate_url_structure-IsTrusted v fallback (cc)),
        subst (λ w. probe_scheme_fine allow_http w ≡ true) same fine,
      )

  -- A probe URL that parseProbeURL returns is trusted, and uses https, or http to a loopback host where
  -- that is allowed.
  pub parse_probe_url-IsTrusted :
      (raw fallback : Text) (allow_http : Bool) (u : Url)
      → parse_probe_url parsers raw fallback allow_http ≡ ok u
      → IsTrusted fallback u × (probe_scheme_fine allow_http u ≡ true)
  unfolding parse_probe_url
  parse_probe_url-IsTrusted raw fallback allow_http u h =
      let (v, parsed, passed) =
        step_ok
          (within (codes "parse URL") (parsers.parse_url (or_default (trim_space raw) fallback)))
          (checked_probe_url parsers fallback allow_http) h in
      checked_probe fallback allow_http v u passed

  with_slash-IsTrusted :
      (fallback : Text) (v : Url) → IsTrusted fallback v → IsTrusted fallback (with_slash parsers v)
  with_slash-IsTrusted fallback v t = elim (Bool-cases (has_suffix v.path (codes "/"))) [
    | inl h ↦ rw h t
    | inr h ↦ rw h (record {
      host = t.host;
      user = t.user;
      fragment = t.fragment;
      query = t.query;
      built_in = t.built_in;
      built_in-parsed = t.built_in-parsed;
      known = t.known;
    })
  ]

  with_slash-path :
      (v : Url)
      → (has_suffix (with_slash parsers v).path (codes "/") ≡ true)
        × ((with_slash parsers v).scheme ≡ v.scheme)
  with_slash-path v = elim (Bool-cases (has_suffix v.path (codes "/"))) [
    | inl h ↦ rw h (h, refl)
    | inr h ↦ rw h (has_suffix-append v.path (codes "/"), refl)
  ]

  checked_https :
      (fallback : Text) (v u : Url)
      → checked_https_url parsers fallback v ≡ ok u
      → IsTrusted fallback u
        × (text_eq u.scheme (codes "https") ≡ true)
        × (has_suffix u.path (codes "/") ≡ true)
  checked_https fallback v u h =
      let https : text_eq v.scheme (codes "https") ≡ true = ground arith in
      let (done, structure_ok, last) =
        step_ok (validate_url_structure parsers v fallback) (λ _. ok (with_slash parsers v))
          (rw https at h) in
      let same : with_slash parsers v ≡ u = cc last in
      let (path, scheme) = with_slash-path v in
      rw (← same) (
        with_slash-IsTrusted fallback v (validate_url_structure-IsTrusted v fallback (cc)),
        ap (λ t. text_eq t (codes "https")) scheme ∙ https,
        path,
      )

  -- A URL that parseHTTPSURL returns is trusted, uses https, and its path ends in a slash.
  pub parse_https_url-IsTrusted :
      (raw fallback : Text) (u : Url)
      → parse_https_url parsers raw fallback ≡ ok u
      → IsTrusted fallback u
        × (text_eq u.scheme (codes "https") ≡ true)
        × (has_suffix u.path (codes "/") ≡ true)
  unfolding parse_https_url
  parse_https_url-IsTrusted raw fallback u h =
      let (v, parsed, passed) =
        step_ok
          (within (codes "parse URL") (parsers.parse_url (or_default (trim_space raw) fallback)))
          (checked_https_url parsers fallback) h in
      checked_https fallback v u passed
