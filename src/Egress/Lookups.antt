-- ===== src/Egress/Lookups.antt =====
-- internal/egress/probe.go: Lookup as a whole, its address and its errors.
use dns_update.Prelude.{
  ◌≡◌, refl, ap, sym, ◌↔◌, inl, inr, true, false, Option, Bool-cases, none, some, arith, ◌==◌,
}
use dns_update.Prelude.Int.{pos, max_ℤ}
use dns_update.Text.{Text, codes, trim_space, trim_prefix}
use dns_update.Stdlib.{Stdlib}
use dns_update.Failure.{Error, wrapped, Result, ok, err, ◌>>=◌, step_ok}
use dns_update.Retry.{Duration, mark_error, after}
use dns_update.Retry.Statuses.{transient, should_retry-transient}
use dns_update.Http.{Clock, is_redirect, retry_after_header}
use dns_update.Egress.{
  Family, HttpClient, RequestBuilder, Prober, Response, client_for_family, request_builder,
  request_failed, status_failed, body_parsed, answered, request, lookup, parse_response, of_value,
  of_parsed, of_family,
}
use dns_update.Egress.Laws.{in_family, parse_response_sound}

module _ ⦃std : Stdlib⦄ (clock : Clock) where
  body_sound :
      (family : Family) (body : Result Text) (address : std.Addr)
      → body_parsed clock family body ≡ ok (some address)
      → in_family family address ≡ true
  unfolding body_parsed
  body_sound family (err e) address h = absurd (cc)
  body_sound family (ok body) address h = (parse_response_sound body family address h).1

  answered_sound :
      (cause : Option Error) (family : Family) (answer : Result Response) (address : std.Addr)
      → answered clock cause family answer ≡ ok (some address)
      → in_family family address ≡ true
  unfolding answered
  answered_sound cause family (err e) address h = absurd (cc)
  answered_sound cause family (ok response) address h =
      body_sound family (response.read_body 64) address (ground arith)

  request_sound :
      (cause : Option Error) (family : Family) (endpoint : Text) (client : HttpClient)
      (failed : Option Error) (address : std.Addr)
      → request clock cause family endpoint client failed ≡ ok (some address)
      → in_family family address ≡ true
  unfolding request
  request_sound cause family endpoint client (some e) address h = absurd (cc)
  request_sound cause family endpoint client none address h =
      answered_sound cause family (client endpoint) address h

  -- An address that Lookup returns belongs to the requested family, whatever the server answers.
  pub lookup_sound :
      (standard : RequestBuilder) (p : Prober) (cause : Option Error) (endpoint : Text)
      (family : Family) (address : std.Addr)
      → lookup clock standard p cause endpoint family ≡ ok (some address)
      → in_family family address ≡ true
  unfolding lookup
  lookup_sound standard p cause endpoint family address h =
      let (client, _, sent) = step_ok (client_for_family p family) _ h in
      request_sound cause family endpoint client _ address sent

  -- When another attempt follows an answer, and after which delay.
  abbrev pub AnswerRetried : Option Error → Result Response → Duration → Type 0
  AnswerRetried cause (err e) d = (cause ≡ none) × (is_redirect e ≡ false) × (d ≡ pos 0)
  AnswerRetried cause (ok response) d =
      (transient response.status_code ≡ true)
      × (d ≡ max_ℤ (retry_after_header clock response.retry_after) (pos 0))

  module _ (standard : RequestBuilder) (p : Prober) (endpoint : Text) (family : Family) where
    -- The errors of net/http carry no mark of this program.
    pub record IsUnmarked : Type 0 where
      pub builder : (e : Error) → request_builder standard p endpoint ≡ some e → after e ≡ none
      pub transport :
          (client : HttpClient) (e : Error)
          → client_for_family p family ≡ ok client
          → client endpoint ≡ err e
          → after e ≡ none
      pub body :
          (client : HttpClient) (response : Response) (e : Error)
          → client_for_family p family ≡ ok client
          → client endpoint ≡ ok response
          → response.read_body 64 ≡ err e
          → after e ≡ none

    -- The request is built and sent, and its answer asks for another attempt.
    abbrev pub LookupRetried : Option Error → Duration → Type 0
    LookupRetried cause d =
        (client : HttpClient) × (client_for_family p family ≡ ok client)
        × (request_builder standard p endpoint ≡ none)
        × AnswerRetried cause (client endpoint) d

  after-status_failed :
      (response : Response) (d : Duration)
      → (after (status_failed clock response) ≡ some d) ↔ AnswerRetried none (ok response) d
  unfolding status_failed after mark_error
  after-status_failed response d =
      let same = should_retry-transient response.status_code in
      (λ h. (ground arith, ground arith), λ (t, delay). ground arith)

  after-request_failed :
      (cause : Option Error) (e : Error) (d : Duration)
      → after e ≡ none
      → (after (request_failed cause e) ≡ some d) ↔ AnswerRetried cause (err e) d
  unfolding request_failed after mark_error
  after-request_failed (some c) e d unmarked =
      (λ h. absurd (cc), λ (alive, direct, delay). absurd (cc))
  after-request_failed none e d unmarked =
      (λ h. (refl, ground arith, ground arith), λ (alive, direct, delay). ground arith)

  client_unmarked :
      (p : Prober) (family : Family) (e : Error)
      → client_for_family p family ≡ err e
      → after e ≡ none
  unfolding client_for_family after
  client_unmarked p family e h = ground arith

  family_unmarked :
      (raw : Text) (family : Family) (address : std.Addr) (e : Error)
      → of_family raw family address ≡ err e
      → after e ≡ none
  unfolding of_family after
  family_unmarked raw family address e h = ground arith

  parsed_unmarked :
      (raw : Text) (family : Family) (found : Option std.Addr) (e : Error)
      → of_parsed raw family found ≡ err e
      → after e ≡ none
  unfolding of_parsed after
  parsed_unmarked raw family none e h = ground arith
  parsed_unmarked raw family (some address) e h = family_unmarked raw family address e h

  value_unmarked :
      (raw : Text) (family : Family) (e : Error) → of_value raw family ≡ err e → after e ≡ none
  unfolding of_value after
  value_unmarked raw family e h = ground (arith, parsed_unmarked raw family (std.parse_addr raw) e)

  response_unmarked :
      (body : Text) (family : Family) (e : Error)
      → parse_response body family ≡ err e
      → after e ≡ none
  unfolding parse_response after
  response_unmarked body family e h =
      ground
        (arith, value_unmarked (trim_space (trim_prefix (trim_space body) (codes "ip="))) family e)

  body_unmarked :
      (family : Family) (found : Result Text) (e : Error)
      → ((x : Error) → found ≡ err x → after x ≡ none)
      → body_parsed clock family found ≡ err e
      → after e ≡ none
  unfolding body_parsed after
  body_unmarked family (err x) e plain h =
      let same : wrapped (codes "read response body") x ≡ e = cc in rw (sym same) (plain x refl)
  body_unmarked family (ok t) e plain h = response_unmarked t family e h

  answer_retried :
      (cause : Option Error) (family : Family) (answer : Result Response) (e : Error) (d : Duration)
      → ((x : Error) → answer ≡ err x → after x ≡ none)
      → ((response : Response) (x : Error)
          → answer ≡ ok response
          → response.read_body 64 ≡ err x
          → after x ≡ none)
      → answered clock cause family answer ≡ err e
      → after e ≡ some d
      → AnswerRetried cause answer d
  unfolding answered
  answer_retried cause family (err x) e d plain plain_body h marked =
      let same : request_failed cause x ≡ e = cc in
      (after-request_failed cause x d (plain x refl)).0 (rw same marked)
  answer_retried cause family (ok response) e d plain plain_body h marked =
      elim (Bool-cases (response.status_code == 200)) [
        | inl fine ↦
            let unmarked =
              body_unmarked family (response.read_body 64) e (λ x. plain_body response x refl)
                (rw fine at h) in
            absurd (cc)
        | inr bad ↦
            let same : status_failed clock response ≡ e = ground arith in
            (after-status_failed response d).0 (rw same marked)
      ]

  answer_fails :
      (cause : Option Error) (family : Family) (answer : Result Response) (d : Duration)
      → ((x : Error) → answer ≡ err x → after x ≡ none)
      → AnswerRetried cause answer d
      → (e : Error) × (answered clock cause family answer ≡ err e) × (after e ≡ some d)
  unfolding answered
  answer_fails cause family (err x) d plain retried =
      (request_failed cause x, refl, (after-request_failed cause x d (plain x refl)).1 retried)
  answer_fails cause family (ok response) d plain (t, delay) =
      let bad : (response.status_code == 200) ≡ false = ground arith in
      (status_failed clock response, rw bad refl, (after-status_failed response d).1 (t, delay))

  module _ (standard : RequestBuilder) (p : Prober) (cause : Option Error) (endpoint : Text)
      (family : Family) (d : Duration) (plain : IsUnmarked standard p endpoint family) where
    request_retried :
        (found : Result HttpClient) (failed : Option Error) (e : Error)
        → client_for_family p family ≡ found
        → request_builder standard p endpoint ≡ failed
        → (found >>= λ client. request clock cause family endpoint client failed) ≡ err e
        → after e ≡ some d
        → LookupRetried standard p endpoint family cause d
    unfolding request after
    request_retried (err x) failed e got built h marked =
        let same : x ≡ e = cc in absurd (cc (client_unmarked p family e (rw same at got), marked))
    request_retried (ok client) (some x) e got built h marked =
        let same : wrapped (codes "build request") x ≡ e = cc in
        let unmarked = plain.builder x built in absurd (cc (ap after same, unmarked, marked))
    request_retried (ok client) none e got built h marked = (
      client,
      got,
      built,
      answer_retried cause family (client endpoint) e d (λ x. plain.transport client x got)
          (λ response x. plain.body client response x got) h marked,
    )

  -- Where the errors of net/http carry no mark of this program: Lookup fails with an error that asks for
  -- another attempt after a delay d exactly if the client of the family is configured, the request is
  -- built, and either the sending of it fails while the context is alive, through no refused redirect,
  -- and d is 0, or the answer has status 408, 425, 429, 500, 502, 503 or 504, and d is what its
  -- Retry-After header asks for.
  pub lookup_retried :
      (standard : RequestBuilder) (p : Prober) (cause : Option Error) (endpoint : Text)
      (family : Family) (d : Duration)
      → IsUnmarked standard p endpoint family
      → ((e : Error) × (lookup clock standard p cause endpoint family ≡ err e) × (after e ≡ some d))
        ↔ LookupRetried standard p endpoint family cause d
  unfolding lookup
  lookup_retried standard p cause endpoint family d plain = (
    λ (e, failed, marked).
        request_retried standard p cause endpoint family d plain (client_for_family p family)
          (request_builder standard p endpoint) e refl refl failed marked,
    λ (client, got, built, retried).
        let (e, failed, marked) =
          answer_fails cause family (client endpoint) d (λ x. plain.transport client x got)
            retried in
        (e, rw (got, built) (unfold request in failed), marked),
  )
