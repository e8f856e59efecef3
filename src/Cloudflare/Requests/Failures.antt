-- ===== src/Cloudflare/Requests/Failures.antt =====
-- internal/provider/cloudflare/errors.go: the retry marks of normalizeRequestError.
use dns_update.Prelude.{
  ◌≡◌, refl, sym, ◌∙◌, ◌↔◌, ◌⊎◌, inl, inr, true, false, Option, none, some, arith, Bool-cases,
}
use dns_update.Prelude.Int.{pos, max_ℤ}
use dns_update.Text.{Text}
use dns_update.Failure.{
  Error, message, wrapped, joined, retryable, redirect_not_allowed, canceled, api, url_error,
  net_error, eof, unexpected_eof, not_exist, nil_dereference, ApiError,
}
use dns_update.Retry.{Duration, mark_error, after}
use dns_update.Retry.Statuses.{transient, should_retry-transient}
use dns_update.Http.{Clock, is_redirect, retry_after_from_response}
use dns_update.Cloudflare.Requests.{
  as_api, as_url_error, is_net_or_eof, api_failure, transport_failure, request_failure,
  is_retryable_transport_error, normalize_request_error,
}

-- Somewhere in its chain, the error is one of a connection that broke: of the network, of a URL, or an
-- end of the input.
pub data Broken : Error → Type 0 where
  net : (t : Text) → Broken (net_error t)
  url : (e : Error) → Broken (url_error e)
  ended : Broken eof
  cut_off : Broken unexpected_eof
  in_mark : (e : Error) (d : Duration) → Broken e → Broken (retryable e d)
  in_wrap : (context : Text) (e : Error) → Broken e → Broken (wrapped context e)
  left : (a b : Error) → Broken a → Broken (joined a b)
  right : (a b : Error) → Broken b → Broken (joined a b)

net_or_eof-Broken : (e : Error) → is_net_or_eof e ≡ true → Broken e
unfolding is_net_or_eof
net_or_eof-Broken (net_error t) h = net t
net_or_eof-Broken (url_error e) h = url e
net_or_eof-Broken eof h = ended
net_or_eof-Broken unexpected_eof h = cut_off
net_or_eof-Broken (retryable e d) h = in_mark e d (net_or_eof-Broken e h)
net_or_eof-Broken (wrapped context e) h = in_wrap context e (net_or_eof-Broken e h)
net_or_eof-Broken (joined a b) h = elim (Bool-cases (is_net_or_eof a)) [
  | inl k ↦ left a b (net_or_eof-Broken a k)
  | inr k ↦ right a b (net_or_eof-Broken b (ground arith))
]
net_or_eof-Broken (message m) h = absurd (cc)
net_or_eof-Broken redirect_not_allowed h = absurd (cc)
net_or_eof-Broken canceled h = absurd (cc)
net_or_eof-Broken (api p) h = absurd (cc)
net_or_eof-Broken (not_exist t) h = absurd (cc)
net_or_eof-Broken nil_dereference h = absurd (cc)

Broken-net_or_eof : {e : Error} → Broken e → is_net_or_eof e ≡ true
unfolding is_net_or_eof
Broken-net_or_eof (net t) = refl
Broken-net_or_eof (url e) = refl
Broken-net_or_eof ended = refl
Broken-net_or_eof cut_off = refl
Broken-net_or_eof (in_mark e d b) = Broken-net_or_eof b
Broken-net_or_eof (in_wrap context e b) = Broken-net_or_eof b
Broken-net_or_eof (left a b k) = ground (arith, Broken-net_or_eof k)
Broken-net_or_eof (right a b k) = ground (arith, Broken-net_or_eof k)

-- An error of a URL is one of a broken connection, and a redirect inside it is one in the whole.
url_error_found :
    (e inner : Error)
    → as_url_error e ≡ some inner
    → is_redirect e ≡ false
    → (is_net_or_eof e ≡ true) × (is_redirect inner ≡ false)
unfolding as_url_error is_net_or_eof is_redirect
url_error_found (url_error e) inner h direct = (refl, cc)
url_error_found (retryable e d) inner h direct = url_error_found e inner h direct
url_error_found (wrapped context e) inner h direct = url_error_found e inner h direct
url_error_found (joined a b) inner h direct =
    ground (arith, url_error_found a inner, url_error_found b inner)
url_error_found (net_error t) inner h direct = absurd (cc)
url_error_found eof inner h direct = absurd (cc)
url_error_found unexpected_eof inner h direct = absurd (cc)
url_error_found (message m) inner h direct = absurd (cc)
url_error_found redirect_not_allowed inner h direct = absurd (cc)
url_error_found canceled inner h direct = absurd (cc)
url_error_found (api p) inner h direct = absurd (cc)
url_error_found (not_exist t) inner h direct = absurd (cc)
url_error_found nil_dereference inner h direct = absurd (cc)

net_or_eof_found :
    (e : Error) (found : Option Error)
    → as_url_error e ≡ found
    → is_redirect e ≡ false
    → is_retryable_transport_error e ≡ is_net_or_eof e
unfolding is_retryable_transport_error
net_or_eof_found e none same direct = ground (arith, same)
net_or_eof_found e (some inner) same direct =
    let (broken, plain) = url_error_found e inner same direct in ground (arith, same, broken, plain)

-- What isRetryableTransportError finds out about an error without a refused redirect.
retryable_iff-Broken :
    (e : Error) → is_redirect e ≡ false → (is_retryable_transport_error e ≡ true) ↔ Broken e
retryable_iff-Broken e direct =
    let same = net_or_eof_found e (as_url_error e) refl direct in
    (λ h. net_or_eof-Broken e (sym same ∙ h), λ b. same ∙ Broken-net_or_eof b)

module _ (clock : Clock) where
  -- When another attempt follows an error, and after which delay: the context is alive, the error holds
  -- no refused redirect, and it holds an error of the API with a transient status, or no error of the API
  -- but one of a broken connection.
  abbrev pub Retried : Option Error → Error → Duration → Type 0
  Retried cause e d =
      (cause ≡ none)
      × (is_redirect e ≡ false)
      × (((problem : ApiError) × (as_api e ≡ some problem)
            × (transient problem.status_code ≡ true)
            × (d ≡ max_ℤ (retry_after_from_response clock problem.response) (pos 0)))
          ⊎ ((as_api e ≡ none) × Broken e × (d ≡ pos 0)))

  after-api_failure :
      (action : Text) (problem : ApiError) (d : Duration)
      → (after (api_failure clock action problem) ≡ some d) ↔ (
          (transient problem.status_code ≡ true)
          × (d ≡ max_ℤ (retry_after_from_response clock problem.response) (pos 0)))
  unfolding api_failure after mark_error
  after-api_failure action problem d =
      let same = should_retry-transient problem.status_code in
      (λ h. (ground arith, ground arith), λ (t, delay). ground arith)

  after-transport_failure :
      (action : Text) (e : Error) (d : Duration)
      → after e ≡ none
      → (after (transport_failure clock action e) ≡ some d)
        ↔ ((is_retryable_transport_error e ≡ true) × (d ≡ pos 0))
  unfolding transport_failure after mark_error
  after-transport_failure action e d unmarked =
      (λ h. (ground arith, ground arith), λ (t, delay). ground arith)

  failure-Retried :
      (action : Text) (e : Error) (d : Duration) (found : Option ApiError)
      → as_api e ≡ found
      → is_redirect e ≡ false
      → after e ≡ none
      → (after (request_failure clock action e found) ≡ some d) ↔ Retried none e d
  failure-Retried action e d none same direct unmarked =
      let (forth, back) = after-transport_failure action e d unmarked in
      let (broken, retries) = retryable_iff-Broken e direct in
      (
        λ h. let (t, delay) = forth h in (refl, direct, inr (same, broken t, delay)),
        λ (alive, direct', cases). elim cases [
          | inl (problem, api_found, t, delay) ↦ absurd (cc)
          | inr (none_found, b, delay) ↦ back (retries b, delay)
        ],
      )
  failure-Retried action e d (some problem) same direct unmarked =
      let (forth, back) = after-api_failure action problem d in
      (
        λ h. let (t, delay) = forth h in (refl, direct, inl (problem, same, t, delay)),
        λ (alive, direct', cases). elim cases [
          | inl (other, api_found, t, delay) ↦
              let one : other ≡ problem = cc in back (rw one at t, rw one at delay)
          | inr (none_found, b, delay) ↦ absurd (cc)
        ],
      )

  -- For an error of the SDK, which carries no mark of this program: the error that
  -- normalizeRequestError makes of it asks for another attempt after a delay d exactly if the context is
  -- alive, no refused redirect is in its chain, and either the chain holds an error of the API with status
  -- 408, 425, 429, 500, 502, 503 or 504, and d is what the response's headers ask for, or the chain holds
  -- no error of the API but one of a broken connection, and d is 0.
  pub request_error-Retried :
      (cause : Option Error) (action : Text) (e : Error) (d : Duration)
      → after e ≡ none
      → (after (normalize_request_error clock cause action e) ≡ some d) ↔ Retried cause e d
  unfolding normalize_request_error after
  request_error-Retried (some c) action e d unmarked =
      (λ h. absurd (cc), λ (alive, direct, rest). absurd (cc))
  request_error-Retried none action e d unmarked = elim (Bool-cases (is_redirect e)) [
    | inl redirect ↦ (λ h. absurd (ground arith), λ (alive, direct, rest). absurd (cc))
    | inr direct ↦
        let (forth, back) = failure-Retried action e d (as_api e) refl direct unmarked in
        (λ h. forth (rw direct at h), λ r. rw direct (back r))
  ]
