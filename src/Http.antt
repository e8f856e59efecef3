-- ===== src/Http.antt =====
-- What the two HTTP clients of the program share: the errors that they look for in a chain, and
-- retryAfterFromResponse of internal/provider/cloudflare/errors.go. Times, floats and requests are
-- those of the standard library, as arguments.
pub mod Client
use dns_update.Prelude.{Bool, true, false, ◌||◌, Option, none, some, if◌then◌else◌, is_empty}
use dns_update.Prelude.Int.{ℤ, pos}
use dns_update.Text.{Text, trim_space}
use dns_update.Failure.{
  Error, wrapped, joined, retryable, redirect_not_allowed, url_error, RetryHeaders,
}
use dns_update.Retry.{Duration, parse_retry_after}

-- A float64 of milliseconds: whether it is greater than zero, and time.Duration(ms * float64(time.Millisecond)).
pub record Milliseconds : Type 0 where
  pub is_positive : Bool
  pub duration : Duration

-- http.ParseTime, time.Now and strconv.ParseFloat.
pub record Clock : Type 0 where
  pub parse_time : Text → Option ℤ
  pub now : ℤ
  pub parse_milliseconds : Text → Option Milliseconds

-- errors.Is(err, httpclient.ErrRedirectNotAllowed)
unfoldable pub is_redirect : Error → Bool
is_redirect redirect_not_allowed = true
is_redirect (retryable e d) = is_redirect e
is_redirect (wrapped context e) = is_redirect e
is_redirect (joined a b) = is_redirect a || is_redirect b
is_redirect (url_error e) = is_redirect e
is_redirect e = false

abbrev pub option_or {ℓ} : {A : Type ℓ} → Option A → A → A
option_or none d = d
option_or (some a) d = a

-- The milliseconds of a header that is a positive number, or else the delay of the other header.
abbrev pub milliseconds_or : Option Milliseconds → Duration → Duration
milliseconds_or none seconds = seconds
milliseconds_or (some ms) seconds = if ms.is_positive then ms.duration else seconds

module _ (clock : Clock) where
  -- ParseRetryAfter of the current time, and 0 where it finds nothing.
  unfoldable pub retry_after_header : Text → Duration
  retry_after_header value = option_or (parse_retry_after clock.parse_time value clock.now) (pos 0)

  unfoldable pub retry_after_from_response : Option RetryHeaders → Duration
  unfolding retry_after_header
  retry_after_from_response none = pos 0
  retry_after_from_response (some headers) =
      let value = trim_space headers.retry_after_ms in
      let seconds = retry_after_header headers.retry_after in
      if is_empty value then seconds else milliseconds_or (clock.parse_milliseconds value) seconds
