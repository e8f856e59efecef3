-- ===== src/Retry.antt =====
-- internal/retry/retry.go: the retry mark on errors, which HTTP statuses may be retried, the value of
-- Retry-After, and the policy of bounded exponential backoff. A Duration is an int64 of nanoseconds.
pub mod Laws
pub mod Backoff
pub mod Statuses
use dns_update.Prelude.{
  ℕ, zero, suc, ◌+◌, ◌-◌, ◌*◌, ◌^◌, Bool, true, false, not, ◌&&◌, ◌||◌, Option, none, some, List,
  [], ◌∷◌, ltb, leb, ◌==◌, if◌then◌else◌, is_empty,
}
use dns_update.Prelude.Int.{ℤ, pos, negsuc, ◌-ℤ◌, ltb_ℤ, leb_ℤ, mul64, half, sub_ℕ}
use dns_update.Text.{Text, codes, trim_space}
use dns_update.Failure.{
  Result, ok, err, Error, message, wrapped, joined, retryable, redirect_not_allowed, canceled, api,
  url_error, net_error, eof, unexpected_eof, not_exist, nil_dereference,
}

abbrev pub Duration : Type 0
Duration = ℤ

abbrev pub second : ℕ
second = 1_000_000_000

abbrev pub default_max_attempts : ℤ
default_max_attempts = pos 5

abbrev pub default_initial_delay : Duration
default_initial_delay = pos 500_000_000

abbrev pub default_max_delay : Duration
default_max_delay = pos 30_000_000_000

-- Policy without its two functions, the random number and the sleep, which `delay` and the runner
-- take as arguments.
pub record Policy : Type 0 where
  pub max_attempts : ℤ
  pub initial_delay : Duration
  pub max_delay : Duration

unfoldable pub default_policy : Policy
default_policy = record {
  max_attempts = default_max_attempts;
  initial_delay = default_initial_delay;
  max_delay = default_max_delay;
}

-- Mark of an error that is there, and of an error that may be nil.
unfoldable pub mark_error : Error → Duration → Error
mark_error e retry_after = retryable e (if ltb_ℤ retry_after (pos 0) then pos 0 else retry_after)

unfoldable pub mark : Option Error → Duration → Option Error
unfolding mark_error
mark none retry_after = none
mark (some e) retry_after = some (mark_error e retry_after)

-- After. errors.As walks the chain, and in a join the first error before the second.
unfoldable pub after : Error → Option Duration
after (retryable e d) = some d
after (wrapped context e) = after e
after (joined a b) =
    let second_one = after b in
    let first_one = after a in elim first_one [ some d ↦ some d | none ↦ second_one ]
after (url_error e) = after e
after (message m) = none
after redirect_not_allowed = none
after canceled = none
after (api e) = none
after (net_error t) = none
after eof = none
after unexpected_eof = none
after (not_exist path) = none
after nil_dereference = none

unfoldable pub should_retry_http_status : ℕ → Bool
should_retry_http_status status =
    status == 408
    || (status == 425
        || (status == 429
            || (status == 500 || (status == 502 || (status == 503 || status == 504)))))

-- strconv.Atoi: an optional sign and digits, within the range of an int64.
digits_value : ℕ → Text → Option ℕ
digits_value n [] = some n
digits_value n (c ∷ cs) =
    let rest = digits_value (n * 10 + (c - 48)) cs in if leb 48 c && leb c 57 then rest else none

unsigned : Text → Option ℕ
unfolding digits_value
unsigned [] = none
unsigned (c ∷ cs) = digits_value 0 (c ∷ cs)

in_range : Option ℕ → ℕ → (ℕ → ℤ) → Option ℤ
in_range none limit sign = none
in_range (some n) limit sign = if leb n limit then some (sign n) else none

unfoldable pub atoi : Text → Option ℤ
unfolding unsigned in_range
atoi [] = none
atoi (c ∷ cs) =
    if c == 45
    then in_range (unsigned cs) (2 ^ 63) (sub_ℕ 0)
    else if c == 43
    then in_range (unsigned cs) (2 ^ 63 - 1) pos
    else in_range (unsigned (c ∷ cs)) (2 ^ 63 - 1) pos

abbrev pub max_duration : Duration
max_duration = pos (2 ^ 63 - 1)

-- `timestamp.Sub(now)` of a later timestamp, which stops at the largest Duration.
abbrev sub_time : ℤ → ℤ → Duration
sub_time timestamp now =
    if ltb_ℤ max_duration (timestamp -ℤ now) then max_duration else timestamp -ℤ now

-- A number of seconds, with the overflow of `time.Duration(seconds) * time.Second`.
abbrev of_seconds : ℤ → Option Duration
of_seconds seconds = if ltb_ℤ seconds (pos 0) then none else some (mul64 seconds second)

abbrev of_timestamp : Option ℤ → ℤ → Option Duration
of_timestamp none now = none
of_timestamp (some timestamp) now =
    if ltb_ℤ now timestamp then some (sub_time timestamp now) else some (pos 0)

-- ParseRetryAfter. Instants are nanoseconds, and http.ParseTime is a parameter.
unfoldable pub parse_retry_after : (Text → Option ℤ) → Text → ℤ → Option Duration
unfolding ◌-ℤ◌
parse_retry_after parse_time value now =
    let trimmed = trim_space value in
    if is_empty trimmed then none else elim (atoi trimmed) [
      | some seconds ↦ of_seconds seconds
      | none ↦ of_timestamp (parse_time trimmed) now
    ]

unfoldable pub normalized : Policy → Policy
normalized p =
    let attempts = if leb_ℤ p.max_attempts (pos 0) then default_max_attempts else p.max_attempts in
    let initial =
      if leb_ℤ p.initial_delay (pos 0) then default_initial_delay else p.initial_delay in
    let longest = if leb_ℤ p.max_delay (pos 0) then default_max_delay else p.max_delay in
    record {
      max_attempts = attempts;
      initial_delay = initial;
      max_delay = if ltb_ℤ longest initial then initial else longest;
    }

-- The loop of Delay, by the rounds left: attempt - 1 of them.
unfoldable pub backoff : ℕ → Duration → Duration → Duration
backoff zero delay longest = delay
backoff (suc rounds) delay longest =
    let next = backoff rounds (mul64 delay 2) longest in
    if leb_ℤ (half longest) delay then longest else next

-- Delay. `jitter` is the float64 product of a delay with the random factor, as a Duration.
unfoldable pub delay : Policy → (Duration → Duration) → ℕ → Duration → Duration
delay p jitter attempt retry_after =
    let n = normalized p in
    let base = backoff (attempt - 1) n.initial_delay n.max_delay in
    let jittered = if ltb_ℤ (pos 0) base then jitter base else base in
    let waited = if ltb_ℤ jittered retry_after then retry_after else jittered in
    if ltb_ℤ n.max_delay waited then n.max_delay else waited

-- CanRetry: the delay that the error asks for, if another attempt is allowed.
unfoldable pub can_retry : Policy → ℕ → Error → Option Duration
can_retry p attempt e =
    let n = normalized p in
    elim (after e) [
      | none ↦ none
      | some retry_after ↦ if leb_ℤ n.max_attempts (pos attempt) then none else some retry_after
    ]

-- What a select over the context and a timer leads to: the cause of a context that is done first.
abbrev pub slept : {W : Type 0} → Option Error × W → Result (Unit {0}) × W
slept (none, w) = (ok tt, w)
slept (some cause, w) = (err (wrapped (codes "wait before retry") cause), w)

-- sleep, which Wait calls.
abbrev pub sleep :
    {W : Type 0} → (Duration → W → Option Error × W) → Duration → W → Result (Unit {0}) × W
sleep timer duration w = if leb_ℤ duration (pos 0) then (ok tt, w) else slept (timer duration w)
