-- ===== src/Retry/Laws.antt =====
-- internal/retry/retry.go: the retry mark, the policy after its defaults, and the jittered delay.
use dns_update.Prelude.{ℕ, ◌+◌, ◌≡◌, ◌↔◌, some, arith, if◌then◌else◌}
use dns_update.Prelude.Int.{ℤ, pos, ◌≤ℤ◌, leb_ℤ, max_ℤ}
use dns_update.Failure.{Error, wrapped}
use dns_update.Text.{Text}
use dns_update.Retry.{Duration, Policy, mark_error, after, normalized, delay, can_retry}

-- A marked error that is wrapped again is retryable after the delay of the mark, or 0 if it is negative.
pub after-mark_error :
    (e : Error) (d : Duration) (context : Text)
    → after (wrapped context (mark_error e d)) ≡ some (max_ℤ d (pos 0))
unfolding after mark_error
after-mark_error e d context = ground arith

-- At least one attempt, a positive initial delay, and a maximal delay that is no less.
pub record IsNormal (p : Policy) : Type 0 where
  pub attempts : pos 1 ≤ℤ p.max_attempts
  pub initial : pos 1 ≤ℤ p.initial_delay
  pub longest : p.initial_delay ≤ℤ p.max_delay

-- A policy after its defaults has at least one attempt, a positive initial delay, and a maximal delay
-- that is no less.
pub normalized-IsNormal : (p : Policy) → IsNormal (normalized p)
unfolding normalized
normalized-IsNormal p = record {
  attempts = ground arith;
  initial = ground arith;
  longest = ground arith;
}

abbrev pub min_ℤ : ℤ → ℤ → ℤ
min_ℤ a b = if leb_ℤ a b then a else b

-- Whatever the random number, the delay is at most the policy's maximal delay, and at least what
-- Retry-After asks for, as far as the maximal delay allows.
pub delay_bounds :
    (p : Policy) (jitter : Duration → Duration) (attempt : ℕ) (retry_after : Duration)
    → (delay p jitter attempt retry_after ≤ℤ (normalized p).max_delay)
      × (min_ℤ retry_after (normalized p).max_delay ≤ℤ delay p jitter attempt retry_after)
unfolding delay
delay_bounds p jitter attempt retry_after = (ground arith, ground arith)

-- CanRetry allows another attempt exactly for a retryable error before the last attempt, and passes
-- its delay on.
pub can_retry_iff :
    (p : Policy) (attempt : ℕ) (e : Error) (d : Duration)
    → (can_retry p attempt e ≡ some d)
      ↔ ((after e ≡ some d) × (pos (attempt + 1) ≤ℤ (normalized p).max_attempts))
unfolding can_retry
can_retry_iff p attempt e d = (λ h. (ground arith, ground arith), λ h. ground arith)
