-- ===== src/Tests/Retries.antt =====
-- The retry policy at concrete inputs.
use dns_update.Prelude.{◌≡◌, ◌↔◌, ◌+◌, refl, some, arith}
use dns_update.Prelude.Int.{pos, ◌≤ℤ◌}
use dns_update.Failure.{eof}
use dns_update.Retry.{mark_error, after, normalized, backoff, delay, can_retry}
use dns_update.Retry.Laws.{min_ℤ, delay_bounds, can_retry_iff}
use dns_update.Retry.Backoff.{capped, backoff-capped}
use dns_update.Tests.Fixtures.{sample_policy}

-- One second, two seconds, four seconds.
backoff_third : backoff 2 (pos 1_000_000_000) (pos 30_000_000_000) ≡ pos 4_000_000_000
unfolding backoff
backoff_third = refl

backoff-capped_example :
    backoff 7 (pos 1_000_000_000) (pos 30_000_000_000) ≡ pos (capped 7 1_000_000_000 30_000_000_000)
backoff-capped_example = backoff-capped 7 1_000_000_000 30_000_000_000 (omega arith)

delay_bounds_example :
    (delay sample_policy (λ d. d) 2 (pos 7) ≤ℤ (normalized sample_policy).max_delay)
    × (min_ℤ (pos 7) (normalized sample_policy).max_delay ≤ℤ delay sample_policy (λ d. d) 2 (pos 7))
delay_bounds_example = delay_bounds sample_policy (λ d. d) 2 (pos 7)

can_retry_iff_example : (can_retry sample_policy 1 (mark_error eof (pos 7)) ≡ some (pos 7)) ↔ (
    (after (mark_error eof (pos 7)) ≡ some (pos 7))
    × (pos (1 + 1) ≤ℤ (normalized sample_policy).max_attempts))
can_retry_iff_example = can_retry_iff sample_policy 1 (mark_error eof (pos 7)) (pos 7)
