-- ===== src/App/Errors.antt =====
-- internal/app/run.go: the retry marks of singleProbeError and bothProbesError.
use dns_update.Prelude.{◌≡◌, Option, none, some, arith}
use dns_update.Prelude.Int.{pos, max_ℤ}
use dns_update.Text.{Text}
use dns_update.Failure.{Error}
use dns_update.Retry.{Duration, mark_error, after}
use dns_update.App.ProbeErrors.{single_probe_error, both_probes_error}

-- A mark never holds a negative delay.
abbrev pub clamped : Option Duration → Option Duration
clamped none = none
clamped (some d) = some (max_ℤ d (pos 0))

-- The error of one failed probe is retryable exactly if the probe's error is, after its delay.
pub after-single_probe_error :
    (family : Text) (e : Error) → after (single_probe_error family e) ≡ clamped (after e)
unfolding single_probe_error after mark_error
after-single_probe_error family e = ground arith

-- The delay of two failed probes: the longer one if both are retryable, else that of the one that is.
abbrev pub either_delay : Option Duration → Option Duration → Option Duration
either_delay (some a) (some b) = some (max_ℤ (max_ℤ b a) (pos 0))
either_delay (some a) none = some a
either_delay none b = b

-- The error of two failed probes is retryable as soon as one of the two errors is: errors.As finds its
-- mark inside the joined error, though the code marks the joined error only if both are.
pub after-both_probes_error :
    (ipv4_err ipv6_err : Error)
    → after (both_probes_error ipv4_err ipv6_err) ≡ either_delay (after ipv4_err) (after ipv6_err)
unfolding both_probes_error after mark_error
after-both_probes_error ipv4_err ipv6_err = ground arith
