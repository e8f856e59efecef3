-- ===== src/App/ProbeErrors.antt =====
-- internal/app/run.go: the errors that the runner makes of the probes' errors.
use dns_update.Prelude.{Bool, Option, none, some, ◌++◌, if◌then◌else◌}
use dns_update.Prelude.Int.{max_ℤ}
use dns_update.Text.{Text, codes}
use dns_update.Failure.{Error, wrapped, joined, Result, ok, err}
use dns_update.Retry.{Duration, mark_error, after}

-- probeContextError
unfoldable pub probe_context_error : Option Error → Option Error
probe_context_error none = none
probe_context_error (some cause) = some (wrapped (codes "probe context canceled") cause)

unfoldable pub single_probe_error : Text → Error → Error
unfolding after mark_error
single_probe_error family e =
    let whole = wrapped (family ++ codes " probe failed") e in
    elim (after e) [ none ↦ whole | some retry_after ↦ mark_error whole retry_after ]

abbrev combine_probe_errors : Error → Option Duration → Option Duration → Error
combine_probe_errors combined (some a) (some b) = mark_error combined (max_ℤ b a)
combine_probe_errors combined (some a) none = combined
combine_probe_errors combined none b = combined

-- The error that bothProbesError makes before it marks it.
abbrev pub joined_probe_errors : Error → Error → Error
joined_probe_errors ipv4_err ipv6_err =
    wrapped (codes "all egress probes failed")
      (joined (wrapped (codes "IPv4 probe") ipv4_err) (wrapped (codes "IPv6 probe") ipv6_err))

unfoldable pub both_probes_error : Error → Error → Error
unfolding after mark_error
both_probes_error ipv4_err ipv6_err =
    combine_probe_errors (joined_probe_errors ipv4_err ipv6_err) (after ipv4_err) (after ipv6_err)

abbrev probe_failure : Option Error → Option Error → Bool → Option Error
probe_failure none none partial = none
probe_failure (some a) (some b) partial = some (both_probes_error a b)
probe_failure (some a) none partial =
    if partial then none else some (single_probe_error (codes "IPv4") a)
probe_failure none (some b) partial =
    if partial then none else some (single_probe_error (codes "IPv6") b)

unfoldable pub collect_probe_error :
    Option Error → Option Error → Option Error → Bool → Option Error
unfolding probe_context_error single_probe_error both_probes_error
collect_probe_error cause ipv4_err ipv6_err partial = elim (probe_context_error cause) [
  | some e ↦ some e
  | none ↦ probe_failure ipv4_err ipv6_err partial
]

abbrev pub error_of {ℓ} : {A : Type ℓ} → Result A → Option Error
error_of (ok a) = none
error_of (err e) = some e
