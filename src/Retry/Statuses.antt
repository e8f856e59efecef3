-- ===== src/Retry/Statuses.antt =====
-- internal/retry/retry.go: the statuses of ShouldRetryHTTPStatus, as a list.
use dns_update.Prelude.{ℕ, ◌≡◌, Bool, List, [], ◌∷◌, ◌==◌, arith, any_of}
use dns_update.Retry.{should_retry_http_status}

-- Request timeout, too early, too many requests, and the errors of a server or a gateway that may pass.
abbrev pub transient_statuses : List ℕ
transient_statuses = 408 ∷ 425 ∷ 429 ∷ 500 ∷ 502 ∷ 503 ∷ 504 ∷ []

abbrev pub transient : ℕ → Bool
transient status = any_of (λ s. status == s) transient_statuses

pub should_retry-transient : (status : ℕ) → should_retry_http_status status ≡ transient status
unfolding should_retry_http_status
should_retry-transient status = ground arith
