-- ===== src/Cloudflare/Requests.antt =====
-- internal/provider/cloudflare/errors.go, and ReadState and Apply of client.go.
pub mod Failures
use dns_update.Prelude.{
  ℕ, Bool, true, false, not, ◌&&◌, ◌||◌, Option, none, some, List, [], ◌∷◌, ◌++◌, ◌==◌,
  if◌then◌else◌, is_empty,
}
use dns_update.Prelude.Int.{pos}
use dns_update.Text.{Text, codes, text_eq, trim_space, to_lower, join, decimal}
use dns_update.Failure.{
  Error, message, wrapped, joined, retryable, redirect_not_allowed, canceled, api, url_error,
  net_error, eof, unexpected_eof, api_returned, ApiError, ErrorData, Result, ok, err,
}
use dns_update.Retry.{mark_error, should_retry_http_status}
use dns_update.Http.{Clock, is_redirect, retry_after_from_response}
use dns_update.Provider.{State, Plan, is_noop}
use dns_update.Cloudflare.{
  RecordResponse, BatchParams, normalize_api_name, state_records, build_batch_params,
}

problem_message : ErrorData → Text
problem_message p = if p.code == 0 then p.text else decimal p.code ++ (codes ": " ++ p.text)

problem_messages : List ErrorData → List Text
problem_messages [] = []
problem_messages (p ∷ ps) = problem_message p ∷ problem_messages ps

unfoldable pub format_api_problems : List ErrorData → Text
unfolding problem_message problem_messages join
format_api_problems problems =
    if is_empty problems
    then codes "no error details returned"
    else join (problem_messages problems) (codes "; ")

-- errors.As to *cloudflare.Error, *url.Error (with the error inside) and net.Error, and errors.Is to
-- io.EOF or io.ErrUnexpectedEOF; a *url.Error is a net.Error too.
unfoldable pub as_api : Error → Option ApiError
as_api (api e) = some e
as_api (retryable e d) = as_api e
as_api (wrapped context e) = as_api e
as_api (joined a b) =
    let second_one = as_api b in
    let first_one = as_api a in elim first_one [ some e ↦ some e | none ↦ second_one ]
as_api (url_error e) = as_api e
as_api e = none

unfoldable pub as_url_error : Error → Option Error
as_url_error (url_error e) = some e
as_url_error (retryable e d) = as_url_error e
as_url_error (wrapped context e) = as_url_error e
as_url_error (joined a b) =
    let second_one = as_url_error b in
    let first_one = as_url_error a in elim first_one [ some e ↦ some e | none ↦ second_one ]
as_url_error e = none

unfoldable pub is_net_or_eof : Error → Bool
is_net_or_eof (net_error t) = true
is_net_or_eof (url_error e) = true
is_net_or_eof eof = true
is_net_or_eof unexpected_eof = true
is_net_or_eof (retryable e d) = is_net_or_eof e
is_net_or_eof (wrapped context e) = is_net_or_eof e
is_net_or_eof (joined a b) = is_net_or_eof a || is_net_or_eof b
is_net_or_eof e = false

unfoldable pub is_retryable_transport_error : Error → Bool
is_retryable_transport_error e = elim (as_url_error e) [
  | some inner ↦ not (is_redirect inner)
  | none ↦ is_net_or_eof e
]

module _ (clock : Clock) where
  unfoldable pub api_failure : Text → ApiError → Error
  unfolding format_api_problems
  api_failure action e =
      let whole = message (api_returned action e.status_code (format_api_problems e.errors)) in
      if should_retry_http_status e.status_code
      then mark_error whole (retry_after_from_response clock e.response)
      else whole

  unfoldable pub transport_failure : Text → Error → Error
  transport_failure action e =
      let whole = wrapped action e in
      if is_retryable_transport_error e then mark_error whole (pos 0) else whole

  abbrev pub request_failure : Text → Error → Option ApiError → Error
  request_failure action e (some problem) = api_failure action problem
  request_failure action e none = transport_failure action e

  -- normalizeRequestError of an error that is there.
  unfoldable pub normalize_request_error : Option Error → Text → Error → Error
  unfolding api_failure transport_failure
  normalize_request_error (some cause) action e = wrapped action e
  normalize_request_error none action e =
      let failure = request_failure action e (as_api e) in
      if is_redirect e then wrapped action e else failure

  abbrev pub listed : Option Error → Text → Result (List RecordResponse) → Result State
  listed cause name (err e) =
      err (normalize_request_error cause (codes "list Cloudflare DNS records") e)
  listed cause name (ok records) =
      ok (record { name = name; records = state_records (normalize_api_name name) records })

  -- ReadState. `list` is the paged listing of the records with a name.
  unfoldable pub read_state :
      Option Error → (Text → Result (List RecordResponse)) → Text → Result State
  read_state cause list name = listed cause name (list (normalize_api_name name))

  abbrev pub batched : Option Error → Result (Unit {0}) → Result (Unit {0})
  batched cause (err e) =
      err (normalize_request_error cause (codes "apply Cloudflare batch update") e)
  batched cause (ok done) = ok tt

  abbrev built :
      Option Error → (BatchParams → Result (Unit {0})) → Result BatchParams → Result (Unit {0})
  built cause batch (err e) = err (wrapped (codes "build Cloudflare batch request") e)
  built cause batch (ok params) = batched cause (batch params)

  -- Apply. `batch` is the batch endpoint.
  unfoldable pub apply :
      Option Error → (BatchParams → Result (Unit {0})) → Text → Plan → Result (Unit {0})
  apply cause batch zone_id plan =
      if is_noop plan then ok tt else built cause batch (build_batch_params zone_id plan)
