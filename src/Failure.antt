-- ===== src/Failure.antt =====
-- Go errors as values: a message with its data, `fmt.Errorf` with `%w`, `errors.Join`, the retry
-- mark of internal/retry, and the errors of the HTTP stack and the file system that the program tells apart.
-- A panic, of a nil pointer or an index out of range, is the error nil_dereference.
use dns_update.Prelude.{ℕ, ◌≡◌, refl, List, Option, Bool, true, false, if◌then◌else◌}
use dns_update.Prelude.Int.{ℤ}
use dns_update.Text.{Text}

-- The text of an error that the program makes itself, with the data that it prints.
pub data Message : Type 0 where
  no_observed_families : Message
  cname_records : Text → List Text → Message
  still_cname_records : Text → List Text → Message
  no_delete_selection : Message
  expected_none : Text → Text → Message
  expected_one : Text → Text → Text → Message
  record_differs : Text → Text → Text → Message
  unsupported_operation_kind : Text → Message
  unsupported_record_type : Text → Message
  unexpected_status : ℕ → Message
  api_returned : Text → ℕ → Text → Message
  response_without_prefix : Message
  response_without_value : Message
  invalid_address : Text → Message
  expected_ipv4 : Text → Message
  expected_ipv6 : Text → Message
  unsupported_family : ℕ → Message
  label_too_long : Text → Message
  label_unsupported : Text → Message
  config_not_found : List Text → Message
  outside_zone : Text → Text → Message
  unsupported_scheme : Text → Message
  untrusted_host : Text → Message
  unsupported_provider : Text → Message
  not_a_symlink : Text → Message
  not_a_directory : Text → Message
  foreign : Text → Message

-- The headers of a response that decide how long to wait, and a problem of the Cloudflare API.
pub record RetryHeaders : Type 0 where
  pub retry_after_ms : Text
  pub retry_after : Text

pub record ErrorData : Type 0 where
  pub code : ℕ
  pub text : Text

-- *cloudflare.Error
pub record ApiError : Type 0 where
  pub status_code : ℕ
  pub errors : List ErrorData
  pub response : Option RetryHeaders

pub data Error : Type 0 where
  message : Message → Error
  wrapped : Text → Error → Error
  joined : Error → Error → Error
  retryable : Error → ℤ → Error
  redirect_not_allowed : Error
  canceled : Error
  api : ApiError → Error
  url_error : Error → Error
  net_error : Text → Error
  eof : Error
  unexpected_eof : Error
  not_exist : Text → Error
  nil_dereference : Error

-- What a Go function with an error result returns.
pub data Result {ℓ} (A : Type ℓ) : Type ℓ where
  err : Error → Result A
  ok : A → Result A

-- `if err != nil { return err }` between two calls.
infixl 5 ◌>>=◌
abbrev pub ◌>>=◌ {ℓ ℓ'} :
    {Value : Type ℓ} {Next : Type ℓ'} → Result Value → (Value → Result Next) → Result Next
err failure >>= next = err failure
ok value >>= next = next value

-- Two calls in a row succeed only if the first one does, with a value for which the second one does.
pub step_ok {ℓ ℓ'} :
    {Value : Type ℓ} {Next : Type ℓ'} (first : Result Value) (second : Value → Result Next)
    {final : Next}
    → (first >>= second) ≡ ok final
    → (value : Value) × (first ≡ ok value) × (second value ≡ ok final)
step_ok (err failure) second h = cc
step_ok (ok value) second h = (value, refl, h)

-- The same where the first call returns an error only.
infixl 5 ◌>>◌
abbrev pub ◌>>◌ {ℓ} : {Next : Type ℓ} → Result (Unit {0}) → Result Next → Result Next
check >> next = check >>= λ done. next

-- A test with an early return of an error is passed where the whole succeeds.
pub guard_ok {ℓ} :
    {Value : Type ℓ} (refused : Bool) (e : Error) (rest : Result Value) {value : Value}
    → (if refused then err e else rest) ≡ ok value
    → (refused ≡ false) × (rest ≡ ok value)
guard_ok true e rest h = absurd (cc h)
guard_ok false e rest h = (refl, h)
