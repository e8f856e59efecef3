-- ===== src/Tests/Batches.antt =====
-- Batches, states and errors of the client at concrete inputs.
use dns_update.Prelude.{◌↔◌, ◌≡◌, refl, true, none, some, List, [], ◌∷◌, all_of}
use dns_update.Prelude.Int.{pos}
use dns_update.Text.{Text, codes, trim_suffix, to_lower, trim_space}
use dns_update.Failure.{ok, api, wrapped, ApiError}
use dns_update.Retry.{after}
use dns_update.Provider.{State, normalize_name}
use dns_update.Provider.Planning.Idle.{has_name}
use dns_update.Cloudflare.{
  RecordResponse, build_batch_params, normalize_provider_name, state_records, normalize_api_name,
  record_options,
}
use dns_update.Cloudflare.Laws.{read_state_named}
use dns_update.Cloudflare.Batches.{params_of}
use dns_update.Cloudflare.Plans.{observed_plan_batches, delete_plan_batches}
use dns_update.Cloudflare.Requests.{normalize_request_error, read_state}
use dns_update.Cloudflare.Requests.Failures.{Retried, request_error-Retried}
use dns_update.Tests.Instance.{sample_std}
use dns_update.Tests.Fixtures.{sample_state, sample_desired}
use dns_update.Tests.Plans.{observed_plan, delete_plan, observed_plan_built, delete_plan_built}
use dns_update.Tests.Probes.{sample_clock}

abbrev zone : Text
zone = codes "0123456789abcdef0123456789abcdef"

observed_plan_batches_example :
    build_batch_params zone observed_plan ≡ ok (params_of zone observed_plan.operations)
observed_plan_batches_example =
    observed_plan_batches zone sample_state sample_desired 3 observed_plan observed_plan_built

delete_plan_batches_example :
    build_batch_params zone delete_plan ≡ ok (params_of zone delete_plan.operations)
delete_plan_batches_example = delete_plan_batches zone sample_state 3 delete_plan delete_plan_built

abbrev listing : Text → List RecordResponse
listing name =
    record {
      id = codes "r1";
      name = name;
      record_type = codes "A";
      content = codes "192.0.2.1";
      ttl = 300;
      proxied = true;
    }
    ∷ record {
      id = codes "r2";
      name = codes "other.example";
      record_type = codes "A";
      content = codes "192.0.2.2";
      ttl = 300;
      proxied = true;
    }
    ∷ []

abbrev listed_state : State
listed_state = record {
  name = codes "www.example.com";
  records =
      record {
        id = codes "r1";
        name = codes "www.example.com.";
        record_type = codes "A";
        content = codes "192.0.2.1";
        ttl_seconds = 300;
        options = record { proxy = some true };
      }
      ∷ [];
}

state_read :
    read_state sample_clock none (λ name. ok (listing name)) (codes "www.example.com")
    ≡ ok listed_state
unfolding read_state state_records normalize_api_name normalize_name trim_suffix to_lower trim_space
    normalize_provider_name record_options
state_read = refl

read_state_named_example :
    (listed_state.name ≡ codes "www.example.com")
    × (all_of (has_name (codes "www.example.com")) listed_state.records ≡ true)
read_state_named_example =
    read_state_named sample_clock none (λ name. ok (listing name)) (codes "www.example.com")
      listed_state state_read

abbrev overloaded : ApiError
overloaded = record { status_code = 503; errors = []; response = none }

request_error-Retried_example :
    (after (
        normalize_request_error sample_clock none
          (codes "list")
          (wrapped (codes "call") (api overloaded)))
      ≡ some (pos 0))
    ↔ Retried sample_clock none (wrapped (codes "call") (api overloaded)) (pos 0)
request_error-Retried_example =
    request_error-Retried sample_clock none (codes "list") (wrapped (codes "call") (api overloaded))
      (pos 0) (unfold after in refl)
