-- ===== src/Tests/Probes.antt =====
-- Probes at concrete answers.
use dns_update.Prelude.{◌≡◌, ◌↔◌, refl, ap, sym, true, none, some, []}
use dns_update.Prelude.Int.{pos}
use dns_update.Text.{codes, has_prefix, trim_space, trim_prefix}
use dns_update.Failure.{Error, Result, ok, err}
use dns_update.Retry.{after}
use dns_update.Http.{Clock}
use dns_update.Egress.{
  HttpClient, Response, Prober, RequestBuilder, client_for_family, request_builder, parse_response,
  lookup,
}
use dns_update.Egress.Laws.{in_family, value_of, parse_response_sound}
use dns_update.Egress.Lookups.{lookup_sound, IsUnmarked, LookupRetried, lookup_retried}
use dns_update.Tests.Instance.{sample_std, four}

abbrev pub sample_clock : Clock
sample_clock = record { parse_time = λ t. none; now = pos 0; parse_milliseconds = λ t. none }

abbrev answer : Response
answer = record {
  status_code = 200;
  retry_after = [];
  read_body = λ n. ok (codes "ip=192.0.2.7\n");
}

abbrev busy : Response
busy = record { status_code = 503; retry_after = codes "7"; read_body = λ n. ok [] }

abbrev builder : RequestBuilder
builder = λ t. none

abbrev prober : Response → Prober
prober response = record {
  ipv4_client = some (λ t. ok response);
  ipv6_client = none;
  new_request = none;
}

parsed : parse_response (codes "ip=192.0.2.7\n") 4 ≡ ok (some (four (codes "192.0.2.7")))
unfolding parse_response has_prefix trim_space trim_prefix
parsed = refl

parse_response_sound_example :
    (has_prefix (trim_space (codes "ip=192.0.2.7\n")) (codes "ip=") ≡ true)
    × (in_family 4 (four (codes "192.0.2.7")) ≡ true)
    × (sample_std.parse_addr (value_of (codes "ip=192.0.2.7\n")) ≡ some (four (codes "192.0.2.7")))
parse_response_sound_example =
    parse_response_sound (codes "ip=192.0.2.7\n") 4 (four (codes "192.0.2.7")) parsed

looked_up :
    lookup sample_clock builder (prober answer) none (codes "https://4.example/") 4
    ≡ ok (some (four (codes "192.0.2.7")))
unfolding lookup client_for_family request_builder parse_response has_prefix trim_space trim_prefix
looked_up = refl

lookup_sound_example : in_family 4 (four (codes "192.0.2.7")) ≡ true
lookup_sound_example =
    lookup_sound sample_clock builder (prober answer) none (codes "https://4.example/") 4
      (four (codes "192.0.2.7")) looked_up

client_of : HttpClient → Result HttpClient → HttpClient
client_of other (ok client) = client
client_of other (err e) = other

answers :
    (client : HttpClient)
    → client_for_family (prober busy) 4 ≡ ok client
    → client (codes "https://4.example/") ≡ ok busy
unfolding client_for_family client_of
answers client got = sym (ap (λ found. client_of client found (codes "https://4.example/")) got)

-- The builder has no error, and the client no error but this answer.
busy-IsUnmarked : IsUnmarked sample_clock builder (prober busy) (codes "https://4.example/") 4
unfolding client_for_family request_builder
busy-IsUnmarked = record {
  builder = λ e failed. absurd (cc);
  transport = λ client e got failed. absurd (cc (answers client got, failed));
  body = λ client response e got answered failed.
      let same : busy ≡ response = cc (answers client got, answered) in
      absurd (cc (ap (λ (r : Response). r.read_body 64) same, failed));
}

lookup_retried_example :
    ((e : Error) × (lookup sample_clock builder (prober busy) none (codes "https://4.example/") 4
        ≡ err e)
      × (after e ≡ some (pos 7)))
    ↔ LookupRetried sample_clock builder (prober busy) (codes "https://4.example/") 4 none (pos 7)
lookup_retried_example =
    lookup_retried sample_clock builder (prober busy) none (codes "https://4.example/") 4 (pos 7)
      busy-IsUnmarked
