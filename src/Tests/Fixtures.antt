-- ===== src/Tests/Fixtures.antt =====
-- The records of a name, a desired state, and a runner over them.
use dns_update.Prelude.{ℕ, none, some, true, false, [], ◌∷◌}
use dns_update.Prelude.Int.{pos}
use dns_update.Text.{Text, codes, decimal}
use dns_update.Failure.{ok}
use dns_update.Retry.{Policy}
use dns_update.Provider.{Record, RecordType, State, DesiredState, type_a, type_aaaa, selection_none}
use dns_update.Provider.Meaning.{after_plan}
use dns_update.App.{RunOptions, Collaborators, Settings}
use dns_update.Tests.Instance.{Address, four, sample_std}

abbrev pub sample_record : Text → RecordType → Text → Record
sample_record id t content = record {
  id = id;
  name = codes "www.example.com.";
  record_type = t;
  content = content;
  ttl_seconds = 300;
  options = record { proxy = some true };
}

-- Two A records, none of them right, an AAAA record, and a record of another type.
abbrev pub sample_state : State
sample_state = record {
  name = codes "www.example.com.";
  records =
      sample_record (codes "r2") type_a (codes "192.0.2.2")
      ∷ sample_record (codes "r1") type_a (codes "192.0.2.1")
      ∷ sample_record (codes "r3") type_aaaa (codes "2001:db8::3")
      ∷ sample_record (codes "r4") (codes "TXT") (codes "text")
      ∷ [];
}

-- The state to which a run over `sample_state` leads.
abbrev pub settled_state : State
settled_state = record {
  name = codes "www.example.com.";
  records =
      sample_record (codes "r1") type_a (codes "192.0.2.7")
      ∷ sample_record (codes "r4") (codes "TXT") (codes "text")
      ∷ [];
}

abbrev pub sample_desired : DesiredState Address
sample_desired = record {
  name = codes "www.example.com.";
  ttl_seconds = 300;
  ipv4 = some (four (codes "192.0.2.7"));
  ipv6 = none;
  options = record { proxy = some true };
}

abbrev pub fresh_id : ℕ → Text
fresh_id n = 110 ∷ decimal n

abbrev pub sample_policy : Policy
sample_policy = record { max_attempts = pos 0; initial_delay = pos 0; max_delay = pos 0 }

abbrev pub sample_settings : Settings
sample_settings = record {
  record_name = codes "www.example.com.";
  ttl_seconds = 300;
  allow_partial_failure = false;
  desired_options = record { proxy = some true };
  retries = sample_policy;
}

-- A provider that stores the records as the world, and probes that see one IPv4 address.
abbrev pub sample_env : Collaborators State
sample_env = record {
  read_state = λ name w. (ok w, w);
  apply = λ plan w. (ok tt, after_plan fresh_id plan w);
  lookup_ipv4 = λ w. ok (some (four (codes "192.0.2.7")));
  lookup_ipv6 = λ w. ok none;
  cause = λ w. none;
  wait = λ d w. (ok tt, w);
  jitter = λ w d. d;
}

abbrev pub wet_options : RunOptions
wet_options = record { dry_run = false; force_push = false; delete = selection_none }

abbrev pub dry_options : RunOptions
dry_options = record { dry_run = true; force_push = false; delete = selection_none }

abbrev pub delete_options : RunOptions
delete_options = record { dry_run = false; force_push = false; delete = 3 }
