-- ===== src/Tests/Providers.antt =====
-- The program's own provider, over a zone that carries out its batches: one A record with an old address
-- and one AAAA record, whose family is found to have none.
use dns_update.Prelude.{
  ℕ, ◌≡◌, refl, ap, subst, Bool, true, false, not, Option, none, some, List, [], ◌∷◌, ◌++◌, map,
  select, any_of, if◌then◌else◌, is_empty,
}
use dns_update.Text.{
  Text, codes, text_eq, trim_space, to_lower, has_suffix, trim_suffix, has_prefix, trim_prefix,
}
use dns_update.Failure.{Result, ok, err}
use dns_update.Provider.{
  State, Plan, selection_aaaa, is_noop, observed_includes, normalize_name, clone_record_options,
  selection_includes,
}
use dns_update.Provider.Planning.{
  build_observed_address_plan, cname_targets, build_type_plan, plan_of_current, delete_others,
  keep_index, record_matches_desired, desired_record, build_delete_plan, delete_types, by_type,
}
use dns_update.Provider.Order.{sort_records, sort_operations}
use dns_update.Provider.Meaning.{distinct_ids, after_plan}
use dns_update.Retry.{default_policy}
use dns_update.Egress.{new_prober, lookup, client_for_family, request_builder, parse_response}
use dns_update.Http.Client.{new_with_network}
use dns_update.Cloudflare.{
  RecordResponse, RecordParam, BatchPatch, BatchParams, normalize_api_name, normalize_provider_name,
  record_options, build_batch_params, state_records, add_operations, add_operation, to_batch_patch,
}
use dns_update.App.{Collaborators, Settings, RunOptions, families, desired_state, run}
use dns_update.App.ProbeErrors.{error_of, collect_probe_error}
use dns_update.App.Construction.{Runner, settings_of}
use dns_update.App.Converges.{IsFaithful, seen_at, Passes, observed_plan, run_converges}
use dns_update.App.Deletes.{Left, delete_run_converges}
use dns_update.Program.{Service, prober_client, collaborators}
use dns_update.Tests.Instance.{sample_std}
use dns_update.Tests.Configs.{accepted}
use dns_update.Tests.Fixtures.{wet_options}
use dns_update.Tests.Programs.{Zone, sample_process, sample_context}

abbrev list_of {ℓ} : {A : Type ℓ} → Option (List A) → List A
list_of none = []
list_of (some l) = l

abbrev proxied_of : Option Bool → Bool
proxied_of none = false
proxied_of (some b) = b

abbrev response_of : Text → RecordParam → RecordResponse
response_of id param = record {
  id = id;
  name = param.name;
  record_type = param.record_type;
  content = param.content;
  ttl = param.ttl;
  proxied = proxied_of param.proxied;
}

abbrev patched : List BatchPatch → RecordResponse → RecordResponse
patched [] r = r
patched (p ∷ ps) r = patched ps (if text_eq p.id r.id then response_of r.id p.param else r)

-- The records after a batch.
abbrev edited : BatchParams → Zone → Zone
edited params zone =
    map (patched (list_of params.patches))
      (select (λ r. not (any_of (λ id. text_eq id r.id) (list_of params.deletes))) zone)
    ++ map (response_of (codes "new")) (list_of params.posts)

abbrev editing : Service Zone
editing = record {
  list_auto_paging = λ params w. (record { pulled = w; failure = none }, w);
  batch = λ params w. (ok tt, edited params w);
}

abbrev old_record : Text → Text → Text → RecordResponse
old_record id record_type content = record {
  id = id;
  name = codes "www.example.com";
  record_type = record_type;
  content = content;
  ttl = 300;
  proxied = true;
}

abbrev old_zone : Zone
old_zone =
    old_record (codes "a") (codes "A") (codes "192.0.2.1")
    ∷ old_record (codes "b") (codes "AAAA") (codes "2001:db8::1")
    ∷ []

abbrev new_zone : Zone
new_zone = old_record (codes "a") (codes "A") (codes "192.0.2.7") ∷ []

abbrev runner : Runner Zone (Service Zone)
runner = record {
  cfg = accepted;
  prober = λ w.
      new_prober (prober_client sample_process w) sample_process.new_request accepted.probe.timeout;
  provider = record { zone_id = codes "0123456789abcdef0123456789abcdef"; records = editing };
  desired_options = record_options true;
  retries = default_policy;
}

abbrev own : Collaborators Zone
own = collaborators sample_process runner sample_context

abbrev settings : Settings
settings = settings_of runner

abbrev stored : Zone → State
stored w = record {
  name = codes "www.example.com.";
  records = state_records (codes "www.example.com") w;
}

abbrev fresh : ℕ → Text
fresh n = codes "new"

reads_old : own.read_state settings.record_name old_zone ≡ (ok (stored old_zone), old_zone)
unfolding normalize_api_name normalize_name to_lower trim_space trim_suffix
reads_old = refl

abbrev plan_of : Result Plan → Plan
plan_of (ok plan) = plan
plan_of (err e) = record { operations = [] }

abbrev updating : State → Result Plan
updating = observed_plan own settings old_zone

updates : own.apply (plan_of (updating (stored old_zone))) old_zone ≡ (ok tt, new_zone)
unfolding families desired_state lookup client_for_family request_builder parse_response
    new_with_network is_noop build_observed_address_plan cname_targets build_type_plan
    plan_of_current delete_others keep_index record_matches_desired desired_record sort_records
    sort_operations build_batch_params add_operations add_operation to_batch_patch state_records
    observed_includes normalize_name normalize_api_name normalize_provider_name record_options
    clone_record_options trim_space to_lower has_suffix trim_suffix has_prefix trim_prefix
updates = refl

updated :
    stored new_zone ≡ after_plan fresh (plan_of (updating (stored old_zone))) (stored old_zone)
unfolding families desired_state lookup client_for_family request_builder parse_response
    new_with_network is_noop build_observed_address_plan cname_targets build_type_plan
    plan_of_current delete_others keep_index record_matches_desired desired_record sort_records
    sort_operations after_plan state_records observed_includes normalize_name normalize_api_name
    normalize_provider_name record_options clone_record_options trim_space to_lower has_suffix
    trim_suffix has_prefix trim_prefix
updated = refl

reads_new : own.read_state settings.record_name new_zone ≡ (ok (stored new_zone), new_zone)
unfolding normalize_api_name normalize_name to_lower trim_space trim_suffix
reads_new = refl

own-IsFaithful : IsFaithful own settings fresh stored updating old_zone
own-IsFaithful = record {
  reads = reads_old;
  applied = new_zone;
  applies = λ plan built.
      subst (λ p. own.apply p old_zone ≡ (ok tt, new_zone)) (ap plan_of built) updates;
  rereads = reads_new;
  effect = λ plan built.
      subst (λ p. stored new_zone ≡ after_plan fresh p (stored old_zone)) (ap plan_of built)
        updated;
}

probes_accepted :
    collect_probe_error
      (own.cause old_zone)
      (error_of (own.lookup_ipv4 old_zone))
      (error_of (own.lookup_ipv6 old_zone))
      settings.allow_partial_failure
    ≡ none
unfolding collect_probe_error lookup client_for_family request_builder parse_response
    new_with_network trim_space has_prefix trim_prefix
probes_accepted = refl

distinct : distinct_ids (stored old_zone).records ≡ true
unfolding state_records normalize_api_name normalize_name trim_space to_lower trim_suffix
distinct = refl

no_cname : is_empty (cname_targets (stored old_zone)) ≡ true
unfolding cname_targets state_records normalize_api_name normalize_name trim_space to_lower
    trim_suffix sort_records
no_cname = refl

run_converges_example :
    (w : Zone) × (run own settings wet_options old_zone ≡ some (ok tt, w))
    × Passes own settings (stored w) (seen_at own settings old_zone)
run_converges_example =
    run_converges own settings fresh stored wet_options old_zone own-IsFaithful probes_accepted refl
      refl distinct refl no_cname

abbrev delete_options : RunOptions
delete_options = record { dry_run = false; force_push = false; delete = selection_aaaa }

abbrev deleting : State → Result Plan
deleting state = build_delete_plan state delete_options.delete

abbrev left_zone : Zone
left_zone = old_record (codes "a") (codes "A") (codes "192.0.2.1") ∷ []

deletes : own.apply (plan_of (deleting (stored old_zone))) old_zone ≡ (ok tt, left_zone)
unfolding is_noop by_type build_delete_plan delete_types selection_includes sort_records
    sort_operations build_batch_params add_operations add_operation state_records normalize_name
    normalize_api_name normalize_provider_name record_options trim_space to_lower trim_suffix
deletes = refl

deleted :
    stored left_zone ≡ after_plan fresh (plan_of (deleting (stored old_zone))) (stored old_zone)
unfolding is_noop by_type build_delete_plan delete_types selection_includes sort_records
    sort_operations after_plan state_records normalize_name normalize_api_name
    normalize_provider_name record_options trim_space to_lower trim_suffix
deleted = refl

reads_left : own.read_state settings.record_name left_zone ≡ (ok (stored left_zone), left_zone)
unfolding normalize_api_name normalize_name to_lower trim_space trim_suffix
reads_left = refl

own_deletes-IsFaithful : IsFaithful own settings fresh stored deleting old_zone
own_deletes-IsFaithful = record {
  reads = reads_old;
  applied = left_zone;
  applies = λ plan built.
      subst (λ p. own.apply p old_zone ≡ (ok tt, left_zone)) (ap plan_of built) deletes;
  rereads = reads_left;
  effect = λ plan built.
      subst (λ p. stored left_zone ≡ after_plan fresh p (stored old_zone)) (ap plan_of built)
        deleted;
}

delete_run_converges_example :
    (w : Zone) × (run own settings delete_options old_zone ≡ some (ok tt, w))
    × Left own settings fresh stored delete_options old_zone own_deletes-IsFaithful refl refl
        distinct w
delete_run_converges_example =
    delete_run_converges own settings fresh stored delete_options old_zone own_deletes-IsFaithful
      refl refl distinct
