-- ===== src/Program.antt =====
-- cmd/dns-update/main.go: productionDependencies, which put internal/config, internal/app, the prober and
-- the Cloudflare client together. The SDK's records service, the HTTP clients and the context are
-- parameters over a world.
pub mod Outcome
use dns_update.Prelude.{List, Option, none, some, if◌then◌else◌}
use dns_update.Text.{Text, codes}
use dns_update.Stdlib.{Stdlib}
use dns_update.Failure.{Error, Result, ok, err, wrapped}
use dns_update.Http.{Clock}
use dns_update.Http.Client.{ClientSettings, new_with_network}
use dns_update.Os.{Os}
use dns_update.Retry.{Duration, sleep}
use dns_update.Egress.{HttpClient, RequestBuilder, Prober, Family, new_prober, lookup}
use dns_update.Egress
use dns_update.Provider.{State, Plan, is_noop}
use dns_update.Cloudflare.{RecordResponse, BatchParams, build_batch_params, normalize_api_name}
use dns_update.Cloudflare.Requests.{listed, batched}
use dns_update.Cloudflare.Listing.{ListParams, Pager, list_params, list_records}
use dns_update.Cloudflare.Construction.{ClientConfig}
use dns_update.Config.Urls.{Parsers}
use dns_update.Config.Sections.{Config}
use dns_update.Config.Loading.{Disk, LoadOptions, load_with_options}
use dns_update.App.{RunOptions, Exec, Collaborators}
use dns_update.App
use dns_update.App.Construction.{Runner, settings_of, new}
use dns_update.Cli.{LookupEnv}
use dns_update.Cli.Main.{Parsing, Printers, Dependencies}
use dns_update.Provider.{RecordSelection}

-- ListAutoPaging, with all that its pager gives, and the batch endpoint.
pub record Service (W : Type 0) : Type 0 where
  pub list_auto_paging : ListParams → W → Pager × W
  pub batch : BatchParams → Exec W (Unit {0})

-- The context of a run: context.Cause of it and of the probes' context, and its cause where it is done
-- before a timer fires.
pub record Context (W : Type 0) : Type 0 where
  pub cause : W → Option Error
  pub probe_cause : Family → W → Option Error
  pub probes_cause : W → Option Error
  pub timer : Duration → W → Option Error × W
  pub jitter : W → Duration → Duration
  pub clock : W → Clock

-- What the process is given; `context` is that of a deadline.
pub record Process (W : Type 0) : Type 0 where
  pub os : Os
  pub disk : Disk
  pub parsers : Parsers
  pub printers : Printers
  pub service : ClientConfig → Service W
  pub http_client : W → ClientSettings → HttpClient
  pub new_request : RequestBuilder
  pub context : Option Duration → Context W
  pub parse_flags : (Text → Result RecordSelection) → List Text → Parsing

module _ ⦃std : Stdlib⦄ {W : Type 0} (process : Process W) where
  module _ (r : Runner W (Service W)) (ctx : Context W) where
    abbrev states_read : Text → Pager × W → Result State × W
    states_read name (pager, w) = (listed (ctx.clock w) (ctx.cause w) name (list_records pager), w)

    abbrev batch_done : Result (Unit {0}) × W → Result (Unit {0}) × W
    batch_done (sent, w) = (batched (ctx.clock w) (ctx.cause w) sent, w)

    abbrev batch_built : Result BatchParams → Exec W (Unit {0})
    batch_built (err e) w = (err (wrapped (codes "build Cloudflare batch request") e), w)
    batch_built (ok params) w = batch_done (r.provider.records.batch params w)

    abbrev apply_plan : Plan → Exec W (Unit {0})
    apply_plan plan w =
        if is_noop plan
        then (ok tt, w)
        else batch_built (build_batch_params r.provider.zone_id plan) w

    -- The calls of a runner.
    abbrev pub collaborators : Collaborators W
    collaborators = record {
      read_state = λ name w. states_read name (
          r.provider.records.list_auto_paging
            (list_params r.provider.zone_id (normalize_api_name name)) w);
      apply = apply_plan;
      lookup_ipv4 = λ w.
          lookup (ctx.clock w) process.new_request (r.prober w) (ctx.probe_cause Egress.ipv4 w)
            (process.printers.url_string r.cfg.probe.ipv4_url) Egress.ipv4;
      lookup_ipv6 = λ w.
          lookup (ctx.clock w) process.new_request (r.prober w) (ctx.probe_cause Egress.ipv6 w)
            (process.printers.url_string r.cfg.probe.ipv6_url) Egress.ipv6;
      cause = ctx.probes_cause;
      wait = sleep ctx.timer;
      jitter = ctx.jitter;
    }

  unfoldable pub run_app :
      Runner W (Service W) → Option Duration → RunOptions → W → Option (Result (Unit {0}) × W)
  run_app r timeout options w =
      App.run (collaborators r (process.context timeout)) (settings_of r) options w

  -- The clients of a prober.
  abbrev pub prober_client : W → Duration → Text → HttpClient
  prober_client w timeout network = process.http_client w (new_with_network timeout network)

  unfoldable pub production_dependencies : Dependencies W (Runner W (Service W))
  unfolding new
  production_dependencies = record {
    parse_flags = process.parse_flags;
    load_config = λ options. load_with_options process.os process.disk process.parsers options;
    new_runner = λ cfg verbose.
        new process.service process.parsers process.os
          (λ w. new_prober (prober_client w) process.new_request) cfg;
    run_app = run_app;
    lookup_env = process.os.lookup_env;
  }
