-- ===== src/App/Converges.antt =====
-- internal/app/run.go: the runner over a provider that keeps the contract of Provider/Meaning.
use dns_update.Prelude.{
  ℕ, ◌≡◌, refl, ap, ◌∙◌, inl, inr, Bool, true, false, not, Option, none, some, List, ◌++◌,
  if◌then◌else◌, ◌==◌, Bool-cases, is_empty,
}
use dns_update.Text.{Text}
use dns_update.Stdlib.{Stdlib}
use dns_update.Failure.{Error, Result, ok, err}
use dns_update.Prelude.Rearrange.{eq-nil_of_is_empty}
use dns_update.Provider.{Record, State, Plan, is_noop, selection_none, type_a, type_aaaa}
use dns_update.Provider.Planning.{cname_targets, family_plan, build_observed_address_plan}
use dns_update.Provider.Verify.{verify_observed_address_state}
use dns_update.Provider.Meaning.{distinct_ids, after_plan, meaning}
use dns_update.Provider.Meaning.Split.{family_meaning_nil}
use dns_update.Provider.Meaning.Observed.{observed_plan_verifies}
use dns_update.App.Loop.{run_once_ok}
use dns_update.App.{
  RunOptions, ObservedState, Collaborators, Settings, observe, collect, desired_state, families,
  reconcile_built, reconcile_collected, run, apply_and_verify, check_applied, check_read,
  after_read, probes_done, reconcile_plan, run_delete_once, run_reconcile_once, run_once,
}
use dns_update.App.ProbeErrors.{error_of, collect_probe_error}

module _ ⦃std : Stdlib⦄ {W : Type 0} (env : Collaborators W) (cfg : Settings) where
  -- The contract of the provider in the world where a run starts, for the one plan that `built` makes of
  -- the records stored there: ReadState gives the stored state of the record name, before and after, and
  -- Apply of the plan succeeds and stores what the plan means.
  pub record IsFaithful (fresh : ℕ → Text) (stored : W → State) (built : State → Result Plan)
      (v : W) : Type 0 where
    pub reads : env.read_state cfg.record_name v ≡ (ok (stored v), v)
    pub applied : W
    pub applies : (plan : Plan) → built (stored v) ≡ ok plan → env.apply plan v ≡ (ok tt, applied)
    pub rereads : env.read_state cfg.record_name applied ≡ (ok (stored applied), applied)
    pub effect :
        (plan : Plan)
        → built (stored v) ≡ ok plan
        → stored applied ≡ after_plan fresh plan (stored v)

  -- What the probes in this world are seen to be.
  abbrev pub seen_at : W → ObservedState
  seen_at v = observe (env.lookup_ipv4 v) (env.lookup_ipv6 v)

  abbrev pub Passes : State → ObservedState → Type 0
  Passes state seen =
      verify_observed_address_state state (desired_state cfg seen) (families seen) ≡ ok tt

  -- The plan of a run that reconciles.
  abbrev pub observed_plan : W → State → Result Plan
  observed_plan v state =
      build_observed_address_plan state (desired_state cfg (seen_at v)) (families (seen_at v))

  -- An empty plan leaves the state as it is.
  pub after_noop :
      (fresh : ℕ → Text) (plan : Plan) (state : State)
      → is_noop plan ≡ true
      → after_plan fresh plan state ≡ state
  unfolding after_plan is_noop
  after_noop fresh plan state h =
      ap (λ (l : List Record). record state { records = l })
        (ap (λ ops. meaning fresh ops state.records) (eq-nil_of_is_empty plan.operations h)
          ∙ (unfold meaning in family_meaning_nil fresh 0 state.records))

  probed_family :
      (cause : Option Error) (ipv4 ipv6 : Result (Option std.Addr)) (partial : Bool)
      → collect_probe_error cause (error_of ipv4) (error_of ipv6) partial ≡ none
      → (families (observe ipv4 ipv6) == 0) ≡ false
  unfolding collect_probe_error families
  probed_family none (ok a) (ok b) partial h = refl
  probed_family none (ok a) (err e) partial h = refl
  probed_family none (err e) (ok b) partial h = refl
  probed_family none (err e) (err f) partial h = absurd (cc)
  probed_family (some c) ipv4 ipv6 partial h = absurd (cc)

  module _ (fresh : ℕ → Text) (stored : W → State) (options : RunOptions) (v : W)
      (faithful : IsFaithful fresh stored (observed_plan v) v)
      (probed : collect_probe_error
          (env.cause v)
          (error_of (env.lookup_ipv4 v))
          (error_of (env.lookup_ipv6 v))
          cfg.allow_partial_failure
        ≡ none) where
    collected : collect env cfg v ≡ (ok (seen_at v, stored v), v)
    unfolding collect
    collected =
        ap (after_read env cfg (env.lookup_ipv4 v) (env.lookup_ipv6 v)) faithful.reads
        ∙ ap (λ e. probes_done env cfg e (seen_at v) (stored v) v) probed

    abbrev seen : ObservedState
    seen = seen_at v

    -- Applying a plan that is right for the stored state Passes the verification.
    applied-Passes :
        (plan : Plan)
        → observed_plan v (stored v) ≡ ok plan
        → Passes (after_plan fresh plan (stored v)) seen
        → apply_and_verify env cfg plan
            (λ state. verify_observed_address_state state (desired_state cfg seen) (families seen))
            v
          ≡ (ok tt, faithful.applied)
    unfolding apply_and_verify
    applied-Passes plan built good =
        let after_apply = ap (check_applied env cfg _) (faithful.applies plan built) in
        let after_reading = ap (check_read env cfg _) faithful.rereads in
        after_apply
        ∙ after_reading
        ∙ ap (λ r. (r, faithful.applied))
            (ap
                (λ state.
                  verify_observed_address_state state (desired_state cfg seen) (families seen))
                (faithful.effect plan built)
              ∙ good)

    module _ (wet : options.dry_run ≡ false) (unforced : options.force_push ≡ false)
        (distinct : distinct_ids (stored v).records ≡ true) where
      settles :
          (plan : Plan)
          → build_observed_address_plan (stored v) (desired_state cfg seen) (families seen)
            ≡ ok plan
          → (w : W) × (reconcile_plan env cfg options
                (stored v)
                (desired_state cfg seen)
                (families seen)
                plan
                v
              ≡ (ok tt, w))
            × Passes (stored w) seen
      settles plan built =
          let good =
            observed_plan_verifies fresh (stored v) (desired_state cfg seen) (families seen) plan
              distinct built in
          elim (Bool-cases (is_noop plan)) [
            | inl idle ↦
                (v, rw (idle, unforced), rw (after_noop fresh plan (stored v) idle) at good)
            | inr busy ↦ (
              faithful.applied,
              rw (busy, wet) (applied-Passes plan built good),
              rw (faithful.effect plan built) good,
            )
          ]

      -- A plan is built: some probe succeeded, and there is no CNAME record.
      some_family : (families seen == 0) ≡ false
      unfolding families
      some_family =
          probed_family (env.cause v) (env.lookup_ipv4 v) (env.lookup_ipv6 v)
            cfg.allow_partial_failure probed

      builds :
          is_empty (cname_targets (stored v)) ≡ true
          → (plan : Plan) × (build_observed_address_plan
                (stored v)
                (desired_state cfg seen)
                (families seen)
              ≡ ok plan)
      unfolding build_observed_address_plan
      builds no_cname =
          let desired = desired_state cfg seen in
          let observed = families seen in
          (
            record {
              operations =
                  family_plan (stored v) desired observed type_a desired.ipv4
                  ++ family_plan (stored v) desired observed type_aaaa desired.ipv6;
            },
            rw (some_family, no_cname),
          )

      -- Where the provider keeps its contract for the plan of this run, the probes are such that
      -- collect accepts them, the stored records have distinct IDs and none is a CNAME record, a run
      -- that is no dry run, no delete and no forced push returns nil in its first attempt, and the
      -- stored records then pass VerifyObservedAddressState.
      pub run_converges :
          options.delete ≡ selection_none
          → is_empty (cname_targets (stored v)) ≡ true
          → (w : W) × (run env cfg options v ≡ some (ok tt, w)) × Passes (stored w) seen
      run_converges reconciling no_cname =
          let (plan, built) = builds no_cname in
          let (w, settled, good) = settles plan built in
          let once : run_once env cfg options v ≡ (ok tt, w) =
            (unfold run_once run_reconcile_once in
              ap
                (λ (d : ℕ).
                  if not (d == selection_none)
                  then run_delete_once env cfg options v
                  else run_reconcile_once env cfg options v)
                reconciling
              ∙ ap (reconcile_collected env cfg options) collected
              ∙ ap
                  (λ b.
                    reconcile_built env cfg options (stored v) (desired_state cfg seen)
                      (families seen) b v)
                  built
              ∙ settled) in
          (w, run_once_ok env cfg options v w once, good)
