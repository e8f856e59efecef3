-- ===== src/App/Once.antt =====
-- internal/app/run.go: runReconcileOnce, read backwards from a nil result.
use dns_update.Prelude.{◌≡◌, refl, ◌⊎◌, inl, inr, true, false, Bool-cases}
use dns_update.Stdlib.{Stdlib}
use dns_update.Failure.{Result, ok, err}
use dns_update.Provider.{State, Plan, is_noop}
use dns_update.Provider.Planning.{build_observed_address_plan}
use dns_update.Provider.Verify.{verify_observed_address_state}
use dns_update.App.{
  RunOptions, ObservedState, Collaborators, Settings, collect, desired_state, families,
  force_push_plan, apply_and_verify, check_read, check_applied, carry_out, reconcile_plan,
  reconcile_built, reconcile_collected, run_reconcile_once,
}

module _ ⦃std : Stdlib⦄ {W : Type 0} (env : Collaborators W) (cfg : Settings)
    (options : RunOptions) where
  -- The provider was written and read again, and what was read passes the verification.
  abbrev pub Verified : (State → Result (Unit {0})) → Plan → W → W → Type 0
  Verified verify plan v w =
      (u : W) × (state : State) × (env.apply plan v ≡ (ok tt, u))
      × (env.read_state cfg.record_name u ≡ (ok state, w))
      × (verify state ≡ ok tt)

  check_read_ok :
      (verify : State → Result (Unit {0})) (read : Result State × W) (w : W)
      → check_read env cfg verify read ≡ (ok tt, w)
      → (state : State) × (read ≡ (ok state, w)) × (verify state ≡ ok tt)
  check_read_ok verify (err e, u) w h = absurd (cc)
  check_read_ok verify (ok state, u) w h = (state, cc, cc)

  check_applied_ok :
      (verify : State → Result (Unit {0})) (plan : Plan) (v : W) (applied : Result (Unit {0}) × W)
      (w : W)
      → env.apply plan v ≡ applied
      → check_applied env cfg verify applied ≡ (ok tt, w)
      → Verified verify plan v w
  check_applied_ok verify plan v (err e, u) w a h = absurd (cc)
  check_applied_ok verify plan v (ok done, u) w a h =
      let (state, read, good) = check_read_ok verify _ w h in (u, state, a, read, good)

  pub apply_and_verify_ok :
      (verify : State → Result (Unit {0})) (plan : Plan) (v w : W)
      → apply_and_verify env cfg plan verify v ≡ (ok tt, w)
      → Verified verify plan v w
  unfolding apply_and_verify
  apply_and_verify_ok verify plan v w h = check_applied_ok verify plan v _ w refl h

  carry_out_ok :
      (verify : State → Result (Unit {0})) (plan : Plan) (v w : W)
      → options.dry_run ≡ false
      → carry_out env cfg options plan verify v ≡ (ok tt, w)
      → Verified verify plan v w
  carry_out_ok verify plan v w wet h = apply_and_verify_ok verify plan v w (rw wet at h)

  abbrev pub check : ObservedState → State → Result (Unit {0})
  check seen state = verify_observed_address_state state (desired_state cfg seen) (families seen)

  abbrev pub forced : ObservedState → State → Plan
  forced seen current = force_push_plan current (desired_state cfg seen) (families seen)

  -- Nothing was to do, or the plan, or the forced plan, was carried out and verified.
  abbrev pub Settled : ObservedState → State → Plan → W → W → Type 0
  Settled seen current plan u w =
      ((is_noop plan ≡ true) × (u ≡ w))
      ⊎ ((is_noop plan ≡ false) × Verified (check seen) plan u w)
      ⊎ ((is_noop plan ≡ true)
          × (options.force_push ≡ true)
          × Verified (check seen) (forced seen current) u w)

  reconcile_plan_ok :
      (seen : ObservedState) (current : State) (plan : Plan) (u w : W)
      → options.dry_run ≡ false
      → reconcile_plan env cfg options current (desired_state cfg seen) (families seen) plan u
        ≡ (ok tt, w)
      → Settled seen current plan u w
  reconcile_plan_ok seen current plan u w wet h = elim (Bool-cases (is_noop plan)) [
    | inr busy ↦ inr (inl (busy, carry_out_ok (check seen) plan u w wet (rw busy at h)))
    | inl idle ↦ elim (Bool-cases options.force_push) [
      | inr unforced ↦ inl (idle, cc (rw (idle, unforced) at h))
      | inl force ↦ elim (Bool-cases (is_noop (forced seen current))) [
        | inl none_left ↦ inl (idle, cc (rw (idle, force, none_left) at h))
        | inr some_left ↦ inr (
            inr (
              idle,
              force,
              carry_out_ok (check seen) (forced seen current) u w wet
                  (rw (idle, force, some_left) at h),
            ))
      ]
    ]
  ]

  reconcile_built_ok :
      (seen : ObservedState) (current : State) (built : Result Plan) (u w : W)
      → options.dry_run ≡ false
      → reconcile_built env cfg options current (desired_state cfg seen) (families seen) built u
        ≡ (ok tt, w)
      → (plan : Plan) × (built ≡ ok plan) × Settled seen current plan u w
  reconcile_built_ok seen current (err e) u w wet h = absurd (cc)
  reconcile_built_ok seen current (ok plan) u w wet h =
      (plan, refl, reconcile_plan_ok seen current plan u w wet h)

  reconcile_collected_ok :
      (v : W) (collected : Result (ObservedState × State) × W) (w : W)
      → options.dry_run ≡ false
      → collect env cfg v ≡ collected
      → reconcile_collected env cfg options collected ≡ (ok tt, w)
      → (seen : ObservedState) × (current : State) × (u : W) × (plan : Plan) × (collect env cfg v
          ≡ (ok (seen, current), u))
        × (build_observed_address_plan current (desired_state cfg seen) (families seen) ≡ ok plan)
        × Settled seen current plan u w
  reconcile_collected_ok v (err e, u) w wet c h = absurd (cc)
  reconcile_collected_ok v (ok (seen, current), u) w wet c h =
      let (plan, built, settled) = reconcile_built_ok seen current _ u w wet h in
      (seen, current, u, plan, c, built, settled)

  -- A reconciliation that is no dry run and returns nil has collected the probes and the current
  -- state and built a plan; then it found nothing to do, or it applied the plan, or under -force-push
  -- the forced plan in place of an empty one, and the state read back after that apply passes
  -- VerifyObservedAddressState for the desired state and the observed families.
  pub reconcile_ok :
      (v w : W)
      → options.dry_run ≡ false
      → run_reconcile_once env cfg options v ≡ (ok tt, w)
      → (seen : ObservedState) × (current : State) × (u : W) × (plan : Plan) × (collect env cfg v
          ≡ (ok (seen, current), u))
        × (build_observed_address_plan current (desired_state cfg seen) (families seen) ≡ ok plan)
        × Settled seen current plan u w
  unfolding run_reconcile_once
  reconcile_ok v w wet h = reconcile_collected_ok v _ w wet refl h
