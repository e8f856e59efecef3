-- ===== src/App/Deletes.antt =====
-- internal/app/run.go: a delete run over a provider that keeps the contract of Provider/Meaning.
use dns_update.Prelude.{
  ℕ, ◌≡◌, refl, sym, ap, ◌∙◌, inl, inr, Bool, true, false, not, some, [], ◌∷◌, if◌then◌else◌, ◌==◌,
  Bool-cases, select,
}
use dns_update.Text.{Text}
use dns_update.Stdlib.{Stdlib}
use dns_update.Failure.{ok}
use dns_update.Provider.{State, Plan, is_noop, selection_none, type_a, type_aaaa}
use dns_update.Provider.Order.{sort_operations}
use dns_update.Provider.Planning.{delete_types, build_delete_plan}
use dns_update.Provider.Verify.{verify_deleted_types}
use dns_update.Provider.Meaning.{distinct_ids, after_plan}
use dns_update.Provider.Meaning.Deleted.{selected, delete_plan_verifies}
use dns_update.App.Loop.{run_once_ok}
use dns_update.App.Converges.{IsFaithful, after_noop}
use dns_update.App.{
  RunOptions, Collaborators, Settings, run, run_once, run_delete_once, run_reconcile_once,
  delete_read, delete_built, apply_and_verify, check_applied, check_read,
}

module _ ⦃std : Stdlib⦄ {W : Type 0} (env : Collaborators W) (cfg : Settings) (fresh : ℕ → Text)
    (stored : W → State) (options : RunOptions) (v : W)
    (faithful : IsFaithful env cfg fresh stored (λ state. build_delete_plan state options.delete) v)
    (wet : options.dry_run ≡ false) (deleting : (options.delete == selection_none) ≡ false)
    (distinct : distinct_ids (stored v).records ≡ true) where
  plan_built : (plan : Plan) × (build_delete_plan (stored v) options.delete ≡ ok plan)
  unfolding build_delete_plan
  plan_built = (
    record {
      operations =
          sort_operations (delete_types (stored v) options.delete (type_a ∷ type_aaaa ∷ []));
    },
    rw deleting refl,
  )

  -- What is left of the records.
  abbrev pub Left : W → Type 0
  Left w = (stored w).records ≡ select (λ r. not (selected options.delete r)) (stored v).records

  applied_deletes :
      (plan : Plan)
      → build_delete_plan (stored v) options.delete ≡ ok plan
      → verify_deleted_types (after_plan fresh plan (stored v)) options.delete ≡ ok tt
      → apply_and_verify env cfg plan (λ state. verify_deleted_types state options.delete) v
        ≡ (ok tt, faithful.applied)
  unfolding apply_and_verify
  applied_deletes plan built good =
      ap (check_applied env cfg _) (faithful.applies plan built)
      ∙ ap (check_read env cfg _) faithful.rereads
      ∙ ap (λ state. (verify_deleted_types state options.delete, faithful.applied))
          (faithful.effect plan built)
      ∙ ap (λ r. (r, faithful.applied)) good

  deletes_plan :
      (plan : Plan)
      → build_delete_plan (stored v) options.delete ≡ ok plan
      → (w : W) × (delete_built env cfg options (ok plan) v ≡ (ok tt, w)) × Left w
  deletes_plan plan built =
      let (left, good) = delete_plan_verifies fresh (stored v) options.delete plan distinct built in
      elim (Bool-cases (is_noop plan)) [
        | inl idle ↦ (
          v,
          rw idle refl,
          sym (ap (λ (s : State). s.records) (after_noop env cfg fresh plan (stored v) idle))
              ∙ left,
        )
        | inr busy ↦ (
          faithful.applied,
          rw (busy, wet) (applied_deletes plan built good),
          ap (λ (s : State). s.records) (faithful.effect plan built) ∙ left,
        )
      ]

  -- Where the provider keeps its contract for the plan of this run, and the stored records have distinct
  -- IDs, a run with -delete that is no dry run
  -- returns nil in its first attempt, and the stored records are then exactly those outside the selected
  -- families, in their order.
  pub delete_run_converges : (w : W) × (run env cfg options v ≡ some (ok tt, w)) × Left w
  delete_run_converges =
      let (plan, built) = plan_built in
      let (w, done, left) = deletes_plan plan built in
      let once : run_once env cfg options v ≡ (ok tt, w) =
        (unfold run_once run_delete_once in
          ap
            (λ (b : Bool).
              if not b
              then run_delete_once env cfg options v
              else run_reconcile_once env cfg options v)
            deleting
          ∙ ap (delete_read env cfg options) faithful.reads
          ∙ ap (λ p. delete_built env cfg options p v) built
          ∙ done) in
      (w, run_once_ok env cfg options v w once, left)
