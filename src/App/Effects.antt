-- ===== src/App/Effects.antt =====
-- internal/app/run.go: the calls that a dry run and a delete run do without.
use dns_update.Prelude.{◌≡◌, refl, sym, subst, Bool, ◌≢◌, true, Option, arith}
use dns_update.Stdlib.{Stdlib}
use dns_update.Failure.{Error, Result}
use dns_update.Provider.{Plan, selection_none}
use dns_update.App.{
  RunOptions, Exec, Collaborators, Settings, run_reconcile_once, run_delete_once, run_once,
}

module _ ⦃std : Stdlib⦄ {W : Type 0} (env : Collaborators W) (cfg : Settings)
    (options : RunOptions) where
  -- In a dry run nothing depends on what Apply would do: it is not called.
  pub dry_run_applies_nothing :
      (apply' : Plan → Exec W (Unit {0})) (w : W)
      → options.dry_run ≡ true
      → run_once (record env { apply = apply' }) cfg options w ≡ run_once env cfg options w
  unfolding run_once run_delete_once run_reconcile_once
  dry_run_applies_nothing apply' w h =
      subst
        (λ (b : Bool).
          run_once (record env { apply = apply' }) cfg (record options { dry_run = b }) w
          ≡ run_once env cfg (record options { dry_run = b }) w)
        (sym h) refl

  -- With -delete nothing depends on the probes or their context: they are not called.
  pub delete_skips_probes :
      (ipv4 ipv6 : W → Result (Option std.Addr)) (cause' : W → Option Error) (w : W)
      → options.delete ≢ selection_none
      → run_once
          (record env { lookup_ipv4 = ipv4; lookup_ipv6 = ipv6; cause = cause' })
          cfg
          options
          w
        ≡ run_once env cfg options w
  unfolding run_once run_delete_once
  delete_skips_probes ipv4 ipv6 cause' w h = ground arith
