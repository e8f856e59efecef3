-- ===== src/App/Loop.antt =====
-- internal/app/run.go: the retry loop of Run, its end and its result.
use dns_update.Prelude.{
  ℕ, zero, suc, ◌+◌, ◌-◌, ◌≤◌, ◌<◌, ◌≡◌, ◌≢◌, refl, ap, ◌∙◌, Option, none, some, arith,
}
use dns_update.Prelude.Int.{pos, pos_part, ◌≤ℤ◌}
use dns_update.Stdlib.{Stdlib}
use dns_update.Failure.{Error, Result, ok, err}
use dns_update.Retry.{Duration, normalized, can_retry}
use dns_update.Retry.Laws.{can_retry_iff, normalized-IsNormal}
use dns_update.App.{
  RunOptions, Collaborators, Settings, resume, retry_round, finish_round, run_once, run_from, run,
}

module _ ⦃std : Stdlib⦄ {W : Type 0} (env : Collaborators W) (cfg : Settings) where
  abbrev Final : Type 0
  Final = Result (Unit {0}) × W

  resume-ne-none :
      (again : W → Option Final) (waited : Final)
      → ((w : W) → again w ≢ none)
      → resume env cfg again waited ≢ none
  resume-ne-none again (err e, w) h = λ p. cc
  resume-ne-none again (ok done, w) h = h w

  retry_round-ne-none :
      (attempt : ℕ) (again : W → Option Final) (e : Error) (allowed : Option Duration) (w : W)
      → ((d : Duration) → allowed ≡ some d → (v : W) → again v ≢ none)
      → retry_round env cfg attempt again e allowed w ≢ none
  retry_round-ne-none attempt again e none w h = λ p. cc
  retry_round-ne-none attempt again e (some d) w h = resume-ne-none again _ (h d refl)

  finish_round-ne-none :
      (attempt : ℕ) (again : W → Option Final) (once : Final)
      → (pos (attempt + 1) ≤ℤ (normalized cfg.retries).max_attempts → (v : W) → again v ≢ none)
      → finish_round env cfg attempt again once ≢ none
  finish_round-ne-none attempt again (ok done, w) h = λ p. cc
  finish_round-ne-none attempt again (err e, w) h =
      retry_round-ne-none attempt again e (can_retry cfg.retries attempt e) w
        (λ d allowed. h ((can_retry_iff cfg.retries attempt e d).0 allowed).1)

  -- The attempts left are fuel enough.
  run_from-ne-none :
      (fuel attempt : ℕ) (options : RunOptions) (w : W)
      → attempt ≤ pos_part (normalized cfg.retries).max_attempts
      → pos_part (normalized cfg.retries).max_attempts < fuel + attempt
      → run_from env cfg fuel attempt options w ≢ none
  unfolding run_from
  run_from-ne-none zero attempt options w h k = absurd (omega arith)
  run_from-ne-none (suc fuel) attempt options w h k =
      finish_round-ne-none attempt _ (run_once env cfg options w)
        (λ more v. run_from-ne-none fuel (attempt + 1) options v (ground arith) (omega arith))

  -- Run returns a result for every policy, also for the zero policy and a negative number of attempts:
  -- the loop does not go on beyond the attempts of the policy.
  pub run-ne-none : (options : RunOptions) (w : W) → run env cfg options w ≢ none
  unfolding run
  run-ne-none options w =
      let n = normalized-IsNormal cfg.retries in
      run_from-ne-none _ 1 options w (ground (arith, n.attempts)) (omega arith)

  -- Some round of the runner returned this.
  abbrev Reached : RunOptions → Final → Type 0
  Reached options final = (w : W) × (run_once env cfg options w ≡ final)

  resume_ok :
      (options : RunOptions) (again : W → Option Final) (w : W) (waited : Final)
      → ((u : W) → again u ≡ some (ok tt, w) → Reached options (ok tt, w))
      → resume env cfg again waited ≡ some (ok tt, w)
      → Reached options (ok tt, w)
  resume_ok options again w (err e, u) h p = absurd (cc)
  resume_ok options again w (ok done, u) h p = h u p

  retry_round_ok :
      (options : RunOptions) (attempt : ℕ) (again : W → Option Final) (e : Error)
      (allowed : Option Duration) (u w : W)
      → ((u : W) → again u ≡ some (ok tt, w) → Reached options (ok tt, w))
      → retry_round env cfg attempt again e allowed u ≡ some (ok tt, w)
      → Reached options (ok tt, w)
  retry_round_ok options attempt again e none u w h p = absurd (cc)
  retry_round_ok options attempt again e (some d) u w h p = resume_ok options again w _ h p

  finish_round_ok :
      (options : RunOptions) (attempt : ℕ) (again : W → Option Final) (v w : W) (once : Final)
      → run_once env cfg options v ≡ once
      → ((u : W) → again u ≡ some (ok tt, w) → Reached options (ok tt, w))
      → finish_round env cfg attempt again once ≡ some (ok tt, w)
      → Reached options (ok tt, w)
  finish_round_ok options attempt again v w (ok done, u) e h p =
      let same : u ≡ w = cc in (v, e ∙ ap (λ x. (ok tt, x)) same)
  finish_round_ok options attempt again v w (err e, u) once h p =
      retry_round_ok options attempt again e (can_retry cfg.retries attempt e) u w h p

  run_from_ok :
      (fuel attempt : ℕ) (options : RunOptions) (v w : W)
      → run_from env cfg fuel attempt options v ≡ some (ok tt, w)
      → Reached options (ok tt, w)
  unfolding run_from
  run_from_ok zero attempt options v w p = absurd (cc)
  run_from_ok (suc fuel) attempt options v w p =
      finish_round_ok options attempt _ v w _ refl (λ u. run_from_ok fuel (attempt + 1) options u w)
        p

  -- A run that returns nil ends with an attempt that returned nil, in the same final world.
  pub run_ok :
      (options : RunOptions) (v w : W)
      → run env cfg options v ≡ some (ok tt, w)
      → (u : W) × (run_once env cfg options u ≡ (ok tt, w))
  unfolding run
  run_ok options v w p = run_from_ok _ 1 options v w p

  -- The first attempt that returns nil ends the run.
  pub run_once_ok :
      (options : RunOptions) (v w : W)
      → run_once env cfg options v ≡ (ok tt, w)
      → run env cfg options v ≡ some (ok tt, w)
  unfolding run run_from
  run_once_ok options v w h =
      let n = normalized-IsNormal cfg.retries in
      let fuel = pos_part (normalized cfg.retries).max_attempts in
      let e : fuel ≡ suc (fuel - 1) = ground (arith, n.attempts) in
      rw e (ap (finish_round env cfg 1 _) h)
