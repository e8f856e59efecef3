-- ===== src/Cli/Usage.antt =====
-- cmd/dns-update/main.go: the exit codes, and the one for wrong usage.
use dns_update.Prelude.{
  ℕ, ◌≤◌, ◌≡◌, refl, ◌⊎◌, inl, inr, Bool, Option, none, some, List, arith, Bool-cases,
}
use dns_update.Text.{Text, codes}
use dns_update.Failure.{Error, Result, ok, err}
use dns_update.Config.Urls.{Parsers}
use dns_update.Config.Sections.{Config}
use dns_update.Cli.{CliFlagValues, RuntimeOptions, resolve_runtime_options, delete_flag_set}
use dns_update.Cli.Main.{
  Printers, Parsing, parsed, help_wanted, bad_flags, Console, Dependencies, after_run, exit_of,
  start, after_introspection, with_config, with_options, with_flags, run,
}

module _ {W Runner : Type 0} (parsers : Parsers) (printers : Printers) (console : Console W)
    (deps : Dependencies W Runner) (version_line : Text) where
  -- Neither a success nor a failure of the run itself would exit so.
  abbrev Small : Option (ℕ × W) → Type 0
  Small none = Unit
  Small (some (code, w)) = code ≤ 1

  exit_of-Small :
      (text : Text) (written : Result (Unit {0}) × W)
      → Small (exit_of parsers printers console deps version_line text written)
  exit_of-Small text (ok done, w) = omega arith
  exit_of-Small text (err e, w) = omega arith

  start-Small :
      (options : RuntimeOptions) (built : Result Runner) (w : W)
      → Small (start parsers printers console deps version_line options built w)
  start-Small options (err e) w = omega arith
  start-Small options (ok app_runner) w = ran (deps.run_app app_runner _ _ w)
    where
      ran :
          (final : Option (Result (Unit {0}) × W))
          → Small (after_run parsers printers console deps version_line final)
      ran none = tt
      ran (some final) = exit_of-Small (codes "dns update run failed") final

  after_introspection-Small :
      (config : Config) (options : RuntimeOptions) (w : W)
      (handled : Option (Result (Unit {0}) × W))
      → Small
          (after_introspection parsers printers console deps version_line config options w handled)
  after_introspection-Small config options w none = start-Small options _ w
  after_introspection-Small config options w (some printed) = exit_of-Small _ printed

  with_config-Small :
      (options : RuntimeOptions) (loaded : Result Config) (w : W)
      → Small (with_config parsers printers console deps version_line options loaded w)
  with_config-Small options (err e) w = omega arith
  with_config-Small options (ok config) w = after_introspection-Small config options w _

  Small-code :
      (exit : Option (ℕ × W)) (code : ℕ) (v : W) → Small exit → exit ≡ some (code, v) → code ≤ 1
  Small-code none code v small h = absurd (cc)
  Small-code (some (c, w)) code v small h = ground arith

  -- The flags are wrong and nothing happens but what Parse writes itself, or the flags contradict one
  -- another or the environment cannot be read, and nothing happens but that this is said.
  abbrev pub Misused : List Text → W → W → Type 0
  Misused args w v =
      ((deps.parse_flags delete_flag_set args ≡ bad_flags) × (v ≡ w))
      ⊎ ((values : CliFlagValues) × (set_flags : Text → Bool) × (e : Error) × (deps.parse_flags
              delete_flag_set args
            ≡ parsed values set_flags)
          × (resolve_runtime_options parsers set_flags values deps.lookup_env ≡ err e)
          × (v ≡ console.write_error (codes "failed to parse flags") e w))

  -- Every exit with another code than 0 or 1.
  abbrev Explained : List Text → W → ℕ → W → Type 0
  Explained args w code v = (code ≤ 1) ⊎ ((code ≡ 2) × Misused args w v)

  options-Explained :
      (args : List Text) (values : CliFlagValues) (set_flags : Text → Bool)
      (resolved : Result RuntimeOptions) (w v : W) (code : ℕ)
      → deps.parse_flags delete_flag_set args ≡ parsed values set_flags
      → resolve_runtime_options parsers set_flags values deps.lookup_env ≡ resolved
      → with_options parsers printers console deps version_line resolved w ≡ some (code, v)
      → Explained args w code v
  options-Explained args values set_flags (err e) w v code flags resolved h =
      let two : code ≡ 2 = ground arith in
      let said : v ≡ console.write_error (codes "failed to parse flags") e w = ground arith in
      inr (two, inr (values, set_flags, e, flags, resolved, said))
  options-Explained args values set_flags (ok options) w v code flags resolved h =
      inl (Small-code _ code v (with_config-Small options _ w) h)

  flags-Explained :
      (args : List Text) (flags : Parsing) (w v : W) (code : ℕ)
      → deps.parse_flags delete_flag_set args ≡ flags
      → with_flags parsers printers console deps version_line flags w ≡ some (code, v)
      → Explained args w code v
  unfolding resolve_runtime_options
  flags-Explained args help_wanted w v code flags h = inl (ground arith)
  flags-Explained args bad_flags w v code flags h =
      let two : code ≡ 2 = ground arith in
      let same : v ≡ w = ground arith in inr (two, inl (flags, same))
  flags-Explained args (parsed values set_flags) w v code flags h =
      elim (Bool-cases values.version) [
        | inl version ↦ inl (
            Small-code _ code v
              (exit_of-Small (codes "failed to print version") (console.print_line version_line w))
              (rw version at h))
        | inr update ↦
            options-Explained args values set_flags _ w v code flags refl (rw update at h)
      ]

  -- The exit code is 0, 1 or 2, and with 2 nothing was loaded or run: the flags are wrong, contradict one
  -- another, or the environment behind them cannot be read.
  pub run-exit_code :
      (args : List Text) (w v : W) (code : ℕ)
      → run parsers printers console deps version_line args w ≡ some (code, v)
      → (code ≤ 1) ⊎ ((code ≡ 2) × Misused args w v)
  unfolding run
  run-exit_code args w v code h =
      flags-Explained args (deps.parse_flags delete_flag_set args) w v code refl h
