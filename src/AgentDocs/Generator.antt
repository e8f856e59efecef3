-- ===== src/AgentDocs/Generator.antt =====
-- cmd/agentdocgen/main.go: run, with flag.Parse as a parameter: the root and whether to check only.
use dns_update.Prelude.{ℕ, ◌≡◌, refl, Bool, true, false, List, [], ◌∷◌, all_of, arith}
use dns_update.Text.{Text}
use dns_update.Stdlib.{Stdlib}
use dns_update.Failure.{Result, ok, err}
use dns_update.AgentDocs.{Output, Mismatch, Writers}
use dns_update.AgentDocs.Sources.{has_path, plan}
use dns_update.AgentDocs.Files.{summary, managed_paths, check}
use dns_update.AgentDocs.Check.{AllUpToDate, check-AllUpToDate}
use dns_update.AgentDocs.Write.{Store, write}
use dns_update.Failure.{Error}

-- flags.Parse, and the two writes to stderr, whose own errors change no exit code.
pub record Shell (W : Type 0) : Type 0 where
  pub parse_flags : List Text → Result (Text × Bool)
  pub print_error : Error → W → W
  pub print_summary : Text → W → W

module _ ⦃std : Stdlib⦄ {W : Type 0} (shell : Shell W) (store : Store W) (writers : Writers) where
  abbrev pub checked : Result (List Mismatch) → W → ℕ × W
  checked (err e) w = (1, shell.print_error e w)
  checked (ok []) w = (0, w)
  checked (ok (m ∷ mismatches)) w = (1, shell.print_summary (summary (m ∷ mismatches)) w)

  abbrev pub wrote : Result (Unit {0}) × W → ℕ × W
  wrote (err e, w) = (1, shell.print_error e w)
  wrote (ok done, w) = (0, w)

  abbrev pub with_root : Result (Text × Bool) → W → ℕ × W
  with_root (err e) w = (2, w)
  with_root (ok (root, true)) w = checked (check (store.files w) root writers) w
  with_root (ok (root, false)) w = wrote (write store writers root w)

  unfoldable pub run : List Text → W → ℕ × W
  unfolding check write summary
  run args w = with_root (shell.parse_flags args) w

  nothing_found :
      (found : Result (List Mismatch)) (w v : W) → checked found w ≡ (0, v) → found ≡ ok []
  nothing_found (err e) w v h = absurd (ground arith)
  nothing_found (ok []) w v h = refl
  nothing_found (ok (m ∷ mismatches)) w v h = absurd (ground arith)

  -- Exit code 0 of agentdocgen -check means that the repository holds exactly what Plan makes of its
  -- sources: the file of each output is there, is no symbolic link and has the output's content up to
  -- line endings, and each managed path is the path of an output.
  pub run-AllUpToDate :
      (args : List Text) (root : Text) (w v : W)
      → shell.parse_flags args ≡ ok (root, true)
      → run args w ≡ (0, v)
      → (outputs : List Output) × (plan (store.files w) writers root ≡ ok outputs)
        × AllUpToDate (store.files w) root outputs
        × (current : List Text) × (managed_paths (store.files w) root ≡ ok current)
        × (all_of (λ path. has_path path outputs) current ≡ true)
  unfolding run
  run-AllUpToDate args root w v flags h =
      check-AllUpToDate (store.files w) root writers
        (nothing_found (check (store.files w) root writers) w v (rw flags at h))
