-- ===== src/AgentDocs/Write.antt =====
-- internal/agentdocs/generate.go: Write, over a world in which files are written and removed.
use dns_update.Prelude.{◌||◌, List, [], ◌∷◌, ◌++◌, if◌then◌else◌, is_empty}
use dns_update.Text.{Text, codes, text_eq, has_prefix}
use dns_update.Stdlib.{Stdlib}
use dns_update.Failure.{Result, ok, err, ◌>>=◌}
use dns_update.Config.Urls.{fail, within}
use dns_update.App.{Exec}
use dns_update.AgentDocs.{Output, Writers}
use dns_update.AgentDocs.Sources.{Files, plan}
use dns_update.AgentDocs.Files.{abs_path, first_managed_symlink, stale_managed_paths}

-- The files of a world, os.Remove, os.MkdirAll of the directory of a path, and os.WriteFile.
pub record Store (W : Type 0) : Type 0 where
  pub files : W → Files
  pub remove_path : Text → Exec W (Unit {0})
  pub make_dirs_of : Text → Exec W (Unit {0})
  pub write_file : Text → Text → Exec W (Unit {0})

-- Goes on after a call that succeeded.
abbrev pub then_do :
    {W : Type 0} → Result (Unit {0}) × W → (W → Result (Unit {0}) × W) → Result (Unit {0}) × W
then_do (err e, w) next = (err e, w)
then_do (ok done, w) next = next w

-- The error of a call, with what it was about.
abbrev pub named : {W : Type 0} → Text → Result (Unit {0}) × W → Result (Unit {0}) × W
named context (done, w) = (within context done, w)

abbrev no_symlink : Text → Text → Result (Unit {0})
no_symlink rel_path symlink_path =
    if is_empty symlink_path
    then ok tt
    else fail (
        codes "managed output path " ++ (rel_path ++ (codes " traverses symlink " ++ symlink_path)))

unfoldable pub ensure_safe_write_path : Files → Text → Text → Result (Unit {0})
unfolding first_managed_symlink
ensure_safe_write_path files root rel_path =
    let rel_to_root = files.rel root (abs_path files root rel_path) in
    if text_eq rel_to_root (codes "..")
      || has_prefix rel_to_root (codes ".." ++ files.separator ∷ [])
    then fail (codes "generated path escapes repository root: " ++ rel_path)
    else first_managed_symlink files root rel_path >>= no_symlink rel_path

module _ ⦃std : Stdlib⦄ {W : Type 0} (store : Store W) (writers : Writers) (root : Text) where
  unfoldable pub remove_stale : List Text → Exec W (Unit {0})
  remove_stale [] w = (ok tt, w)
  remove_stale (path ∷ paths) w =
      then_do
        (named (codes "remove stale " ++ path)
          (store.remove_path (abs_path (store.files w) root path) w))
        (remove_stale paths)

  abbrev pub write_output : Output → Exec W (Unit {0})
  write_output output w =
      let path = abs_path (store.files w) root output.path in
      then_do (ensure_safe_write_path (store.files w) root output.path, w)
        (λ w.
          then_do (store.make_dirs_of path w)
            (λ w. named (codes "write " ++ path) (store.write_file path output.content w)))

  unfoldable pub write_outputs : List Output → Exec W (Unit {0})
  unfolding ensure_safe_write_path
  write_outputs [] w = (ok tt, w)
  write_outputs (output ∷ outputs) w = then_do (write_output output w) (write_outputs outputs)

  abbrev pub with_stale : List Output → Result (List Text) → Exec W (Unit {0})
  with_stale outputs (err e) w = (err e, w)
  with_stale outputs (ok stale) w = then_do (remove_stale stale w) (write_outputs outputs)

  abbrev pub with_plan : Result (List Output) → Exec W (Unit {0})
  with_plan (err e) w = (err e, w)
  with_plan (ok outputs) w = with_stale outputs (stale_managed_paths (store.files w) root outputs) w

  unfoldable pub write : Exec W (Unit {0})
  unfolding remove_stale write_outputs plan stale_managed_paths
  write w = with_plan (plan (store.files w) writers root) w
