-- ===== src/AgentDocs/Sources.antt =====
-- internal/agentdocs/load.go, and Plan and splitSources of generate.go. The repository's files are a
-- parameter.
use dns_update.Prelude.{
  ℕ, Bool, true, false, not, List, [], ◌∷◌, ◌++◌, if◌then◌else◌, is_empty, any_of,
}
use dns_update.Text.{Text, codes, text_eq, text_lt}
use dns_update.Stdlib.{Stdlib}
use dns_update.Failure.{Error, not_exist, Result, ok, err, ◌>>=◌, ◌>>◌}
use dns_update.Os.{FileInfo}
use dns_update.Config.Urls.{fail, within}
use dns_update.AgentDocs.{
  Source, Output, Writers, kind_contract, kind_skill, render_contract, render_skill,
}
use dns_update.AgentDocs.Parse.{parse_document}

-- os.Lstat, os.ReadFile, filepath.Glob, Join and Rel, ToSlash and FromSlash, and filepath.WalkDir: the
-- paths below a directory, with whether each is a directory itself.
pub record Files : Type 0 where
  pub lstat : Text → Result FileInfo
  pub read_file : Text → Result Text
  pub glob : Text → List Text
  pub join_path : List Text → Text
  pub rel : Text → Text → Text
  pub to_slash : Text → Text
  pub from_slash : Text → Text
  pub separator : ℕ
  pub walk_dir : Text → Result (List (Text × Bool))

-- os.IsNotExist, which does not look into a chain.
abbrev pub is_missing : Error → Bool
is_missing (not_exist path) = true
is_missing e = false

abbrev pub not_a_link : Text → FileInfo → Result (Unit {0})
not_a_link root info =
    if info.is_symlink
    then fail (codes "repository root must not be a symlink: " ++ root)
    else ok tt

abbrev pub root_info : Text → Result FileInfo → Result (Unit {0})
root_info root (ok info) = not_a_link root info
root_info root (err e) = if is_missing e then ok tt else err e

-- What splitSources has found so far: the contract and the skills.
abbrev pub add_source : Source → List Source → Source → Result (Source × List Source)
add_source contract skills source =
    if text_eq source.kind kind_contract
    then (if not (is_empty contract.path)
        then fail (codes "multiple contract documents found")
        else ok (source, skills))
    else if text_eq source.kind kind_skill
    then ok (contract, skills ++ source ∷ [])
    else fail (codes "unsupported kind " ++ source.kind)

abbrev pub with_contract : Source × List Source → Result (Source × List Source)
with_contract (contract, skills) =
    if is_empty contract.path
    then fail (codes "missing contract document")
    else ok (contract, skills)

abbrev pub no_source : Source
no_source = record { path = []; kind = []; slug = []; title = []; summary = []; body = [] }

unfoldable pub split_from : Source × List Source → List Source → Result (Source × List Source)
split_from found [] = with_contract found
split_from (contract, skills) (source ∷ sources) =
    add_source contract skills source >>= λ found. split_from found sources

unfoldable pub split_sources : List Source → Result (Source × List Source)
unfolding split_from
split_sources sources = split_from (no_source, []) sources

abbrev pub has_path : Text → List Output → Bool
has_path path = any_of (λ output. text_eq output.path path)

-- The inner loop of Plan: the outputs so far hold the paths that were seen.
unfoldable pub add_outputs : List Output → List Output → Result (List Output)
add_outputs outputs [] = ok outputs
add_outputs outputs (output ∷ more) =
    let rest = add_outputs (outputs ++ output ∷ []) more in
    if has_path output.path outputs
    then fail (codes "duplicate generated path " ++ output.path)
    else rest

unfoldable pub add_skills : Writers → List Output → List Source → Result (List Output)
unfolding add_outputs
add_skills writers outputs [] = ok outputs
add_skills writers outputs (skill ∷ skills) =
    add_outputs outputs (render_skill writers skill) >>= λ more. add_skills writers more skills

abbrev pub output_less : Output → Output → Bool
output_less a b = text_lt a.path b.path

module _ ⦃std : Stdlib⦄ (files : Files) (writers : Writers) (root : Text) where
  -- sort.Strings
  abbrev pub sort_strings : List Text → List Text
  sort_strings = std.sort_slice Text text_lt

  unfoldable pub reject_symlink_root : Result (Unit {0})
  reject_symlink_root = root_info root (files.lstat root)

  abbrev pub read_source : Text → FileInfo → Result Source
  read_source abs_path info =
      if not info.is_regular
      then fail (codes "canonical source must be a regular file: " ++ abs_path)
      else within (codes "read " ++ abs_path) (files.read_file abs_path) >>= λ content.
          parse_document (files.to_slash (files.rel root abs_path)) content

  abbrev pub load_source : Text → Result Source
  load_source abs_path =
      within (codes "lstat " ++ abs_path) (files.lstat abs_path) >>= read_source abs_path

  unfoldable pub load_sources : List Text → Result (List Source)
  unfolding parse_document
  load_sources [] = ok []
  load_sources (path ∷ paths) =
      load_source path >>= λ source. load_sources paths >>= λ sources. ok (source ∷ sources)

  abbrev pub contract_path : Text
  contract_path = files.join_path (root ∷ codes "docs" ∷ codes "agents" ∷ codes "contract.md" ∷ [])

  abbrev pub skill_paths : List Text
  skill_paths = sort_strings (
      files.glob (
        files.join_path
          (root ∷ codes "docs" ∷ codes "agents" ∷ codes "skills" ∷ codes "*.md" ∷ [])))

  unfoldable pub load_docs : Result (List Source)
  unfolding load_sources reject_symlink_root
  load_docs = reject_symlink_root >> load_sources (contract_path ∷ skill_paths)

  abbrev pub planned : Source × List Source → Result (List Output)
  planned (contract, skills) =
      add_skills writers (render_contract writers contract skills) skills >>= λ outputs.
      ok (std.sort_slice Output output_less outputs)

  unfoldable pub plan : Result (List Output)
  unfolding load_docs split_sources add_skills
  plan = load_docs >>= λ sources. split_sources sources >>= planned
