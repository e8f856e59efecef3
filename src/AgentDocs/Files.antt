-- ===== src/AgentDocs/Files.antt =====
-- internal/agentdocs/generate.go: the managed files of a repository, and Check.
use dns_update.Prelude.{
  Bool, true, false, not, List, [], ◌∷◌, ◌++◌, map, if◌then◌else◌, is_empty, any_of, select,
}
use dns_update.Text.{Text, codes, text_eq, text_lt, join, split_at}
use dns_update.Text.Cut.{normalize_newlines}
use dns_update.Stdlib.{Stdlib}
use dns_update.Failure.{Result, ok, err, wrapped, ◌>>=◌}
use dns_update.Os.{FileInfo}
use dns_update.Config.Urls.{fail}
use dns_update.AgentDocs.{Output, Mismatch, Writers}
use dns_update.AgentDocs.Sources.{Files, is_missing, has_path, plan}

-- What readManagedOutput returns.
pub data Managed : Type 0 where
  content : Text → Managed
  missing : Managed
  invalid : Managed

abbrev pub text_in : List Text → Text → Bool
text_in texts t = any_of (λ u. text_eq u t) texts

-- One output of Check: its mismatch, if it has one.
abbrev pub compared : Output → Managed → List Mismatch
compared output missing =
    record {
      path = output.path;
      expected = output.content;
      observed = [];
      missing = true;
      stale = false;
      invalid = false;
    }
    ∷ []
compared output invalid =
    record {
      path = output.path;
      expected = [];
      observed = [];
      missing = false;
      stale = false;
      invalid = true;
    }
    ∷ []
compared output (content observed) =
    if not (text_eq (normalize_newlines observed) (normalize_newlines output.content))
    then record {
      path = output.path;
      expected = output.content;
      observed = observed;
      missing = false;
      stale = false;
      invalid = false;
    }
      ∷ []
    else []

abbrev pub stale_mismatch : Text → Mismatch
stale_mismatch path = record {
  path = path;
  expected = [];
  observed = [];
  missing = false;
  stale = true;
  invalid = false;
}

unfoldable pub format_mismatch : Mismatch → Text
format_mismatch m =
    if m.stale
    then m.path ++ codes " is stale and should be removed"
    else if m.invalid
    then m.path ++ codes " is invalid and should be replaced"
    else if m.missing
    then m.path ++ codes " is missing"
    else m.path ++ codes " is out of date"

unfoldable pub summary : List Mismatch → Text
unfolding format_mismatch
summary mismatches = join (map format_mismatch mismatches) (10 ∷ [])

module _ (files : Files) (root : Text) where
  abbrev pub abs_path : Text → Text
  abs_path path = files.join_path (root ∷ files.from_slash path ∷ [])

  -- firstManagedSymlink from a part on; `before` are the parts before it.
  abbrev pub next_part :
      Text → Bool → Text → (Unit {0} → Result Text) → Result FileInfo → Result Text
  next_part rel_path is_last found rest (ok info) = if info.is_symlink then ok found else rest tt
  next_part rel_path is_last found rest (err e) =
      if is_missing e
      then (if is_last then ok [] else rest tt)
      else err (wrapped (codes "lstat " ++ rel_path) e)

  unfoldable pub first_symlink : Text → Text → List Text → List Text → Result Text
  first_symlink rel_path current before [] = ok []
  first_symlink rel_path current before (part ∷ parts) =
      let next = files.join_path (current ∷ part ∷ []) in
      let seen = before ++ part ∷ [] in
      let rest = first_symlink rel_path next seen parts in
      next_part rel_path (is_empty parts) (files.to_slash (files.join_path seen)) (λ done. rest)
        (files.lstat next)

  unfoldable pub first_managed_symlink : Text → Result Text
  unfolding first_symlink
  first_managed_symlink rel_path =
      first_symlink rel_path root [] (split_at files.separator (files.rel root (abs_path rel_path)))

  abbrev pub of_content : Text → Result Text → Result Managed
  of_content path (ok observed) = ok (content observed)
  of_content path (err e) = err (wrapped (codes "read " ++ path) e)

  abbrev pub of_info : Text → Result FileInfo → Result Managed
  of_info path (err e) =
      if is_missing e then ok missing else err (wrapped (codes "read " ++ path) e)
  of_info path (ok info) =
      if info.is_symlink then ok invalid else of_content path (files.read_file path)

  unfoldable pub read_managed_output : Text → Result Managed
  read_managed_output path = of_info path (files.lstat path)

  abbrev pub of_root : Text → Result FileInfo → Result Bool
  of_root rel_root (err e) = if is_missing e then ok false else err e
  of_root rel_root (ok info) =
      if not info.is_dir then fail (rel_root ++ codes ": not a directory") else ok true

  unfoldable pub stat_managed_root : Text → Text → Result Bool
  stat_managed_root abs_root rel_root = of_root rel_root (files.lstat abs_root)

  abbrev pub if_file : List Text → Text → Result FileInfo → List Text
  if_file paths rel_path (err e) = paths
  if_file paths rel_path (ok info) = if info.is_dir then paths else paths ++ rel_path ∷ []

  unfoldable pub append_if_file : List Text → Text → List Text
  append_if_file paths rel_path =
      if_file paths rel_path (files.lstat (files.join_path (root ∷ rel_path ∷ [])))

  -- The function that WalkDir calls, over its entries.
  abbrev pub file_paths : List (Text × Bool) → List Text
  file_paths [] = []
  file_paths ((path, is_dir) ∷ entries) =
      let rest = file_paths entries in
      if is_dir then rest else files.to_slash (files.rel root path) ∷ rest

  abbrev pub walked : List Text → Text → Bool → Result (List Text)
  walked paths abs_root exists =
      if not exists
      then ok paths
      else files.walk_dir abs_root >>= λ entries. ok (paths ++ file_paths entries)

  abbrev pub root_paths : List Text → Text → Text → Result (List Text)
  root_paths paths rel_root symlink_path =
      if not (is_empty symlink_path)
      then ok (paths ++ symlink_path ∷ [])
      else stat_managed_root (files.join_path (root ∷ rel_root ∷ [])) (files.to_slash rel_root)
        >>= walked paths (files.join_path (root ∷ rel_root ∷ []))

  unfoldable pub add_roots : List Text → List Text → Result (List Text)
  unfolding first_managed_symlink stat_managed_root
  add_roots paths [] = ok paths
  add_roots paths (rel_root ∷ rel_roots) =
      first_managed_symlink (files.to_slash rel_root) >>= root_paths paths rel_root >>= λ more.
      add_roots more rel_roots

  abbrev pub managed_roots : List Text
  managed_roots =
      files.join_path (codes ".agents" ∷ codes "skills" ∷ [])
      ∷ files.join_path (codes ".claude" ∷ codes "skills" ∷ [])
      ∷ files.join_path (codes ".gemini" ∷ codes "commands" ∷ [])
      ∷ []

  abbrev pub root_documents : List Text
  root_documents =
      append_if_file (append_if_file (append_if_file [] (codes "AGENTS.md")) (codes "CLAUDE.md"))
        (codes "GEMINI.md")

  -- The loop of Check over the outputs.
  unfoldable pub compare_outputs : List Mismatch → List Output → Result (List Mismatch)
  unfolding read_managed_output
  compare_outputs mismatches [] = ok mismatches
  compare_outputs mismatches (output ∷ outputs) =
      read_managed_output (abs_path output.path) >>= λ observed.
      compare_outputs (mismatches ++ compared output observed) outputs

  module _ ⦃std : Stdlib⦄ where
    unfoldable pub managed_paths : Result (List Text)
    unfolding add_roots append_if_file
    managed_paths =
        add_roots root_documents managed_roots >>= λ paths. ok (std.sort_slice Text text_lt paths)

    abbrev pub stale_of : List Output → List Text → List Text
    stale_of outputs current =
        std.sort_slice Text text_lt (select (λ path. not (has_path path outputs)) current)

    unfoldable pub stale_managed_paths : List Output → Result (List Text)
    unfolding managed_paths
    stale_managed_paths outputs = managed_paths >>= λ current. ok (stale_of outputs current)

    abbrev pub check_outputs : List Output → Result (List Mismatch)
    check_outputs outputs =
        stale_managed_paths outputs >>= λ stale. compare_outputs (map stale_mismatch stale) outputs

    -- Check; ErrOutOfDate comes with a list that is not empty.
    unfoldable pub check : Writers → Result (List Mismatch)
    unfolding stale_managed_paths compare_outputs
    check writers = plan files writers root >>= check_outputs
