-- ===== src/RepoPolicy.antt =====
-- internal/repopolicy/policy.go: Check over the files of a repository. The two regular expressions for
-- local paths and the files are parameters.
pub mod Findings
use dns_update.Prelude.{
  ℕ, Bool, true, false, not, ◌&&◌, ◌||◌, Option, none, some, List, [], ◌∷◌, ◌++◌, ◌==◌, map,
  if◌then◌else◌, is_empty, any_of, select,
}
use dns_update.Text.{Text, codes, text_eq, text_lt, has_prefix, has_suffix, split_at}
use dns_update.Text.Cut.{cut, normalize_newlines}
use dns_update.Stdlib.{Stdlib}
use dns_update.Failure.{Error, Result, ok, err, wrapped, ◌>>=◌}
use dns_update.Os.{FileInfo}
use dns_update.AgentDocs.Sources.{is_missing}

pub record Finding : Type 0 where
  pub path : Text
  pub text : Text

-- A pathRule or a contentRule.
pub record Rule : Type 0 where
  pub text : Text
  pub applies : Text → Bool

-- An entry that WalkDir comes to, with its path relative to the root and with slashes.
pub record Entry : Type 0 where
  pub path : Text
  pub is_dir : Bool
  pub is_regular : Bool
  pub walk_error : Option Error

-- What the file system and git say. `git_files` is the output of git ls-files -z, none where git exits
-- with an error, and `walk_dir` the calls that WalkDir makes where no directory is skipped.
pub record Project : Type 0 where
  pub lstat_file : Text → Result FileInfo
  pub read_file : Text → Result Text
  pub to_slash : Text → Text
  pub git_files : Result (Option Text)
  pub walk_dir : List Entry
  pub local_unix_checkout : Text → Bool
  pub local_windows_checkout : Text → Bool

-- strings.Contains
unfoldable pub contains : Text → Text → Bool
unfolding cut
contains t part = elim (cut t part) [ none ↦ false | some parts ↦ true ]

abbrev pub blocked_path_rules : List Rule
blocked_path_rules =
    record {
      text = codes "tracked analysis artifacts do not belong in the public repository";
      applies = λ path. text_eq path (codes "security_best_practices_report.md");
    }
    ∷ record {
      text = codes "tracked build or test detritus does not belong in the public repository";
      applies = λ path.
          has_prefix path (codes "out/")
          || (has_prefix path (codes "coverage/")
              || (has_prefix path (codes "reports/") || has_prefix path (codes ".stryker-tmp/")));
    }
    ∷ record {
      text = codes "tracked transient compiler state does not belong in the public repository";
      applies = λ path. has_suffix path (codes ".tsbuildinfo");
    }
    ∷ []

abbrev local_text : Text
local_text =
    codes "local checkout, temp, or evidence paths do not belong in public repository content"

abbrev visibility_text : Text
visibility_text = codes "non-public visibility markers do not belong in public repository content"

abbrev pub blocked_content_rules : Project → List Rule
blocked_content_rules project =
    record { text = local_text; applies = project.local_unix_checkout }
    ∷ record { text = local_text; applies = project.local_windows_checkout }
    ∷ record {
      text = codes "non-public repository references do not belong in public repository content";
      applies = λ content.
          contains content (codes "cloudflare-site-platform-ts")
          || (contains content (codes "cloudflare-site-platforms-ts")
              || contains content (codes "workcell"));
    }
    ∷ record {
      text = visibility_text;
      applies = λ content. contains content (codes "private-only");
    }
    ∷ record {
      text = visibility_text;
      applies = λ content. contains content (codes "internal-only");
    }
    ∷ []

-- The findings of a file under a list of rules.
unfoldable pub broken : Text → Text → List Rule → List Finding
broken path subject [] = []
broken path subject (rule ∷ rules) =
    let rest = broken path subject rules in
    if rule.applies subject then record { path = path; text = rule.text } ∷ rest else rest

abbrev pub is_binary : Text → Bool
is_binary = any_of (λ c. c == 0)

abbrev pub symlink_finding : Text → Finding
symlink_finding path = record {
  path = path;
  text = codes "tracked symlinks do not belong in the public repository";
}

-- The findings of a file with this content.
abbrev pub content_findings : Project → Text → Text → List Finding
content_findings project path content =
    broken path path blocked_path_rules
    ++ (if is_binary content
        then []
        else broken path (normalize_newlines content) (blocked_content_rules project))

abbrev pub of_read : Project → Text → Result Text → Result (List Finding)
of_read project path (ok content) = ok (content_findings project path content)
of_read project path (err e) =
    if is_missing e then ok [] else err (wrapped (codes "read " ++ path) e)

abbrev pub of_found : Project → Text → Result FileInfo → Result (List Finding)
of_found project path (err e) =
    if is_missing e then ok [] else err (wrapped (codes "lstat " ++ path) e)
of_found project path (ok info) =
    if info.is_symlink
    then ok (symlink_finding path ∷ [])
    else if not info.is_regular
    then ok []
    else of_read project path (project.read_file path)

unfoldable pub file_findings : Project → Text → Result (List Finding)
unfolding broken contains
file_findings project path = of_found project path (project.lstat_file path)

-- The loop of Check.
unfoldable pub check_files : Project → List Finding → List Text → Result (List Finding)
unfolding file_findings
check_files project findings [] = ok findings
check_files project findings (path ∷ paths) =
    file_findings project path >>= λ found. check_files project (findings ++ found) paths

abbrev pub finding_less : Finding → Finding → Bool
finding_less a b = if text_eq a.path b.path then text_lt a.text b.text else text_lt a.path b.path

-- filepath.SkipDir for .git: nothing below it is visited.
abbrev is_skipped : Entry → Bool
is_skipped entry = has_prefix entry.path (codes ".git/")

abbrev is_kept : Entry → Bool
is_kept entry =
    if text_eq entry.path (codes ".")
    then false
    else if entry.is_dir
    then false
    else entry.is_regular

-- The files that the function of WalkDir appends; it stops at the first error, which it does not meet
-- below a directory that it skips.
unfoldable pub walked_files : List Entry → Result (List Text)
walked_files [] = ok []
walked_files (entry ∷ entries) =
    let rest = walked_files entries in
    if is_skipped entry then rest else elim entry.walk_error [
      | some e ↦ err e
      | none ↦ if is_kept entry then (rest >>= λ files. ok (entry.path ∷ files)) else rest
    ]

module _ ⦃std : Stdlib⦄ (project : Project) where
  abbrev sort_strings : List Text → List Text
  sort_strings = std.sort_slice Text text_lt

  -- The names in the output of git ls-files -z.
  unfoldable pub listed_files : Text → List Text
  unfolding split_at
  listed_files output =
      map project.to_slash (select (λ raw. not (is_empty raw)) (split_at 0 output))

  unfoldable pub of_git : Option Text → Result (List Text)
  unfolding listed_files walked_files
  of_git (some output) = ok (sort_strings (listed_files output))
  of_git none = walked_files project.walk_dir >>= λ files. ok (sort_strings files)

  -- projectFiles with trackedFiles.
  unfoldable pub project_files : Result (List Text)
  unfolding of_git
  project_files = project.git_files >>= of_git

  abbrev pub checked_files : List Text → Result (List Finding)
  checked_files files =
      check_files project [] files >>= λ findings. ok (std.sort_slice Finding finding_less findings)

  unfoldable pub check : Result (List Finding)
  unfolding project_files check_files
  check = project_files >>= checked_files
