-- ===== src/Tests/Documents.antt =====
-- A repository with one canonical document and what is generated from it.
use dns_update.Prelude.{
  ℕ, ◌≡◌, refl, Bool, true, false, some, List, [], ◌∷◌, ◌++◌, if◌then◌else◌, all_of, ◌||◌,
}
use dns_update.Text.{Text, codes, text_eq, has_prefix, trim_prefix, join, has_suffix, trim_space}
use dns_update.Failure.{ok, err, not_exist}
use dns_update.Os.{FileInfo}
use dns_update.AgentDocs.{Source, Output, Writers, kind_contract, render_contract}
use dns_update.AgentDocs.Parse.{parse_document, start_marker, end_marker, field}
use dns_update.AgentDocs.Document.{IsSource, parse_document-IsSource}
use dns_update.AgentDocs.Sources.{Files, has_path, plan}
use dns_update.AgentDocs.Files.{managed_paths}
use dns_update.AgentDocs.Check.{AllUpToDate}
use dns_update.AgentDocs.Distinct.{distinct_paths, plan-distinct}
use dns_update.AgentDocs.Write.{Store}
use dns_update.AgentDocs.Generator.{Shell, run-AllUpToDate}
use dns_update.AgentDocs.Generator
use dns_update.Text.Cut.{normalize_newlines, cut, trim_left_lines, trim_right_lines}
use dns_update.RepoPolicy.{Project, check, project_files, contains}
use dns_update.RepoPolicy.Findings.{AllAllowed, check-AllAllowed}
use dns_update.Tests.Instance.{sample_std}

abbrev regular : FileInfo
regular = record { is_symlink = false; is_dir = false; is_regular = true; perm = 420 }

abbrev directory : FileInfo
directory = record { is_symlink = false; is_dir = true; is_regular = false; perm = 493 }

abbrev line : Text → Text
line t = t ++ 10 ∷ []

-- The contract, with the line endings of Windows in its first line.
abbrev document : Text
document =
    (codes "---" ++ 13 ∷ 10 ∷ [])
    ++ (line (codes "kind: contract")
        ++ (line (codes "slug: contract")
            ++ (line (codes "title: Rules")
                ++ (line (codes "---") ++ (line (codes "# Rules") ++ line (codes "Be careful."))))))

abbrev is_document : Text → Bool
is_document path = text_eq path (codes "r/docs/agents/contract.md")

abbrev is_output : Text → Bool
is_output path =
    text_eq path (codes "r/AGENTS.md")
    || (text_eq path (codes "r/CLAUDE.md") || text_eq path (codes "r/GEMINI.md"))

abbrev sample_files : Files
sample_files = record {
  lstat = λ t.
      if text_eq t (codes "r")
      then ok directory
      else if is_document t || is_output t
      then ok regular
      else err (not_exist t);
  read_file = λ t.
      if is_document t
      then ok document
      else if is_output t
      then ok (line (codes "Be careful."))
      else err (not_exist t);
  glob = λ pattern. [];
  join_path = λ parts. join parts (codes "/");
  rel = λ root path. trim_prefix path (root ++ codes "/");
  to_slash = λ t. t;
  from_slash = λ t. t;
  separator = 47;
  walk_dir = λ t. ok [];
}

abbrev sample_writers : Writers
sample_writers = record {
  join_all = λ parts. join parts (codes "/");
  quote = λ t. codes "\"" ++ (t ++ codes "\"");
}

abbrev contract : Source
contract = record {
  path = codes "docs/agents/contract.md";
  kind = kind_contract;
  slug = codes "contract";
  title = codes "Rules";
  summary = [];
  body = line (codes "# Rules") ++ line (codes "Be careful.");
}

abbrev outputs : List Output
outputs =
    record { path = codes "AGENTS.md"; content = line (codes "Be careful.") }
    ∷ record { path = codes "CLAUDE.md"; content = line (codes "Be careful.") }
    ∷ record { path = codes "GEMINI.md"; content = line (codes "Be careful.") }
    ∷ []

parsed : parse_document (codes "docs/agents/contract.md") document ≡ ok contract
unfolding parse_document field has_prefix trim_prefix trim_space join cut normalize_newlines
    trim_left_lines trim_right_lines
parsed = refl

parse_document-IsSource_example :
    (header rest : Text) × (normalize_newlines document
      ≡ start_marker ++ (header ++ (end_marker ++ rest)))
    × IsSource (codes "docs/agents/contract.md") (trim_prefix rest (10 ∷ [])) contract
parse_document-IsSource_example =
    parse_document-IsSource (codes "docs/agents/contract.md") document contract parsed

plan_made : plan sample_files sample_writers (codes "r") ≡ ok outputs
unfolding plan render_contract field has_prefix trim_prefix trim_space join cut normalize_newlines
    trim_left_lines trim_right_lines
plan_made = refl

plan-distinct_example : distinct_paths outputs ≡ true
plan-distinct_example = plan-distinct sample_files sample_writers (codes "r") outputs plan_made

abbrev sample_store : Store ℕ
sample_store = record {
  files = λ w. sample_files;
  remove_path = λ path w. (ok tt, w);
  make_dirs_of = λ path w. (ok tt, w);
  write_file = λ path text w. (ok tt, w);
}

abbrev sample_shell : Shell ℕ
sample_shell = record {
  parse_flags = λ args. ok (codes "r", true);
  print_error = λ e w. w;
  print_summary = λ text w. w;
}

checked : Generator.run sample_shell sample_store sample_writers (codes "-check" ∷ []) 0 ≡ (0, 0)
unfolding Generator.run plan render_contract field has_prefix trim_prefix trim_space join cut
    normalize_newlines trim_left_lines trim_right_lines
checked = refl

run-AllUpToDate_example :
    (outputs : List Output) × (plan sample_files sample_writers (codes "r") ≡ ok outputs)
    × AllUpToDate sample_files (codes "r") outputs
    × (current : List Text) × (managed_paths sample_files (codes "r") ≡ ok current)
    × (all_of (λ path. has_path path outputs) current ≡ true)
run-AllUpToDate_example =
    run-AllUpToDate sample_shell sample_store sample_writers (codes "-check" ∷ []) (codes "r") 0 0
      refl checked

abbrev sample_project : Project
sample_project = record {
  lstat_file = λ path. if text_eq path (codes "docs") then ok directory else ok regular;
  read_file = λ path. ok (line (codes "package main"));
  to_slash = λ t. t;
  git_files = ok (some (codes "main.go" ++ (0 ∷ codes "docs" ++ 0 ∷ [])));
  walk_dir = [];
  local_unix_checkout = λ content. has_prefix content (codes "/home/");
  local_windows_checkout = λ content. false;
}

project_checked : check sample_project ≡ ok []
unfolding check contains has_suffix has_prefix trim_prefix trim_space join cut normalize_newlines
    trim_left_lines trim_right_lines
project_checked = refl

check-AllAllowed_example :
    (paths : List Text) × (project_files sample_project ≡ ok paths)
    × AllAllowed sample_project paths
check-AllAllowed_example = check-AllAllowed sample_project project_checked
