-- ===== src/RepoPolicy/Findings.antt =====
-- internal/repopolicy/policy.go: what it means that Check finds nothing.
use dns_update.Prelude.{
  ◌≡◌, refl, ap, ◌∙◌, ◌⊎◌, inl, inr, true, false, List, [], ◌∷◌, ◌++◌, arith, any_of,
  append_nothing, Bool-cases,
}
use dns_update.Prelude.Rearrange.{nothing-perm}
use dns_update.Text.{Text}
use dns_update.Text.Cut.{normalize_newlines}
use dns_update.Stdlib.{Stdlib}
use dns_update.Failure.{Result, ok, err, step_ok}
use dns_update.Os.{FileInfo}
use dns_update.AgentDocs.Sources.{is_missing}
use dns_update.RepoPolicy.{
  Finding, Rule, Project, blocked_path_rules, blocked_content_rules, broken, is_binary, of_read,
  of_found, file_findings, check_files, project_files, checked_files, check, finding_less,
  content_findings,
}

-- No rule of a list applies.
abbrev pub Unbroken : List Rule → Text → Type 0
Unbroken rules subject = any_of (λ (rule : Rule). rule.applies subject) rules ≡ false

nothing_broken :
    (path subject : Text) (rules : List Rule)
    → broken path subject rules ≡ []
    → Unbroken rules subject
unfolding broken
nothing_broken path subject [] h = refl
nothing_broken path subject (rule ∷ rules) h = elim (Bool-cases (rule.applies subject)) [
  | inl applies ↦ absurd (ground arith)
  | inr fine ↦ rw fine (nothing_broken path subject rules (rw fine at h))
]

module _ (project : Project) where
  -- A content that breaks no rule; the content rules are not for binary files.
  abbrev pub Allowed : Text → Text → Type 0
  Allowed path content =
      Unbroken blocked_path_rules path
      × ((is_binary content ≡ true)
          ⊎ Unbroken (blocked_content_rules project) (normalize_newlines content))

  -- A regular file: its content is allowed, or it went away before it was read.
  abbrev pub AllowedRead : Text → Result Text → Type 0
  AllowedRead path (ok content) = Allowed path content
  AllowedRead path (err e) = is_missing e ≡ true

  -- A listed path: a regular file with an allowed content, another kind of file but no symbolic link, or
  -- no file at all.
  abbrev pub AllowedFile : Text → Result FileInfo → Type 0
  AllowedFile path (err e) = is_missing e ≡ true
  AllowedFile path (ok info) =
      (info.is_symlink ≡ false)
      × ((info.is_regular ≡ false) ⊎ AllowedRead path (project.read_file path))

  abbrev pub AllAllowed : List Text → Type 0
  AllAllowed [] = Unit
  AllAllowed (path ∷ paths) = AllowedFile path (project.lstat_file path) × AllAllowed paths

  read_allowed :
      (path : Text) (read : Result Text) → of_read project path read ≡ ok [] → AllowedRead path read
  read_allowed path (err e) h = elim (Bool-cases (is_missing e)) [
    | inl gone ↦ gone
    | inr other ↦ absurd (ground arith)
  ]
  read_allowed path (ok content) h =
      let nothing : content_findings project path content ≡ [] = cc h in
      let (by_path, by_content) = append_nothing (broken path path blocked_path_rules) _ nothing in
      (
        nothing_broken path path blocked_path_rules by_path,
        elim (Bool-cases (is_binary content)) [
          | inl binary ↦ inl binary
          | inr text ↦ inr (
              nothing_broken path (normalize_newlines content) (blocked_content_rules project)
                (rw text at by_content))
        ],
      )

  found_allowed :
      (path : Text) (found : Result FileInfo)
      → of_found project path found ≡ ok []
      → AllowedFile path found
  found_allowed path (err e) h = elim (Bool-cases (is_missing e)) [
    | inl gone ↦ gone
    | inr other ↦ absurd (ground arith)
  ]
  found_allowed path (ok info) h = elim (Bool-cases info.is_symlink) [
    | inl link ↦ absurd (ground arith)
    | inr plain ↦ elim (Bool-cases info.is_regular) [
      | inr special ↦ (plain, inl special)
      | inl regular ↦
          (plain, inr (read_allowed path (project.read_file path) (rw (plain, regular) at h)))
    ]
  ]

  check_files-AllAllowed :
      (findings : List Finding) (paths : List Text)
      → check_files project findings paths ≡ ok []
      → (findings ≡ []) × AllAllowed paths
  unfolding check_files
  check_files-AllAllowed findings [] h = (cc h, tt)
  check_files-AllAllowed findings (path ∷ paths) h =
      let (found, looked, rest) = step_ok (file_findings project path) _ h in
      let (nothing, others) = check_files-AllAllowed (findings ++ found) paths rest in
      let (before, none_here) = append_nothing findings found nothing in
      (
        before,
        (
          found_allowed path (project.lstat_file path)
              (unfold file_findings in looked ∙ ap ok none_here),
          others,
        ),
      )

  module _ ⦃std : Stdlib⦄ where
    -- If Check finds nothing, each of the project's files is no symbolic link, and where it is a regular
    -- file that is still there, it breaks no rule for its path and, unless it is binary, none for its
    -- content.
    pub check-AllAllowed :
        check project ≡ ok []
        → (paths : List Text) × (project_files project ≡ ok paths) × AllAllowed paths
    unfolding check
    check-AllAllowed h =
        let (paths, listed, rest) = step_ok (project_files project) (checked_files project) h in
        let (findings, found, last) = step_ok (check_files project [] paths) _ rest in
        let nothing : findings ≡ [] =
          nothing-perm (std.sort_slice-perm Finding finding_less findings) (cc last) in
        let (before, allowed) = check_files-AllAllowed [] paths (found ∙ ap ok nothing) in
        (paths, listed, allowed)
