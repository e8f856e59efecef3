-- ===== src/AgentDocs/Check.antt =====
-- internal/agentdocs/generate.go: what it means that Check finds nothing.
use dns_update.Prelude.{
  ◌≡◌, refl, ap, ◌∙◌, Bool, true, false, not, List, [], ◌∷◌, ◌++◌, map, arith, all_of, select,
  append_nothing, Bool-cases, inl, inr,
}
use dns_update.Prelude.Rearrange.{nothing-perm}
use dns_update.Text.{Text, text_eq, text_lt}
use dns_update.Text.Laws.{eq-of_text_eq}
use dns_update.Text.Cut.{normalize_newlines}
use dns_update.Stdlib.{Stdlib}
use dns_update.Failure.{Result, ok, err, step_ok}
use dns_update.Os.{FileInfo}
use dns_update.AgentDocs.{Output, Mismatch, Writers}
use dns_update.AgentDocs.Sources.{Files, has_path, plan}
use dns_update.AgentDocs.Files.{
  Managed, content, missing, invalid, compared, stale_mismatch, of_info, of_content,
  read_managed_output, abs_path, compare_outputs, managed_paths, stale_of, stale_managed_paths,
  check_outputs, check,
}

compared_fine :
    (output : Output) (observed : Managed)
    → compared output observed ≡ []
    → (text : Text) × (observed ≡ content text)
      × (normalize_newlines text ≡ normalize_newlines output.content)
compared_fine output missing h = absurd (cc h)
compared_fine output invalid h = absurd (cc h)
compared_fine output (content text) h =
    let same : text_eq (normalize_newlines text) (normalize_newlines output.content) ≡ true =
      ground arith in
    (text, refl, eq-of_text_eq _ _ same)

module _ (files : Files) (root : Text) where
  -- The file of an output is there, is no symbolic link, and holds the output up to its line endings.
  pub record IsUpToDate (output : Output) : Type 0 where
    pub info : FileInfo
    pub info-found : files.lstat (abs_path files root output.path) ≡ ok info
    pub no_link : info.is_symlink ≡ false
    pub text : Text
    pub text-read : files.read_file (abs_path files root output.path) ≡ ok text
    pub same : normalize_newlines text ≡ normalize_newlines output.content

  abbrev pub AllUpToDate : List Output → Type 0
  AllUpToDate [] = Unit
  AllUpToDate (output ∷ outputs) = IsUpToDate output × AllUpToDate outputs

  content_read :
      (path text : Text) (read : Result Text)
      → of_content files root path read ≡ ok (content text)
      → read ≡ ok text
  content_read path text (ok observed) h = cc
  content_read path text (err e) h = absurd (cc h)

  info_read :
      (path text : Text) (found : Result FileInfo)
      → of_info files root path found ≡ ok (content text)
      → (info : FileInfo) × (found ≡ ok info)
        × (info.is_symlink ≡ false)
        × (files.read_file path ≡ ok text)
  info_read path text (err e) h = absurd (ground arith)
  info_read path text (ok info) h = elim (Bool-cases info.is_symlink) [
    | inl link ↦ absurd (ground arith)
    | inr plain ↦ (info, refl, plain, content_read path text (files.read_file path) (rw plain at h))
  ]

  compare_outputs-AllUpToDate :
      (mismatches : List Mismatch) (outputs : List Output)
      → compare_outputs files root mismatches outputs ≡ ok []
      → (mismatches ≡ []) × AllUpToDate outputs
  unfolding compare_outputs
  compare_outputs-AllUpToDate mismatches [] h = (cc h, tt)
  compare_outputs-AllUpToDate mismatches (output ∷ outputs) h =
      let (observed, read, rest) =
        step_ok (read_managed_output files root (abs_path files root output.path)) _ h in
      let (nothing, others) =
        compare_outputs-AllUpToDate (mismatches ++ compared output observed) outputs rest in
      let (before, fine) = append_nothing mismatches (compared output observed) nothing in
      let (text, is_content, same) = compared_fine output observed fine in
      let (info, found, plain, text_read) =
        info_read (abs_path files root output.path) text
          (files.lstat (abs_path files root output.path))
          (unfold read_managed_output in read ∙ ap ok is_content) in
      (
        before,
        (
          record {
            info = info;
            info-found = found;
            no_link = plain;
            text = text;
            text-read = text_read;
            same = same;
          },
          others,
        ),
      )

nothing_selected :
    (q : Text → Bool) (l : List Text) → select (λ t. not (q t)) l ≡ [] → all_of q l ≡ true
nothing_selected q [] h = refl
nothing_selected q (t ∷ l) h = ground (arith, nothing_selected q l)

no_mismatch : (paths : List Text) → map stale_mismatch paths ≡ [] → paths ≡ []
no_mismatch [] h = refl
no_mismatch (p ∷ paths) h = absurd (cc h)

module _ ⦃std : Stdlib⦄ (files : Files) (root : Text) where
  all_planned :
      (outputs : List Output) (current : List Text)
      → stale_of files root outputs current ≡ []
      → all_of (λ path. has_path path outputs) current ≡ true
  all_planned outputs current h =
      nothing_selected (λ path. has_path path outputs) current
        (nothing-perm (std.sort_slice-perm Text text_lt _) h)

  -- If Check finds nothing, the repository holds exactly what Plan makes of its sources: the file of each
  -- output is there, is no symbolic link and has the output's content up to line endings, and each
  -- managed path is the path of an output.
  pub check-AllUpToDate :
      (writers : Writers)
      → check files root writers ≡ ok []
      → (outputs : List Output) × (plan files writers root ≡ ok outputs)
        × AllUpToDate files root outputs
        × (current : List Text) × (managed_paths files root ≡ ok current)
        × (all_of (λ path. has_path path outputs) current ≡ true)
  unfolding check
  check-AllUpToDate writers h =
      let (outputs, planned, rest) =
        step_ok (plan files writers root) (check_outputs files root) h in
      let (stale, found, compared_all) = step_ok (stale_managed_paths files root outputs) _ rest in
      let (no_stale, fine) =
        compare_outputs-AllUpToDate files root (map stale_mismatch stale) outputs compared_all in
      let (current, listed, last) =
        step_ok (managed_paths files root) _ (unfold stale_managed_paths in found) in
      let none_left : stale_of files root outputs current ≡ [] =
        cc (last, no_mismatch stale no_stale) in
      (outputs, planned, fine, current, listed, all_planned outputs current none_left)
