-- ===== src/AgentDocs/Document.antt =====
-- internal/agentdocs/parse.go: the documents that ParseDocument accepts.
use dns_update.Prelude.{
  ◌≡◌, refl, ap, ◌∙◌, subst, Bool, true, false, not, ◌&&◌, ◌||◌, Option, none, some, [], ◌∷◌, ◌++◌,
  is_empty,
}
use dns_update.Text.{Text, text_eq, has_prefix, trim_prefix, split_at}
use dns_update.Text.Cut.{cut, normalize_newlines, cut-append, trim_prefix-append}
use dns_update.Failure.{ok, step_ok, guard_ok}
use dns_update.AgentDocs.{Source, kind_contract, kind_skill}
use dns_update.AgentDocs.Parse.{
  start_marker, end_marker, is_slug, add_lines, checked_source, of_values, with_header,
  parse_document,
}

-- The parts of a source that was accepted.
pub record IsSource (path body : Text) (source : Source) : Type 0 where
  pub source-path : source.path ≡ path
  pub source-body : source.body ≡ body
  pub kind : (text_eq source.kind kind_contract || text_eq source.kind kind_skill) ≡ true
  pub slug : is_slug source.slug ≡ true
  pub title : is_empty source.title ≡ false
  pub summary : (text_eq source.kind kind_skill && is_empty source.summary) ≡ false

is_true : (b : Bool) → not b ≡ false → b ≡ true
is_true true h = refl
is_true false h = absurd (cc h)

of_values-IsSource :
    (path body kind slug title summary : Text) (source : Source)
    → of_values path body kind slug title summary ≡ ok source
    → IsSource path body source
of_values-IsSource path body kind slug title summary source h =
    let (kind_there, h1) = guard_ok (is_empty kind) _ _ h in
    let (slug_there, h2) = guard_ok (is_empty slug) _ _ h1 in
    let (slug_fine, h3) = guard_ok (not (is_slug slug)) _ _ h2 in
    let (title_there, h4) = guard_ok (is_empty title) _ _ h3 in
    let (kind_known, h5) =
      guard_ok (not (text_eq kind kind_contract || text_eq kind kind_skill)) _ _ h4 in
    let (summary_there, h6) = guard_ok (text_eq kind kind_skill && is_empty summary) _ _ h5 in
    let made : Source = record {
      path = path;
      kind = kind;
      slug = slug;
      title = title;
      summary = summary;
      body = body;
    } in
    let same : made ≡ source = cc h6 in
    subst (IsSource path body) same (record {
      source-path = refl;
      source-body = refl;
      kind = is_true (text_eq kind kind_contract || text_eq kind kind_skill) kind_known;
      slug = is_true (is_slug slug) slug_fine;
      title = title_there;
      summary = summary_there;
    })

with_header-IsSource :
    (path : Text) (parts : Option (Text × Text)) (source : Source)
    → with_header path parts ≡ ok source
    → (header rest : Text) × (parts ≡ some (header, rest))
      × IsSource path (trim_prefix rest (10 ∷ [])) source
with_header-IsSource path none source h = absurd (cc h)
with_header-IsSource path (some (header, rest)) source h =
    let (fields, added, last) =
      step_ok (add_lines path [] (split_at 10 header))
        (checked_source path (trim_prefix rest (10 ∷ []))) h in
    (header, rest, refl, of_values-IsSource path (trim_prefix rest (10 ∷ [])) _ _ _ _ source last)

-- A document that ParseDocument accepts is, with its line endings made alike, a header between the two
-- markers and what follows, which is the body but for one empty line; the source has the given path, a
-- kind that is known, a slug, a title, and, as a skill, a summary.
pub parse_document-IsSource :
    (path raw : Text) (source : Source)
    → parse_document path raw ≡ ok source
    → (header rest : Text) × (normalize_newlines raw
        ≡ start_marker ++ (header ++ (end_marker ++ rest)))
      × IsSource path (trim_prefix rest (10 ∷ [])) source
unfolding parse_document
parse_document-IsSource path raw source h =
    let document = normalize_newlines raw in
    let (marked, h1) = guard_ok (not (has_prefix document start_marker)) _ _ h in
    let (header, rest, split, made) =
      with_header-IsSource path (cut (trim_prefix document start_marker) end_marker) source h1 in
    (
      header,
      rest,
      trim_prefix-append document start_marker (is_true _ marked)
          ∙ ap (λ (t : Text). start_marker ++ t)
              (cut-append (trim_prefix document start_marker) end_marker header rest split),
      made,
    )
