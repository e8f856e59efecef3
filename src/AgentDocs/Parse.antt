-- ===== src/AgentDocs/Parse.antt =====
-- internal/agentdocs/parse.go: ParseDocument.
use dns_update.Prelude.{
  ℕ, Bool, not, ◌&&◌, ◌||◌, Option, none, some, List, [], ◌∷◌, ◌++◌, leb, if◌then◌else◌, is_empty,
  all_of,
}
use dns_update.Text.{Text, codes, text_eq, trim_space, has_prefix, trim_prefix, split_at}
use dns_update.Text.Cut.{cut, normalize_newlines}
use dns_update.Failure.{Result, ok, ◌>>=◌}
use dns_update.Config.Urls.{fail}
use dns_update.AgentDocs.{Source, kind_contract, kind_skill}

-- The map of the front matter; the line set last stands first.
abbrev pub Fields : Type 0
Fields = List (Text × Text)

-- fields[key]
unfoldable pub field : Fields → Text → Text
field [] key = []
field ((k, v) ∷ fields) key = let rest = field fields key in if text_eq k key then v else rest

abbrev pub start_marker : Text
start_marker = codes "---" ++ 10 ∷ []

abbrev pub end_marker : Text
end_marker = 10 ∷ codes "---" ++ 10 ∷ []

abbrev slug_byte : ℕ → Bool
slug_byte c = (leb 97 c && leb c 122) || (leb 48 c && leb c 57)

-- slugPattern: parts of lower-case letters and digits between single dashes.
unfoldable pub is_slug : Text → Bool
unfolding split_at
is_slug t = all_of (λ part. not (is_empty part) && all_of slug_byte part) (split_at 45 t)

abbrev with_field : Text → Text → Fields → Option (Text × Text) → Result Fields
with_field path line fields none = fail (path ++ (codes ": malformed front matter line " ++ line))
with_field path line fields (some (key, value)) = ok ((trim_space key, trim_space value) ∷ fields)

abbrev pub add_line : Text → Fields → Text → Result Fields
add_line path fields raw_line =
    let line = trim_space raw_line in
    if is_empty line then ok fields else with_field path line fields (cut line (codes ":"))

unfoldable pub add_lines : Text → Fields → List Text → Result Fields
add_lines path fields [] = ok fields
add_lines path fields (line ∷ lines) =
    add_line path fields line >>= λ more. add_lines path more lines

-- The tests on the fields.
abbrev pub of_values : Text → Text → Text → Text → Text → Text → Result Source
of_values path body kind slug title summary =
    if is_empty kind
    then fail (path ++ codes ": missing kind")
    else if is_empty slug
    then fail (path ++ codes ": missing slug")
    else if not (is_slug slug)
    then fail (path ++ (codes ": invalid slug " ++ slug))
    else if is_empty title
    then fail (path ++ codes ": missing title")
    else if not (text_eq kind kind_contract || text_eq kind kind_skill)
    then fail (path ++ (codes ": unsupported kind " ++ kind))
    else if text_eq kind kind_skill && is_empty summary
    then fail (path ++ codes ": missing summary")
    else ok (record {
      path = path;
      kind = kind;
      slug = slug;
      title = title;
      summary = summary;
      body = body;
    })

abbrev pub checked_source : Text → Text → Fields → Result Source
checked_source path body fields =
    of_values path body (field fields (codes "kind")) (trim_space (field fields (codes "slug")))
      (trim_space (field fields (codes "title"))) (trim_space (field fields (codes "summary")))

abbrev pub with_header : Text → Option (Text × Text) → Result Source
with_header path none = fail (path ++ codes ": missing front matter end marker")
with_header path (some (header, rest)) =
    add_lines path [] (split_at 10 header) >>= checked_source path (trim_prefix rest (10 ∷ []))

unfoldable pub parse_document : Text → Text → Result Source
unfolding is_slug add_lines
parse_document path raw =
    let document = normalize_newlines raw in
    if not (has_prefix document start_marker)
    then fail (path ++ codes ": missing front matter start marker")
    else with_header path (cut (trim_prefix document start_marker) end_marker)
