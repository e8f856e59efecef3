-- ===== src/Config.antt =====
-- internal/config/config.go: names and zones. The sections of the configuration stand in
-- Config/Sections, and the URLs in Config/Urls.
pub mod Names
pub mod Zones
pub mod Urls
pub mod Sections
pub mod Valid
pub mod Accepted
pub mod Taken
pub mod Client
pub mod Loading
use dns_update.Prelude.{
  ℕ, Bool, true, false, not, ◌&&◌, ◌||◌, List, [], ◌∷◌, ◌++◌, ◌==◌, leb, ltb, if◌then◌else◌,
  is_empty, length, any_of, all_of,
}
use dns_update.Text.{
  split_at, is_blank, Text, codes, text_eq, to_lower, trim_space, has_suffix, trim_suffix,
}
use dns_update.Failure.{Result, ok, err, message, foreign, label_too_long, label_unsupported, ◌>>◌}

abbrev pub label_byte : ℕ → Bool
label_byte r = (leb 97 r && leb r 122) || ((leb 48 r && leb r 57) || (r == 45 || r == 95))

-- One round of the loop over the labels.
unfoldable pub check_label : Text → Result (Unit {0})
check_label label =
    if is_empty label
    then err (message (foreign (codes "contains an empty label")))
    else if ltb 63 (length label)
    then err (message (label_too_long label))
    else if text_eq label (codes "*")
    then ok tt
    else if all_of label_byte label
    then ok tt
    else err (message (label_unsupported label))

unfoldable pub check_labels : List Text → Result (Unit {0})
unfolding check_label
check_labels [] = ok tt
check_labels (label ∷ labels) = check_label label >> check_labels labels

-- The name with its final dot, and what normalizeFQDN checks of it.
abbrev pub dotted : Text → Text
dotted name = if has_suffix name (codes ".") then name else name ++ codes "."

abbrev pub check_name : Text → Result Text
check_name name =
    if ltb 253 (length name)
    then err (message (foreign (codes "must be 253 bytes or less")))
    else check_labels (split_at 46 (trim_suffix name (codes "."))) >> ok name

unfoldable pub normalize_fqdn : Text → Result Text
unfolding check_labels split_at
normalize_fqdn value =
    let name = trim_space (to_lower value) in
    if is_empty name
    then err (message (foreign (codes "value is required")))
    else if any_of is_blank name
    then err (message (foreign (codes "must not contain whitespace")))
    else check_name (dotted name)

unfoldable pub is_name_within_zone : Text → Text → Bool
is_name_within_zone name zone =
    let normalized_name = trim_suffix name (codes ".") in
    let normalized_zone = trim_suffix zone (codes ".") in
    text_eq normalized_name normalized_zone
    || has_suffix normalized_name (codes "." ++ normalized_zone)
