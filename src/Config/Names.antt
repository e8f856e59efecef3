-- ===== src/Config/Names.antt =====
-- internal/config/config.go: the normal form of normalizeFQDN.
use dns_update.Prelude.{
  ◌≤◌, ◌≡◌, refl, ◌∙◌, ap, inl, inr, Bool, true, false, not, ◌&&◌, ◌||◌, List, [], ◌∷◌, ◌++◌, leb,
  ltb, arith, is_empty, length, any_of, any_of-append, all_of, Bool-cases,
}
use dns_update.Text.{
  split_at, is_blank, Text, codes, text_eq, to_lower, trim_left, trim_right, trim_space, has_suffix,
  trim_suffix,
}
use dns_update.Text.Laws.{text_eq_refl, to_lower_idem}
use dns_update.Text.Trim.{
  starts_clean, starts_clean-trim_left, starts_clean-trim_right, starts_clean-append_dot,
  trim_left_of_clean, trim_right-append_dot, trim_space_idem, to_lower-trim_space,
  to_lower-append_dot, is_empty-append_dot,
}
use dns_update.Failure.{ok, step_ok}
use dns_update.Config.{label_byte, check_label, check_labels, dotted, check_name, normalize_fqdn}

-- A label of at most 63 bytes: the wildcard, or letters, digits, `-` and `_`.
abbrev pub valid_label : Text → Bool
valid_label label =
    not (is_empty label)
    && (leb (length label) 63 && (text_eq label (codes "*") || all_of label_byte label))

abbrev pub labels_of : Text → List Text
labels_of name = split_at 46 (trim_suffix name (codes "."))

-- A name in normal form: it ends in a dot, has at most 253 bytes, and valid labels.
pub record IsFqdn (name : Text) : Type 0 where
  pub dot_last : has_suffix name (codes ".") ≡ true
  pub size : length name ≤ 253
  pub labels : all_of valid_label (labels_of name) ≡ true

check_label-valid : (label : Text) → check_label label ≡ ok tt → valid_label label ≡ true
unfolding check_label
check_label-valid label h = ground arith

check_labels-valid :
    (labels : List Text) → check_labels labels ≡ ok tt → all_of valid_label labels ≡ true
unfolding check_labels
check_labels-valid [] h = refl
check_labels-valid (label ∷ labels) h =
    let (done, first, rest) = step_ok (check_label label) (λ _. check_labels labels) h in
    rw (check_label-valid label (cc)) (check_labels-valid labels rest)

pub has_suffix-append : (s t : Text) → has_suffix (s ++ t) t ≡ true
unfolding has_suffix
has_suffix-append [] [] = refl
has_suffix-append [] (y ∷ t) = ground (arith, text_eq_refl (y ∷ t))
has_suffix-append (x ∷ s) t = ground (arith, has_suffix-append s t)

dotted-dot_last : (name : Text) → has_suffix (dotted name) (codes ".") ≡ true
dotted-dot_last name = elim (Bool-cases (has_suffix name (codes "."))) [
  | inl h ↦ rw (h, h) refl
  | inr h ↦ rw h (has_suffix-append name (codes "."))
]

check_name-IsFqdn :
    (name n : Text)
    → has_suffix name (codes ".") ≡ true
    → check_name name ≡ ok n
    → (n ≡ name) × IsFqdn name
check_name-IsFqdn name n dot h = elim (Bool-cases (ltb 253 (length name))) [
  | inl long ↦ absurd (cc (rw long at h))
  | inr short ↦
      let (done, good, same) =
        step_ok (check_labels (labels_of name)) (λ _. ok name) (rw short at h) in
      (
        cc,
        record {
          dot_last = dot;
          size = ground arith;
          labels = check_labels-valid (labels_of name) (cc);
        },
      )
]

-- A name that normalizeFQDN returns ends in a dot, has at most 253 bytes, and each label between its
-- dots has 1 to 63 bytes and is `*` or made of lower-case letters, digits, `-` and `_`.
pub normalize_fqdn-IsFqdn : (value n : Text) → normalize_fqdn value ≡ ok n → IsFqdn n
unfolding normalize_fqdn
normalize_fqdn-IsFqdn value n h =
    let name = trim_space (to_lower value) in
    let checked : check_name (dotted name) ≡ ok n = ground arith in
    let (same, good) = check_name-IsFqdn (dotted name) n (dotted-dot_last name) checked in
    rw same good

-- A name in normal form comes back as it is: lower case, trimmed, with its dot.
dotted-lower : (name : Text) → to_lower name ≡ name → to_lower (dotted name) ≡ dotted name
dotted-lower name h = elim (Bool-cases (has_suffix name (codes "."))) [
  | inl k ↦ rw k h
  | inr k ↦ rw k (to_lower-append_dot name ∙ ap (λ u. u ++ codes ".") h)
]

trim_space-append_dot :
    (name : Text) → starts_clean name ≡ true → trim_space (name ++ codes ".") ≡ name ++ codes "."
unfolding trim_space
trim_space-append_dot name h =
    ap trim_right (trim_left_of_clean (name ++ codes ".") (starts_clean-append_dot name h))
    ∙ trim_right-append_dot name

starts_clean-trim_space : (s : Text) → starts_clean (trim_space s) ≡ true
unfolding trim_space
starts_clean-trim_space s = starts_clean-trim_right (trim_left s) (starts_clean-trim_left s)

dotted-trimmed : (s : Text) → trim_space (dotted (trim_space s)) ≡ dotted (trim_space s)
dotted-trimmed s = elim (Bool-cases (has_suffix (trim_space s) (codes "."))) [
  | inl k ↦ rw k (trim_space_idem s)
  | inr k ↦ rw k (trim_space-append_dot (trim_space s) (starts_clean-trim_space s))
]

dotted-clear :
    (name : Text)
    → is_empty name ≡ false
    → any_of is_blank name ≡ false
    → (is_empty (dotted name) ≡ false) × (any_of is_blank (dotted name) ≡ false)
dotted-clear name full clear = elim (Bool-cases (has_suffix name (codes "."))) [
  | inl k ↦ rw k (full, clear)
  | inr k ↦ rw k (is_empty-append_dot name, any_of-append is_blank name (codes ".") ∙ rw clear refl)
]

-- Normalizing a name that normalizeFQDN returned gives the same name again.
pub normalize_fqdn_idem : (value n : Text) → normalize_fqdn value ≡ ok n → normalize_fqdn n ≡ ok n
unfolding normalize_fqdn
normalize_fqdn_idem value n h =
    let name = trim_space (to_lower value) in
    let checked : check_name (dotted name) ≡ ok n = ground arith in
    let full : is_empty name ≡ false = ground arith in
    let clear : any_of is_blank name ≡ false = ground arith in
    let (same, good) = check_name-IsFqdn (dotted name) n (dotted-dot_last name) checked in
    let fixed : trim_space (to_lower (dotted name)) ≡ dotted name =
      ap trim_space (dotted-lower name (to_lower-trim_space (to_lower value) (to_lower_idem value)))
      ∙ dotted-trimmed (to_lower value) in
    let (still_full, still_clear) = dotted-clear name full clear in
    rw (same, fixed, still_full, still_clear, dotted-dot_last name) (checked ∙ ap ok same)
