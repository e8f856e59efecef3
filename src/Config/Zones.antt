-- ===== src/Config/Zones.antt =====
-- internal/config/config.go: isNameWithinZone in labels.
use dns_update.Prelude.{
  ℕ, ◌≡◌, refl, sym, ◌∙◌, ap, inl, inr, true, List, [], ◌∷◌, ◌++◌, ◌==◌, arith, Bool-cases,
}
use dns_update.Prelude.Rearrange.{eq-nil_of_is_empty}
use dns_update.Text.{split_at, Text, codes, text_eq, has_suffix, trim_suffix}
use dns_update.Text.Laws.{eq-of_text_eq}
use dns_update.Config.{is_name_within_zone}
use dns_update.Config.Names.{labels_of}

has_suffix-split : (s t : Text) → has_suffix s t ≡ true → (front : Text) × (s ≡ front ++ t)
unfolding has_suffix
has_suffix-split [] t h = ([], sym (eq-nil_of_is_empty t h))
has_suffix-split (x ∷ s) t h = elim (Bool-cases (text_eq (x ∷ s) t)) [
  | inl k ↦ ([], eq-of_text_eq (x ∷ s) t k)
  | inr k ↦ let (front, e) = has_suffix-split s t (ground arith) in (x ∷ front, ap (◌∷◌ x) e)
]

split_at-cons :
    (sep : ℕ) (s : Text) → (first : Text) × (rest : List Text) × (split_at sep s ≡ first ∷ rest)
unfolding split_at
split_at-cons sep [] = ([], [], refl)
split_at-cons sep (c ∷ s) = elim (Bool-cases (c == sep)) [
  | inl h ↦ rw h ([], split_at sep s, refl)
  | inr h ↦ let (first, rest, e) = split_at-cons sep s in rw (h, e) (c ∷ first, rest, refl)
]

split_at-append : (s t : Text) → split_at 46 (s ++ 46 ∷ t) ≡ split_at 46 s ++ split_at 46 t
unfolding split_at
split_at-append [] t = refl
split_at-append (c ∷ s) t = elim (Bool-cases (c == 46)) [
  | inl h ↦ rw h (ap (◌∷◌ []) (split_at-append s t))
  | inr h ↦ let (first, rest, e) = split_at-cons 46 s in rw (h, split_at-append s t, e) refl
]

-- A name that isNameWithinZone accepts has the labels of the zone as its last labels.
pub is_name_within_zone-labels :
    (name zone : Text)
    → is_name_within_zone name zone ≡ true
    → (front : List Text) × (labels_of name ≡ front ++ labels_of zone)
unfolding is_name_within_zone
is_name_within_zone-labels name zone h =
    let n = trim_suffix name (codes ".") in
    let z = trim_suffix zone (codes ".") in
    elim (Bool-cases (text_eq n z)) [
      | inl k ↦ ([], ap (split_at 46) (eq-of_text_eq n z k))
      | inr k ↦
          let (front, e) = has_suffix-split n (codes "." ++ z) (ground arith) in
          (split_at 46 front, ap (split_at 46) e ∙ split_at-append front z)
    ]
