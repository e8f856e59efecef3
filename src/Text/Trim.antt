-- ===== src/Text/Trim.antt =====
-- What trimming leaves: the first byte of a trimmed text, and a suffix that is put back.
use dns_update.Prelude.{
  ◌≡◌, refl, ap, ◌∙◌, Bool, true, false, not, [], ◌∷◌, ◌++◌, map-append, arith, is_empty,
}
use dns_update.Text.{
  Text, codes, is_space, lower_byte, to_lower, trim_left, trim_right, trim_space, trim_suffix,
}
use dns_update.Text.Laws.{to_lower_idem}

-- No white space at the front.
abbrev pub starts_clean : Text → Bool
starts_clean [] = true
starts_clean (x ∷ xs) = not (is_space x)

pub starts_clean-trim_left : (s : Text) → starts_clean (trim_left s) ≡ true
unfolding trim_left
starts_clean-trim_left [] = refl
starts_clean-trim_left (x ∷ s) = ground (arith, starts_clean-trim_left s)

pub starts_clean-trim_right :
    (s : Text) → starts_clean s ≡ true → starts_clean (trim_right s) ≡ true
unfolding trim_right
starts_clean-trim_right [] h = refl
starts_clean-trim_right (x ∷ s) h = ground arith

starts_clean-to_lower : (s : Text) → starts_clean s ≡ true → starts_clean (to_lower s) ≡ true
unfolding to_lower is_space
starts_clean-to_lower [] h = refl
starts_clean-to_lower (x ∷ s) h = ground arith

starts_clean-trim_suffix :
    (s t : Text) → starts_clean s ≡ true → starts_clean (trim_suffix s t) ≡ true
unfolding trim_suffix
starts_clean-trim_suffix [] t h = refl
starts_clean-trim_suffix (x ∷ s) t h = ground arith

pub trim_left_of_clean : (s : Text) → starts_clean s ≡ true → trim_left s ≡ s
unfolding trim_left
trim_left_of_clean [] h = refl
trim_left_of_clean (x ∷ s) h = ground arith

to_lower-trim_suffix : (s t : Text) → to_lower s ≡ s → to_lower (trim_suffix s t) ≡ trim_suffix s t
unfolding to_lower trim_suffix
to_lower-trim_suffix [] t h = refl
to_lower-trim_suffix (x ∷ s) t h = ground (arith, to_lower-trim_suffix s t)

trim_right_idem : (s : Text) → trim_right (trim_right s) ≡ trim_right s
unfolding trim_right
trim_right_idem [] = refl
trim_right_idem (x ∷ s) = ground (arith, trim_right_idem s)

-- Trimming again does nothing.
pub trim_space_idem : (s : Text) → trim_space (trim_space s) ≡ trim_space s
unfolding trim_space
trim_space_idem s =
    ap trim_right (
      trim_left_of_clean (trim_right (trim_left s))
        (starts_clean-trim_right (trim_left s) (starts_clean-trim_left s)))
    ∙ trim_right_idem (trim_left s)

to_lower-trim_left : (s : Text) → to_lower s ≡ s → to_lower (trim_left s) ≡ trim_left s
unfolding to_lower trim_left
to_lower-trim_left [] h = refl
to_lower-trim_left (x ∷ s) h = ground (arith, to_lower-trim_left s)

to_lower-trim_right : (s : Text) → to_lower s ≡ s → to_lower (trim_right s) ≡ trim_right s
unfolding to_lower trim_right
to_lower-trim_right [] h = refl
to_lower-trim_right (x ∷ s) h = ground (arith, to_lower-trim_right s)

pub to_lower-trim_space : (s : Text) → to_lower s ≡ s → to_lower (trim_space s) ≡ trim_space s
unfolding trim_space
to_lower-trim_space s h = to_lower-trim_right (trim_left s) (to_lower-trim_left s h)

abbrev pub dot : Text
dot = codes "."

pub is_empty-append_dot : (s : Text) → is_empty (s ++ dot) ≡ false
is_empty-append_dot [] = refl
is_empty-append_dot (x ∷ s) = refl

pub trim_right-append_dot : (s : Text) → trim_right (s ++ dot) ≡ s ++ dot
unfolding trim_right
trim_right-append_dot [] = refl
trim_right-append_dot (x ∷ s) = ground (arith, trim_right-append_dot s, is_empty-append_dot s)

trim_suffix-append_dot : (s : Text) → trim_suffix (s ++ dot) dot ≡ s
unfolding trim_suffix
trim_suffix-append_dot [] = refl
trim_suffix-append_dot (x ∷ []) = ground arith
trim_suffix-append_dot (x ∷ y ∷ s) = ground (arith, trim_suffix-append_dot (y ∷ s))

pub starts_clean-append_dot : (s : Text) → starts_clean s ≡ true → starts_clean (s ++ dot) ≡ true
unfolding is_space
starts_clean-append_dot [] h = refl
starts_clean-append_dot (x ∷ s) h = h

pub to_lower-append_dot : (s : Text) → to_lower (s ++ dot) ≡ to_lower s ++ dot
unfolding to_lower
to_lower-append_dot s = map-append lower_byte s dot

-- A clean, lower-case text with a dot behind it comes back without the dot.
pub normal_form_dot :
    (s : Text)
    → starts_clean s ≡ true
    → to_lower s ≡ s
    → trim_suffix (to_lower (trim_space (s ++ dot))) dot ≡ s
unfolding trim_space
normal_form_dot s clean low =
    ap (λ u. trim_suffix (to_lower (trim_right u)) dot)
      (trim_left_of_clean (s ++ dot) (starts_clean-append_dot s clean))
    ∙ ap (λ u. trim_suffix (to_lower u) dot) (trim_right-append_dot s)
    ∙ ap (λ u. trim_suffix u dot) (to_lower-append_dot s ∙ ap (λ u. u ++ dot) low)
    ∙ trim_suffix-append_dot s

pub normalized_clean : (n t : Text) → starts_clean (trim_suffix (to_lower (trim_space n)) t) ≡ true
unfolding trim_space
normalized_clean n t = starts_clean-trim_suffix (to_lower (trim_space n)) t (
    starts_clean-to_lower (trim_right (trim_left n))
      (starts_clean-trim_right (trim_left n) (starts_clean-trim_left n)))

pub normalized_lower :
    (n t : Text)
    → to_lower (trim_suffix (to_lower (trim_space n)) t) ≡ trim_suffix (to_lower (trim_space n)) t
normalized_lower n t = to_lower-trim_suffix _ t (to_lower_idem (trim_space n))
