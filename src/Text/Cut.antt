-- ===== src/Text/Cut.antt =====
-- strings.Cut, strings.TrimLeft and strings.TrimRight by one byte, and the line endings that
-- internal/agentdocs and internal/repopolicy make alike.
use dns_update.Prelude.{
  ℕ, ◌≡◌, refl, ap, ◌∙◌, Bool, true, false, ◌&&◌, Option, none, some, [], ◌∷◌, ◌++◌, ◌==◌,
  if◌then◌else◌, is_empty, arith, Bool-cases, inl, inr,
}
use dns_update.Text.{Text, has_prefix, trim_prefix, drop_prefix}

abbrev cons_left : ℕ → Option (Text × Text) → Option (Text × Text)
cons_left c none = none
cons_left c (some (before, after)) = some (c ∷ before, after)

-- strings.Cut(s, sep): the parts around the first separator, none where there is none.
unfoldable pub cut : Text → Text → Option (Text × Text)
cut [] sep = if is_empty sep then some ([], []) else none
cut (c ∷ cs) sep =
    let rest = cut cs sep in
    if has_prefix (c ∷ cs) sep then some ([], trim_prefix (c ∷ cs) sep) else cons_left c rest

-- strings.ReplaceAll(s, "\r\n", "\n")
abbrev starts_line : Text → Bool
starts_line [] = false
starts_line (c ∷ cs) = c == 10

unfoldable pub normalize_newlines : Text → Text
normalize_newlines [] = []
normalize_newlines (c ∷ cs) =
    let rest = normalize_newlines cs in if c == 13 && starts_line cs then rest else c ∷ rest

-- strings.TrimLeft(s, "\n") and strings.TrimRight(s, "\n")
unfoldable pub trim_left_lines : Text → Text
trim_left_lines [] = []
trim_left_lines (c ∷ cs) = let rest = trim_left_lines cs in if c == 10 then rest else c ∷ cs

unfoldable pub trim_right_lines : Text → Text
trim_right_lines [] = []
trim_right_lines (c ∷ cs) =
    let rest = trim_right_lines cs in if is_empty rest && (c == 10) then [] else c ∷ rest

dropped : (s p : Text) → has_prefix s p ≡ true → s ≡ p ++ drop_prefix p s
unfolding has_prefix drop_prefix
dropped s [] h = refl
dropped [] (p ∷ ps) h = absurd (cc h)
dropped (x ∷ xs) (p ∷ ps) h =
    let same : x ≡ p = ground arith in
    let tail : has_prefix xs ps ≡ true = ground arith in
    rw same (ap (λ (t : Text). p ∷ t) (dropped xs ps tail))

-- A text with a prefix is the prefix and what TrimPrefix leaves.
pub trim_prefix-append : (s p : Text) → has_prefix s p ≡ true → s ≡ p ++ trim_prefix s p
unfolding trim_prefix
trim_prefix-append s p h = rw h (dropped s p h)

cut_later :
    (c : ℕ) (cs sep before after : Text) (rest : Option (Text × Text))
    → ((b a : Text) → rest ≡ some (b, a) → cs ≡ b ++ (sep ++ a))
    → cons_left c rest ≡ some (before, after)
    → c ∷ cs ≡ before ++ (sep ++ after)
cut_later c cs sep before after none ih h = absurd (cc)
cut_later c cs sep before after (some (b, a)) ih h =
    let front : c ∷ b ≡ before = cc in
    let back : a ≡ after = cc in
    ap (λ (t : Text). c ∷ t) (ih b a refl)
    ∙ ap (λ (t : Text). (c ∷ b) ++ (sep ++ t)) back
    ∙ ap (λ (t : Text). t ++ (sep ++ after)) front

-- A text that Cut has split is the part before, the separator and the part after.
pub cut-append :
    (s sep before after : Text) → cut s sep ≡ some (before, after) → s ≡ before ++ (sep ++ after)
unfolding cut
cut-append [] [] before after h =
    let front : ◌≡◌ {A = Text} [] before = cc in
    let back : ◌≡◌ {A = Text} [] after = cc in back ∙ ap (λ (t : Text). t ++ after) front
cut-append [] (x ∷ sep) before after h = absurd (cc)
cut-append (c ∷ cs) sep before after h = elim (Bool-cases (has_prefix (c ∷ cs) sep)) [
  | inl here ↦
      let front : ◌≡◌ {A = Text} [] before = ground arith in
      let back : trim_prefix (c ∷ cs) sep ≡ after = ground arith in
      trim_prefix-append (c ∷ cs) sep here
      ∙ ap (λ (t : Text). sep ++ t) back
      ∙ ap (λ (t : Text). t ++ (sep ++ after)) front
  | inr later ↦
      cut_later c cs sep before after (cut cs sep) (λ b a k. cut-append cs sep b a k)
        (rw later at h)
]
