-- ===== src/Cli/Selection.antt =====
-- cmd/dns-update/flags.go: the value of -delete, read and printed.
use dns_update.Prelude.{
  ◌≡◌, refl, subst, sym, ◌⊎◌, inl, inr, Bool, true, false, some, ◌==◌, if◌then◌else◌,
}
use dns_update.Text.{Text, to_lower, trim_space}
use dns_update.Failure.{Error, ok, err}
use dns_update.Provider.{RecordSelection, selection_none}
use dns_update.Cli.{parse_delete_selection, delete_flag_set, delete_flag_string}

-- Set of what String prints.
abbrev IsPrinted : RecordSelection → Type 0
IsPrinted s =
    delete_flag_set (delete_flag_string (some s)) ≡ ok (if s == selection_none then 3 else s)

IsPrinted-none : IsPrinted 0
unfolding delete_flag_set delete_flag_string to_lower trim_space
IsPrinted-none = refl

IsPrinted-a : IsPrinted 1
unfolding delete_flag_set delete_flag_string to_lower trim_space
IsPrinted-a = refl

IsPrinted-aaaa : IsPrinted 2
unfolding delete_flag_set delete_flag_string to_lower trim_space
IsPrinted-aaaa = refl

IsPrinted-both : IsPrinted 3
unfolding delete_flag_set delete_flag_string to_lower trim_space
IsPrinted-both = refl

chosen :
    (both a aaaa none : Bool) (e : Error) (s : RecordSelection)
    → (if both
        then ok 3
        else if a
        then ok 1
        else if aaaa
        then ok 2
        else if none
        then ok 0
        else err e)
      ≡ ok s
    → (s ≡ 0) ⊎ ((s ≡ 1) ⊎ ((s ≡ 2) ⊎ (s ≡ 3)))
chosen true a aaaa none e s h = inr (inr (inr (cc)))
chosen false true aaaa none e s h = inr (inl (cc))
chosen false false true none e s h = inr (inr (inl (cc)))
chosen false false false true e s h = inl (cc)
chosen false false false false e s h = absurd (cc)

pub parse_delete_selection-cases :
    (value : Text) (s : RecordSelection)
    → parse_delete_selection value ≡ ok s
    → (s ≡ 0) ⊎ ((s ≡ 1) ⊎ ((s ≡ 2) ⊎ (s ≡ 3)))
unfolding parse_delete_selection
parse_delete_selection-cases value s h = chosen _ _ _ _ _ s h

-- Setting -delete to the text that String prints for a selection that Set has made gives this selection
-- back, but for the empty selection, whose empty text sets both families.
pub delete_flag-set_string :
    (value : Text) (s : RecordSelection)
    → delete_flag_set value ≡ ok s
    → delete_flag_set (delete_flag_string (some s)) ≡ ok (if s == selection_none then 3 else s)
unfolding delete_flag_set
delete_flag-set_string value s h = elim (parse_delete_selection-cases value s h) [
  | inl k ↦ subst IsPrinted (sym k) IsPrinted-none
  | inr (inl k) ↦ subst IsPrinted (sym k) IsPrinted-a
  | inr (inr (inl k)) ↦ subst IsPrinted (sym k) IsPrinted-aaaa
  | inr (inr (inr k)) ↦ subst IsPrinted (sym k) IsPrinted-both
]
