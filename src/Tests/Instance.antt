-- ===== src/Tests/Instance.antt =====
-- A standard library to compute with: addresses that keep their text, and an insertion sort.
use mathlib.Core.List.{Perm}
use mathlib.Core.List.Perm
use dns_update.Prelude.{
  Bool, true, false, Option, none, some, List, [], ◌∷◌, inl, inr, Bool-cases, ◌==◌, if◌then◌else◌,
}
use dns_update.Text.{Text}
use dns_update.Stdlib.{Stdlib}

pub data Address : Type 0 where
  four : Text → Address
  six : Text → Address
  four_in_six : Text → Address

abbrev address_text : Address → Text
address_text (four t) = t
address_text (six t) = t
address_text (four_in_six t) = t

-- The first separator decides the family.
abbrev parse : Text → Text → Option Address
parse whole [] = none
parse whole (c ∷ cs) =
    let rest = parse whole cs in
    if c == 46 then some (four whole) else if c == 58 then some (six whole) else rest

abbrev is_four : Address → Bool
is_four (four t) = true
is_four (six t) = false
is_four (four_in_six t) = false

abbrev is_six : Address → Bool
is_six (four t) = false
is_six (six t) = true
is_six (four_in_six t) = true

abbrev is_four_in_six : Address → Bool
is_four_in_six (four t) = false
is_four_in_six (six t) = false
is_four_in_six (four_in_six t) = true

abbrev insert : (A : Type 0) → (A → A → Bool) → A → List A → List A
insert A less x [] = x ∷ []
insert A less x (y ∷ l) = let rest = insert A less x l in if less y x then y ∷ rest else x ∷ y ∷ l

abbrev sort : (A : Type 0) → (A → A → Bool) → List A → List A
sort A less [] = []
sort A less (x ∷ l) = insert A less x (sort A less l)

insert-perm :
    (A : Type 0) (less : A → A → Bool) (x : A) (l : List A) → Perm (insert A less x l) (x ∷ l)
insert-perm A less x [] = Perm.rfl
insert-perm A less x (y ∷ l) = elim (Bool-cases (less y x)) [
  | inl h ↦ rw h (Perm.trans (Perm.cons y (insert-perm A less x l)) (Perm.swap x y l))
  | inr h ↦ rw h Perm.rfl
]

pub sort-perm : (A : Type 0) (less : A → A → Bool) (l : List A) → Perm (sort A less l) l
sort-perm A less [] = Perm.rfl
sort-perm A less (x ∷ l) =
    Perm.trans (insert-perm A less x (sort A less l)) (Perm.cons x (sort-perm A less l))

instance abbrev pub sample_std : Stdlib
sample_std = record {
  Addr = Address;
  addr_string = address_text;
  parse_addr = λ t. parse t t;
  is4 = is_four;
  is6 = is_six;
  is4_in6 = is_four_in_six;
  sort_slice = sort;
  sort_slice-perm = sort-perm;
}
