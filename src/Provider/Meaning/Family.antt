-- ===== src/Provider/Meaning/Family.antt =====
-- The operations for one record type: what they name, what type they set, and so which records of a
-- name they can touch.
use mathlib.Core.List.{Memᴰ}
use dns_update.Prelude.{
  ◌≡◌, refl, ◌∙◌, ap, inl, inr, Bool, true, false, not, ◌&&◌, ◌||◌, List, [], ◌∷◌, ◌++◌, arith,
  select, any_of, Bool-cases,
}
use dns_update.Text.{Text, text_eq}
use dns_update.Text.Laws.{text_eq_iff, text_eq_refl, eq-of_text_eq}
use dns_update.Provider.{Record, RecordType, Operation, kind_update, kind_delete}
use dns_update.Provider.Planning.{has_type}
use dns_update.Provider.Meaning.Rearranged.{has_id-select}
use dns_update.Provider.Meaning.{
  is_deleted, is_update, is_create, has_id, distinct_ids, apply_update, apply_updates,
}

-- An operation on the record with this ID.
abbrev pub names_id : Text → Operation → Bool
names_id id op = not (is_create op) && text_eq op.current.id id

-- An operation that writes a record of another type.
abbrev pub writes_other : RecordType → Operation → Bool
writes_other t op = (is_create op || is_update op) && not (has_type t op.desired)

pub record IsFamily (t : RecordType) (current : List Record) (ops : List Operation) : Type 0 where
  pub named : (id : Text) → has_id id current ≡ false → any_of (names_id id) ops ≡ false
  pub typed : any_of (writes_other t) ops ≡ false

pub is_deleted_of_unnamed :
    (id : Text) (ops : List Operation)
    → any_of (names_id id) ops ≡ false
    → is_deleted ops id ≡ false
is_deleted_of_unnamed id [] h = refl
is_deleted_of_unnamed id (op ∷ ops) h =
    ground (arith, is_deleted_of_unnamed id ops, text_eq_iff op.kind kind_delete)

pub apply_updates_of_unnamed :
    (r : Record) (ops : List Operation)
    → any_of (names_id r.id) ops ≡ false
    → apply_updates (select is_update ops) r ≡ r
apply_updates_of_unnamed r [] h = refl
apply_updates_of_unnamed r (op ∷ ops) h =
    ground (arith, apply_updates_of_unnamed r ops, text_eq_iff op.kind kind_update)

pub id-apply_updates : (ops : List Operation) (r : Record) → (apply_updates ops r).id ≡ r.id
id-apply_updates [] r = refl
id-apply_updates (op ∷ ops) r = id-apply_updates ops (apply_update op r) ∙ ground arith

pub apply_updates-append :
    (xs ys : List Operation) (r : Record)
    → apply_updates (xs ++ ys) r ≡ apply_updates ys (apply_updates xs r)
apply_updates-append [] ys r = refl
apply_updates-append (op ∷ xs) ys r = apply_updates-append xs ys (apply_update op r)

pub has_type-apply_updates :
    (t : RecordType) (ops : List Operation) (r : Record)
    → any_of (writes_other t) ops ≡ false
    → has_type t r ≡ true
    → has_type t (apply_updates (select is_update ops) r) ≡ true
has_type-apply_updates t [] r h k = k
has_type-apply_updates t (op ∷ ops) r h k = elim (Bool-cases (is_update op)) [
  | inl u ↦ rw u (has_type-apply_updates t ops (apply_update op r) (ground arith) (ground arith))
  | inr u ↦ rw u (has_type-apply_updates t ops r (ground arith) k)
]

-- A record whose type is not that of a list has an ID that is not in the list.
pub has_id_of_mem : (r : Record) (l : List Record) → Memᴰ r l → has_id r.id l ≡ true
has_id_of_mem r [] m = elim m [ ]
has_id_of_mem r (x ∷ l) (Memᴰ.head e) = ground (arith, e, text_eq_refl x.id)
has_id_of_mem r (x ∷ l) (Memᴰ.tail m) = ground (arith, has_id_of_mem r l m)

pub has_id_of_other_type :
    (t : RecordType) (r : Record) (l : List Record)
    → Memᴰ r l
    → distinct_ids l ≡ true
    → has_type t r ≡ false
    → has_id r.id (select (has_type t) l) ≡ false
has_id_of_other_type t r [] m d h = elim m [ ]
has_id_of_other_type t r (x ∷ l) (Memᴰ.head e) d h =
    rw e (ground (arith, ap (has_type t) e, has_id-select (has_type t) x.id l))
has_id_of_other_type t r (x ∷ l) (Memᴰ.tail m) d h = elim (Bool-cases (text_eq x.id r.id)) [
  | inl same ↦
      ground (arith, has_id_of_mem r l m, ap (λ i. has_id i l) (eq-of_text_eq x.id r.id same))
  | inr differ ↦ ground (arith, has_id_of_other_type t r l m)
]
