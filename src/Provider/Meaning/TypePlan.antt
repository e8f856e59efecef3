-- ===== src/Provider/Meaning/TypePlan.antt =====
-- buildTypePlan: its shape, whatever the sort does, and what it makes of the records of its type.
use mathlib.Core.List.{Memᴰ, Perm}
use mathlib.Core.Path.{ap₂, fun_ext}
use dns_update.Prelude.{
  ℕ, ◌≡◌, ◌⊎◌, subst, refl, sym, ◌∙◌, ap, inl, inr, Bool, true, false, not, List, [], ◌∷◌, ◌++◌,
  map, arith, select, select-append, any_of, any_of-append,
}
use dns_update.Prelude.Rearrange.{select-perm, any_of-perm, perm_nil, perm_singleton}
use dns_update.Text.{Text, text_eq}
use dns_update.Text.Laws.{text_eq_refl}
use dns_update.Stdlib.{Stdlib}
use dns_update.Provider.{
  Record, RecordType, RecordOptions, Operation, record_options_equal, clone_record_options,
}
use dns_update.Provider.Planning.{
  record_matches_desired, update_operation, delete_all, desired_record,
}
use dns_update.Provider.Verify.{expected_record}
use dns_update.Provider.Meaning.{
  deletes_id, is_deleted, is_update, is_create, has_id, distinct_ids, apply_updates, created,
}
use dns_update.Provider.Meaning.Rearranged.{Records-set, Operations-set}
use dns_update.Provider.Meaning.Family.{names_id, writes_other, IsFamily, has_id_of_mem}
use dns_update.Provider.Meaning.Split.{family_meaning}

-- Which parts of `meaning` a list of deletes has.
pub is_deleted-delete_all :
    (l : List Record) (id : Text) → is_deleted (delete_all l) id ≡ has_id id l
is_deleted-delete_all [] id = refl
is_deleted-delete_all (r ∷ l) id = ground (arith, is_deleted-delete_all l id)

pub names_id-delete_all :
    (l : List Record) (id : Text) → any_of (names_id id) (delete_all l) ≡ has_id id l
names_id-delete_all [] id = refl
names_id-delete_all (r ∷ l) id = ground (arith, names_id-delete_all l id)

pub writes_other-delete_all :
    (t : RecordType) (l : List Record) → any_of (writes_other t) (delete_all l) ≡ false
writes_other-delete_all t [] = refl
writes_other-delete_all t (r ∷ l) = writes_other-delete_all t l

pub select_update-delete_all : (l : List Record) → select is_update (delete_all l) ≡ []
select_update-delete_all [] = refl
select_update-delete_all (r ∷ l) = select_update-delete_all l

pub select_create-delete_all : (l : List Record) → select is_create (delete_all l) ≡ []
select_create-delete_all [] = refl
select_create-delete_all (r ∷ l) = select_create-delete_all l

-- Without the records that a list names, nothing of the list is left, and of one more record that one.
pub select_unnamed :
    (whole l : List Record)
    → ((r : Record) → Memᴰ r l → has_id r.id whole ≡ true)
    → select (λ r. not (has_id r.id whole)) l ≡ []
select_unnamed whole [] h = refl
select_unnamed whole (r ∷ l) h =
    ground (arith, h r (Memᴰ.head refl), select_unnamed whole l (λ s m. h s (Memᴰ.tail m)))

select_kept :
    (k : Record) (others : List Record)
    → distinct_ids (k ∷ others) ≡ true
    → select (λ r. not (has_id r.id others)) (k ∷ others) ≡ k ∷ []
select_kept k others d =
    ground (arith, select_unnamed others others (λ r m. has_id_of_mem r others m))

-- A plan that deletes the others, and at most updates the record that is kept.
module _ (k : Record) (others : List Record) (updates : List Operation) (ops : List Operation)
    (shape : Perm ops (delete_all others ++ updates))
    (only : (updates ≡ []) ⊎ ((d : Record) × (updates ≡ update_operation k d ∷ []))) where
  is_deleted_keep : (id : Text) → is_deleted ops id ≡ has_id id others
  is_deleted_keep id =
      any_of-perm (deletes_id id) shape
      ∙ any_of-append (deletes_id id) (delete_all others) updates
      ∙ ground (arith, is_deleted-delete_all others id, only)

  updates_alone : (select is_update updates ≡ updates) × (select is_create updates ≡ [])
  updates_alone = elim only [ inl e ↦ rw e (refl, refl) | inr (d, e) ↦ rw e (refl, refl) ]

  updates_of_shape : Perm (select is_update ops) updates
  updates_of_shape =
      subst (Perm (select is_update ops))
        (select-append is_update (delete_all others) updates
          ∙ ap₂ ◌++◌ (select_update-delete_all others) updates_alone.0)
        (select-perm is_update shape)

  select_update_keep : select is_update ops ≡ updates
  select_update_keep = elim only [
    | inl e ↦ perm_nil (subst (Perm (select is_update ops)) e updates_of_shape) ∙ sym e
    | inr (d, e) ↦
        perm_singleton Operations-set (subst (Perm (select is_update ops)) e updates_of_shape)
        ∙ sym e
  ]

  select_create_keep : select is_create ops ≡ []
  select_create_keep = perm_nil (
      subst (Perm (select is_create ops))
        (select-append is_create (delete_all others) updates
          ∙ ap₂ ◌++◌ (select_create-delete_all others) updates_alone.1)
        (select-perm is_create shape))

  -- Of the records of the type the kept one is left, updated.
  pub family_meaning_keep :
      (fresh : ℕ → Text) (n : ℕ) (records : List Record)
      → Perm records (k ∷ others)
      → distinct_ids (k ∷ others) ≡ true
      → family_meaning fresh n ops records ≡ apply_updates updates k ∷ []
  family_meaning_keep fresh n records p d =
      let left : select (λ r. not (is_deleted ops r.id)) records ≡ k ∷ [] =
        ap (λ (f : Text → Bool). select (λ r. not (f r.id)) records) (fun_ext is_deleted_keep)
        ∙ perm_singleton Records-set (
            subst (Perm (select (λ r. not (has_id r.id others)) records)) (select_kept k others d)
              (select-perm (λ r. not (has_id r.id others)) p)) in
      ap₂ ◌++◌ (ap₂ (λ us l. map (apply_updates us) l) select_update_keep left)
        (ap (created fresh n) select_create_keep)

  -- Only records of the list are named, and only records of the type of the update written.
  pub IsFamily-keep :
      (t : RecordType) (current : List Record)
      → Perm current (k ∷ others)
      → any_of (writes_other t) updates ≡ false
      → IsFamily t current ops
  IsFamily-keep t current p w = record {
    named = λ id h.
        any_of-perm (names_id id) shape
        ∙ any_of-append (names_id id) (delete_all others) updates
        ∙ ground (arith, names_id-delete_all others id, any_of-perm (λ r. text_eq r.id id) p, only);
    typed =
        any_of-perm (writes_other t) shape
        ∙ any_of-append (writes_other t) (delete_all others) updates
        ∙ ground (arith, writes_other-delete_all t others);
  }

-- A record that matches, or that is written, passes the test of the verification.
module _ ⦃std : Stdlib⦄ (name : Text) (t : RecordType) (address : std.Addr) (ttl : ℕ)
    (options : RecordOptions) where
  abbrev wanted : Record
  wanted = desired_record name t address ttl options

  record_options_equal_refl : (o : RecordOptions) → record_options_equal o o ≡ true
  unfolding record_options_equal
  record_options_equal_refl o = ground arith

  pub matches_expected :
      (k : Record)
      → record_matches_desired k wanted ≡ true
      → record_matches_desired k (expected_record t address ttl options) ≡ true
  unfolding record_matches_desired desired_record expected_record
  matches_expected k h = ground arith

  pub written_matches_expected :
      (id : Text)
      → record_matches_desired (record wanted { id = id }) (expected_record t address ttl options)
        ≡ true
  unfolding record_matches_desired desired_record expected_record
  written_matches_expected id = ground (
    arith,
    text_eq_refl t,
    text_eq_refl (std.addr_string address),
    record_options_equal_refl (clone_record_options options),
  )
