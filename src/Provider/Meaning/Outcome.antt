-- ===== src/Provider/Meaning/Outcome.antt =====
-- internal/provider/provider.go: buildTypePlan against verifyTypeState.
use mathlib.Core.List.{Perm}
use mathlib.Core.List.Perm
use mathlib.Core.Path.{ap₂, fun_ext}
use dns_update.Prelude.{
  ℕ, ◌≡◌, ◌⊎◌, refl, sym, ◌∙◌, ap, inl, inr, Bool, true, false, not, Option, none, some, List, [],
  ◌∷◌, ◌++◌, map, arith, select, any_of, Bool-cases,
}
use dns_update.Prelude.Rearrange.{any_of-perm, perm_nil, perm_singleton}
use dns_update.Text.{Text, text_eq}
use dns_update.Text.Laws.{text_eq_refl}
use dns_update.Stdlib.{Stdlib}
use dns_update.Failure.{ok}
use dns_update.Provider.{Record, RecordType, RecordOptions, Operation}
use dns_update.Provider.Order.{sort_records, sort_records-perm}
use dns_update.Provider.Planning.{
  record_matches_desired, delete_all, desired_record, build_type_plan, update_operation,
}
use dns_update.Provider.Planning.Shape.{keep_operations, plan_of_current-shape}
use dns_update.Provider.Verify.{expected_record, verify_type_state}
use dns_update.Provider.Meaning.{is_deleted, distinct_ids, apply_updates, created}
use dns_update.Provider.Meaning.Rearranged.{Records-set, distinct_ids-perm}
use dns_update.Provider.Meaning.Family.{IsFamily, writes_other, has_id_of_mem}
use dns_update.Provider.Meaning.Split.{family_meaning}
use dns_update.Provider.Meaning.TypePlan.{
  is_deleted-delete_all, names_id-delete_all, writes_other-delete_all, select_update-delete_all,
  select_create-delete_all, select_unnamed, family_meaning_keep, IsFamily-keep, matches_expected,
  written_matches_expected,
}

module _ ⦃std : Stdlib⦄ where
  sort_nil : sort_records [] ≡ []
  sort_nil = perm_nil (sort_records-perm [])

  sort_one : (r : Record) → sort_records (r ∷ []) ≡ r ∷ []
  sort_one r = perm_singleton Records-set (sort_records-perm (r ∷ []))

  -- The operations for a type are a family, and the verification passes on what they leave.
  pub record Outcome (t : RecordType) (records : List Record) (address : Option std.Addr) (ttl : ℕ)
      (options : RecordOptions) (ops : List Operation) : Type 0 where
    pub family : IsFamily t records ops
    pub verified :
        (fresh : ℕ → Text) (n : ℕ)
        → verify_type_state
            (sort_records (family_meaning fresh n ops records))
            t
            address
            ttl
            options
          ≡ ok tt

  verify_single :
      (r : Record) (t : RecordType) (address : std.Addr) (ttl : ℕ) (options : RecordOptions)
      → record_matches_desired r (expected_record t address ttl options) ≡ true
      → verify_type_state (sort_records (r ∷ [])) t (some address) ttl options ≡ ok tt
  unfolding verify_type_state
  verify_single r t address ttl options h = rw sort_one (rw h)

  Outcome-none :
      (current records : List Record) (t : RecordType) (ttl : ℕ) (options : RecordOptions)
      → Perm current records
      → Outcome t records none ttl options (delete_all current)
  unfolding verify_type_state
  Outcome-none current records t ttl options p = record {
    family = record {
      named = λ id h. names_id-delete_all current id ∙ any_of-perm (λ r. text_eq r.id id) p ∙ h;
      typed = writes_other-delete_all t current;
    };
    verified = λ fresh n.
        let gone : select (λ r. not (is_deleted (delete_all current) r.id)) records ≡ [] =
          ap (λ (f : Text → Bool). select (λ r. not (f r.id)) records)
            (fun_ext (is_deleted-delete_all current))
          ∙ select_unnamed current records
              (λ r m. any_of-perm (λ s. text_eq s.id r.id) p ∙ has_id_of_mem r records m) in
        let whole : family_meaning fresh n (delete_all current) records ≡ [] =
          ap₂ ◌++◌ (ap₂ (λ us l. map (apply_updates us) l) (select_update-delete_all current) gone)
            (ap (created fresh n) (select_create-delete_all current)) in
        rw (whole, sort_nil);
  }

  Outcome-create :
      (records : List Record) (name : Text) (t : RecordType) (address : std.Addr) (ttl : ℕ)
      (options : RecordOptions)
      → Perm [] records
      → Outcome t records
          (some address)
          ttl
          options
          (build_type_plan [] name t (some address) ttl options)
  unfolding build_type_plan desired_record
  Outcome-create records name t address ttl options p = record {
    family = record { named = λ id h. refl; typed = ground (arith, text_eq_refl t) };
    verified = λ fresh n.
        let none_there : records ≡ [] = perm_nil (Perm.symm p) in
        rw none_there (
          verify_single _ t address ttl options
            (written_matches_expected name t address ttl options (fresh n)));
  }

  module _ (records : List Record) (name : Text) (t : RecordType) (address : std.Addr) (ttl : ℕ)
      (options : RecordOptions) (k : Record) (others : List Record) (ops : List Operation)
      (p : Perm records (k ∷ others)) (distinct : distinct_ids (k ∷ others) ≡ true) where
    abbrev wanted : Record
    wanted = desired_record name t address ttl options

    Outcome-match :
        record_matches_desired k wanted ≡ true
        → Perm ops (delete_all others ++ [])
        → Outcome t records (some address) ttl options ops
    Outcome-match h shape = record {
      family = IsFamily-keep k others [] ops shape (inl refl) t records p refl;
      verified = λ fresh n.
          rw (family_meaning_keep k others [] ops shape (inl refl) fresh n records p distinct) (
            verify_single k t address ttl options
              (matches_expected name t address ttl options k h));
    }

    update_typed : any_of (writes_other t) (update_operation k wanted ∷ []) ≡ false
    unfolding desired_record
    update_typed = ground (arith, text_eq_refl t)

    updated : apply_updates (update_operation k wanted ∷ []) k ≡ record wanted { id = k.id }
    updated = ground (arith, text_eq_refl k.id)

    Outcome-update :
        Perm ops (delete_all others ++ update_operation k wanted ∷ [])
        → Outcome t records (some address) ttl options ops
    Outcome-update shape =
        let updates : List Operation = update_operation k wanted ∷ [] in
        let only : (updates ≡ []) ⊎ ((d : Record) × (updates ≡ update_operation k d ∷ [])) =
          inr (wanted, refl) in
        record {
          family = IsFamily-keep k others updates ops shape only t records p update_typed;
          verified = λ fresh n.
              rw
                (
                  family_meaning_keep k others updates ops shape only fresh n records p distinct,
                  updated,
                )
                (verify_single _ t address ttl options
                  (written_matches_expected name t address ttl options k.id));
        }

    Outcome-of_shape :
        Perm ops (delete_all others ++ keep_operations k wanted)
        → Outcome t records (some address) ttl options ops
    Outcome-of_shape shape = elim (Bool-cases (record_matches_desired k wanted)) [
      | inl h ↦ Outcome-match h (rw h at shape)
      | inr h ↦ Outcome-update (rw h at shape)
    ]

  Outcome-keep :
      (first : Record) (rest records : List Record) (name : Text) (t : RecordType)
      (address : std.Addr) (ttl : ℕ) (options : RecordOptions)
      → Perm (first ∷ rest) records
      → distinct_ids records ≡ true
      → Outcome t records
          (some address)
          ttl
          options
          (build_type_plan (first ∷ rest) name t (some address) ttl options)
  unfolding build_type_plan
  Outcome-keep first rest records name t address ttl options p d =
      let (k, others, q, shape) =
        plan_of_current-shape first rest (desired_record name t address ttl options) in
      let same = Perm.trans (Perm.symm p) q in
      Outcome-of_shape records name t address ttl options k others _ same
        (sym (distinct_ids-perm same) ∙ d) shape

  pub build_type_plan-Outcome :
      (current records : List Record) (name : Text) (t : RecordType) (address : Option std.Addr)
      (ttl : ℕ) (options : RecordOptions)
      → Perm current records
      → distinct_ids records ≡ true
      → Outcome t records address ttl options (build_type_plan current name t address ttl options)
  unfolding build_type_plan
  build_type_plan-Outcome current records name t none ttl options p d =
      Outcome-none current records t ttl options p
  build_type_plan-Outcome [] records name t (some address) ttl options p d =
      Outcome-create records name t address ttl options p
  build_type_plan-Outcome (first ∷ rest) records name t (some address) ttl options p d =
      Outcome-keep first rest records name t address ttl options p d
