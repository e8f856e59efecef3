-- ===== src/Provider/Meaning/Split.antt =====
-- The records of one type after a plan for both types.
use mathlib.Core.List.{Memᴰ}
use dns_update.Prelude.{
  ℕ, ◌+◌, suc, ◌≡◌, refl, sym, ◌∙◌, ap, inl, inr, Bool, true, false, not, List, [], ◌∷◌, ◌++◌, map,
  append-nil, arith, select, select-append, any_of, any_of-append, length, Bool-cases,
}
use mathlib.Core.Path.{ap₂}
use dns_update.Text.{Text, text_eq}
use dns_update.Text.Laws.{text_eq_comm, text_eq_apart, eq-of_text_eq}
use dns_update.Provider.{Record, RecordType, Operation}
use dns_update.Provider.Planning.{has_type}
use dns_update.Provider.Meaning.{
  deletes_id, is_deleted, is_update, is_create, distinct_ids, apply_updates, created, meaning,
}
use dns_update.Provider.Meaning.Family.{
  writes_other, names_id, IsFamily, is_deleted_of_unnamed, apply_updates_of_unnamed,
  id-apply_updates, apply_updates-append, has_type-apply_updates, has_id_of_other_type,
}

-- What one family's operations make of the records of their type.
abbrev pub family_meaning : (ℕ → Text) → ℕ → List Operation → List Record → List Record
family_meaning fresh n ops records =
    map (apply_updates (select is_update ops)) (select (λ r. not (is_deleted ops r.id)) records)
    ++ created fresh n (select is_create ops)

-- Two ways to treat records that agree on those of a type.
select-map-select :
    (t : RecordType) (f g : Record → Record) (p q : Record → Bool) (l : List Record)
    → ((r : Record) → Memᴰ r l → has_type t (f r) ≡ has_type t r)
    → ((r : Record) → Memᴰ r l → has_type t r ≡ true → (f r ≡ g r) × (p r ≡ q r))
    → select (has_type t) (map f (select p l)) ≡ map g (select q (select (has_type t) l))
select-map-select t f g p q [] keep agree = refl
select-map-select t f g p q (r ∷ l) keep agree =
    let rest =
      select-map-select t f g p q l (λ s m. keep s (Memᴰ.tail m)) (λ s m. agree s (Memᴰ.tail m)) in
    ground (arith, rest, keep r (Memᴰ.head refl), agree r (Memᴰ.head refl))

select-created_self :
    (t : RecordType) (fresh : ℕ → Text) (n : ℕ) (ops : List Operation)
    → any_of (writes_other t) ops ≡ false
    → select (has_type t) (created fresh n (select is_create ops))
      ≡ created fresh n (select is_create ops)
select-created_self t fresh n [] h = refl
select-created_self t fresh n (op ∷ ops) h =
    ground (arith, select-created_self t fresh n ops, select-created_self t fresh (suc n) ops)

select-created_other :
    (t u : RecordType) (fresh : ℕ → Text) (n : ℕ) (ops : List Operation)
    → text_eq t u ≡ false
    → any_of (writes_other t) ops ≡ false
    → select (has_type u) (created fresh n (select is_create ops)) ≡ []
select-created_other t u fresh n [] ne h = refl
select-created_other t u fresh n (op ∷ ops) ne h = ground (
  arith,
  select-created_other t u fresh n ops,
  select-created_other t u fresh (suc n) ops,
  text_eq_apart op.desired.record_type t u,
)

created-append :
    (fresh : ℕ → Text) (n : ℕ) (xs ys : List Operation)
    → created fresh n (xs ++ ys) ≡ created fresh n xs ++ created fresh (length xs + n) ys
created-append fresh n [] ys = ap (λ k. created fresh k ys) (omega arith)
created-append fresh n (op ∷ xs) ys = ap (◌∷◌ (record (op.desired) { id = fresh n })) (
    created-append fresh (suc n) xs ys
    ∙ ap (λ k. created fresh (suc n) xs ++ created fresh k ys) (omega arith))

pub map_id-select_all : (l : List Record) → map (λ r. r) (select (λ r. true) l) ≡ l
map_id-select_all [] = refl
map_id-select_all (r ∷ l) = ap (◌∷◌ r) (map_id-select_all l)

-- No operations leave the records as they are.
pub family_meaning_nil :
    (fresh : ℕ → Text) (n : ℕ) (records : List Record) → family_meaning fresh n [] records ≡ records
family_meaning_nil fresh n records = append-nil _ ∙ map_id-select_all records

abbrev pub patch : List Operation → Record → Record
patch ops = apply_updates (select is_update ops)

patch-append : (xs ys : List Operation) (r : Record) → patch (xs ++ ys) r ≡ patch ys (patch xs r)
patch-append xs ys r =
    ap (λ ops. apply_updates ops r) (select-append is_update xs ys)
    ∙ apply_updates-append (select is_update xs) (select is_update ys) r

-- One family among the records of a name.
module _ (records : List Record) (distinct : distinct_ids records ≡ true) (t : RecordType)
    (ops : List Operation) (family : IsFamily t (select (has_type t) records) ops) (r : Record)
    (m : Memᴰ r records) where
  unnamed : has_type t r ≡ false → any_of (names_id r.id) ops ≡ false
  unnamed h = family.named r.id (has_id_of_other_type t r records m distinct h)

  other_stays : has_type t r ≡ false → (patch ops r ≡ r) × (is_deleted ops r.id ≡ false)
  other_stays h =
      (apply_updates_of_unnamed r ops (unnamed h), is_deleted_of_unnamed r.id ops (unnamed h))

  type-patch : (patch ops r).record_type ≡ r.record_type
  type-patch = elim (Bool-cases (has_type t r)) [
    | inl h ↦
        eq-of_text_eq _ _ (has_type-apply_updates t ops r family.typed h)
        ∙ sym (eq-of_text_eq _ _ h)
    | inr h ↦ ap (λ s. s.record_type) (other_stays h).0
  ]

module _ (records : List Record) (distinct : distinct_ids records ≡ true) (t u : RecordType)
    (apart : text_eq t u ≡ false) (xs ys : List Operation)
    (first : IsFamily t (select (has_type t) records) xs)
    (second : IsFamily u (select (has_type u) records) ys) where
  abbrev kept : List Operation → Record → Bool
  kept ops r = not (is_deleted ops r.id)

  module _ (r : Record) (m : Memᴰ r records) where
    not_second : has_type t r ≡ true → has_type u r ≡ false
    not_second h = text_eq_apart r.record_type t u h apart

    of_first :
        has_type t r ≡ true → (patch (xs ++ ys) r ≡ patch xs r) × (kept (xs ++ ys) r ≡ kept xs r)
    of_first h =
        let clear = unnamed records distinct u ys second r m (not_second h) in
        let same_id = id-apply_updates (select is_update xs) r in
        (
          patch-append xs ys r
              ∙ apply_updates_of_unnamed (patch xs r) ys
                  (ap (λ i. any_of (names_id i) ys) same_id ∙ clear),
          ground
              (arith, any_of-append (deletes_id r.id) xs ys, is_deleted_of_unnamed r.id ys clear),
        )

    of_second :
        has_type t r ≡ false → (patch (xs ++ ys) r ≡ patch ys r) × (kept (xs ++ ys) r ≡ kept ys r)
    of_second h =
        let (still, left) = other_stays records distinct t xs first r m h in
        (
          patch-append xs ys r ∙ ap (patch ys) still,
          ground (arith, any_of-append (deletes_id r.id) xs ys, left),
        )

    of_neither :
        (v : RecordType)
        → text_eq t v ≡ false
        → text_eq u v ≡ false
        → has_type v r ≡ true
        → (patch (xs ++ ys) r ≡ r) × (kept (xs ++ ys) r ≡ true)
    of_neither v tv uv h =
        let not_t = text_eq_apart r.record_type v t h (text_eq_comm v t ∙ tv) in
        let not_u = text_eq_apart r.record_type v u h (text_eq_comm v u ∙ uv) in
        let (patched, left) = of_second not_t in
        let (still, undeleted) = other_stays records distinct u ys second r m not_u in
        (patched ∙ still, left ∙ ap not undeleted)

    type-patch_both : (patch (xs ++ ys) r).record_type ≡ r.record_type
    type-patch_both = elim (Bool-cases (has_type t r)) [
      | inl h ↦ ap (λ s. s.record_type) (of_first h).0 ∙ type-patch records distinct t xs first r m
      | inr h ↦
          ap (λ s. s.record_type) (of_second h).0 ∙ type-patch records distinct u ys second r m
    ]

  old_records :
      (v : RecordType) (g : Record → Record) (q : Record → Bool)
      → ((r : Record)
          → Memᴰ r records
          → has_type v r ≡ true
          → (patch (xs ++ ys) r ≡ g r) × (kept (xs ++ ys) r ≡ q r))
      → select (has_type v) (map (patch (xs ++ ys)) (select (kept (xs ++ ys)) records))
        ≡ map g (select q (select (has_type v) records))
  old_records v g q =
      select-map-select v (patch (xs ++ ys)) g (kept (xs ++ ys)) q records
        (λ r m. ap (λ k. text_eq k v) (type-patch_both r m))

  new_records :
      (v : RecordType) (fresh : ℕ → Text)
      → select (has_type v) (created fresh 0 (select is_create (xs ++ ys)))
        ≡ select (has_type v) (created fresh 0 (select is_create xs))
          ++ select
              (has_type v)
              (created fresh (length (select is_create xs) + 0) (select is_create ys))
  new_records v fresh =
      ap (λ ops. select (has_type v) (created fresh 0 ops)) (select-append is_create xs ys)
      ∙ ap (select (has_type v))
          (created-append fresh 0 (select is_create xs) (select is_create ys))
      ∙ select-append (has_type v) _ _

  -- The records of the first type are what its own operations make of them.
  pub select-meaning_first :
      (fresh : ℕ → Text)
      → select (has_type t) (meaning fresh (xs ++ ys) records)
        ≡ family_meaning fresh 0 xs (select (has_type t) records)
  unfolding meaning
  select-meaning_first fresh =
      select-append (has_type t) _ _
      ∙ ap₂ ◌++◌ (old_records t (patch xs) (kept xs) of_first) (
          new_records t fresh
          ∙ ap₂ ◌++◌ (select-created_self t fresh 0 xs first.typed)
              (select-created_other u t fresh _ ys (text_eq_comm u t ∙ apart) second.typed)
          ∙ append-nil _)

  -- And so are those of the second type.
  pub select-meaning_second :
      (fresh : ℕ → Text)
      → select (has_type u) (meaning fresh (xs ++ ys) records)
        ≡ family_meaning fresh (length (select is_create xs) + 0) ys (select (has_type u) records)
  unfolding meaning
  select-meaning_second fresh =
      select-append (has_type u) _ _
      ∙ ap₂ ◌++◌
          (old_records u (patch ys) (kept ys)
            (λ r m h. of_second r m (text_eq_apart r.record_type u t h (text_eq_comm u t ∙ apart))))
          (new_records u fresh
            ∙ ap₂ ◌++◌ (select-created_other t u fresh 0 xs apart first.typed)
                (select-created_self u fresh _ ys second.typed))

  -- The records of any other type stay as they are.
  pub select-meaning_other :
      (fresh : ℕ → Text) (v : RecordType)
      → text_eq t v ≡ false
      → text_eq u v ≡ false
      → select (has_type v) (meaning fresh (xs ++ ys) records) ≡ select (has_type v) records
  unfolding meaning
  select-meaning_other fresh v tv uv =
      select-append (has_type v) _ _
      ∙ ap₂ ◌++◌
          (old_records v (λ r. r) (λ r. true) (λ r m. of_neither r m v tv uv) ∙ map_id-select_all _)
          (new_records v fresh
            ∙ ap₂ ◌++◌ (select-created_other t v fresh 0 xs tv first.typed)
                (select-created_other u v fresh _ ys uv second.typed))
      ∙ append-nil _
