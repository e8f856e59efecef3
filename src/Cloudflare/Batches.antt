-- ===== src/Cloudflare/Batches.antt =====
-- internal/provider/cloudflare/records.go: buildBatchParams, and the lists of a batch read off a plan.
use dns_update.Prelude.{
  ◌≡◌, refl, sym, ◌∙◌, ap, inl, inr, Bool, true, ◌&&◌, ◌||◌, List, [], ◌∷◌, ◌++◌, arith, map,
  select, all_of, Bool-cases, append-nil, append_assoc,
}
use dns_update.Text.{Text, text_eq}
use dns_update.Text.Laws.{text_eq_apart, eq-of_text_eq}
use dns_update.Failure.{Result, ok}
use dns_update.Provider.{
  Record, RecordType, Operation, Plan, type_a, type_aaaa, kind_create, kind_update, kind_delete,
  normalize_name,
}
use dns_update.Provider.Meaning.{is_update, is_create}
use dns_update.Cloudflare.{
  Batch, BatchPatch, BatchParams, RecordParam, empty_batch, add_operation, add_operations,
  build_batch_params, to_record_post, to_batch_patch, param_of, sent, normalize_api_name,
}

abbrev pub is_delete : Operation → Bool
is_delete op = text_eq op.kind kind_delete

abbrev pub address_type : RecordType → Bool
address_type t = text_eq t type_a || text_eq t type_aaaa

-- An operation that the batch has a place for.
abbrev pub supported : Operation → Bool
supported op =
    is_delete op || ((is_update op || is_create op) && address_type op.desired.record_type)

-- A record as it is sent: with all its fields, under its name without a dot at the end.
abbrev pub fields_of : Record → RecordParam
fields_of r = record {
  name = normalize_name r.name;
  ttl = r.ttl_seconds;
  record_type = r.record_type;
  content = r.content;
  proxied = r.options.proxy;
}

abbrev pub patch_of : Operation → BatchPatch
patch_of op = record { id = op.current.id; param = fields_of op.desired }

abbrev pub post_of : Operation → RecordParam
post_of op = fields_of op.desired

-- The lists of a batch, read off the operations.
abbrev pub batch_after : Batch → List Operation → Batch
batch_after b ops = record {
  deletes = b.deletes ++ map (λ op. op.current.id) (select is_delete ops);
  patches = b.patches ++ map patch_of (select is_update ops);
  posts = b.posts ++ map post_of (select is_create ops);
}

post_supported :
    (r : Record) → address_type r.record_type ≡ true → to_record_post r ≡ ok (fields_of r)
unfolding to_record_post normalize_api_name
post_supported r h = elim (Bool-cases (text_eq r.record_type type_a)) [
  | inl k ↦ rw k (ap (λ t. ok (param_of r t)) (sym (eq-of_text_eq r.record_type type_a k)))
  | inr k ↦
      let j : text_eq r.record_type type_aaaa ≡ true = ground arith in
      rw (k, j) (ap (λ t. ok (param_of r t)) (sym (eq-of_text_eq r.record_type type_aaaa j)))
]

patch_supported :
    (op : Operation)
    → address_type op.desired.record_type ≡ true
    → to_batch_patch op.current.id op.desired ≡ ok (patch_of op)
unfolding to_batch_patch normalize_api_name
patch_supported op h = elim (Bool-cases (text_eq op.desired.record_type type_a)) [
  | inl k ↦ rw k (ap patch (sym (eq-of_text_eq op.desired.record_type type_a k)))
  | inr k ↦
      let j : text_eq op.desired.record_type type_aaaa ≡ true = ground arith in
      rw (k, j) (ap patch (sym (eq-of_text_eq op.desired.record_type type_aaaa j)))
]
  where
    patch : RecordType → Result BatchPatch
    patch t = ok (record { id = op.current.id; param = param_of op.desired t })

-- One round of the loop, on each kind.
module _ (b : Batch) (op : Operation) where
  add_delete : is_delete op ≡ true → add_operation b op ≡ ok (batch_after b (op ∷ []))
  unfolding add_operation
  add_delete h =
      let u = text_eq_apart op.kind kind_delete kind_update h refl in
      let c = text_eq_apart op.kind kind_delete kind_create h refl in
      rw (h, u, c, append-nil b.patches, append-nil b.posts)

  add_update :
      is_update op ≡ true
      → address_type op.desired.record_type ≡ true
      → add_operation b op ≡ ok (batch_after b (op ∷ []))
  unfolding add_operation
  add_update h t =
      let d = text_eq_apart op.kind kind_update kind_delete h refl in
      let c = text_eq_apart op.kind kind_update kind_create h refl in
      rw (h, d, c, patch_supported op t, append-nil b.deletes, append-nil b.posts)

  add_create :
      is_create op ≡ true
      → address_type op.desired.record_type ≡ true
      → add_operation b op ≡ ok (batch_after b (op ∷ []))
  unfolding add_operation
  add_create h t =
      let d = text_eq_apart op.kind kind_create kind_delete h refl in
      let u = text_eq_apart op.kind kind_create kind_update h refl in
      rw (h, d, u, post_supported op.desired t, append-nil b.deletes, append-nil b.patches)

  add_supported : supported op ≡ true → add_operation b op ≡ ok (batch_after b (op ∷ []))
  add_supported h = elim (Bool-cases (is_delete op)) [
    | inl d ↦ add_delete d
    | inr d ↦ elim (Bool-cases (is_update op)) [
      | inl u ↦ add_update u (ground arith)
      | inr u ↦ add_create (ground arith) (ground arith)
    ]
  ]

-- Lists that are filled one operation at a time.
append_selected {ℓ} :
    {A : Type ℓ} (f : Operation → A) (p : Operation → Bool) (l : List A) (op : Operation)
    (ops : List Operation)
    → (l ++ map f (select p (op ∷ []))) ++ map f (select p ops) ≡ l ++ map f (select p (op ∷ ops))
append_selected f p l op ops = elim (Bool-cases (p op)) [
  | inl h ↦ rw h (append_assoc l (f op ∷ []) (map f (select p ops)))
  | inr h ↦ rw h (ap (λ m. m ++ map f (select p ops)) (append-nil l))
]

batch_after-cons :
    (b : Batch) (op : Operation) (ops : List Operation)
    → batch_after (batch_after b (op ∷ [])) ops ≡ batch_after b (op ∷ ops)
batch_after-cons b op ops = rw (
  append_selected (λ o. o.current.id) is_delete b.deletes op ops,
  append_selected patch_of is_update b.patches op ops,
  append_selected post_of is_create b.posts op ops,
)

add_operations-supported :
    (b : Batch) (ops : List Operation)
    → all_of supported ops ≡ true
    → add_operations b ops ≡ ok (batch_after b ops)
unfolding add_operations
add_operations-supported b [] h =
    rw (append-nil b.deletes, append-nil b.patches, append-nil b.posts)
add_operations-supported b (op ∷ ops) h = rw (add_supported b op (ground arith)) (
    add_operations-supported (batch_after b (op ∷ [])) ops (ground arith)
    ∙ ap ok (batch_after-cons b op ops))

-- What the batch endpoint is sent for a list of operations.
abbrev pub params_of : Text → List Operation → BatchParams
params_of zone_id ops =
    let b = batch_after empty_batch ops in
    record {
      zone_id = zone_id;
      deletes = sent b.deletes;
      patches = sent b.patches;
      posts = sent b.posts;
    }

-- buildBatchParams of a plan whose operations are deletes, or creates and updates of A and AAAA
-- records, returns the batch with the deleted IDs, the patched records under their IDs and the
-- created records, each in the plan's order and left out where there is none.
pub build_batch_params-supported :
    (zone_id : Text) (plan : Plan)
    → all_of supported plan.operations ≡ true
    → build_batch_params zone_id plan ≡ ok (params_of zone_id plan.operations)
unfolding build_batch_params
build_batch_params-supported zone_id plan h =
    rw (add_operations-supported empty_batch plan.operations h)
