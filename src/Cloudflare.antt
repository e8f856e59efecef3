-- ===== src/Cloudflare.antt =====
-- internal/provider/cloudflare: the client over the records service of the Cloudflare SDK. The SDK's
-- list and batch calls are arguments; a batch is what RecordBatchParams holds.
pub mod Requests
pub mod Laws
pub mod Batches
pub mod Plans
pub mod Construction
pub mod Listing
use dns_update.Prelude.{
  ℕ, Bool, true, false, not, ◌&&◌, ◌||◌, Option, none, some, List, [], ◌∷◌, ◌++◌, ◌==◌,
  if◌then◌else◌, is_empty,
}
use dns_update.Text.{Text, codes, text_eq, trim_space, to_lower}
use dns_update.Failure.{
  Error, message, wrapped, Result, ok, err, unsupported_operation_kind, unsupported_record_type,
  foreign, ◌>>=◌,
}
use dns_update.Provider.{
  Record, RecordType, RecordOptions, State, Operation, Plan, type_a, type_aaaa, kind_create,
  kind_update, kind_delete, normalize_name, is_noop,
}

-- cfdns.RecordResponse, with the uint32 of its TTL.
pub record RecordResponse : Type 0 where
  pub id : Text
  pub name : Text
  pub record_type : Text
  pub content : Text
  pub ttl : ℕ
  pub proxied : Bool

-- ARecordParam and AAAARecordParam, by their type; a field that is not sent is none.
pub record RecordParam : Type 0 where
  pub name : Text
  pub ttl : ℕ
  pub record_type : RecordType
  pub content : Text
  pub proxied : Option Bool

pub record BatchPatch : Type 0 where
  pub id : Text
  pub param : RecordParam

-- RecordBatchParams; a list that is not sent is none.
pub record BatchParams : Type 0 where
  pub zone_id : Text
  pub deletes : Option (List Text)
  pub patches : Option (List BatchPatch)
  pub posts : Option (List RecordParam)

unfoldable pub normalize_api_name : Text → Text
normalize_api_name name = normalize_name name

unfoldable pub normalize_provider_name : Text → Text
normalize_provider_name name = normalize_name name ++ codes "."

unfoldable pub record_options : Bool → RecordOptions
record_options proxy = record { proxy = some proxy }

abbrev pub param_of : Record → RecordType → RecordParam
param_of r t = record {
  name = normalize_api_name r.name;
  ttl = r.ttl_seconds;
  record_type = t;
  content = r.content;
  proxied = r.options.proxy;
}

unfoldable pub to_record_post : Record → Result RecordParam
unfolding normalize_api_name
to_record_post r =
    if text_eq r.record_type type_a
    then ok (param_of r type_a)
    else if text_eq r.record_type type_aaaa
    then ok (param_of r type_aaaa)
    else err (message (unsupported_record_type r.record_type))

unfoldable pub to_batch_patch : Text → Record → Result BatchPatch
unfolding normalize_api_name
to_batch_patch id r =
    if text_eq r.record_type type_a
    then ok (record { id = id; param = param_of r type_a })
    else if text_eq r.record_type type_aaaa
    then ok (record { id = id; param = param_of r type_aaaa })
    else err (message (unsupported_record_type r.record_type))

-- The three lists that the loop of buildBatchParams fills.
pub record Batch : Type 0 where
  pub deletes : List Text
  pub patches : List BatchPatch
  pub posts : List RecordParam

abbrev pub empty_batch : Batch
empty_batch = record { deletes = []; patches = []; posts = [] }

-- One round of the loop.
unfoldable pub add_operation : Batch → Operation → Result Batch
unfolding to_record_post to_batch_patch
add_operation b op =
    if text_eq op.kind kind_delete
    then ok (record b { deletes = b.deletes ++ op.current.id ∷ [] })
    else if text_eq op.kind kind_update
    then (do
      patch ← to_batch_patch op.current.id op.desired
      ok (record b { patches = b.patches ++ patch ∷ [] }))
    else if text_eq op.kind kind_create
    then (do post ← to_record_post op.desired; ok (record b { posts = b.posts ++ post ∷ [] }))
    else err (message (unsupported_operation_kind op.kind))

unfoldable pub add_operations : Batch → List Operation → Result Batch
add_operations b [] = ok b
add_operations b (op ∷ ops) = add_operation b op >>= λ b'. add_operations b' ops

abbrev pub sent {ℓ} : {A : Type ℓ} → List A → Option (List A)
sent [] = none
sent (x ∷ xs) = some (x ∷ xs)

unfoldable pub build_batch_params : Text → Plan → Result BatchParams
unfolding add_operations
build_batch_params zone_id plan = do
  b ← add_operations empty_batch plan.operations
  ok (record {
    zone_id = zone_id;
    deletes = sent b.deletes;
    patches = sent b.patches;
    posts = sent b.posts;
  })

abbrev pub state_record : RecordResponse → Record
state_record r = record {
  id = r.id;
  name = normalize_provider_name r.name;
  record_type = r.record_type;
  content = r.content;
  ttl_seconds = r.ttl;
  options = record_options r.proxied;
}

-- The loop of ReadState.
unfoldable pub state_records : Text → List RecordResponse → List Record
state_records normalized_name [] = []
state_records normalized_name (r ∷ rs) =
    let rest = state_records normalized_name rs in
    if not (text_eq (normalize_api_name r.name) normalized_name)
    then rest
    else state_record r ∷ rest
