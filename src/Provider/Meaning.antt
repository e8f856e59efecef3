-- ===== src/Provider/Meaning.antt =====
-- The contract of Provider.Apply in internal/provider/provider.go, as a meaning of plans: the records
-- that a delete names by ID go, those that an update names get the desired fields under the same ID,
-- and each create adds its record under a new ID.
pub mod Rearranged
pub mod Family
pub mod Split
pub mod TypePlan
pub mod Outcome
pub mod Observed
pub mod Deleted
use dns_update.Prelude.{
  ℕ, suc, Bool, true, not, ◌&&◌, List, [], ◌∷◌, ◌++◌, map, if◌then◌else◌, select, any_of,
}
use dns_update.Text.{Text, text_eq}
use dns_update.Provider.{Record, State, Operation, Plan, kind_create, kind_update, kind_delete}

abbrev pub deletes_id : Text → Operation → Bool
deletes_id id op = text_eq op.kind kind_delete && text_eq op.current.id id

abbrev pub is_update : Operation → Bool
is_update op = text_eq op.kind kind_update

abbrev pub is_create : Operation → Bool
is_create op = text_eq op.kind kind_create

abbrev pub is_deleted : List Operation → Text → Bool
is_deleted ops id = any_of (deletes_id id) ops

-- One update, at a record that it may name or not.
abbrev pub apply_update : Operation → Record → Record
apply_update op r = if text_eq op.current.id r.id then record (op.desired) { id = r.id } else r

abbrev pub apply_updates : List Operation → Record → Record
apply_updates [] r = r
apply_updates (op ∷ ops) r = apply_updates ops (apply_update op r)

-- The created records, under the IDs that the provider gives from the n-th on.
abbrev pub created : (ℕ → Text) → ℕ → List Operation → List Record
created fresh n [] = []
created fresh n (op ∷ ops) = record (op.desired) { id = fresh n } ∷ created fresh (suc n) ops

unfoldable pub meaning : (ℕ → Text) → List Operation → List Record → List Record
meaning fresh ops records =
    map (apply_updates (select is_update ops)) (select (λ r. not (is_deleted ops r.id)) records)
    ++ created fresh 0 (select is_create ops)

-- The state after a plan.
unfoldable pub after_plan : (ℕ → Text) → Plan → State → State
unfolding meaning
after_plan fresh plan state = record state { records = meaning fresh plan.operations state.records }

-- IDs name one record each.
abbrev pub has_id : Text → List Record → Bool
has_id id records = any_of (λ r. text_eq r.id id) records

abbrev pub distinct_ids : List Record → Bool
distinct_ids [] = true
distinct_ids (r ∷ rs) = not (has_id r.id rs) && distinct_ids rs
