-- ===== src/Provider/Order.antt =====
-- formatOptions, and the orders by which sortOperations and sortRecords sort.
use dns_update.Prelude.{
  Bool, not, Option, none, some, List, [], ◌∷◌, ◌++◌, if◌then◌else◌, is_empty, Perm,
}
use dns_update.Text.{Text, codes, text_eq, text_lt, join, decimal, format_bool}
use dns_update.Stdlib.{Stdlib}
use dns_update.Provider.{RecordOptions, Record, Operation, normalize_name}

unfoldable pub format_options : RecordOptions → Text
unfolding format_bool
format_options options = elim options.proxy [
  | none ↦ []
  | some value ↦ codes " proxy=" ++ format_bool value
]

unfoldable pub format_proxy_value : Option Bool → Text
unfolding format_bool
format_proxy_value none = codes "unset"
format_proxy_value (some value) = format_bool value

describe_record : Record → Text
unfolding format_options decimal
describe_record r =
    r.content ++ (codes " ttl=" ++ (decimal r.ttl_seconds ++ format_options r.options))

describe_each : List Record → List Text
describe_each [] = []
describe_each (r ∷ rs) = describe_record r ∷ describe_each rs

unfoldable pub describe_records : List Record → Text
unfolding describe_record describe_each join
describe_records records =
    if is_empty records then codes "none" else join (describe_each records) (codes ", ")

-- The `less` of sortOperations.
unfoldable pub operation_less : Operation → Operation → Bool
unfolding format_options
operation_less l r =
    if not (text_eq l.kind r.kind)
    then text_lt l.kind r.kind
    else if not (text_eq l.current.record_type r.current.record_type)
    then text_lt l.current.record_type r.current.record_type
    else if not (text_eq l.current.id r.current.id)
    then text_lt l.current.id r.current.id
    else if not (text_eq l.desired.content r.desired.content)
    then text_lt l.desired.content r.desired.content
    else text_lt (format_options l.desired.options) (format_options r.desired.options)

-- The `less` of sortRecords.
unfoldable pub record_less : Record → Record → Bool
unfolding format_options
record_less l r =
    let ln = normalize_name l.name in
    let rn = normalize_name r.name in
    if not (text_eq l.record_type r.record_type)
    then text_lt l.record_type r.record_type
    else if not (text_eq ln rn)
    then text_lt ln rn
    else if not (text_eq l.id r.id)
    then text_lt l.id r.id
    else if not (text_eq l.content r.content)
    then text_lt l.content r.content
    else text_lt (format_options l.options) (format_options r.options)

module _ ⦃std : Stdlib⦄ where
  unfoldable pub sort_operations : List Operation → List Operation
  unfolding operation_less
  sort_operations operations = std.sort_slice Operation operation_less operations

  unfoldable pub sort_records : List Record → List Record
  unfolding record_less
  sort_records records = std.sort_slice Record record_less records

  -- A sort rearranges.
  pub sort_operations-perm : (l : List Operation) → Perm (sort_operations l) l
  unfolding sort_operations
  sort_operations-perm l = std.sort_slice-perm Operation operation_less l

  pub sort_records-perm : (l : List Record) → Perm (sort_records l) l
  unfolding sort_records
  sort_records-perm l = std.sort_slice-perm Record record_less l
