-- ===== src/Provider/Summaries.antt =====
-- internal/provider/provider.go: Plan.Summaries, the lines that a dry run shows.
use dns_update.Prelude.{List, [], ◌∷◌, ◌++◌, if◌then◌else◌}
use dns_update.Text.{Text, codes, text_eq, text_lt, decimal, join}
use dns_update.Stdlib.{Stdlib}
use dns_update.Provider.{Record, Operation, Plan, kind_create, kind_update, kind_delete}
use dns_update.Provider.Order.{format_options, format_proxy_value}

-- The parts of a line, with a space between two of them.
abbrev spaced : List Text → Text
spaced words = join words (codes " ")

abbrev pub create_summary : Record → Text
create_summary desired = spaced (
    codes "create"
    ∷ desired.record_type
    ∷ desired.name
    ∷ codes "->"
    ∷ desired.content
    ∷ (codes "ttl=" ++ (decimal desired.ttl_seconds ++ format_options desired.options))
    ∷ [])

abbrev pub update_summary : Record → Record → Text
update_summary current desired = spaced (
    codes "update"
    ∷ current.record_type
    ∷ current.name
    ∷ (codes "id=" ++ current.id)
    ∷ current.content
    ∷ codes "->"
    ∷ desired.content
    ∷ (codes "ttl=" ++ decimal current.ttl_seconds)
    ∷ codes "->"
    ∷ decimal desired.ttl_seconds
    ∷ (codes "proxy=" ++ format_proxy_value current.options.proxy)
    ∷ codes "->"
    ∷ format_proxy_value desired.options.proxy
    ∷ [])

abbrev pub delete_summary : Record → Text
delete_summary current = spaced (
    codes "delete"
    ∷ current.record_type
    ∷ current.name
    ∷ (codes "id=" ++ current.id)
    ∷ (codes "content=" ++ current.content)
    ∷ [])

-- One round of the loop; an operation of another kind adds no line.
abbrev pub add_summary : Operation → List Text → List Text
add_summary o rest =
    if text_eq o.kind kind_create
    then create_summary o.desired ∷ rest
    else if text_eq o.kind kind_update
    then update_summary o.current o.desired ∷ rest
    else if text_eq o.kind kind_delete
    then delete_summary o.current ∷ rest
    else rest

unfoldable pub summary_lines : List Operation → List Text
unfolding join decimal format_options format_proxy_value
summary_lines [] = []
summary_lines (o ∷ operations) = add_summary o (summary_lines operations)

module _ ⦃std : Stdlib⦄ where
  unfoldable pub summaries : Plan → List Text
  unfolding summary_lines
  summaries plan = std.sort_slice Text text_lt (summary_lines plan.operations)
