-- ===== src/App/Formats.antt =====
-- internal/app/run.go: formatDesired and formatRecords, the parts of the log lines.
use dns_update.Prelude.{Option, none, some, List, map, if◌then◌else◌, is_empty}
use dns_update.Text.{Text, codes, join}
use dns_update.Stdlib.{Stdlib}
use dns_update.Provider.{Record}

unfoldable pub format_records : List Record → Text
unfolding join
format_records records =
    if is_empty records
    then codes "none"
    else join (map (λ (r : Record). r.content) records) (codes ",")

module _ ⦃std : Stdlib⦄ where
  unfoldable pub format_desired : Option std.Addr → Text
  format_desired none = codes "none"
  format_desired (some address) = std.addr_string address
