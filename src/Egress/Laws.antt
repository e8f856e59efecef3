-- ===== src/Egress/Laws.antt =====
-- internal/egress/probe.go: the addresses that parseResponse returns.
use dns_update.Prelude.{
  ◌≡◌, ap, Bool, true, false, not, ◌&&◌, Option, none, some, arith, ◌==◌, if◌then◌else◌,
}
use dns_update.Text.{Text, codes, trim_space, has_prefix, trim_prefix}
use dns_update.Stdlib.{Stdlib}
use dns_update.Failure.{ok}
use dns_update.Egress.{Family, ipv4, ipv6, parse_response, of_value, of_parsed, of_family}

-- The trimmed text behind `ip=`.
abbrev pub value_of : Text → Text
value_of body = trim_space (trim_prefix (trim_space body) (codes "ip="))

module _ ⦃std : Stdlib⦄ where
  -- The address belongs to the family.
  abbrev pub in_family : Family → std.Addr → Bool
  in_family family address =
      if family == ipv4
      then std.is4 address
      else if family == ipv6
      then std.is6 address && not (std.is4_in6 address)
      else false

  of_family_sound :
      (raw : Text) (family : Family) (parsed address : std.Addr)
      → of_family raw family parsed ≡ ok (some address)
      → (parsed ≡ address) × (in_family family address ≡ true)
  unfolding of_family
  of_family_sound raw family parsed address h = ground arith

  of_parsed_sound :
      (raw : Text) (family : Family) (parsed : Option std.Addr) (address : std.Addr)
      → of_parsed raw family parsed ≡ ok (some address)
      → (parsed ≡ some address) × (in_family family address ≡ true)
  unfolding of_parsed
  of_parsed_sound raw family none address h = absurd (cc)
  of_parsed_sound raw family (some parsed) address h =
      let (same, good) = of_family_sound raw family parsed address h in (ap some same, good)

  of_value_sound :
      (raw : Text) (family : Family) (address : std.Addr)
      → of_value raw family ≡ ok (some address)
      → (in_family family address ≡ true) × (std.parse_addr raw ≡ some address)
  unfolding of_value
  of_value_sound raw family address h =
      let (same, good) = of_parsed_sound raw family (std.parse_addr raw) address (ground arith) in
      (good, same)

  -- A body from which parseResponse returns an address begins, once trimmed, with `ip=`; the address
  -- belongs to the requested family, which is 4 or 6, and is what netip.ParseAddr reads in the trimmed
  -- text behind `ip=`.
  pub parse_response_sound :
      (body : Text) (family : Family) (address : std.Addr)
      → parse_response body family ≡ ok (some address)
      → (has_prefix (trim_space body) (codes "ip=") ≡ true)
        × (in_family family address ≡ true)
        × (std.parse_addr (value_of body) ≡ some address)
  unfolding parse_response
  parse_response_sound body family address h =
      let value : of_value (value_of body) family ≡ ok (some address) = ground arith in
      let (good, same) = of_value_sound (value_of body) family address value in
      (ground arith, good, same)
