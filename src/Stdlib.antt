-- ===== src/Stdlib.antt =====
-- What the program takes from the Go standard library and the model does not define: addresses of
-- net/netip, and sort.Slice, of which only one thing is assumed: it rearranges the slice.
use dns_update.Prelude.{Bool, List, Option, Perm}
use dns_update.Text.{Text}

pub record Stdlib : Type 1 where
  -- netip.Addr, its String, netip.ParseAddr, and its tests of the family
  pub Addr : Type 0
  pub addr_string : Addr → Text
  pub parse_addr : Text → Option Addr
  pub is4 : Addr → Bool
  pub is6 : Addr → Bool
  pub is4_in6 : Addr → Bool
  -- sort.Slice
  pub sort_slice : (A : Type 0) → (A → A → Bool) → List A → List A
  pub sort_slice-perm :
      (A : Type 0) (less : A → A → Bool) (l : List A) → Perm (sort_slice A less l) l
