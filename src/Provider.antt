-- ===== src/Provider.antt =====
-- internal/provider/provider.go: records, the state of a name, the selections of record families,
-- operations and plans. The functions over them stand in the modules below.
pub mod Order
pub mod Summaries
pub mod Planning
pub mod Meaning
pub mod Verify
use dns_update.Prelude.{
  ℕ, ◌/◌, ◌%◌, ◌^◌, Bool, true, false, not, Option, none, some, List, [], ◌∷◌, ◌==◌, if◌then◌else◌,
  is_empty,
}
use dns_update.Text.{Text, codes, text_eq, to_lower, trim_space, trim_suffix}

-- A RecordType is a string, and these are its constants.
abbrev pub RecordType : Type 0
RecordType = Text

abbrev pub type_a : RecordType
type_a = codes "A"

abbrev pub type_aaaa : RecordType
type_aaaa = codes "AAAA"

abbrev pub type_cname : RecordType
type_cname = codes "CNAME"

pub record RecordOptions : Type 0 where
  pub proxy : Option Bool

pub record Record : Type 0 where
  pub id : Text
  pub name : Text
  pub record_type : RecordType
  pub content : Text
  pub ttl_seconds : ℕ
  pub options : RecordOptions

pub record State : Type 0 where
  pub name : Text
  pub records : List Record

-- The addresses are those of net/netip.
pub record DesiredState (Addr : Type 0) : Type 0 where
  pub name : Text
  pub ttl_seconds : ℕ
  pub ipv4 : Option Addr
  pub ipv6 : Option Addr
  pub options : RecordOptions

-- `x & (1 << k) != 0`
abbrev pub has_bit : ℕ → ℕ → Bool
has_bit x k = not (x / 2 ^ k % 2 == 0)

-- RecordSelection and ObservedFamilies are sets of two bits: 1 for A and IPv4, 2 for AAAA and IPv6.
abbrev pub RecordSelection : Type 0
RecordSelection = ℕ

abbrev pub selection_none : RecordSelection
selection_none = 0

abbrev pub selection_a : RecordSelection
selection_a = 1

abbrev pub selection_aaaa : RecordSelection
selection_aaaa = 2

abbrev pub selection_both : RecordSelection
selection_both = 3

abbrev pub ObservedFamilies : Type 0
ObservedFamilies = ℕ

abbrev pub observed_none : ObservedFamilies
observed_none = 0

-- RecordSelection.Includes
unfoldable pub selection_includes : RecordSelection → RecordType → Bool
selection_includes s t =
    if text_eq t type_a then has_bit s 0 else if text_eq t type_aaaa then has_bit s 1 else false

-- ObservedFamilies.Includes
unfoldable pub observed_includes : ObservedFamilies → RecordType → Bool
observed_includes f t =
    if text_eq t type_a then has_bit f 0 else if text_eq t type_aaaa then has_bit f 1 else false

-- RecordSelection.String and ObservedFamilies.String
unfoldable pub selection_string : RecordSelection → Text
selection_string s =
    if s == 1
    then codes "a"
    else if s == 2
    then codes "aaaa"
    else if s == 3
    then codes "both"
    else []

unfoldable pub observed_string : ObservedFamilies → Text
observed_string f =
    if f == 1
    then codes "ipv4"
    else if f == 2
    then codes "ipv6"
    else if f == 3
    then codes "both"
    else []

-- An OperationKind is a string, and these are its constants.
abbrev pub OperationKind : Type 0
OperationKind = Text

abbrev pub kind_create : OperationKind
kind_create = codes "create"

abbrev pub kind_update : OperationKind
kind_update = codes "update"

abbrev pub kind_delete : OperationKind
kind_delete = codes "delete"

pub record Operation : Type 0 where
  pub kind : OperationKind
  pub current : Record
  pub desired : Record

pub record Plan : Type 0 where
  pub operations : List Operation

-- The zero values of Go, which stand in the fields that an operation does not set.
abbrev pub zero_options : RecordOptions
zero_options = record { proxy = none }

abbrev pub zero_record : Record
zero_record = record {
  id = [];
  name = [];
  record_type = [];
  content = [];
  ttl_seconds = 0;
  options = zero_options;
}

-- IsNoop
unfoldable pub is_noop : Plan → Bool
is_noop p = is_empty p.operations

unfoldable pub normalize_name : Text → Text
normalize_name name = trim_suffix (to_lower (trim_space name)) (codes ".")

unfoldable pub clone_record_options : RecordOptions → RecordOptions
clone_record_options options = elim options.proxy [
  | none ↦ record { proxy = none }
  | some value ↦ record { proxy = some value }
]

abbrev bool_eq : Bool → Bool → Bool
bool_eq true b = b
bool_eq false b = not b

abbrev proxy_eq : Option Bool → Option Bool → Bool
proxy_eq none none = true
proxy_eq none (some b) = false
proxy_eq (some a) none = false
proxy_eq (some a) (some b) = bool_eq a b

unfoldable pub record_options_equal : RecordOptions → RecordOptions → Bool
record_options_equal left right = proxy_eq left.proxy right.proxy
