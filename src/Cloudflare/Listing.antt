-- ===== src/Cloudflare/Listing.antt =====
-- internal/provider/cloudflare/client.go: listRecords over the pager of the SDK.
use dns_update.Prelude.{ℕ, Bool, true, Option, none, some, List, [], ◌∷◌, ◌++◌}
use dns_update.Text.{Text}
use dns_update.Failure.{Error, Result, ok, err}
use dns_update.Cloudflare.{RecordResponse}

abbrev pub records_per_page : ℕ
records_per_page = 100

-- cfdns.RecordListParams; all parts of the filter have to match.
pub record ListParams : Type 0 where
  pub zone_id : Text
  pub match_all : Bool
  pub exact_name : Text
  pub per_page : ℕ

-- ListAutoPaging's pager: what Current gives for each Next that is true, and Err after them.
pub record Pager : Type 0 where
  pub pulled : List RecordResponse
  pub failure : Option Error

abbrev pub list_params : Text → Text → ListParams
list_params zone_id name = record {
  zone_id = zone_id;
  match_all = true;
  exact_name = name;
  per_page = records_per_page;
}

-- The loop over the pager.
abbrev pub pull : List RecordResponse → List RecordResponse → List RecordResponse
pull records [] = records
pull records (current ∷ more) = pull (records ++ current ∷ []) more

abbrev pub after_pages : List RecordResponse → Option Error → Result (List RecordResponse)
after_pages records none = ok records
after_pages records (some e) = err e

abbrev pub list_records : Pager → Result (List RecordResponse)
list_records pager = after_pages (pull [] pager.pulled) pager.failure
