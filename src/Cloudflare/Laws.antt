-- ===== src/Cloudflare/Laws.antt =====
-- internal/provider/cloudflare: names on their way through normalizeProviderName and ReadState.
use dns_update.Prelude.{
  ◌≡◌, refl, ◌∙◌, ap, inl, inr, true, Option, List, [], ◌∷◌, all_of, Bool-cases,
}
use dns_update.Text.{Text, codes, text_eq}
use dns_update.Text.Trim.{normal_form_dot, normalized_clean, normalized_lower}
use dns_update.Failure.{Error, Result, ok, err}
use dns_update.Provider.{State, normalize_name}
use dns_update.Provider.Planning.Idle.{has_name}
use dns_update.Cloudflare.{
  RecordResponse, normalize_api_name, normalize_provider_name, state_record, state_records,
}
use dns_update.Cloudflare.Requests.{read_state}
use dns_update.Http.{Clock}

-- NormalizeName takes the name that the client stores for a record back to the API's name.
pub normalize_name-normalize_provider_name :
    (name : Text) → normalize_name (normalize_provider_name name) ≡ normalize_name name
unfolding normalize_provider_name normalize_name
normalize_name-normalize_provider_name name =
    normal_form_dot _ (normalized_clean name (codes ".")) (normalized_lower name (codes "."))

stored_name :
    (name : Text) (r : RecordResponse)
    → has_name name (state_record r) ≡ text_eq (normalize_api_name r.name) (normalize_api_name name)
unfolding normalize_api_name
stored_name name r =
    ap (λ n. text_eq n (normalize_name name)) (normalize_name-normalize_provider_name r.name)

state_records_named :
    (name : Text) (rs : List RecordResponse)
    → all_of (has_name name) (state_records (normalize_api_name name) rs) ≡ true
unfolding state_records
state_records_named name [] = refl
state_records_named name (r ∷ rs) =
    elim (Bool-cases (text_eq (normalize_api_name r.name) (normalize_api_name name))) [
      | inl h ↦ rw h (rw (stored_name name r ∙ h) (state_records_named name rs))
      | inr h ↦ rw h (state_records_named name rs)
    ]

module _ (clock : Clock) where
  -- A state that ReadState returns has the name that was asked for, and so has each of its records, up
  -- to NormalizeName, whatever the listing returned.
  pub read_state_named :
      (cause : Option Error) (list : Text → Result (List RecordResponse)) (name : Text)
      (state : State)
      → read_state clock cause list name ≡ ok state
      → (state.name ≡ name) × (all_of (has_name name) state.records ≡ true)
  unfolding read_state
  read_state_named cause list name state h = from_listing _ refl
    where
      from_listing :
          (answer : Result (List RecordResponse))
          → list (normalize_api_name name) ≡ answer
          → (state.name ≡ name) × (all_of (has_name name) state.records ≡ true)
      from_listing (err e) k = absurd (cc)
      from_listing (ok rs) k =
          let same : ok state
              ≡ ok (record { name = name; records = state_records (normalize_api_name name) rs }) =
            cc in
          (cc, cc (state_records_named name rs))
