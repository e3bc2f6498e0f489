-- ===== src/Error/Tests.antt =====
-- Errors of src/error.rs, and the theorems about their triage at them.
use exchange_apiws.Prelude.{true, false, ◌||◌, some, ◌≡◌, refl, ◌↔◌}
use exchange_apiws.Prelude.Text.{text}
use exchange_apiws.Error.{
  ExchangeError, api, retriable, ambiguous, is_retriable, is_duplicate_client_oid, classify,
  classify_submit,
}
use exchange_apiws.Error.Triage.{is_transport, classify_submit-ambiguous}

abbrev duplicate : ExchangeError
duplicate = api (text "400100") (text "Duplicate clientOid")

abbrev skewed : ExchangeError
skewed = api (text "400002") (text "bad timestamp")

gateway : classify (api (text "599") (text "odd")) ≡ retriable
unfolding classify
gateway = refl

classify_submit-ambiguous_example :
    ((is_transport duplicate || is_duplicate_client_oid duplicate) ≡ true
      ↔ (classify_submit duplicate (text "a1") ≡ ambiguous (some (text "a1"))))
    × (classify_submit duplicate (text "a1") ≡ retriable
        ↔ ((is_transport duplicate || is_duplicate_client_oid duplicate) ≡ false)
          × (is_retriable duplicate ≡ true))
classify_submit-ambiguous_example = classify_submit-ambiguous duplicate (text "a1")
