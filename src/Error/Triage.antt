-- ===== src/Error/Triage.antt =====
-- What the triage of src/error.rs promises a caller.
use exchange_apiws.Prelude.{Bool, true, false, not, ◌||◌, Option, some, ◌≡◌, ◌≢◌, arith, ◌↔◌}
use exchange_apiws.Prelude.Text.{Text}
use exchange_apiws.Error.{
  ExchangeError, http, web_socket, json, auth, config, order, insufficient_data, other, api,
  ws_disconnected, retriable, ambiguous, is_rate_limited, is_clock_skew, is_auth, is_retriable,
  is_duplicate_client_oid, classify, classify_submit,
}

-- An error of the transport, after which nobody knows whether the request arrived.
abbrev pub is_transport : ExchangeError → Bool
is_transport (http e) = true
is_transport _ = false

-- The triage of an order is ambiguous, with the order's own id, exactly when the transport failed
-- or the exchange says that the id is known; so it calls neither of the two safe to retry, and what
-- it does call safe the triage of a query calls safe too.
pub classify_submit-ambiguous :
    (e : ExchangeError) (oid : Text)
    → ((is_transport e || is_duplicate_client_oid e) ≡ true
        ↔ (classify_submit e oid ≡ ambiguous (some oid)))
      × (classify_submit e oid ≡ retriable
          ↔ ((is_transport e || is_duplicate_client_oid e) ≡ false) × (is_retriable e ≡ true))
unfolding classify_submit classify is_duplicate_client_oid
classify_submit-ambiguous e oid = ground arith

-- A request that was rate-limited, or whose timestamp was refused, may be sent again; a refused
-- timestamp counts as an authentication error too; and the triage of a query is never ambiguous.
pub classify-agrees :
    (e : ExchangeError) (oid : Option Text)
    → (is_rate_limited e || is_clock_skew e) ≡ true
    → (classify e ≡ retriable)
      × ((not (is_clock_skew e) || is_auth e) ≡ true)
      × (classify e ≢ ambiguous oid)
unfolding classify is_retriable is_auth
classify-agrees (api code message) oid h = ground arith
classify-agrees (http e) oid h = cc
classify-agrees (web_socket e) oid h = cc
classify-agrees (json e) oid h = cc
classify-agrees (auth e) oid h = cc
classify-agrees (config e) oid h = cc
classify-agrees (order e) oid h = cc
classify-agrees (insufficient_data e) oid h = cc
classify-agrees (other e) oid h = cc
classify-agrees (ws_disconnected url n) oid h = cc
