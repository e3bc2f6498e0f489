-- ===== src/Clients/Tests.antt =====
-- Calls of the signed clients of src/kraken/private.rs, src/cryptocom/private.rs and
-- src/binance/signed_rest.rs, and the theorems at them.
use exchange_apiws.Prelude.{
  ℕ, ◌≤◌, ◌<◌, true, false, none, some, List, [], ◌∷◌, ◌++◌, ◌≡◌, refl, map, ◌⊎◌, inl, inr, All,
  arith, length,
}
use exchange_apiws.Prelude.Text.{Text, text}
use exchange_apiws.Prelude.Int.{pos}
use exchange_apiws.Prelude.Values.{Value, num, null, obj, field, end, value_json}
use exchange_apiws.Error.{auth}
use exchange_apiws.Http.{is_unreserved}
use exchange_apiws.Signing.{sign_kraken_request, form_encode}
use exchange_apiws.Http.Query.{parse_query}
use exchange_apiws.Http.Retry.{Response, Reply, received, err, send_with_retry, send_body}
use exchange_apiws.Envelope.{unwrap_kraken_envelope}
use exchange_apiws.Nonce.{fetch_max, fetch_add}
use exchange_apiws.Nonce.Unique.{Increasing}
use exchange_apiws.Signing.Params
use exchange_apiws.Clients.{Moment, take_nonce, read_outcome, send_building, after}
use exchange_apiws.Clients.Fresh.{replies_of}
use exchange_apiws.Clients.Kraken
use exchange_apiws.Clients.Kraken.{Crypto, Credentials, KrakenOrderOptions, place_order_with, post}
use exchange_apiws.Clients.Kraken.Attempts.{
  body_of, request_of, post-Increasing, post-send_with_retry,
}
use exchange_apiws.Clients.Kraken.Body.{SaysOrder, place_order_with-parse_query}
use exchange_apiws.Clients.Cryptocom
use exchange_apiws.Clients.Cryptocom.Attempts
use exchange_apiws.Clients.Cryptocom.Attempts.{post-signed}
use exchange_apiws.Clients.Binance.{BinanceSignedRest, total_params, signed_query}
use exchange_apiws.Clients.Binance.Query.{fields_of, signed_query-parse_query}

abbrev crypto : Crypto
crypto = record { sha256 = λ s. s; hmac_sha512_b64 = λ key s. key ++ s; decode_b64 = λ s. inr s }

abbrev credentials : Credentials
credentials = record { api_key = text "K"; api_secret_b64 = text "S" }

abbrev moment : ℕ → Moment
moment now_ms = record { before = fetch_add ∷ []; now_ms = now_ms; between = fetch_max 7 ∷ [] }

abbrev answer : ℕ → Reply
answer status = received (record { status = status; retry_after = none; body = none })

abbrev attempts : List (Moment × Reply)
attempts = (moment 3, answer 429) ∷ (moment 4, answer 200) ∷ []

abbrev decode : Response → Text ⊎ Value
decode r = inr (obj (field (text "result") (num 1) end))

abbrev from_value : Value → Text ⊎ Value
from_value v = inr v

code : Unit {0}
unfolding post Kraken.build send_building take_nonce after sign_kraken_request send_body form_encode
    is_unreserved Cryptocom.post Cryptocom.build Cryptocom.take_numbers
code = tt

-- A call that is limited once sends two requests, each with a nonce of its own.
twice :
    map
      (λ r. r.body)
      (post crypto credentials
        (text "/p")
        ((text "a", text "b") ∷ [])
        null
        decode
        from_value
        0
        (moment 5)
        attempts).requests
    ≡ text "nonce=9&a=b" ∷ text "nonce=11&a=b" ∷ []
unfolding code
twice = refl

post-Increasing_example :
    (ns : List ℕ) × ((post crypto credentials
        (text "/p")
        ((text "a", text "b") ∷ [])
        null
        decode
        from_value
        0
        (moment 5)
        attempts).requests
      ≡ map (request_of crypto credentials (text "/p") ((text "a", text "b") ∷ []) (text "S")) ns)
    × All (λ n. 0 < n) ns
    × Increasing ns
post-Increasing_example =
    post-Increasing crypto credentials (text "/p") ((text "a", text "b") ∷ []) null decode
      from_value (text "S") 0 9 (moment 5) attempts refl (omega arith) (omega arith) (omega arith)
      (omega arith)

abbrev options : KrakenOrderOptions
options = record {
  post_only = true;
  validate = false;
  client_order_id = some (text "c1");
  expire_after_secs = some 30;
}

place_order_with-parse_query_example :
    SaysOrder
      (parse_query (
        63
        ∷ body_of
            (place_order_with
              (text "XBTUSD")
              (text "buy")
              (text "limit")
              (text "1.5")
              (some (text "30000"))
              options).1
            12))
      12
      (text "XBTUSD")
      (text "buy")
      (text "limit")
      (text "1.5")
      (some (text "30000"))
      options
place_order_with-parse_query_example =
    place_order_with-parse_query 12 (text "XBTUSD") (text "buy") (text "limit") (text "1.5")
      (some (text "30000")) options
      ((refl, omega arith), ((refl, omega arith), ((refl, omega arith), ((refl, omega arith), tt))))
      (refl, omega arith) (refl, omega arith)

abbrev client : BinanceSignedRest
client = record {
  hmac_hex = λ key s. text "ab12";
  base_url = [];
  api_key = text "K";
  api_secret = text "S";
  recv_window = 5000;
}

signed :
    signed_query client ((text "symbol", text "BTC/USDT") ∷ []) 17
    ≡ text "symbol=BTC%2FUSDT&recvWindow=5000&timestamp=17&signature=ab12"
unfolding signed_query
signed = refl

signature : All (λ c. is_unreserved c ≡ true) (text "ab12")
unfolding is_unreserved
signature = (refl, (refl, (refl, (refl, tt))))

signed_query-parse_query_example :
    (parse_query (63 ∷ signed_query client ((text "symbol", text "BTC/USDT") ∷ []) 17)
      ≡ fields_of client ((text "symbol", text "BTC/USDT") ∷ []) 17)
    × (signed_query client ((text "symbol", text "BTC/USDT") ∷ []) 17
        ≡ total_params client ((text "symbol", text "BTC/USDT") ∷ []) 17
          ++ (text "&signature="
              ++ client.hmac_hex client.api_secret
                  (total_params client ((text "symbol", text "BTC/USDT") ∷ []) 17)))
signed_query-parse_query_example =
    signed_query-parse_query client ((text "symbol", text "BTC/USDT") ∷ []) 17 (omega arith)
      signature

abbrev no_key : Crypto
no_key = record crypto { decode_b64 = λ s. inl (text "bad") }

post-send_with_retry_example :
    ((e : Text) × (no_key.decode_b64 (text "S") ≡ inl e)
      × (post no_key credentials (text "/p") [] null decode from_value 0 (moment 5) attempts
          ≡ record {
            requests = [];
            waits = [];
            outcome = some (err (auth (text "Kraken secret is not valid base64: " ++ e)));
            state = (take_nonce 0 (moment 5)).0;
          }))
    ⊎ ((key : Text) × (no_key.decode_b64 (text "S") ≡ inr key)
        × ((post no_key credentials
              (text "/p")
              []
              null
              decode
              from_value
              0
              (moment 5)
              attempts).outcome
            ≡ some (
                read_outcome decode
                  (unwrap_kraken_envelope null from_value)
                  (send_with_retry (text "Kraken POST " ++ text "/p") (replies_of attempts)).1))
        × ((post no_key credentials
              (text "/p")
              []
              null
              decode
              from_value
              0
              (moment 5)
              attempts).waits
            ≡ (send_with_retry (text "Kraken POST " ++ text "/p") (replies_of attempts)).0)
        × (length
              (post no_key credentials
                (text "/p")
                []
                null
                decode
                from_value
                0
                (moment 5)
                attempts).requests
            ≤ 8))
post-send_with_retry_example =
    post-send_with_retry no_key credentials (text "/p") [] null decode from_value 0 (moment 5)
      attempts

abbrev signing : ℕ → Cryptocom.Signing
signing now_ms = record { other_ids = 1; moment = moment now_ms }

abbrev counters : Cryptocom.Counters
counters = record { next_id = pos 1; nonce_state = 0 }

abbrev account : Cryptocom.Credentials
account = record { api_key = text "K"; api_secret = text "S" }

abbrev new_mac : Text → Text ⊎ (Text → Text)
new_mac secret = inr (λ s. secret ++ s)

post-signed_example :
    let sent =
      (Cryptocom.post new_mac account
        (text "m")
        (Params.obj Params.end)
        null
        decode
        from_value
        counters
        (signing 5)
        ((signing 3, answer 429) ∷ (signing 4, answer 200) ∷ [])).requests in
    (ns : List ℕ) × (map (λ r. r.nonce) sent ≡ map pos ns)
    × All (λ n. 0 < n) ns
    × Increasing ns
    × All
        (λ r.
          r
          ≡ Attempts.body_of new_mac account
              (text "m")
              (Params.obj Params.end)
              (λ s. text "S" ++ s)
              (r.id, r.nonce))
        sent
post-signed_example =
    post-signed new_mac account (text "m") (Params.obj Params.end) null decode from_value
      (λ s. text "S" ++ s) counters 9 (signing 5)
      ((signing 3, answer 429) ∷ (signing 4, answer 200) ∷ []) refl (omega arith) (omega arith)
      (omega arith) (omega arith)
