-- ===== src/Clients/Cryptocom.antt =====
-- src/cryptocom/private.rs: `sign_body`, `post` and the parameters of the endpoints.
pub mod Attempts
use exchange_apiws.Prelude.{ℕ, ◌+◌, Option, none, some, List, [], ◌∷◌, ◌++◌, ◌⊎◌, inl, inr}
use exchange_apiws.Prelude.Text.{Text, text}
use exchange_apiws.Prelude.Int.{ℤ, pos, ◌+ℤ◌}
use exchange_apiws.Prelude.Json.{Json}
use exchange_apiws.Error.{ExchangeError, auth}
use exchange_apiws.Http.Retry.{Response, Reply, start, err}
use exchange_apiws.Market.{wrap_i64}
use exchange_apiws.Nonce.{to_i64}
use exchange_apiws.Signing.Params.{Param, str, obj, end, field, Fields, sign_payload}
use exchange_apiws.Envelope.{unwrap_cryptocom_envelope}
use exchange_apiws.Clients.{Sent, Moment, take_nonce, send_building, finish}

pub record Credentials : Type 0 where
  pub api_key : Text
  pub api_secret : Text

-- The counters that the handles of a client share.
pub record Counters : Type 0 where
  pub next_id : ℤ
  pub nonce_state : ℕ

-- What the environment does while a body is signed: the ids that other callers take before, and what
-- happens to the nonces.
pub record Signing : Type 0 where
  pub other_ids : ℕ
  pub moment : Moment

-- The JSON body.
pub record Body : Type 0 where
  pub id : ℤ
  pub method : Text
  pub api_key : Text
  pub params : Param
  pub nonce : ℤ
  pub sig : Text

-- `next_id` and `next_nonce`: an AtomicI64 wraps around.
unfoldable pub take_numbers : Counters → Signing → Counters × (ℤ × ℤ)
unfolding take_nonce to_i64
take_numbers c m =
    let id = wrap_i64 (c.next_id +ℤ pos m.other_ids) in
    let (nonces, next) = take_nonce c.nonce_state m.moment in
    (record { next_id = wrap_i64 (id +ℤ pos 1); nonce_state = nonces }, (id, pos (to_i64 next)))

-- `HmacSha256::new_from_slice`, with what the hash makes of a text in hexadecimal.
module _ (new_mac : Text → Text ⊎ (Text → Text)) (credentials : Credentials) (method : Text)
    (params : Param) where
  -- The body under an id and a nonce, signed by `sign_cryptocom_request`.
  unfoldable pub signed : ℤ × ℤ → ExchangeError ⊎ Body
  signed (id, nonce) = elim (new_mac credentials.api_secret) [
    | inl e ↦ inl (auth (text "Crypto.com HMAC init failed: " ++ e))
    | inr mac ↦ inr (record {
      id = id;
      method = method;
      api_key = credentials.api_key;
      params = params;
      nonce = nonce;
      sig = mac (sign_payload method id credentials.api_key params nonce);
    })
  ]

  unfoldable pub sign_body : Counters → Signing → Counters × (ExchangeError ⊎ Body)
  unfolding take_numbers signed
  sign_body c m = let (d, numbers) = take_numbers c m in (d, signed numbers)

  -- The closure that `post` hands to `send_with_retry`; `expect` panics on an error.
  unfoldable pub build : Counters → Signing → Counters × Option Body
  unfolding sign_body
  build c m =
      let (d, result) = sign_body c m in (d, elim result [ inl e ↦ none | inr body ↦ some body ])

  -- `post`. The first moment is that of the signature which is only tried.
  unfoldable pub post :
      {V A : Type 0} ⦃j : Json V⦄
      → V
      → (Response → Text ⊎ V)
      → (V → Text ⊎ A)
      → Counters
      → Signing
      → List (Signing × Reply)
      → Sent Body A Counters
  unfolding sign_body build send_building finish unwrap_cryptocom_envelope
  post null decode from_value c first attempts =
      let (d, tried) = sign_body c first in
      elim tried [
        | inl e ↦ record { requests = []; waits = []; outcome = some (err e); state = d }
        | inr _ ↦
            finish decode (unwrap_cryptocom_envelope null from_value)
              (send_building build (text "Crypto.com POST " ++ method) start d attempts)
      ]

-- An endpoint by what it hands to `post`: the method and the parameters.
abbrev pub Call : Type 0
Call = Text × Param

-- An object with one text field more.
abbrev pub with_text : Text → Text → Fields → Fields
with_text key v later = field key (str v) later

-- `if let Some(v) = value { params.insert(key, v) }` into an empty object.
abbrev pub object_of : Text → Option Text → Param
object_of key none = obj end
object_of key (some v) = obj (with_text key v end)

unfoldable pub get_account_summary : Option Text → Call
get_account_summary currency =
    (text "private/get-account-summary", object_of (text "currency") currency)

unfoldable pub get_user_balance : Call
get_user_balance = (text "private/user-balance", obj end)

-- `params["price"] = …` of `place_order`.
abbrev pub price_field : Option Text → Fields
price_field none = end
price_field (some p) = with_text (text "price") p end

unfoldable pub place_order : Text → Text → Text → Text → Option Text → Call
place_order instrument side order_type quantity price = (
  text "private/create-order",
  obj (
      with_text (text "instrument_name") instrument (
        with_text (text "side") side (
          with_text (text "type") order_type
            (with_text (text "quantity") quantity (price_field price))))),
)

unfoldable pub cancel_order : Text → Text → Call
cancel_order instrument order_id = (
  text "private/cancel-order",
  obj (with_text (text "instrument_name") instrument (with_text (text "order_id") order_id end)),
)

unfoldable pub cancel_all_orders : Text → Call
cancel_all_orders instrument =
    (text "private/cancel-all-orders", obj (with_text (text "instrument_name") instrument end))

unfoldable pub get_open_orders : Option Text → Call
get_open_orders instrument =
    (text "private/get-open-orders", object_of (text "instrument_name") instrument)

unfoldable pub get_order_detail : Text → Call
get_order_detail order_id =
    (text "private/get-order-detail", obj (with_text (text "order_id") order_id end))

unfoldable pub get_trades : Option Text → Call
get_trades instrument = (text "private/get-trades", object_of (text "instrument_name") instrument)

unfoldable pub get_deposit_address : Text → Call
get_deposit_address currency =
    (text "private/get-deposit-address", obj (with_text (text "currency") currency end))

unfoldable pub create_withdrawal : Text → Text → Text → Call
create_withdrawal currency amount address = (
  text "private/create-withdrawal",
  obj (
      with_text (text "currency") currency
        (with_text (text "amount") amount (with_text (text "address") address end))),
)

unfoldable pub get_withdrawal_history : Text → Call
get_withdrawal_history currency =
    (text "private/get-withdrawal-history", obj (with_text (text "currency") currency end))
