-- ===== src/Clients/Binance.antt =====
-- src/binance/signed_rest.rs: balances, `signed_query`, the endpoints and `unwrap_binance`; and the
-- `listenKey` calls of src/binance/private_rest.rs.
pub mod Query
use exchange_apiws.Prelude.{
  ℕ, Bool, true, false, ◌&&◌, Option, none, some, List, [], ◌∷◌, ◌++◌, ◌⊎◌, inl, inr, leb, ltb,
  if◌then◌else◌,
}
use exchange_apiws.Prelude.Text.{Text, text, to_string, same}
use exchange_apiws.Prelude.Options.{or_else, unwrap_or}
use exchange_apiws.Prelude.Int.{ℤ}
use exchange_apiws.Prelude.Float.{Float}
use exchange_apiws.Prelude.Json.{Json}
use exchange_apiws.Error.{ExchangeError, http, json, api}
use exchange_apiws.Http.{percent_encode}
use exchange_apiws.Http.Retry.{
  Response, Reply, received, unreachable, Outcome, ok, err, start, status_text,
}
use exchange_apiws.Envelope.{int_to_string}
use exchange_apiws.Clients.{Sent, send_building}

-- `flex::string`: a text as it is, a number as it prints.
unfoldable pub flex_string : {V : Type 0} ⦃j : Json V⦄ → V → Option Text
flex_string ⦃j⦄ v = or_else (j.as_str v) (j.number_text v)

pub record BinanceBalance : Type 0 where
  pub asset : Text
  pub free : Text
  pub locked : Text

-- `str::parse` is a parameter.
module _ {F : Type 0} ⦃fl : Float F⦄ (parse : Text → Option F) where
  unfoldable pub parse_f64 : Text → F
  parse_f64 s = unwrap_or (parse s) fl.zero

  -- `free_f64() + locked_f64()`.
  unfoldable pub total_f64 : BinanceBalance → F
  unfolding parse_f64
  total_f64 b = fl.sum (parse_f64 b.free ∷ parse_f64 b.locked ∷ [])

  unfoldable pub non_zero_balances : List BinanceBalance → List BinanceBalance
  unfolding total_f64
  non_zero_balances [] = []
  non_zero_balances (b ∷ balances) =
      let rest = non_zero_balances balances in
      if fl.is_positive (total_f64 b) then b ∷ rest else rest

unfoldable pub balance : Text → List BinanceBalance → Option BinanceBalance
balance asset [] = none
balance asset (b ∷ balances) =
    let rest = balance asset balances in if same b.asset asset then some b else rest

pub record BinanceSignedRest : Type 0 where
  pub hmac_hex : Text → Text → Text
  pub base_url : Text
  pub api_key : Text
  pub api_secret : Text
  pub recv_window : ℕ

unfoldable pub with_recv_window : ℕ → BinanceSignedRest → BinanceSignedRest
with_recv_window recv_window client = record client { recv_window = recv_window }

-- `if !q.is_empty() { q.push('&') }`.
abbrev pub separated : Text → Text
separated [] = []
separated (c ∷ q) = (c ∷ q) ++ b'&' ∷ []

-- The loop over the parameters, from what it has written so far.
unfoldable pub push_params : Text → List (Text × Text) → Text
unfolding percent_encode
push_params q [] = q
push_params q ((k, v) ∷ params) =
    push_params (separated q ++ (percent_encode k ++ b'=' ∷ percent_encode v)) params

-- A request: the header `X-MBX-APIKEY` and the url.
pub record Request : Type 0 where
  pub url : Text
  pub key : Text

module _ (client : BinanceSignedRest) where
  -- What the signature is of.
  unfoldable pub total_params : List (Text × Text) → ℕ → Text
  unfolding push_params
  total_params params now_ms =
      separated (push_params [] params)
      ++ (text "recvWindow="
          ++ (to_string client.recv_window ++ (text "&timestamp=" ++ to_string now_ms)))

  unfoldable pub signed_query : List (Text × Text) → ℕ → Text
  unfolding total_params
  signed_query params now_ms =
      let q = total_params params now_ms in
      q ++ (text "&signature=" ++ client.hmac_hex client.api_secret q)

  -- `signed_get` and `signed_post`, which differ in the verb and in the label: every attempt is signed
  -- at a reading of the clock.
  unfoldable pub signed_call :
      Text → Text → List (Text × Text) → List (ℕ × Reply) → Sent Request Response (Unit {0})
  unfolding signed_query send_building
  signed_call verb path params attempts =
      send_building
        (λ c now_ms. (
          c,
          some (record {
            url = client.base_url ++ (path ++ b'?' ∷ signed_query params now_ms);
            key = client.api_key;
          }),
        ))
        (text "Binance " ++ (verb ++ 32 ∷ path)) start tt attempts

-- The endpoints: what they hand to `signed_get` and `signed_post`.
unfoldable pub get_account : Text × List (Text × Text)
get_account = (text "/api/v3/account", [])

-- `if let Some(v) = value { params.push((key, v)) }`.
abbrev pub push_some : Text → Option Text → List (Text × Text) → List (Text × Text)
push_some key none later = later
push_some key (some v) later = (key, v) ∷ later

unfoldable pub place_order :
    Text → Text → Text → Text → Option Text → Option Text → Text × List (Text × Text)
place_order symbol side order_type quantity price time_in_force = (
  text "/api/v3/order",
  (text "symbol", symbol)
      ∷ (text "side", side)
      ∷ (text "type", order_type)
      ∷ (text "quantity", quantity)
      ∷ push_some (text "price") price (push_some (text "timeInForce") time_in_force []),
)

-- `BinanceApiError`.
pub record BinanceApiError : Type 0 where
  pub code : ℤ
  pub msg : Text

-- `resp.bytes()`, the decoders of `serde_json` and `from_utf8_lossy` are parameters.
unfoldable pub unwrap_binance :
    {A : Type 0}
    → (Response → Text ⊎ Text)
    → (Text → Option BinanceApiError)
    → (Text → Text)
    → (Text → Text ⊎ A)
    → Response
    → Outcome A
unwrap_binance read decode_error lossy decode resp = elim (read resp) [
  | inl e ↦ err (http e)
  | inr bytes ↦
      if leb 200 resp.status && ltb resp.status 300
      then elim (decode bytes) [ inl e ↦ err (json e) | inr a ↦ ok a ]
      else elim (decode_error bytes) [
        | none ↦ err (api (status_text resp.status) (lossy bytes))
        | some e ↦ err (api (int_to_string e.code) e.msg)
      ]
]

-- `send()` and `error_for_status()`, which takes only 400 to 599 for errors. `describe` is what the
-- error prints.
unfoldable pub error_for_status : (Response → Text) → Reply → ExchangeError ⊎ Response
error_for_status describe (unreachable e) = inl (http e)
error_for_status describe (received r) =
    if leb 400 r.status && ltb r.status 600 then inl (http (describe r)) else inr r

-- The calls of the user-data stream: the key of the new stream, and the path of those that name one.
unfoldable pub create_listen_key :
    (Response → Text) → (Response → Text ⊎ Text) → Reply → ExchangeError ⊎ Text
unfolding error_for_status
create_listen_key describe decode reply = elim (error_for_status describe reply) [
  | inl e ↦ inl e
  | inr r ↦ elim (decode r) [ inl e ↦ inl (http e) | inr listen_key ↦ inr listen_key ]
]

unfoldable pub listen_key_path : Text → Text
listen_key_path listen_key = text "/api/v3/userDataStream?listenKey=" ++ listen_key

-- `keepalive_listen_key` and `close_listen_key`.
unfoldable pub touch_listen_key : (Response → Text) → Reply → ExchangeError ⊎ Unit {0}
unfolding error_for_status
touch_listen_key describe reply = elim (error_for_status describe reply) [
  | inl e ↦ inl e
  | inr r ↦ inr tt
]
