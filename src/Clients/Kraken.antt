-- ===== src/Clients/Kraken.antt =====
-- src/kraken/private.rs: `sign_body`, `post` and the parameters of the endpoints.
pub mod Attempts
pub mod Body
use exchange_apiws.Prelude.{
  ℕ, ◌+◌, Bool, true, false, Option, none, some, List, [], ◌∷◌, ◌++◌, ◌⊎◌, inl, inr, if◌then◌else◌,
}
use exchange_apiws.Prelude.Text.{Text, text, to_string}
use exchange_apiws.Prelude.Json.{Json}
use exchange_apiws.Error.{ExchangeError}
use exchange_apiws.Http.Retry.{Response, Reply, start, err}
use exchange_apiws.Signing.{form_encode, sign_kraken_request}
use exchange_apiws.Envelope.{unwrap_kraken_envelope}
use exchange_apiws.Clients.{Sent, Moment, take_nonce, send_building, finish}

-- The decoding of the secret and the hashes.
pub record Crypto : Type 0 where
  pub sha256 : Text → Text
  pub hmac_sha512_b64 : Text → Text → Text
  pub decode_b64 : Text → Text ⊎ Text

pub record Credentials : Type 0 where
  pub api_key : Text
  pub api_secret_b64 : Text

-- The headers `API-Key` and `API-Sign`, and the body.
pub record Request : Type 0 where
  pub key : Text
  pub sign : Text
  pub body : Text

module _ (crypto : Crypto) (credentials : Credentials) (path : Text)
    (params : List (Text × Text)) where
  -- The body and the signature under a nonce.
  unfoldable pub signed : ℕ → ExchangeError ⊎ (Text × Text)
  signed nonce =
      let body = form_encode ((text "nonce", to_string nonce) ∷ params) in
      elim (sign_kraken_request crypto.sha256 crypto.hmac_sha512_b64 crypto.decode_b64 path nonce
        body credentials.api_secret_b64) [ inl e ↦ inl e | inr sig ↦ inr (body, sig) ]

  unfoldable pub sign_body : ℕ → Moment → ℕ × (ExchangeError ⊎ (Text × Text))
  unfolding take_nonce signed
  sign_body c m = let (d, nonce) = take_nonce c m in (d, signed nonce)

  -- The closure that `post` hands to `send_with_retry`; `expect` panics on an error.
  unfoldable pub build : ℕ → Moment → ℕ × Option Request
  unfolding sign_body
  build c m =
      let (d, result) = sign_body c m in
      (
        d,
        elim result [
          | inl e ↦ none
          | inr (body, sig) ↦ some (record { key = credentials.api_key; sign = sig; body = body })
        ],
      )

  -- `post`, from the counter `c`. The first moment is that of the signature which is only tried.
  unfoldable pub post :
      {V A : Type 0} ⦃j : Json V⦄
      → V
      → (Response → Text ⊎ V)
      → (V → Text ⊎ A)
      → ℕ
      → Moment
      → List (Moment × Reply)
      → Sent Request A ℕ
  unfolding sign_body build send_building finish unwrap_kraken_envelope
  post null decode from_value c first attempts =
      let (d, tried) = sign_body c first in
      elim tried [
        | inl e ↦ record { requests = []; waits = []; outcome = some (err e); state = d }
        | inr _ ↦
            finish decode (unwrap_kraken_envelope null from_value)
              (send_building build (text "Kraken POST " ++ path) start d attempts)
      ]

-- An endpoint by what it hands to `post`: the path and the parameters.
abbrev pub Call : Type 0
Call = Text × List (Text × Text)

-- `if let Some(v) = value { params.push((key, v)) }`, before what is pushed later.
abbrev pub push_some : Text → Option Text → List (Text × Text) → List (Text × Text)
push_some key none later = later
push_some key (some v) later = (key, v) ∷ later

-- `if flag { params.push((key, v)) }`.
abbrev pub push_if : Bool → Text → Text → List (Text × Text) → List (Text × Text)
push_if true key v later = (key, v) ∷ later
push_if false key v later = later

pub record KrakenOrderOptions : Type 0 where
  pub post_only : Bool
  pub validate : Bool
  pub client_order_id : Option Text
  pub expire_after_secs : Option ℕ

-- `KrakenOrderOptions::default()`.
abbrev pub default_options : KrakenOrderOptions
default_options = record {
  post_only = false;
  validate = false;
  client_order_id = none;
  expire_after_secs = none;
}

-- The parameters of the expiry; `expiretm` is relative.
unfoldable pub expiry_params : Option ℕ → List (Text × Text)
expiry_params none = []
expiry_params (some secs) =
    (text "timeinforce", text "GTD") ∷ (text "expiretm", b'+' ∷ to_string secs) ∷ []

-- `place_order_with`; `place_order` is its call with the default options.
unfoldable pub place_order_with :
    Text → Text → Text → Text → Option Text → KrakenOrderOptions → Call
unfolding expiry_params
place_order_with pair side order_type volume price opts = (
  text "/0/private/AddOrder",
  (text "pair", pair)
      ∷ (text "type", side)
      ∷ (text "ordertype", order_type)
      ∷ (text "volume", volume)
      ∷ push_some (text "price") price (
          push_if opts.post_only (text "oflags") (text "post") (
            push_if opts.validate (text "validate") (text "true") (
              push_some (text "cl_ord_id") opts.client_order_id
                (expiry_params opts.expire_after_secs)))),
)

unfoldable pub place_order : Text → Text → Text → Text → Option Text → Call
unfolding place_order_with
place_order pair side order_type volume price =
    place_order_with pair side order_type volume price default_options

unfoldable pub cancel_order : Text → Call
cancel_order txid = (text "/0/private/CancelOrder", (text "txid", txid) ∷ [])

unfoldable pub cancel_all_orders : Call
cancel_all_orders = (text "/0/private/CancelAll", [])

pub record KrakenLedgerQuery : Type 0 where
  pub asset : Option Text
  pub entry_type : Option Text
  pub start : Option ℕ
  pub end : Option ℕ
  pub offset : Option ℕ

abbrev pub printed : Option ℕ → Option Text
printed none = none
printed (some n) = some (to_string n)

unfoldable pub get_ledgers : KrakenLedgerQuery → Call
get_ledgers q = (
  text "/0/private/Ledgers",
  push_some (text "asset") q.asset (
      push_some (text "type") q.entry_type (
        push_some (text "start") (printed q.start)
          (push_some (text "end") (printed q.end) (push_some (text "ofs") (printed q.offset) [])))),
)

unfoldable pub get_ledger : Text → Call
unfolding get_ledgers
get_ledger asset =
    get_ledgers
      (record { asset = some asset; entry_type = none; start = none; end = none; offset = none })

-- `pairs.join(",")`.
abbrev pub joined_pairs : List Text → Text
joined_pairs [] = []
joined_pairs (p ∷ []) = p
joined_pairs (p ∷ q ∷ ps) = p ++ b',' ∷ joined_pairs (q ∷ ps)

unfoldable pub get_trade_volume : List Text → Call
get_trade_volume pairs = (
  text "/0/private/TradeVolume",
  elim (joined_pairs pairs) [ [] ↦ [] | c ∷ s ↦ (text "pair", c ∷ s) ∷ [] ],
)

unfoldable pub withdraw : Text → Text → Text → Call
withdraw asset key amount = (
  text "/0/private/Withdraw",
  (text "asset", asset) ∷ (text "key", key) ∷ (text "amount", amount) ∷ [],
)

unfoldable pub get_withdrawal_status : Text → Call
get_withdrawal_status asset = (text "/0/private/WithdrawStatus", (text "asset", asset) ∷ [])

-- The endpoints that take no parameters.
unfoldable pub get_balance : Call
get_balance = (text "/0/private/Balance", [])

unfoldable pub get_open_orders : Call
get_open_orders = (text "/0/private/OpenOrders", [])

unfoldable pub get_websockets_token : Call
get_websockets_token = (text "/0/private/GetWebSocketsToken", [])

unfoldable pub get_closed_orders : Call
get_closed_orders = (text "/0/private/ClosedOrders", [])

unfoldable pub get_trades_history : Call
get_trades_history = (text "/0/private/TradesHistory", [])
