-- ===== src/Clients/Bybit.antt =====
-- src/bybit/private.rs: the orders, `signed_get`, `signed_post`, `unwrap_result` and the endpoints.
use exchange_apiws.Prelude.{
  ℕ, Bool, true, Option, none, some, List, [], ◌∷◌, ◌++◌, ◌⊎◌, inl, inr, if◌then◌else◌,
}
use exchange_apiws.Prelude.Text.{Text, text, to_string}
use exchange_apiws.Prelude.Int.{ℤ}
use exchange_apiws.Error.{http, json, api}
use exchange_apiws.Http.Retry.{Response, Reply, Outcome, ok, err, start}
use exchange_apiws.Signing.{sign_rest}
use exchange_apiws.Signing.Params.{Param, str, bool, obj, end, field, Fields}
use exchange_apiws.Envelope.{int_to_string, is_zero}
use exchange_apiws.Clients.{Sent, send_building}

pub data BybitCategory : Type 0 where
  spot linear inverse : BybitCategory

unfoldable pub as_str : BybitCategory → Text
as_str spot = text "spot"
as_str linear = text "linear"
as_str inverse = text "inverse"

pub data BybitOrderSide : Type 0 where
  buy sell : BybitOrderSide

pub data BybitOrderType : Type 0 where
  limit_type market_type : BybitOrderType

pub data BybitTimeInForce : Type 0 where
  gtc ioc fok post_only : BybitTimeInForce

pub record BybitOrderRequest : Type 0 where
  pub category : Text
  pub symbol : Text
  pub side : BybitOrderSide
  pub order_type : BybitOrderType
  pub qty : Text
  pub price : Option Text
  pub time_in_force : Option BybitTimeInForce
  pub order_link_id : Option Text
  pub is_reduce_only : Option Bool

unfoldable pub market : BybitCategory → Text → BybitOrderSide → Text → BybitOrderRequest
unfolding as_str
market category symbol side qty = record {
  category = as_str category;
  symbol = symbol;
  side = side;
  order_type = market_type;
  qty = qty;
  price = none;
  time_in_force = none;
  order_link_id = none;
  is_reduce_only = none;
}

unfoldable pub limit : BybitCategory → Text → BybitOrderSide → Text → Text → BybitOrderRequest
unfolding as_str
limit category symbol side qty price = record {
  category = as_str category;
  symbol = symbol;
  side = side;
  order_type = limit_type;
  qty = qty;
  price = some price;
  time_in_force = some gtc;
  order_link_id = none;
  is_reduce_only = none;
}

unfoldable pub with_order_link_id : Text → BybitOrderRequest → BybitOrderRequest
with_order_link_id id order = record order { order_link_id = some id }

unfoldable pub reduce_only : BybitOrderRequest → BybitOrderRequest
reduce_only order = record order { is_reduce_only = some true }

-- The names under which the variants are serialised.
abbrev pub side_name : BybitOrderSide → Text
side_name buy = text "Buy"
side_name sell = text "Sell"

abbrev pub type_name : BybitOrderType → Text
type_name limit_type = text "Limit"
type_name market_type = text "Market"

abbrev pub tif_name : BybitTimeInForce → Text
tif_name gtc = text "GTC"
tif_name ioc = text "IOC"
tif_name fok = text "FOK"
tif_name post_only = text "PostOnly"

-- `skip_serializing_if = "Option::is_none"`.
abbrev pub optional : {A : Type 0} → Text → (A → Param) → Option A → Fields → Fields
optional key f none later = later
optional key f (some a) later = field key (f a) later

-- An order as it is serialised: the fields in camel case, in the order of the record.
unfoldable pub order_json : BybitOrderRequest → Param
order_json o = obj (
    field (text "category") (str o.category) (
      field (text "symbol") (str o.symbol) (
        field (text "side") (str (side_name o.side)) (
          field (text "orderType") (str (type_name o.order_type)) (
            field (text "qty") (str o.qty) (
              optional (text "price") str o.price (
                optional (text "timeInForce") (λ t. str (tif_name t)) o.time_in_force
                  (optional (text "orderLinkId") str o.order_link_id
                    (optional (text "reduceOnly") bool o.is_reduce_only end)))))))))

pub data Verb : Type 0 where
  get post : Verb

-- A request: the headers `X-BAPI-API-KEY`, `X-BAPI-TIMESTAMP`, `X-BAPI-RECV-WINDOW` and `X-BAPI-SIGN`,
-- and a body if it is a `POST`.
pub record Request : Type 0 where
  pub verb : Verb
  pub url : Text
  pub key : Text
  pub timestamp : Text
  pub window : Text
  pub sign : Text
  pub body : Option Text

-- The client; `hmac_hex` is the hash.
pub record BybitPrivateClient : Type 0 where
  pub hmac_hex : Text → Text → Text
  pub base_url : Text
  pub api_key : Text
  pub api_secret : Text
  pub recv_window : ℕ

unfoldable pub with_recv_window : ℕ → BybitPrivateClient → BybitPrivateClient
with_recv_window recv_window client = record client { recv_window = recv_window }

-- A call that reads only the clock for each attempt keeps no state.
abbrev pub stamp : Unit {0} → ℕ → Unit {0} × ℕ
stamp c ts = (c, ts)

module _ (client : BybitPrivateClient) where
  abbrev pub get_url : Text → Text → Text
  get_url path [] = client.base_url ++ path
  get_url path (c ∷ query) = client.base_url ++ (path ++ b'?' ∷ c ∷ query)

  -- The request at a reading of the clock, over the payload that is signed.
  unfoldable pub request_at : Verb → Text → Text → Option Text → ℕ → Request
  request_at verb url payload body ts = record {
    verb = verb;
    url = url;
    key = client.api_key;
    timestamp = to_string ts;
    window = to_string client.recv_window;
    sign = sign_rest client.hmac_hex client.api_key client.api_secret ts client.recv_window payload;
    body = body;
  }

  -- The readings of the clock and the replies are the input.
  unfoldable pub signed_get : Text → Text → List (ℕ × Reply) → Sent Request Response (Unit {0})
  unfolding send_building request_at
  signed_get path query attempts =
      send_building (λ c ts. (c, some (request_at get (get_url path query) query none ts)))
        (text "Bybit GET " ++ path) start tt attempts

  unfoldable pub signed_post : Text → Text → List (ℕ × Reply) → Sent Request Response (Unit {0})
  unfolding send_building request_at
  signed_post path body attempts =
      send_building
        (λ c ts. (c, some (request_at post (client.base_url ++ path) body (some body) ts)))
        (text "Bybit POST " ++ path) start tt attempts

-- The envelope, decoded.
pub record BybitEnvelope (V : Type 0) : Type 0 where
  pub ret_code : ℤ
  pub ret_msg : Text
  pub result : V

-- `resp.json()` and `from_value` are parameters.
unfoldable pub unwrap_result :
    {V A : Type 0} → (Response → Text ⊎ BybitEnvelope V) → (V → Text ⊎ A) → Response → Outcome A
unwrap_result decode from_value resp = elim (decode resp) [
  | inl e ↦ err (http e)
  | inr envelope ↦
      if is_zero envelope.ret_code
      then elim (from_value envelope.result) [ inl e ↦ err (json e) | inr a ↦ ok a ]
      else err (api (int_to_string envelope.ret_code) envelope.ret_msg)
]

-- The endpoints: what they hand to `signed_post` and `signed_get`. `print` is `serde_json`'s, which
-- also chooses the order of the keys of an object built by `json!`.
unfoldable pub place_order : (Param → Text) → BybitOrderRequest → Text × Text
unfolding order_json
place_order print order = (text "/v5/order/create", print (order_json order))

unfoldable pub cancel_order : (Param → Text) → BybitCategory → Text → Text → Text × Text
unfolding as_str
cancel_order print category symbol order_id = (
  text "/v5/order/cancel",
  print (
      obj (
        field (text "category") (str (as_str category))
          (field (text "symbol") (str symbol) (field (text "orderId") (str order_id) end)))),
)

abbrev pub listing_query : BybitCategory → Option Text → Text
listing_query category none = text "category=" ++ as_str category
listing_query category (some s) = text "category=" ++ (as_str category ++ (text "&symbol=" ++ s))

unfoldable pub get_open_orders : BybitCategory → Option Text → Text × Text
unfolding as_str
get_open_orders category symbol = (text "/v5/order/realtime", listing_query category symbol)

unfoldable pub get_positions : BybitCategory → Option Text → Text × Text
unfolding as_str
get_positions category symbol = (text "/v5/position/list", listing_query category symbol)

unfoldable pub get_wallet_balance : Text → Text × Text
get_wallet_balance account_type =
    (text "/v5/account/wallet-balance", text "accountType=" ++ account_type)
