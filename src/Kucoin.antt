-- ===== src/Kucoin.antt =====
-- src/ws/feed.rs: the KuCoin connector, its subscriptions and its dispatch of a frame to the parser
-- of its topic; the parsers are in Parse. src/ws/types.rs: the frame; src/connectors.rs: the
-- environments.
pub mod Fields
pub mod Parse
pub mod Topics
mod Tests
use exchange_apiws.Prelude.{
  ℕ, ◌/◌, Bool, true, false, ◌||◌, Option, none, some, List, [], ◌∷◌, ◌++◌, ◌⊎◌, inl, inr, leb,
  if◌then◌else◌,
}
use exchange_apiws.Prelude.Text.{Text, text, same, contains, after_last}
use exchange_apiws.Prelude.Options.{unwrap_or}
use exchange_apiws.Prelude.Int.{ℤ}
use exchange_apiws.Prelude.Float.{Float}
use exchange_apiws.Prelude.Json.{Json, JsonFloat}
use exchange_apiws.Error.{ExchangeError, config, json}
use exchange_apiws.Actors.{DataMessage}
use exchange_apiws.Kucoin.Parse.{
  parse_trade, parse_ticker, parse_orderbook_depth, parse_level2_delta, parse_order_update,
  parse_position_change, parse_balance_update, parse_instrument_event, parse_advanced_order_update,
}

pub data KucoinEnv : Type 0 where
  live_spot live_futures unified : KucoinEnv

unfoldable pub rest_base : KucoinEnv → Text
rest_base live_futures = text "https://api-futures.kucoin.com"
rest_base live_spot = text "https://api.kucoin.com"
rest_base unified = text "https://api.kucoin.com"

unfoldable pub ws_base : KucoinEnv → Text
ws_base live_futures = text "wss://ws-api-futures.kucoin.com"
ws_base live_spot = text "wss://ws-api.kucoin.com"
ws_base unified = text "wss://ws-api.kucoin.com"

pub record InstanceServer : Type 0 where
  pub endpoint : Text
  pub encrypt : Bool
  pub protocol : Text
  pub ping_interval : ℕ
  pub ping_timeout : ℕ

pub record WsToken : Type 0 where
  pub token : Text
  pub instance_servers : List InstanceServer

pub record WsMessage (V : Type 0) : Type 0 where
  pub id : Text
  pub msg_type : Text
  pub topic : Option Text
  pub subject : Option Text
  pub payload : Option V  -- `data`
  pub private_channel : Option Bool
  pub response : Option Bool

pub record KucoinConnector : Type 0 where
  pub negotiated_url : Text
  pub ping_interval_secs : ℕ
  pub env : KucoinEnv

-- `KucoinConnector::new`, with the connection's UUID as the first argument.
unfoldable pub new : Text → WsToken → KucoinEnv → ExchangeError ⊎ KucoinConnector
new uuid token_data env = elim token_data.instance_servers [
  | [] ↦ inl (config (text "KuCoin returned no instance servers"))
  | ◌∷◌ server servers ↦ inr record {
    negotiated_url =
        server.endpoint ++ (text "?token=" ++ (token_data.token ++ (text "&connectId=" ++ uuid)));
    ping_interval_secs = server.ping_interval / 1000;
    env = env;
  }
]

unfoldable pub trade_topic : KucoinEnv → Text → Text
trade_topic live_futures symbol = text "/contractMarket/execution:" ++ symbol
trade_topic live_spot symbol = text "/market/match:" ++ symbol
trade_topic unified symbol = text "/market/match:" ++ symbol

unfoldable pub ticker_topic : KucoinEnv → Text → Text
ticker_topic live_futures symbol = text "/contractMarket/tickerV2:" ++ symbol
ticker_topic live_spot symbol = text "/market/ticker:" ++ symbol
ticker_topic unified symbol = text "/market/ticker:" ++ symbol

-- The depth is 5 or 50.
unfoldable pub orderbook_depth_topic : KucoinEnv → Text → ℕ → Text
orderbook_depth_topic live_futures symbol depth =
    if leb depth 5
    then text "/contractMarket/level2Depth5:" ++ symbol
    else text "/contractMarket/level2Depth50:" ++ symbol
orderbook_depth_topic live_spot symbol depth =
    if leb depth 5
    then text "/spotMarket/level2Depth5:" ++ symbol
    else text "/spotMarket/level2Depth50:" ++ symbol
orderbook_depth_topic unified symbol depth =
    if leb depth 5
    then text "/spotMarket/level2Depth5:" ++ symbol
    else text "/spotMarket/level2Depth50:" ++ symbol

unfoldable pub orderbook_l2_topic : KucoinEnv → Text → Text
orderbook_l2_topic live_futures symbol = text "/contractMarket/level2:" ++ symbol
orderbook_l2_topic live_spot symbol = text "/market/level2:" ++ symbol
orderbook_l2_topic unified symbol = text "/market/level2:" ++ symbol

abbrev pub order_updates_topic : Text
order_updates_topic = text "/contractMarket/tradeOrders"

abbrev pub position_topic : Text → Text
position_topic symbol = text "/contract/position:" ++ symbol

abbrev pub balance_topic : Text
balance_topic = text "/contractAccount/wallet"

abbrev pub instrument_topic : Text → Text
instrument_topic symbol = text "/contract/instrument:" ++ symbol

abbrev pub stop_orders_topic : Text
stop_orders_topic = text "/contractMarket/advancedOrders"

-- The message that `build_sub` serialises, with its UUID as the first argument.
unfoldable pub build_sub : {V : Type 0} → Text → Text → Bool → WsMessage V
build_sub uuid topic private_channel = record {
  id = uuid;
  msg_type = text "subscribe";
  topic = some topic;
  subject = none;
  payload = none;
  private_channel = some private_channel;
  response = some true;
}

-- The `*_subscription` methods, by the stream that each asks for.
pub data Stream : Type 0 where
  trades tickers level2 order_updates positions balances instruments stop_orders : Stream
  depths : ℕ → Stream

unfoldable pub subscription : {V : Type 0} → Text → KucoinEnv → Stream → Text → WsMessage V
unfolding build_sub trade_topic ticker_topic orderbook_depth_topic orderbook_l2_topic
subscription uuid env trades symbol = build_sub uuid (trade_topic env symbol) false
subscription uuid env tickers symbol = build_sub uuid (ticker_topic env symbol) false
subscription uuid env (depths depth) symbol =
    build_sub uuid (orderbook_depth_topic env symbol depth) false
subscription uuid env level2 symbol = build_sub uuid (orderbook_l2_topic env symbol) false
subscription uuid env order_updates symbol = build_sub uuid order_updates_topic true
subscription uuid env positions symbol = build_sub uuid (position_topic symbol) true
subscription uuid env balances symbol = build_sub uuid balance_topic true
subscription uuid env instruments symbol = build_sub uuid (instrument_topic symbol) false
subscription uuid env stop_orders symbol = build_sub uuid stop_orders_topic true

abbrev pub exchange_name : Text
exchange_name = text "kucoin"

unfoldable pub extract_symbol : Text → Text
extract_symbol topic = after_last b':' topic

-- Both clock readings of a parse, the one for a missing timestamp first.
module _ {V F : Type 0} ⦃j : Json V⦄ ⦃jf : JsonFloat V F⦄ ⦃fl : Float F⦄ (now later : ℤ) where
  -- The chain of tests of `parse_message` on a topic.
  unfoldable pub dispatch : Text → Text → V → List (DataMessage F)
  unfolding extract_symbol
  dispatch topic subject payload =
      let symbol = extract_symbol topic in
      if contains (text "/contractMarket/execution") topic || contains (text "/market/match") topic
      then parse_trade now later symbol exchange_name payload
      else if contains (text "/contractMarket/tickerV2") topic
          || (contains (text "/contractMarket/ticker") topic
              || contains (text "/market/ticker") topic)
      then parse_ticker now later symbol exchange_name payload
      else if contains (text "level2Depth") topic
      then parse_orderbook_depth now later symbol exchange_name payload
      else if contains (text "level2") topic
      then parse_level2_delta now later symbol exchange_name payload
      else if contains (text "/contractMarket/tradeOrders") topic
      then parse_order_update now later exchange_name payload
      else if contains (text "/contract/position") topic
      then parse_position_change now later symbol exchange_name payload
      else if contains (text "/contractAccount/wallet") topic
      then parse_balance_update now later exchange_name payload
      else if contains (text "/contract/instrument") topic
      then parse_instrument_event now later symbol exchange_name subject payload
      else if contains (text "/contractMarket/advancedOrders") topic
      then parse_advanced_order_update now later exchange_name payload
      else []

  -- `parse_message`, with serde's decoding of a frame as its first argument.
  unfoldable pub parse_message :
      (Text → Text ⊎ WsMessage V) → Text → ExchangeError ⊎ List (DataMessage F)
  parse_message decode raw = elim (decode raw) [
    | inl e ↦ inl (json e)
    | inr msg ↦
        if same msg.msg_type (text "message")
        then elim msg.payload [
          | none ↦ inr []
          | some payload ↦
              inr
                (dispatch (unwrap_or msg.topic []) (unwrap_or msg.subject (text "unknown")) payload)
        ]
        else inr []
  ]
