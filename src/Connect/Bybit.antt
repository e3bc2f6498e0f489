-- ===== src/Connect/Bybit.antt =====
-- src/bybit/ws.rs: the constructor of the Bybit connector, its configuration and its subscription.
pub mod Topics
use exchange_apiws.Prelude.{ℕ, Option, none, some, List, [], ◌∷◌, ◌++◌, map}
use exchange_apiws.Prelude.Text.{Text, text}
use exchange_apiws.Clients.Bybit.{BybitCategory, as_str}
use exchange_apiws.Streams.Bybit.{exchange_name}
use exchange_apiws.Connect.{WebSocketConfig, JsonMake}

pub record BybitConnector : Type 0 where
  pub url : Text
  pub category : BybitCategory
  pub topics : List Text

unfoldable pub new : BybitCategory → List Text → BybitConnector
unfolding as_str
new category topics = record {
  url = text "wss://stream.bybit.com/v5/public" ++ b'/' ∷ as_str category;
  category = category;
  topics = topics;
}

unfoldable pub ping_message : Option Text
ping_message = some (text "{\"op\":\"ping\"}")

module _ {V : Type 0} (m : JsonMake V) where
  -- `{"op":"subscribe","args":…}`.
  abbrev pub frame : List Text → V
  frame topics =
      m.object (
        (text "op", m.string (text "subscribe"))
        ∷ (text "args", m.array (map m.string topics))
        ∷ [])

  unfoldable pub subscription_message : BybitConnector → Option Text
  subscription_message connector = elim connector.topics [
    | [] ↦ none
    | t ∷ ts ↦ some (m.print (frame (t ∷ ts)))
  ]

  unfoldable pub build_ws_config : BybitConnector → Text → WebSocketConfig
  unfolding subscription_message
  build_ws_config connector symbol = record {
    url = connector.url;
    exchange = exchange_name;
    symbol = symbol;
    subscription_msg = subscription_message connector;
    ping_interval_secs = 20;
    reconnect_delay_secs = 5;
    max_reconnect_attempts = 5;
  }
