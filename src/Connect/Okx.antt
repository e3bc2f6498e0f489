-- ===== src/Connect/Okx.antt =====
-- src/okx/ws.rs: the constructor of the OKX connector, its configuration and its subscription.
use exchange_apiws.Prelude.{Option, none, some, List, [], ◌∷◌, map}
use exchange_apiws.Prelude.Text.{Text, text}
use exchange_apiws.Streams.Okx.{exchange_name, OkxChannel}
use exchange_apiws.Connect.{WebSocketConfig, JsonMake}

pub record OkxConnector : Type 0 where
  pub url : Text
  pub channels : List OkxChannel

unfoldable pub new : List OkxChannel → OkxConnector
new channels = record { url = text "wss://ws.okx.com:8443/ws/v5/public"; channels = channels }

unfoldable pub ping_message : Option Text
ping_message = some (text "ping")

module _ {V : Type 0} (m : JsonMake V) where
  abbrev pub arg : OkxChannel → V
  arg c = m.object ((text "channel", m.string c.channel) ∷ (text "instId", m.string c.inst_id) ∷ [])

  abbrev pub frame : List OkxChannel → V
  frame channels =
      m.object
        ((text "op", m.string (text "subscribe")) ∷ (text "args", m.array (map arg channels)) ∷ [])

  unfoldable pub subscription_message : OkxConnector → Option Text
  subscription_message connector = elim connector.channels [
    | [] ↦ none
    | c ∷ cs ↦ some (m.print (frame (c ∷ cs)))
  ]

  unfoldable pub build_ws_config : OkxConnector → Text → WebSocketConfig
  unfolding subscription_message
  build_ws_config connector symbol = record {
    url = connector.url;
    exchange = exchange_name;
    symbol = symbol;
    subscription_msg = subscription_message connector;
    ping_interval_secs = 20;
    reconnect_delay_secs = 5;
    max_reconnect_attempts = 5;
  }
