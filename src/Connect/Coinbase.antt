-- ===== src/Connect/Coinbase.antt =====
-- src/coinbase/ws.rs: the constructor of the Coinbase connector, its configuration and its
-- subscription. The connector has no ping message of its own.
use exchange_apiws.Prelude.{Option, none, some, List, [], ◌∷◌, map}
use exchange_apiws.Prelude.Text.{Text, text}
use exchange_apiws.Streams.Coinbase.{exchange_name, CoinbaseChannel, channel_as_str}
use exchange_apiws.Connect.{WebSocketConfig, JsonMake}

pub record CoinbaseConnector : Type 0 where
  pub url : Text
  pub product_ids : List Text
  pub channels : List CoinbaseChannel

unfoldable pub new : List Text → List CoinbaseChannel → CoinbaseConnector
new product_ids channels = record {
  url = text "wss://advanced-trade-ws.coinbase.com";
  product_ids = product_ids;
  channels = channels;
}

module _ {V : Type 0} (m : JsonMake V) where
  unfoldable pub subscribe_frame : CoinbaseConnector → CoinbaseChannel → Text
  unfolding channel_as_str
  subscribe_frame connector channel = m.print (
      m.object (
        (text "type", m.string (text "subscribe"))
        ∷ (text "product_ids", m.array (map m.string connector.product_ids))
        ∷ (text "channel", m.string (channel_as_str channel))
        ∷ []))

  -- The frame of the first channel.
  unfoldable pub subscription_message : CoinbaseConnector → Option Text
  unfolding subscribe_frame
  subscription_message connector = elim connector.channels [
    | [] ↦ none
    | c ∷ cs ↦ some (subscribe_frame connector c)
  ]

  unfoldable pub build_ws_config : CoinbaseConnector → Text → WebSocketConfig
  unfolding subscription_message
  build_ws_config connector symbol = record {
    url = connector.url;
    exchange = exchange_name;
    symbol = symbol;
    subscription_msg = subscription_message connector;
    ping_interval_secs = 30;
    reconnect_delay_secs = 5;
    max_reconnect_attempts = 5;
  }
