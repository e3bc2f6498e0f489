-- ===== src/Connect/Cryptocom.antt =====
-- src/cryptocom/ws.rs: the constructors of the Crypto.com connector, its configuration and its
-- subscriptions. The connector sends no pings.
use exchange_apiws.Prelude.{none, List, [], ◌∷◌, map}
use exchange_apiws.Prelude.Text.{Text, text}
use exchange_apiws.Prelude.Int.{ℤ}
use exchange_apiws.Streams.Cryptocom.{exchange_name}
use exchange_apiws.Connect.{WebSocketConfig, JsonMake}

pub record CryptocomConnector : Type 0 where
  pub url : Text

unfoldable pub public_connector : CryptocomConnector
public_connector = record { url = text "wss://stream.crypto.com/exchange/v1/market" }

unfoldable pub private_connector : CryptocomConnector
private_connector = record { url = text "wss://stream.crypto.com/exchange/v1/user" }

unfoldable pub subscribe_frame : {V : Type 0} → JsonMake V → ℤ → List Text → Text
subscribe_frame m id channels = m.print (
    m.object (
      (text "id", m.integer id)
      ∷ (text "method", m.string (text "subscribe"))
      ∷ (text "params", m.object ((text "channels", m.array (map m.string channels)) ∷ []))
      ∷ []))

unfoldable pub build_ws_config : CryptocomConnector → Text → WebSocketConfig
build_ws_config connector symbol = record {
  url = connector.url;
  exchange = exchange_name;
  symbol = symbol;
  subscription_msg = none;
  ping_interval_secs = 30;
  reconnect_delay_secs = 5;
  max_reconnect_attempts = 5;
}
