-- ===== src/Connect/Kraken.antt =====
-- src/kraken/ws.rs: the constructors of the Kraken connector, its configuration and its subscriptions.
pub mod Dispatched
use exchange_apiws.Prelude.{ℕ, Option, none, some, List, [], ◌∷◌, map}
use exchange_apiws.Prelude.Text.{Text, text}
use exchange_apiws.Streams.Kraken.{exchange_name}
use exchange_apiws.Connect.{WebSocketConfig, JsonMake}

pub record KrakenConnector : Type 0 where
  pub url : Text

unfoldable pub public_connector : KrakenConnector
public_connector = record { url = text "wss://ws.kraken.com/v2" }

unfoldable pub private_connector : KrakenConnector
private_connector = record { url = text "wss://ws-auth.kraken.com/v2" }

unfoldable pub build_ws_config : KrakenConnector → Text → WebSocketConfig
build_ws_config connector symbol = record {
  url = connector.url;
  exchange = exchange_name;
  symbol = symbol;
  subscription_msg = none;
  ping_interval_secs = 30;
  reconnect_delay_secs = 5;
  max_reconnect_attempts = 5;
}

unfoldable pub ping_message : Option Text
ping_message = some (text "{\"method\":\"ping\"}")

module _ {V : Type 0} (m : JsonMake V) where
  -- `{"method":"subscribe","params":…}`.
  abbrev pub subscribe : List (Text × V) → V
  subscribe params =
      m.object
        ((text "method", m.string (text "subscribe")) ∷ (text "params", m.object params) ∷ [])

  -- The parameters that name a channel and its pairs, before what else there is.
  abbrev pub pairs_params : Text → List Text → List (Text × V) → List (Text × V)
  pairs_params channel pairs later =
      (text "channel", m.string channel) ∷ (text "symbol", m.array (map m.string pairs)) ∷ later

  unfoldable pub trade_subscription : List Text → Text
  trade_subscription pairs = m.print (subscribe (pairs_params (text "trade") pairs []))

  unfoldable pub ticker_subscription : List Text → Text
  ticker_subscription pairs = m.print (subscribe (pairs_params (text "ticker") pairs []))

  unfoldable pub ohlc_subscription : List Text → ℕ → Text
  ohlc_subscription pairs interval_mins = m.print (
      subscribe (pairs_params (text "ohlc") pairs ((text "interval", m.number interval_mins) ∷ [])))

  unfoldable pub book_subscription : List Text → ℕ → Text
  book_subscription pairs depth =
      m.print (subscribe (pairs_params (text "book") pairs ((text "depth", m.number depth) ∷ [])))

  -- The parameters of a private channel.
  abbrev pub token_params : Text → Text → List (Text × V)
  token_params channel token =
      (text "channel", m.string channel) ∷ (text "token", m.string token) ∷ []

  unfoldable pub executions_subscription : Text → Text
  executions_subscription token = m.print (subscribe (token_params (text "executions") token))

  unfoldable pub balances_subscription : Text → Text
  balances_subscription token = m.print (subscribe (token_params (text "balances") token))
