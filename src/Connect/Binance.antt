-- ===== src/Connect/Binance.antt =====
-- src/binance/ws.rs: the constructors of the Binance connector, the names of its streams and its
-- configuration. The symbols of streams are ASCII.
pub mod Symbols
use exchange_apiws.Prelude.{ℕ, Option, none, List, [], ◌∷◌, ◌++◌, leb, if◌then◌else◌}
use exchange_apiws.Prelude.Text.{Text, text, to_ascii_lowercase, to_string}
use exchange_apiws.Connect.{WebSocketConfig}

pub record BinanceConnector : Type 0 where
  pub url : Text
  pub exchange : Text

-- `streams.join("/")`.
unfoldable pub joined : List Text → Text
joined [] = []
joined (s ∷ []) = s
joined (s ∷ t ∷ streams) = s ++ b'/' ∷ joined (t ∷ streams)

unfoldable pub build_combined_url : Text → List Text → Text
unfolding joined
build_combined_url base streams = base ++ (text "/stream?streams=" ++ joined streams)

unfoldable pub spot : List Text → BinanceConnector
unfolding build_combined_url
spot streams = record {
  url = build_combined_url (text "wss://stream.binance.com:9443") streams;
  exchange = text "binance";
}

unfoldable pub futures : List Text → BinanceConnector
unfolding build_combined_url
futures streams = record {
  url = build_combined_url (text "wss://fstream.binance.com") streams;
  exchange = text "binance-futures";
}

unfoldable pub trade_stream : Text → Text
trade_stream symbol = to_ascii_lowercase symbol ++ text "@aggTrade"

unfoldable pub ticker_stream : Text → Text
ticker_stream symbol = to_ascii_lowercase symbol ++ text "@bookTicker"

unfoldable pub kline_stream : Text → Text → Text
kline_stream symbol interval = to_ascii_lowercase symbol ++ (text "@kline_" ++ interval)

unfoldable pub depth_stream : Text → Text
depth_stream symbol = to_ascii_lowercase symbol ++ text "@depth@100ms"

-- The number of levels that is asked for.
unfoldable pub clamped : ℕ → ℕ
clamped levels = if leb levels 5 then 5 else if leb levels 10 then 10 else 20

unfoldable pub depth_snapshot_stream : Text → ℕ → Text
unfolding clamped
depth_snapshot_stream symbol levels =
    to_ascii_lowercase symbol ++ (text "@depth" ++ (to_string (clamped levels) ++ text "@100ms"))

unfoldable pub mark_price_stream : Text → Text
mark_price_stream symbol = to_ascii_lowercase symbol ++ text "@markPrice@1s"

unfoldable pub build_ws_config : BinanceConnector → Text → WebSocketConfig
build_ws_config connector symbol = record {
  url = connector.url;
  exchange = connector.exchange;
  symbol = symbol;
  subscription_msg = none;
  ping_interval_secs = 180;
  reconnect_delay_secs = 5;
  max_reconnect_attempts = 5;
}
