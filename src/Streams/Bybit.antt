-- ===== src/Streams/Bybit.antt =====
-- src/bybit/ws.rs: the Bybit connector's topics and its parser.
use exchange_apiws.Prelude.{
  ℕ, Bool, false, Option, none, some, List, [], ◌∷◌, ◌++◌, map, ◌⊎◌, inl, inr, if◌then◌else◌,
}
use exchange_apiws.Prelude.Text.{Text, text, same, starts_with, to_string}
use exchange_apiws.Prelude.Options.{◌>>=◌, unwrap_or}
use exchange_apiws.Prelude.Int.{ℤ, pos}
use exchange_apiws.Prelude.Float.{Float}
use exchange_apiws.Prelude.Json.{Json, JsonFloat, str_at, bool_at, i64_at, u64_at, parsed_i64_at}
use exchange_apiws.Error.{ExchangeError, json}
use exchange_apiws.Book.{OrderBookData}
use exchange_apiws.Actors.{DataMessage, FundingData, trade, ticker, candle, order_book}
use exchange_apiws.Streams.{opt_str_f64, str_f64, str_or_empty, side_at, parse_levels}

abbrev pub exchange_name : Text
exchange_name = text "bybit"

unfoldable pub trade_topic : Text → Text
trade_topic symbol = text "publicTrade." ++ symbol

unfoldable pub ticker_topic : Text → Text
ticker_topic symbol = text "tickers." ++ symbol

unfoldable pub kline_topic : Text → Text → Text
kline_topic symbol interval = text "kline." ++ (interval ++ (text "." ++ symbol))

unfoldable pub orderbook_topic : Text → ℕ → Text
orderbook_topic symbol depth = text "orderbook." ++ (to_string depth ++ (text "." ++ symbol))

module _ {V F : Type 0} ⦃j : Json V⦄ ⦃jf : JsonFloat V F⦄ ⦃fl : Float F⦄ (now : ℤ) where
  unfoldable pub parse_trade : V → DataMessage F
  parse_trade t = trade record {
    symbol = str_or_empty t (text "s");
    exchange = exchange_name;
    side = side_at t (text "S");
    price = str_f64 t (text "p");
    amount = str_f64 t (text "v");
    exchange_ts = unwrap_or (i64_at t (text "T")) (pos 0);
    receipt_ts = now;
    trade_id = str_or_empty t (text "i");
  }

  unfoldable pub parse_trade_batch : V → List (DataMessage F)
  parse_trade_batch payload = elim (j.as_array payload) [
    | none ↦ []
    | some rows ↦ map parse_trade rows
  ]

  unfoldable pub parse_ticker : V → List (DataMessage F)
  parse_ticker payload =
      ticker record {
        symbol = str_or_empty payload (text "symbol");
        exchange = exchange_name;
        price = str_f64 payload (text "lastPrice");
        best_bid = unwrap_or (opt_str_f64 payload (text "bid1Price")) fl.zero;
        best_ask = unwrap_or (opt_str_f64 payload (text "ask1Price")) fl.zero;
        exchange_ts = now;
        receipt_ts = now;
      }
      ∷ []

  unfoldable pub parse_kline : V → DataMessage F
  parse_kline k = candle record {
    symbol = [];
    exchange = exchange_name;
    interval = str_or_empty k (text "interval");
    open_ts = unwrap_or (i64_at k (text "start")) (pos 0);
    open_price = str_f64 k (text "open");
    high = str_f64 k (text "high");
    low = str_f64 k (text "low");
    close = str_f64 k (text "close");
    volume = str_f64 k (text "volume");
    is_closed = unwrap_or (bool_at k (text "confirm")) false;
    receipt_ts = now;
  }

  unfoldable pub parse_kline_batch : V → List (DataMessage F)
  parse_kline_batch payload = elim (j.as_array payload) [
    | none ↦ []
    | some rows ↦ map parse_kline rows
  ]

  unfoldable pub parse_orderbook : V → Bool → OrderBookData F
  parse_orderbook payload is_snapshot =
      let update_id = u64_at payload (text "u") in
      record {
        symbol = str_or_empty payload (text "s");
        exchange = exchange_name;
        asks = parse_levels (j.get payload (text "a"));
        bids = parse_levels (j.get payload (text "b"));
        exchange_ts = now;
        receipt_ts = now;
        is_snapshot = is_snapshot;
        first_update_id = update_id;
        last_update_id = update_id;
      }

  unfoldable pub parse_ticker_funding : V → Option (FundingData F)
  parse_ticker_funding payload = do
    funding_rate ← opt_str_f64 payload (text "fundingRate")
    some (record {
      symbol = str_or_empty payload (text "symbol");
      exchange = exchange_name;
      funding_rate = funding_rate;
      next_funding_time = unwrap_or (parsed_i64_at payload (text "nextFundingTime")) (pos 0);
      mark_price = opt_str_f64 payload (text "markPrice");
      index_price = opt_str_f64 payload (text "indexPrice");
      exchange_ts = now;
      receipt_ts = now;
    })

  -- The chain of tests of `parse_message` on a topic.
  unfoldable pub dispatch : Text → V → Bool → List (DataMessage F)
  dispatch topic payload is_snapshot =
      if starts_with (text "publicTrade.") topic
      then parse_trade_batch payload
      else if starts_with (text "tickers.") topic
      then parse_ticker payload
      else if starts_with (text "kline.") topic
      then parse_kline_batch payload
      else if starts_with (text "orderbook.") topic
      then order_book (parse_orderbook payload is_snapshot) ∷ []
      else []

  -- `decode` is serde_json's `from_str`, with the text of its error.
  unfoldable pub parse_message : (Text → Text ⊎ V) → Text → ExchangeError ⊎ List (DataMessage F)
  unfolding dispatch
  parse_message decode raw = elim (decode raw) [
    | inl e ↦ inl (json e)
    | inr v ↦ elim (j.get v (text "op")) [
      | some op ↦ inr []
      | none ↦ elim (j.get v (text "data")) [
        | none ↦ inr []
        | some payload ↦ inr (
            dispatch (unwrap_or (str_at v (text "topic")) []) payload
              (same (unwrap_or (str_at v (text "type")) (text "snapshot")) (text "snapshot")))
      ]
    ]
  ]
