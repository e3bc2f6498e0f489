-- ===== src/Streams/Cryptocom.antt =====
-- src/cryptocom/ws.rs: the Crypto.com connector's channels, its answer to heartbeats and its parser.
use exchange_apiws.Prelude.{
  ℕ, Bool, false, Option, none, some, List, [], ◌++◌, map, ◌⊎◌, inl, inr, if◌then◌else◌,
}
use exchange_apiws.Prelude.Text.{Text, text, same, contains, to_string}
use exchange_apiws.Prelude.Options.{◌>>=◌, unwrap_or, or_else}
use exchange_apiws.Prelude.Int.{ℤ, pos}
use exchange_apiws.Prelude.Float.{Float}
use exchange_apiws.Prelude.Json.{Json, JsonFloat, str_at, i64_at, u64_at, array_at}
use exchange_apiws.Error.{ExchangeError, json}
use exchange_apiws.Book.{OrderBookData, add_u64}
use exchange_apiws.Actors.{DataMessage, trade, ticker, candle, order_book}
use exchange_apiws.Streams.{str_or_empty, side_at, parse_levels}
use mathlib.Core.Option

abbrev pub exchange_name : Text
exchange_name = text "cryptocom"

unfoldable pub trade_channel : Text → Text
trade_channel instrument = text "trade." ++ instrument

unfoldable pub ticker_channel : Text → Text
ticker_channel instrument = text "ticker." ++ instrument

unfoldable pub candlestick_channel : Text → Text → Text
candlestick_channel instrument timeframe =
    text "candlestick." ++ (timeframe ++ (text "." ++ instrument))

unfoldable pub book_channel : Text → ℕ → Text
book_channel instrument depth = text "book." ++ (instrument ++ (text "." ++ to_string depth))

module _ {V : Type 0} ⦃j : Json V⦄ where
  -- The id of the heartbeat that `response_for` answers; `respond` prints the answer's JSON.
  unfoldable pub response_for : (Text → Text ⊎ V) → (ℤ → Text) → Text → Option Text
  response_for decode respond raw =
      if contains (text "public/heartbeat") raw
      then elim (decode raw) [
        | inl e ↦ none
        | inr v ↦ do
          method ← str_at v (text "method")
          id ← (if same method (text "public/heartbeat") then i64_at v (text "id") else none)
          some (respond id)
      ]
      else none

  unfoldable pub last_id : V → Option ℕ
  last_id b = u64_at b (text "u")

  unfoldable pub first_id : V → Option ℕ
  unfolding last_id
  first_id b = or_else (Option.map (λ pu. add_u64 pu 1) (u64_at b (text "pu"))) (last_id b)

module _ {V F : Type 0} ⦃j : Json V⦄ ⦃jf : JsonFloat V F⦄ ⦃fl : Float F⦄ where
  -- A number in a text, or a number.
  unfoldable pub flexible_f64 : V → Text → F
  flexible_f64 v key = elim (j.get v key) [
    | none ↦ fl.zero
    | some x ↦ elim (j.as_str x) [
      | some s ↦ unwrap_or (jf.parse_f64 s) fl.zero
      | none ↦ unwrap_or (jf.as_f64 x) fl.zero
    ]
  ]

module _ {V F : Type 0} ⦃j : Json V⦄ ⦃jf : JsonFloat V F⦄ ⦃fl : Float F⦄ (now : ℤ) where
  unfoldable pub parse_trade : Text → V → DataMessage F
  parse_trade instrument_fallback t = trade record {
    symbol = unwrap_or (str_at t (text "i")) instrument_fallback;
    exchange = exchange_name;
    side = side_at t (text "s");
    price = flexible_f64 t (text "p");
    amount = flexible_f64 t (text "q");
    exchange_ts = unwrap_or (i64_at t (text "t")) (pos 0);
    receipt_ts = now;
    trade_id = str_or_empty t (text "d");
  }

  unfoldable pub parse_ticker : Text → V → DataMessage F
  parse_ticker instrument_fallback t = ticker record {
    symbol = unwrap_or (str_at t (text "i")) instrument_fallback;
    exchange = exchange_name;
    price = flexible_f64 t (text "a");
    best_bid = flexible_f64 t (text "b");
    best_ask = flexible_f64 t (text "k");
    exchange_ts = unwrap_or (i64_at t (text "t")) now;
    receipt_ts = now;
  }

  unfoldable pub parse_candle : Text → V → DataMessage F
  parse_candle instrument_fallback c = candle record {
    symbol = unwrap_or (str_at c (text "i")) instrument_fallback;
    exchange = exchange_name;
    interval = str_or_empty c (text "interval");
    open_ts = unwrap_or (i64_at c (text "t")) now;
    open_price = flexible_f64 c (text "o");
    high = flexible_f64 c (text "h");
    low = flexible_f64 c (text "l");
    close = flexible_f64 c (text "c");
    volume = flexible_f64 c (text "v");
    is_closed = false;
    receipt_ts = now;
  }

  unfoldable pub parse_book : Text → Bool → V → OrderBookData F
  parse_book instrument_fallback is_snapshot b = record {
    symbol = instrument_fallback;
    exchange = exchange_name;
    asks = parse_levels (j.get b (text "asks"));
    bids = parse_levels (j.get b (text "bids"));
    exchange_ts = unwrap_or (i64_at b (text "t")) now;
    receipt_ts = now;
    is_snapshot = is_snapshot;
    first_update_id = first_id b;
    last_update_id = last_id b;
  }

  -- The messages of the rows of a channel's frame.
  unfoldable pub parse_rows : Text → Text → Bool → List V → List (DataMessage F)
  parse_rows channel instrument is_snapshot rows =
      if same channel (text "trade")
      then map (parse_trade instrument) rows
      else if same channel (text "ticker")
      then map (parse_ticker instrument) rows
      else if same channel (text "candlestick")
      then map (parse_candle instrument) rows
      else if same channel (text "book")
      then map (λ b. order_book (parse_book instrument is_snapshot b)) rows
      else []

  -- `decode` is serde_json's `from_str`, with the text of its error.
  unfoldable pub parse_message : (Text → Text ⊎ V) → Text → ExchangeError ⊎ List (DataMessage F)
  unfolding parse_rows
  parse_message decode raw = elim (decode raw) [
    | inl e ↦ inl (json e)
    | inr v ↦
        if same (str_or_empty v (text "method")) (text "public/heartbeat")
        then inr []
        else elim (j.get v (text "result")) [
          | none ↦ inr []
          | some result ↦ elim (array_at result (text "data")) [
            | none ↦ inr []
            | some rows ↦ inr (
                parse_rows (str_or_empty result (text "channel"))
                  (str_or_empty result (text "instrument_name"))
                  (same (unwrap_or (str_at result (text "type")) (text "update")) (text "snapshot"))
                  rows)
          ]
        ]
  ]
