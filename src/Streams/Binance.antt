-- ===== src/Streams/Binance.antt =====
-- src/binance/ws.rs: the parser of the Binance connector.
use exchange_apiws.Prelude.{
  Bool, true, false, ◌&&◌, Option, none, some, List, [], ◌∷◌, map, ◌⊎◌, inl, inr, if◌then◌else◌,
  leb, ◌-◌,
}
use exchange_apiws.Prelude.Text.{Text, text, same, to_string}
use exchange_apiws.Prelude.Options.{unwrap_or}
use exchange_apiws.Prelude.Int.{ℤ, pos}
use exchange_apiws.Prelude.Float.{Float}
use exchange_apiws.Prelude.Json.{Json, JsonFloat, str_at, bool_at, i64_at, u64_at}
use exchange_apiws.Error.{ExchangeError, json}
use exchange_apiws.Book.{OrderBookData}
use exchange_apiws.Actors.{DataMessage, buy, sell, trade, ticker, candle, funding_rate, order_book}
use exchange_apiws.Streams.{opt_str_f64, str_f64, str_or_empty, parse_levels}
use mathlib.Core.Option

module _ {V F : Type 0} ⦃j : Json V⦄ ⦃jf : JsonFloat V F⦄ ⦃fl : Float F⦄ (now : ℤ) where
  unfoldable pub parse_agg_trade : Text → V → DataMessage F
  parse_agg_trade exchange payload = trade record {
    symbol = str_or_empty payload (text "s");
    exchange = exchange;
    side = if unwrap_or (bool_at payload (text "m")) false then sell else buy;
    price = str_f64 payload (text "p");
    amount = str_f64 payload (text "q");
    exchange_ts = unwrap_or (i64_at payload (text "T")) (pos 0);
    receipt_ts = now;
    trade_id = to_string (unwrap_or (u64_at payload (text "a")) 0);
  }

  unfoldable pub parse_kline : Text → V → List (DataMessage F)
  parse_kline exchange payload = elim (j.get payload (text "k")) [
    | none ↦ []
    | some k ↦
        candle record {
          symbol = str_or_empty k (text "s");
          exchange = exchange;
          interval = str_or_empty k (text "i");
          open_ts = unwrap_or (i64_at k (text "t")) (pos 0);
          open_price = str_f64 k (text "o");
          high = str_f64 k (text "h");
          low = str_f64 k (text "l");
          close = str_f64 k (text "c");
          volume = str_f64 k (text "v");
          is_closed = unwrap_or (bool_at k (text "x")) false;
          receipt_ts = now;
        }
        ∷ []
  ]

  unfoldable pub parse_mark_price : Text → V → DataMessage F
  parse_mark_price exchange payload = funding_rate record {
    symbol = str_or_empty payload (text "s");
    exchange = exchange;
    funding_rate = str_f64 payload (text "r");
    next_funding_time = unwrap_or (i64_at payload (text "T")) (pos 0);
    mark_price = opt_str_f64 payload (text "p");
    index_price = opt_str_f64 payload (text "i");
    exchange_ts = unwrap_or (i64_at payload (text "E")) (pos 0);
    receipt_ts = now;
  }

  unfoldable pub parse_depth_update : Text → V → OrderBookData F
  parse_depth_update exchange payload = record {
    symbol = str_or_empty payload (text "s");
    exchange = exchange;
    asks = parse_levels (j.get payload (text "a"));
    bids = parse_levels (j.get payload (text "b"));
    exchange_ts = unwrap_or (i64_at payload (text "E")) (pos 0);
    receipt_ts = now;
    is_snapshot = false;
    first_update_id = u64_at payload (text "U");
    last_update_id = u64_at payload (text "u");
  }

  unfoldable pub parse_book_ticker : Text → V → DataMessage F
  parse_book_ticker exchange payload = ticker record {
    symbol = str_or_empty payload (text "s");
    exchange = exchange;
    price = fl.zero;
    best_bid = str_f64 payload (text "b");
    best_ask = str_f64 payload (text "a");
    exchange_ts = now;
    receipt_ts = now;
  }

  unfoldable pub parse_depth_snapshot : Text → Text → V → OrderBookData F
  parse_depth_snapshot exchange symbol payload =
      let last_update_id = u64_at payload (text "lastUpdateId") in
      record {
        symbol = symbol;
        exchange = exchange;
        asks = parse_levels (j.get payload (text "asks"));
        bids = parse_levels (j.get payload (text "bids"));
        exchange_ts = now;
        receipt_ts = now;
        is_snapshot = true;
        first_update_id = last_update_id;
        last_update_id = last_update_id;
      }

-- `split('@').next()` of a stream's name.
abbrev pub before_at : Text → Text
before_at [] = []
before_at (c ∷ s) = let rest = c ∷ before_at s in if same (c ∷ []) (text "@") then [] else rest

-- `to_uppercase` of ASCII, which the names of streams are.
abbrev pub to_uppercase : Text → Text
to_uppercase s = map (λ c. if leb b'a' c && leb c b'z' then c - 32 else c) s

abbrev pub is_some : {A : Type 0} → Option A → Bool
is_some none = false
is_some (some a) = true

-- The name of the stream and the event in its envelope; without an envelope the frame is the event.
-- `null` is the event of an envelope that has no `data`.
unfoldable pub open_envelope : {V : Type 0} ⦃j : Json V⦄ → V → V → Option Text × V
open_envelope ⦃j⦄ null v = elim (str_at v (text "stream")) [
  | some stream ↦ (some stream, unwrap_or (j.get v (text "data")) null)
  | none ↦ (none, v)
]

module _ {V F : Type 0} ⦃j : Json V⦄ ⦃jf : JsonFloat V F⦄ ⦃fl : Float F⦄ (now : ℤ) where
  -- The events without an `e` field: a book ticker, or a partial depth snapshot.
  unfoldable pub parse_untyped : Text → Option Text → V → List (DataMessage F)
  parse_untyped exchange stream_name inner =
      if is_some (j.get inner (text "u"))
        && (is_some (j.get inner (text "s")) && is_some (j.get inner (text "b")))
      then parse_book_ticker now exchange inner ∷ []
      else if is_some (j.get inner (text "lastUpdateId"))
      then order_book (
          parse_depth_snapshot now exchange
            (to_uppercase (unwrap_or (Option.map before_at stream_name) [])) inner)
        ∷ []
      else []

  unfoldable pub parse_event : Text → Option Text → V → List (DataMessage F)
  unfolding parse_untyped
  parse_event exchange stream_name inner =
      let event_type = str_or_empty inner (text "e") in
      if same event_type (text "aggTrade")
      then parse_agg_trade now exchange inner ∷ []
      else if same event_type (text "kline")
      then parse_kline now exchange inner
      else if same event_type (text "markPriceUpdate")
      then parse_mark_price now exchange inner ∷ []
      else if same event_type (text "depthUpdate")
      then order_book (parse_depth_update now exchange inner) ∷ []
      else if same event_type []
      then parse_untyped exchange stream_name inner
      else []

  -- `decode` is serde_json's `from_str`, with the text of its error.
  unfoldable pub parse_message :
      (Text → Text ⊎ V) → V → Text → Text → ExchangeError ⊎ List (DataMessage F)
  unfolding parse_event
  parse_message decode null exchange raw = elim (decode raw) [
    | inl e ↦ inl (json e)
    | inr v ↦ let opened = open_envelope null v in inr (parse_event exchange opened.0 opened.1)
  ]
