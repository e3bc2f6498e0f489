-- ===== src/Streams/Kraken.antt =====
-- src/kraken/ws.rs: the parser of the Kraken connector.
use exchange_apiws.Prelude.{
  Bool, false, ◌||◌, Option, none, some, List, [], ◌∷◌, map, ◌⊎◌, inl, inr, if◌then◌else◌, ◌==◌,
}
use exchange_apiws.Prelude.Text.{Text, text, same, to_ascii_lowercase, to_string}
use exchange_apiws.Prelude.Options.{◌>>=◌, unwrap_or, or_else, filter_map}
use exchange_apiws.Prelude.Int.{ℤ, pos, negsuc}
use exchange_apiws.Prelude.Float.{Float}
use exchange_apiws.Prelude.Json.{Json, JsonFloat, str_at, i64_at, u64_at, array_at}
use exchange_apiws.Error.{ExchangeError, json}
use exchange_apiws.Book.{OrderBookData, Level}
use exchange_apiws.Actors.{
  DataMessage, OrderUpdate, trade, ticker, candle, order_book, order_update, balance_update,
}
use exchange_apiws.Streams.{str_or_empty, side_at, to_string_i64}
use mathlib.Core.Option

abbrev pub exchange_name : Text
exchange_name = text "kraken"

unfoldable pub map_order_status : Text → Text
map_order_status status =
    if same status (text "partially_filled")
    then text "partialFilled"
    else if same status (text "filled")
    then text "filled"
    else if same status (text "canceled") || same status (text "expired")
    then text "canceled"
    else text "open"

abbrev pub nonempty : Text → Option Text
nonempty [] = none
nonempty (c ∷ s) = some (c ∷ s)

-- A user's reference in text, unless it is zero.
abbrev pub nonzero_reference : ℤ → Option Text
nonzero_reference (pos n) = if n == 0 then none else some (to_string_i64 (pos n))
nonzero_reference (negsuc n) = some (to_string_i64 (negsuc n))

module _ {V F : Type 0} ⦃j : Json V⦄ ⦃jf : JsonFloat V F⦄ where
  unfoldable pub parse_level_objects : Option V → List (Level F)
  parse_level_objects v =
      unwrap_or
        (Option.map
          (filter_map λ lvl. do
            price ← j.get lvl (text "price")
            p ← jf.as_f64 price
            qty ← j.get lvl (text "qty")
            q ← jf.as_f64 qty
            some (p, q))
          (v >>= j.as_array))
        []

module _ {V F : Type 0} ⦃j : Json V⦄ ⦃jf : JsonFloat V F⦄ ⦃fl : Float F⦄ where
  unfoldable pub f64_field : V → Text → F
  f64_field v key = unwrap_or (j.get v key >>= jf.as_f64) fl.zero

  unfoldable pub sum_fees : V → F
  unfolding f64_field
  sum_fees d =
      unwrap_or
        (Option.map (λ arr. fl.sum (map (λ f. f64_field f (text "qty")) arr))
          (array_at d (text "fees")))
        fl.zero

module _ {V : Type 0} ⦃j : Json V⦄ where
  -- The client's id of an order: its text, or its number unless that is zero.
  unfoldable pub client_oid_of : V → Option Text
  client_oid_of d =
      or_else (nonempty (str_or_empty d (text "cl_ord_id")))
        (i64_at d (text "order_userref") >>= nonzero_reference)

  -- `chrono` reads a time of RFC 3339 as milliseconds; what it cannot read is the time of receipt.
  unfoldable pub ts_at : (Text → Option ℤ) → ℤ → V → Text → ℤ
  ts_at parse_rfc3339 now v key = unwrap_or (str_at v key >>= parse_rfc3339) now

module _ {V F : Type 0} ⦃j : Json V⦄ ⦃jf : JsonFloat V F⦄ ⦃fl : Float F⦄
    (parse_rfc3339 : Text → Option ℤ) (now : ℤ) where
  unfoldable pub parse_trade : V → DataMessage F
  parse_trade t = trade record {
    symbol = str_or_empty t (text "symbol");
    exchange = exchange_name;
    side = side_at t (text "side");
    price = f64_field t (text "price");
    amount = f64_field t (text "qty");
    exchange_ts = ts_at parse_rfc3339 now t (text "timestamp");
    receipt_ts = now;
    trade_id = unwrap_or (Option.map to_string (u64_at t (text "trade_id"))) [];
  }

  unfoldable pub parse_ticker : V → DataMessage F
  parse_ticker t = ticker record {
    symbol = str_or_empty t (text "symbol");
    exchange = exchange_name;
    price = f64_field t (text "last");
    best_bid = f64_field t (text "bid");
    best_ask = f64_field t (text "ask");
    exchange_ts = now;
    receipt_ts = now;
  }

  unfoldable pub parse_kline : V → DataMessage F
  parse_kline c = candle record {
    symbol = str_or_empty c (text "symbol");
    exchange = exchange_name;
    interval = unwrap_or (Option.map to_string (u64_at c (text "interval"))) [];
    open_ts = ts_at parse_rfc3339 now c (text "interval_begin");
    open_price = f64_field c (text "open");
    high = f64_field c (text "high");
    low = f64_field c (text "low");
    close = f64_field c (text "close");
    volume = f64_field c (text "volume");
    is_closed = false;
    receipt_ts = now;
  }

  unfoldable pub parse_book : Bool → V → OrderBookData F
  parse_book is_snapshot b = record {
    symbol = str_or_empty b (text "symbol");
    exchange = exchange_name;
    asks = parse_level_objects (j.get b (text "asks"));
    bids = parse_level_objects (j.get b (text "bids"));
    exchange_ts = now;
    receipt_ts = now;
    is_snapshot = is_snapshot;
    first_update_id = none;
    last_update_id = none;
  }

  unfoldable pub parse_execution : V → Option (OrderUpdate F)
  unfolding client_oid_of
  parse_execution d =
      let size : F = f64_field d (text "order_qty") in
      let filled_size = f64_field d (text "cum_qty") in
      let is_trade = same (str_or_empty d (text "exec_type")) (text "trade") in
      do
        symbol ← str_at d (text "symbol")
        some (record {
          symbol = symbol;
          exchange = exchange_name;
          order_id = str_or_empty d (text "order_id");
          client_oid = client_oid_of d;
          side = side_at d (text "side");
          order_type = to_ascii_lowercase (str_or_empty d (text "order_type"));
          status = map_order_status (str_or_empty d (text "order_status"));
          price = f64_field d (text "limit_price");
          size = size;
          filled_size = filled_size;
          remaining_size = fl.max_of (fl.sub size filled_size) fl.zero;
          fee = sum_fees d;
          match_price = if is_trade then some (f64_field d (text "last_price")) else none;
          match_size = if is_trade then some (f64_field d (text "last_qty")) else none;
          trade_id = if is_trade then nonempty (str_or_empty d (text "exec_id")) else none;
          exchange_ts = ts_at parse_rfc3339 now d (text "timestamp");
          receipt_ts = now;
        })

  unfoldable pub parse_balance : V → Option (DataMessage F)
  parse_balance b = do
    currency ← nonempty (str_or_empty b (text "asset"))
    some (
        balance_update record {
          exchange = exchange_name;
          currency = currency;
          available_balance = f64_field b (text "balance");
          hold_balance = fl.zero;
          event = text "balances";
          exchange_ts = now;
          receipt_ts = now;
        })

  -- The messages of the rows of a channel's frame.
  unfoldable pub parse_rows : Text → Bool → List V → List (DataMessage F)
  parse_rows channel is_snapshot rows =
      if same channel (text "trade")
      then map parse_trade rows
      else if same channel (text "ticker")
      then map parse_ticker rows
      else if same channel (text "ohlc")
      then map parse_kline rows
      else if same channel (text "book")
      then map (λ b. order_book (parse_book is_snapshot b)) rows
      else if same channel (text "executions")
      then map order_update (filter_map parse_execution rows)
      else if same channel (text "balances")
      then filter_map parse_balance rows
      else []

  -- `decode` is serde_json's `from_str`, with the text of its error.
  unfoldable pub parse_message : (Text → Text ⊎ V) → Text → ExchangeError ⊎ List (DataMessage F)
  unfolding parse_rows
  parse_message decode raw = elim (decode raw) [
    | inl e ↦ inl (json e)
    | inr v ↦ elim (j.get v (text "method")) [
      | some method ↦ inr []
      | none ↦ elim (array_at v (text "data")) [
        | none ↦ inr []
        | some rows ↦ inr (
            parse_rows (str_or_empty v (text "channel"))
              (same (unwrap_or (str_at v (text "type")) (text "update")) (text "snapshot")) rows)
      ]
    ]
  ]
