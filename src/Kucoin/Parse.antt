-- ===== src/Kucoin/Parse.antt =====
-- The parsers of src/ws/feed.rs, one for each kind of topic. `now` and `later` are the two readings of
-- the clock: the first stands in for a missing timestamp, the second is the time of receipt.
use exchange_apiws.Prelude.{
  ◌*◌, true, false, ◌&&◌, not, Option, none, some, List, [], ◌∷◌, if◌then◌else◌,
}
use exchange_apiws.Prelude.Text.{Text, text, eq_ignore_ascii_case, split_once}
use exchange_apiws.Prelude.Options.{◌>>=◌, unwrap_or, or_else, filter_map}
use exchange_apiws.Prelude.Int.{ℤ, pos, leb_ℤ}
use exchange_apiws.Prelude.Float.{Float}
use exchange_apiws.Prelude.Json.{Json, JsonFloat, str_at, i64_at, u64_at, array_at, parsed_i64_at}
use exchange_apiws.Book.{OrderBookData, Level}
use exchange_apiws.Actors.{
  DataMessage, trade, ticker, order_book, order_update, position_change, balance_update,
  instrument_event, advanced_order_update,
}
use exchange_apiws.Kucoin.Fields.{div_ℤ, str_f64, str_f64_opt, first_f64, nonzero, side_of}
use mathlib.Core.Option

module _ {F : Type 0} ⦃fl : Float F⦄ where
  -- The price of a ticker: the last, or the middle of the best two.
  unfoldable pub ticker_price : F → F → F → F
  ticker_price last best_bid best_ask =
      if fl.is_positive last
      then last
      else if fl.is_positive best_bid && fl.is_positive best_ask
      then fl.midpoint best_bid best_ask
      else last

-- Nanoseconds above this bound, else milliseconds.
abbrev pub ticker_ts : ℤ → ℤ
ticker_ts ts = if not (leb_ℤ ts (pos (1700000000000 * 1000000))) then div_ℤ ts 1000000 else ts

-- `splitn(3, ',')` of a change: its price, its side and its quantity, each if it is there.
abbrev pub change_parts : Text → Text × Option Text × Option Text
change_parts change = elim (split_once b',' change) [
  | none ↦ (change, none, none)
  | some (price, rest) ↦ elim (split_once b',' rest) [
    | none ↦ (price, some rest, none)
    | some (side, qty) ↦ (price, some side, some qty)
  ]
]

-- The timestamp of an order's update.
abbrev pub order_ts : {V : Type 0} ⦃j : Json V⦄ → ℤ → V → ℤ
order_ts now payload =
    unwrap_or
      (or_else (Option.map (λ ns. div_ℤ ns 1000000) (i64_at payload (text "ts")))
        (i64_at payload (text "updatedAt")))
      now

module _ {V F : Type 0} ⦃j : Json V⦄ ⦃jf : JsonFloat V F⦄ ⦃fl : Float F⦄ where
  -- The price of a change, or zero.
  abbrev pub level2_price : V → F
  level2_price payload =
      unwrap_or (jf.parse_f64 (change_parts (unwrap_or (str_at payload (text "change")) [])).0)
        fl.zero

module _ {V F : Type 0} ⦃j : Json V⦄ ⦃jf : JsonFloat V F⦄ ⦃fl : Float F⦄ (now later : ℤ) where
  unfoldable pub parse_trade : Text → Text → V → List (DataMessage F)
  parse_trade symbol exchange payload =
      trade record {
        symbol = symbol;
        exchange = exchange;
        side = side_of payload;
        price = str_f64 payload (text "price");
        amount = str_f64 payload (text "size");
        exchange_ts =
            unwrap_or
              (or_else (Option.map (λ ns. div_ℤ ns 1000000) (i64_at payload (text "ts")))
                (parsed_i64_at payload (text "time")))
              now;
        receipt_ts = later;
        trade_id =
            unwrap_or
              (or_else (str_at payload (text "tradeId")) (str_at payload (text "makerOrderId"))) [];
      }
      ∷ []

  unfoldable pub parse_ticker : Text → Text → V → List (DataMessage F)
  unfolding ticker_price
  parse_ticker symbol exchange payload =
      let best_bid = first_f64 payload (text "bestBidPrice" ∷ text "bestBid" ∷ []) in
      let best_ask = first_f64 payload (text "bestAskPrice" ∷ text "bestAsk" ∷ []) in
      ticker record {
        symbol = symbol;
        exchange = exchange;
        price = ticker_price (str_f64 payload (text "price")) best_bid best_ask;
        best_bid = best_bid;
        best_ask = best_ask;
        exchange_ts =
            unwrap_or
              (or_else (Option.map ticker_ts (i64_at payload (text "ts")))
                (i64_at payload (text "time")))
              now;
        receipt_ts = later;
      }
      ∷ []

  -- A cell of a depth row: a number in a text, or a number.
  unfoldable pub depth_number : V → Option F
  depth_number v = or_else (j.as_str v >>= jf.parse_f64) (jf.as_f64 v)

  unfoldable pub depth_level : V → Option (Level F)
  unfolding depth_number
  depth_level row = do
    price ← j.get_index row 0 >>= depth_number
    qty ← j.get_index row 1 >>= depth_number
    some (price, qty)

  unfoldable pub depth_levels : V → Text → List (Level F)
  depth_levels payload key =
      unwrap_or (Option.map (filter_map depth_level) (array_at payload key)) []

  unfoldable pub parse_orderbook_depth : Text → Text → V → List (DataMessage F)
  parse_orderbook_depth symbol exchange payload =
      order_book record {
        symbol = symbol;
        exchange = exchange;
        asks = depth_levels payload (text "asks");
        bids = depth_levels payload (text "bids");
        exchange_ts =
            unwrap_or (or_else (i64_at payload (text "ts")) (i64_at payload (text "timestamp")))
              now;
        receipt_ts = later;
        is_snapshot = true;
        first_update_id = none;
        last_update_id = none;
      }
      ∷ []

  -- The message of a change that has a price.
  unfoldable pub level2_message : Text → Text → V → OrderBookData F
  level2_message symbol exchange payload =
      let parts = change_parts (unwrap_or (str_at payload (text "change")) []) in
      let price : F = level2_price payload in
      let qty : F = unwrap_or (parts.2 >>= jf.parse_f64) fl.zero in
      let is_sell = eq_ignore_ascii_case (unwrap_or parts.1 (text "sell")) (text "sell") in
      record {
        symbol = symbol;
        exchange = exchange;
        asks = if is_sell then (price, qty) ∷ [] else [];
        bids = if is_sell then [] else (price, qty) ∷ [];
        exchange_ts = unwrap_or (i64_at payload (text "timestamp")) now;
        receipt_ts = later;
        is_snapshot = false;
        first_update_id = u64_at payload (text "sequence");
        last_update_id = u64_at payload (text "sequence");
      }

  unfoldable pub parse_level2_delta : Text → Text → V → List (DataMessage F)
  unfolding level2_message
  parse_level2_delta symbol exchange payload =
      if fl.is_zero (level2_price {F = F} payload)
      then []
      else order_book (level2_message symbol exchange payload) ∷ []

  unfoldable pub parse_order_update : Text → V → List (DataMessage F)
  parse_order_update exchange payload =
      order_update record {
        symbol = unwrap_or (str_at payload (text "symbol")) [];
        exchange = exchange;
        order_id = unwrap_or (str_at payload (text "orderId")) [];
        client_oid = str_at payload (text "clientOid");
        side = side_of payload;
        order_type = unwrap_or (str_at payload (text "type")) (text "market");
        status = unwrap_or (str_at payload (text "status")) [];
        price = str_f64 payload (text "price");
        size = str_f64 payload (text "size");
        filled_size = str_f64 payload (text "filledSize");
        remaining_size = str_f64 payload (text "remainSize");
        fee = str_f64 payload (text "fee");
        match_price = str_f64_opt payload (text "matchPrice");
        match_size = str_f64_opt payload (text "matchSize");
        trade_id = str_at payload (text "tradeId");
        exchange_ts = order_ts now payload;
        receipt_ts = later;
      }
      ∷ []

  unfoldable pub parse_position_change : Text → Text → V → List (DataMessage F)
  parse_position_change symbol exchange payload =
      position_change record {
        symbol = symbol;
        exchange = exchange;
        current_qty = unwrap_or (j.get payload (text "currentQty") >>= jf.as_f64) fl.zero;
        avg_entry_price = str_f64 payload (text "avgEntryPrice");
        unrealised_pnl = str_f64 payload (text "unrealisedPnl");
        realised_pnl = str_f64 payload (text "realisedPnl");
        change_reason = unwrap_or (str_at payload (text "changeReason")) (text "unknown");
        exchange_ts = unwrap_or (i64_at payload (text "currentTimestamp")) now;
        receipt_ts = later;
      }
      ∷ []

  unfoldable pub parse_balance_update : Text → V → List (DataMessage F)
  parse_balance_update exchange payload =
      balance_update record {
        exchange = exchange;
        currency = unwrap_or (str_at payload (text "currency")) [];
        available_balance = str_f64 payload (text "availableBalance");
        hold_balance = str_f64 payload (text "holdBalance");
        event = unwrap_or (str_at payload (text "event")) (text "unknown");
        exchange_ts = unwrap_or (i64_at payload (text "timestamp")) now;
        receipt_ts = later;
      }
      ∷ []

  unfoldable pub parse_instrument_event : Text → Text → Text → V → List (DataMessage F)
  parse_instrument_event symbol exchange subject payload =
      instrument_event record {
        symbol = symbol;
        exchange = exchange;
        subject = subject;
        mark_price = nonzero payload (text "markPrice");
        index_price = nonzero payload (text "indexPrice");
        funding_rate = nonzero payload (text "fundingRate");
        predicted_funding_rate = nonzero payload (text "predictedValue");
        premium_index = nonzero payload (text "premiumIndex");
        exchange_ts =
            unwrap_or (or_else (i64_at payload (text "timestamp")) (i64_at payload (text "ts")))
              now;
        receipt_ts = later;
      }
      ∷ []

  unfoldable pub parse_advanced_order_update : Text → V → List (DataMessage F)
  parse_advanced_order_update exchange payload =
      advanced_order_update record {
        symbol = unwrap_or (str_at payload (text "symbol")) [];
        exchange = exchange;
        order_id = unwrap_or (str_at payload (text "orderId")) [];
        client_oid = str_at payload (text "clientOid");
        status = unwrap_or (str_at payload (text "status")) [];
        side = side_of payload;
        order_type = unwrap_or (str_at payload (text "type")) (text "market");
        stop = str_at payload (text "stop");
        stop_price = nonzero payload (text "stopPrice");
        price = nonzero payload (text "price");
        size = str_f64 payload (text "size");
        exchange_ts = order_ts now payload;
        receipt_ts = later;
      }
      ∷ []
