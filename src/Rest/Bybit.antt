-- ===== src/Rest/Bybit.antt =====
-- src/bybit/rest.rs: the decoders, the conversions and the endpoints. The categories are those of
-- Clients/Bybit.
pub mod Instruments
use mathlib.Core.Option
use exchange_apiws.Prelude.{
  ℕ, Bool, true, false, Option, none, some, List, [], ◌∷◌, ◌++◌, if◌then◌else◌,
}
use exchange_apiws.Prelude.Text.{Text, text, to_string}
use exchange_apiws.Prelude.Options.{◌>>=◌, or_else}
use exchange_apiws.Prelude.Int.{ℤ}
use exchange_apiws.Prelude.Float.{Float}
use exchange_apiws.Prelude.Json.{Json, JsonFloat}
use exchange_apiws.Actors.{CandleData, FundingData}
use exchange_apiws.Clients.Bybit.{BybitCategory, as_str}
use exchange_apiws.Rest.{Call, push_some, required, defaulted, optional, list_of, text_pair}

abbrev pub exchange_name : Text
exchange_name = text "bybit"

module _ {V F : Type 0} ⦃j : Json V⦄ ⦃jf : JsonFloat V F⦄ ⦃fl : Float F⦄ where
  -- A number, or a text that holds one; the empty text is zero.
  unfoldable pub str_f64 : V → Option F
  str_f64 v = elim (j.as_str v) [
    | none ↦ jf.as_f64 v
    | some s ↦ elim s [ [] ↦ some fl.zero | c ∷ cs ↦ jf.parse_f64 (c ∷ cs) ]
  ]

  -- The same, where null and the empty text are no number.
  unfoldable pub opt_str_f64 : V → Option (Option F)
  opt_str_f64 v = if j.is_null v then some none else elim (j.as_str v) [
    | none ↦ Option.map (λ x. some x) (jf.as_f64 v)
    | some s ↦ elim s [ [] ↦ some none | c ∷ cs ↦ Option.map (λ x. some x) (jf.parse_f64 (c ∷ cs)) ]
  ]

module _ {V : Type 0} ⦃j : Json V⦄ where
  unfoldable pub str_i64 : V → Option ℤ
  str_i64 v = elim (j.as_str v) [ none ↦ j.as_i64 v | some s ↦ j.parse_i64 s ]

pub record BybitKline (F : Type 0) : Type 0 where
  pub start_time : ℤ
  pub open_price : F
  pub high : F
  pub low : F
  pub close : F
  pub volume : F
  pub turnover : F

module _ {V F : Type 0} ⦃j : Json V⦄ ⦃jf : JsonFloat V F⦄ where
  abbrev text_f64 : V → Option F
  text_f64 v = j.as_str v >>= jf.parse_f64

  abbrev kline_of : List V → Option (BybitKline F)
  kline_of (t ∷ o ∷ h ∷ l ∷ c ∷ v ∷ u ∷ []) = do
    start_time ← j.as_str t >>= j.parse_i64
    open_price ← text_f64 o
    high ← text_f64 h
    low ← text_f64 l
    close ← text_f64 c
    volume ← text_f64 v
    turnover ← text_f64 u
    some (record {
      start_time = start_time;
      open_price = open_price;
      high = high;
      low = low;
      close = close;
      volume = volume;
      turnover = turnover;
    })
  kline_of _ = none

  -- Seven texts by position.
  unfoldable pub decode_kline : V → Option (BybitKline F)
  decode_kline v = j.as_array v >>= kline_of

unfoldable pub into_candle_data : {F : Type 0} → ℤ → Text → Text → BybitKline F → CandleData F
into_candle_data now symbol interval k = record {
  symbol = symbol;
  exchange = exchange_name;
  interval = interval;
  open_ts = k.start_time;
  open_price = k.open_price;
  high = k.high;
  low = k.low;
  close = k.close;
  volume = k.volume;
  is_closed = true;
  receipt_ts = now;
}

-- `BybitListResult`.
pub record ListResult (A : Type 0) : Type 0 where
  pub category : Text
  pub list : List A

unfoldable pub decode_list :
    {V A : Type 0} ⦃j : Json V⦄ → (V → Option A) → V → Option (ListResult A)
decode_list ⦃j⦄ decode v = do
  category ← required j.as_str (text "category") v
  list ← required (list_of decode) (text "list") v
  some (record { category = category; list = list })

pub record BybitOrderBook : Type 0 where
  pub symbol : Text
  pub bids : List (Text × Text)
  pub asks : List (Text × Text)
  pub ts : ℤ
  pub update_id : ℤ

unfoldable pub decode_orderbook : {V : Type 0} ⦃j : Json V⦄ → V → Option BybitOrderBook
decode_orderbook ⦃j⦄ v = do
  symbol ← required j.as_str (text "s") v
  bids ← required (list_of text_pair) (text "b") v
  asks ← required (list_of text_pair) (text "a") v
  ts ← required j.as_i64 (text "ts") v
  update_id ← required j.as_i64 (text "u") v
  some (record { symbol = symbol; bids = bids; asks = asks; ts = ts; update_id = update_id })

pub record BybitTrade (F : Type 0) : Type 0 where
  pub exec_id : Text
  pub symbol : Text
  pub price : F
  pub size : F
  pub side : Text
  pub time : ℤ
  pub is_block_trade : Bool

pub record BybitFundingRate (F : Type 0) : Type 0 where
  pub symbol : Text
  pub funding_rate : F
  pub funding_rate_timestamp : ℤ

pub record BybitOpenInterest (F : Type 0) : Type 0 where
  pub open_interest : F
  pub timestamp : ℤ

pub record BybitLongShortRatio (F : Type 0) : Type 0 where
  pub symbol : Text
  pub buy_ratio : F
  pub sell_ratio : F
  pub timestamp : ℤ

module _ {V F : Type 0} ⦃j : Json V⦄ ⦃jf : JsonFloat V F⦄ ⦃fl : Float F⦄ where
  unfoldable pub decode_trade : V → Option (BybitTrade F)
  unfolding str_f64 str_i64
  decode_trade v = do
    exec_id ← required j.as_str (text "execId") v
    symbol ← required j.as_str (text "symbol") v
    price ← required str_f64 (text "price") v
    size ← required str_f64 (text "size") v
    side ← required j.as_str (text "side") v
    time ← required str_i64 (text "time") v
    is_block_trade ← defaulted false j.as_bool (text "isBlockTrade") v
    some (record {
      exec_id = exec_id;
      symbol = symbol;
      price = price;
      size = size;
      side = side;
      time = time;
      is_block_trade = is_block_trade;
    })

  unfoldable pub decode_funding_rate : V → Option (BybitFundingRate F)
  unfolding str_f64 str_i64
  decode_funding_rate v = do
    symbol ← required j.as_str (text "symbol") v
    funding_rate ← required str_f64 (text "fundingRate") v
    funding_rate_timestamp ← required str_i64 (text "fundingRateTimestamp") v
    some (record {
      symbol = symbol;
      funding_rate = funding_rate;
      funding_rate_timestamp = funding_rate_timestamp;
    })

  unfoldable pub decode_open_interest : V → Option (BybitOpenInterest F)
  unfolding str_f64 str_i64
  decode_open_interest v = do
    open_interest ← required str_f64 (text "openInterest") v
    timestamp ← required str_i64 (text "timestamp") v
    some (record { open_interest = open_interest; timestamp = timestamp })

  unfoldable pub decode_long_short_ratio : V → Option (BybitLongShortRatio F)
  unfolding str_f64 str_i64
  decode_long_short_ratio v = do
    symbol ← required j.as_str (text "symbol") v
    buy_ratio ← required str_f64 (text "buyRatio") v
    sell_ratio ← required str_f64 (text "sellRatio") v
    timestamp ← required str_i64 (text "timestamp") v
    some (record {
      symbol = symbol;
      buy_ratio = buy_ratio;
      sell_ratio = sell_ratio;
      timestamp = timestamp;
    })

unfoldable pub into_funding_data : {F : Type 0} → ℤ → BybitFundingRate F → FundingData F
into_funding_data now r = record {
  symbol = r.symbol;
  exchange = exchange_name;
  funding_rate = r.funding_rate;
  next_funding_time = r.funding_rate_timestamp;
  mark_price = none;
  index_price = none;
  exchange_ts = r.funding_rate_timestamp;
  receipt_ts = now;
}
