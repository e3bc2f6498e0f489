-- ===== src/Rest/Binance.antt =====
-- src/binance/rest.rs: the decoders, the conversions, the filters of a symbol and the endpoints.
pub mod Endpoints
use mathlib.Core.Option
use exchange_apiws.Prelude.{ℕ, Bool, true, Option, none, some, List, [], ◌∷◌, if◌then◌else◌}
use exchange_apiws.Prelude.Text.{Text, text, same}
use exchange_apiws.Prelude.Options.{◌>>=◌}
use exchange_apiws.Prelude.Int.{ℤ}
use exchange_apiws.Prelude.Json.{Json, JsonFloat}
use exchange_apiws.Actors.{CandleData, FundingData}
use exchange_apiws.Rest.{required, defaulted, list_of, text_pair}

abbrev pub exchange_name : Text
exchange_name = text "binance"

module _ {V F : Type 0} ⦃j : Json V⦄ ⦃jf : JsonFloat V F⦄ where
  -- A number, or a text that holds one.
  unfoldable pub str_f64 : V → Option F
  str_f64 v = elim (j.as_str v) [ none ↦ jf.as_f64 v | some s ↦ jf.parse_f64 s ]

  -- The same, where null and the empty text are no number.
  unfoldable pub opt_str_f64 : V → Option (Option F)
  opt_str_f64 v = if j.is_null v then some none else elim (j.as_str v) [
    | none ↦ Option.map (λ x. some x) (jf.as_f64 v)
    | some s ↦ elim s [ [] ↦ some none | c ∷ cs ↦ Option.map (λ x. some x) (jf.parse_f64 (c ∷ cs)) ]
  ]

pub record BinanceKline (F : Type 0) : Type 0 where
  pub open_time : ℤ
  pub open_price : F
  pub high : F
  pub low : F
  pub close : F
  pub volume : F
  pub close_time : ℤ
  pub quote_volume : F
  pub trades : ℕ
  pub taker_buy_base_volume : F
  pub taker_buy_quote_volume : F

module _ {V F : Type 0} ⦃j : Json V⦄ ⦃jf : JsonFloat V F⦄ where
  abbrev text_f64 : V → Option F
  text_f64 v = j.as_str v >>= jf.parse_f64

  -- The tuple has twelve places; the text in the last is not used.
  abbrev kline_of : List V → Option (BinanceKline F)
  kline_of (t ∷ o ∷ h ∷ l ∷ c ∷ v ∷ ct ∷ qv ∷ n ∷ tb ∷ tq ∷ ignored ∷ []) = do
    open_time ← j.as_i64 t
    close_time ← j.as_i64 ct
    trades ← j.as_u64 n
    rest ← j.as_str ignored
    open_price ← text_f64 o
    high ← text_f64 h
    low ← text_f64 l
    close ← text_f64 c
    volume ← text_f64 v
    quote_volume ← text_f64 qv
    taker_buy_base_volume ← text_f64 tb
    taker_buy_quote_volume ← text_f64 tq
    some (record {
      open_time = open_time;
      open_price = open_price;
      high = high;
      low = low;
      close = close;
      volume = volume;
      close_time = close_time;
      quote_volume = quote_volume;
      trades = trades;
      taker_buy_base_volume = taker_buy_base_volume;
      taker_buy_quote_volume = taker_buy_quote_volume;
    })
  kline_of _ = none

  unfoldable pub decode_kline : V → Option (BinanceKline F)
  decode_kline v = j.as_array v >>= kline_of

unfoldable pub into_candle_data : {F : Type 0} → ℤ → Text → Text → BinanceKline F → CandleData F
into_candle_data now symbol interval k = record {
  symbol = symbol;
  exchange = exchange_name;
  interval = interval;
  open_ts = k.open_time;
  open_price = k.open_price;
  high = k.high;
  low = k.low;
  close = k.close;
  volume = k.volume;
  is_closed = true;
  receipt_ts = now;
}

pub record BinanceOrderBook : Type 0 where
  pub last_update_id : ℤ
  pub bids : List (Text × Text)
  pub asks : List (Text × Text)

unfoldable pub decode_orderbook : {V : Type 0} ⦃j : Json V⦄ → V → Option BinanceOrderBook
decode_orderbook ⦃j⦄ v = do
  last_update_id ← required j.as_i64 (text "lastUpdateId") v
  bids ← required (list_of text_pair) (text "bids") v
  asks ← required (list_of text_pair) (text "asks") v
  some (record { last_update_id = last_update_id; bids = bids; asks = asks })

pub record BinanceTrade (F : Type 0) : Type 0 where
  pub id : ℕ
  pub price : F
  pub qty : F
  pub quote_qty : F
  pub time : ℤ
  pub is_buyer_maker : Bool
  pub is_best_match : Bool

pub record BinanceBookTicker (F : Type 0) : Type 0 where
  pub symbol : Text
  pub bid_price : F
  pub bid_qty : F
  pub ask_price : F
  pub ask_qty : F

pub record BinanceFundingRate (F : Type 0) : Type 0 where
  pub symbol : Text
  pub funding_rate : F
  pub funding_time : ℤ
  pub mark_price : Option F

pub record BinanceMarkPrice (F : Type 0) : Type 0 where
  pub symbol : Text
  pub mark_price : F
  pub index_price : F
  pub estimated_settle_price : Option F
  pub last_funding_rate : F
  pub interest_rate : Option F
  pub next_funding_time : ℤ
  pub time : ℤ

pub record BinanceOpenInterest (F : Type 0) : Type 0 where
  pub symbol : Text
  pub open_interest : F
  pub time : ℤ

module _ {V F : Type 0} ⦃j : Json V⦄ ⦃jf : JsonFloat V F⦄ where
  unfoldable pub decode_trade : V → Option (BinanceTrade F)
  unfolding str_f64
  decode_trade v = do
    id ← required j.as_u64 (text "id") v
    price ← required str_f64 (text "price") v
    qty ← required str_f64 (text "qty") v
    quote_qty ← required str_f64 (text "quoteQty") v
    time ← required j.as_i64 (text "time") v
    is_buyer_maker ← required j.as_bool (text "isBuyerMaker") v
    is_best_match ← required j.as_bool (text "isBestMatch") v
    some (record {
      id = id;
      price = price;
      qty = qty;
      quote_qty = quote_qty;
      time = time;
      is_buyer_maker = is_buyer_maker;
      is_best_match = is_best_match;
    })

  unfoldable pub decode_book_ticker : V → Option (BinanceBookTicker F)
  unfolding str_f64
  decode_book_ticker v = do
    symbol ← required j.as_str (text "symbol") v
    bid_price ← required str_f64 (text "bidPrice") v
    bid_qty ← required str_f64 (text "bidQty") v
    ask_price ← required str_f64 (text "askPrice") v
    ask_qty ← required str_f64 (text "askQty") v
    some (record {
      symbol = symbol;
      bid_price = bid_price;
      bid_qty = bid_qty;
      ask_price = ask_price;
      ask_qty = ask_qty;
    })

  unfoldable pub decode_funding_rate : V → Option (BinanceFundingRate F)
  unfolding str_f64 opt_str_f64
  decode_funding_rate v = do
    symbol ← required j.as_str (text "symbol") v
    funding_rate ← required str_f64 (text "fundingRate") v
    funding_time ← required j.as_i64 (text "fundingTime") v
    mark_price ← defaulted none opt_str_f64 (text "markPrice") v
    some (record {
      symbol = symbol;
      funding_rate = funding_rate;
      funding_time = funding_time;
      mark_price = mark_price;
    })

  unfoldable pub decode_mark_price : V → Option (BinanceMarkPrice F)
  unfolding str_f64 opt_str_f64
  decode_mark_price v = do
    symbol ← required j.as_str (text "symbol") v
    mark_price ← required str_f64 (text "markPrice") v
    index_price ← required str_f64 (text "indexPrice") v
    estimated_settle_price ← defaulted none opt_str_f64 (text "estimatedSettlePrice") v
    last_funding_rate ← required str_f64 (text "lastFundingRate") v
    interest_rate ← defaulted none opt_str_f64 (text "interestRate") v
    next_funding_time ← required j.as_i64 (text "nextFundingTime") v
    time ← required j.as_i64 (text "time") v
    some (record {
      symbol = symbol;
      mark_price = mark_price;
      index_price = index_price;
      estimated_settle_price = estimated_settle_price;
      last_funding_rate = last_funding_rate;
      interest_rate = interest_rate;
      next_funding_time = next_funding_time;
      time = time;
    })

  unfoldable pub decode_open_interest : V → Option (BinanceOpenInterest F)
  unfolding str_f64
  decode_open_interest v = do
    symbol ← required j.as_str (text "symbol") v
    open_interest ← required str_f64 (text "openInterest") v
    time ← required j.as_i64 (text "time") v
    some (record { symbol = symbol; open_interest = open_interest; time = time })

unfoldable pub into_funding_data : {F : Type 0} → ℤ → BinanceFundingRate F → FundingData F
into_funding_data now r = record {
  symbol = r.symbol;
  exchange = exchange_name;
  funding_rate = r.funding_rate;
  next_funding_time = r.funding_time;
  mark_price = r.mark_price;
  index_price = none;
  exchange_ts = r.funding_time;
  receipt_ts = now;
}
