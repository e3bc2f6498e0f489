-- ===== src/Rest/Cryptocom.antt =====
-- src/cryptocom/rest.rs: the decoders, the accessors and the endpoints.
use exchange_apiws.Prelude.{
  ℕ, ◌^◌, ltb, Option, none, some, List, [], ◌∷◌, map, ◌⊎◌, inl, inr, if◌then◌else◌,
}
use exchange_apiws.Prelude.Text.{Text, text, to_string}
use exchange_apiws.Prelude.Options.{◌>>=◌}
use exchange_apiws.Prelude.Int.{ℤ, pos}
use exchange_apiws.Prelude.Json.{Json}
use exchange_apiws.Error.{ExchangeError, api}
use exchange_apiws.Rest.{Call, push_some, required, defaulted, optional, list_of, parse_levels}

-- `DataList`.
unfoldable pub decode_data_list : {V A : Type 0} ⦃j : Json V⦄ → (V → Option A) → V → Option (List A)
decode_data_list decode v = required (list_of decode) (text "data") v

pub record CryptocomOrderBook : Type 0 where
  pub instrument_name : Text
  pub depth : Option ℕ
  pub bids : List (Text × Text × Text)
  pub asks : List (Text × Text × Text)
  pub timestamp : ℤ
  pub sequence : ℤ

module _ {V : Type 0} ⦃j : Json V⦄ where
  abbrev triple_of : List V → Option (Text × Text × Text)
  triple_of (p ∷ q ∷ n ∷ []) = do x ← j.as_str p; y ← j.as_str q; z ← j.as_str n; some (x, y, z)
  triple_of _ = none

  -- `[String; 3]`.
  abbrev text_triple : V → Option (Text × Text × Text)
  text_triple v = j.as_array v >>= triple_of

  -- A `u32`.
  abbrev as_u32 : V → Option ℕ
  as_u32 v = j.as_u64 v >>= λ n. if ltb n (2 ^ 32) then some n else none

  unfoldable pub decode_orderbook : V → Option CryptocomOrderBook
  decode_orderbook v = do
    instrument_name ← required j.as_str (text "instrument_name") v
    depth ← optional as_u32 (text "depth") v
    bids ← defaulted [] (list_of text_triple) (text "bids") v
    asks ← defaulted [] (list_of text_triple) (text "asks") v
    timestamp ← defaulted (pos 0) j.as_i64 (text "timestamp") v
    sequence ← defaulted (pos 0) j.as_i64 (text "sequence") v
    some (record {
      instrument_name = instrument_name;
      depth = depth;
      bids = bids;
      asks = asks;
      timestamp = timestamp;
      sequence = sequence;
    })

-- `parse_levels` of `CryptocomOrderBook`: the third column, the number of orders, is not read.
unfoldable pub levels_f64 :
    {F : Type 0} → (Text → Option F) → List (Text × Text × Text) → List (F × F)
unfolding parse_levels
levels_f64 parse rows = parse_levels parse (map (λ r. (r.0, r.1)) rows)

-- The first book of the list that `get_orderbook` is answered with.
unfoldable pub first_book :
    ExchangeError ⊎ List CryptocomOrderBook → ExchangeError ⊎ CryptocomOrderBook
first_book (inl e) = inl e
first_book (inr []) = inl (api (text "empty_data") (text "Crypto.com returned an empty book array"))
first_book (inr (book ∷ _)) = inr book

pub record CryptocomCandle : Type 0 where
  pub open_price : Text
  pub high : Text
  pub low : Text
  pub close : Text
  pub volume : Text
  pub open_ts : ℤ

pub record CryptocomTicker : Type 0 where
  pub instrument : Text
  pub last_price : Option Text
  pub high_24h : Option Text
  pub low_24h : Option Text
  pub volume_24h : Option Text
  pub value_24h : Option Text
  pub change_pct_24h : Option Text
  pub best_bid : Option Text
  pub best_ask : Option Text
  pub timestamp : ℤ

pub record CryptocomTrade : Type 0 where
  pub side : Text
  pub price : Text
  pub qty : Text
  pub timestamp : ℤ
  pub trade_id : Option Text
  pub instrument : Option Text

pub record CryptocomValuation : Type 0 where
  pub value : Text
  pub timestamp : ℤ

module _ {V : Type 0} ⦃j : Json V⦄ where
  unfoldable pub decode_candle : V → Option CryptocomCandle
  decode_candle v = do
    open_price ← required j.as_str (text "o") v
    high ← required j.as_str (text "h") v
    low ← required j.as_str (text "l") v
    close ← required j.as_str (text "c") v
    volume ← required j.as_str (text "v") v
    open_ts ← required j.as_i64 (text "t") v
    some (record {
      open_price = open_price;
      high = high;
      low = low;
      close = close;
      volume = volume;
      open_ts = open_ts;
    })

  unfoldable pub decode_ticker : V → Option CryptocomTicker
  decode_ticker v = do
    instrument ← required j.as_str (text "i") v
    last_price ← optional j.as_str (text "a") v
    high_24h ← optional j.as_str (text "h") v
    low_24h ← optional j.as_str (text "l") v
    volume_24h ← optional j.as_str (text "v") v
    value_24h ← optional j.as_str (text "vv") v
    change_pct_24h ← optional j.as_str (text "c") v
    best_bid ← optional j.as_str (text "b") v
    best_ask ← optional j.as_str (text "k") v
    timestamp ← defaulted (pos 0) j.as_i64 (text "t") v
    some (record {
      instrument = instrument;
      last_price = last_price;
      high_24h = high_24h;
      low_24h = low_24h;
      volume_24h = volume_24h;
      value_24h = value_24h;
      change_pct_24h = change_pct_24h;
      best_bid = best_bid;
      best_ask = best_ask;
      timestamp = timestamp;
    })

  unfoldable pub decode_trade : V → Option CryptocomTrade
  decode_trade v = do
    side ← required j.as_str (text "s") v
    price ← required j.as_str (text "p") v
    qty ← required j.as_str (text "q") v
    timestamp ← required j.as_i64 (text "t") v
    trade_id ← optional j.as_str (text "d") v
    instrument ← optional j.as_str (text "i") v
    some (record {
      side = side;
      price = price;
      qty = qty;
      timestamp = timestamp;
      trade_id = trade_id;
      instrument = instrument;
    })

  unfoldable pub decode_valuation : V → Option CryptocomValuation
  decode_valuation v = do
    value ← required j.as_str (text "v") v
    timestamp ← required j.as_i64 (text "t") v
    some (record { value = value; timestamp = timestamp })

unfoldable pub get_instruments : Call
get_instruments = (text "/public/get-instruments", [])

unfoldable pub get_orderbook : Text → ℕ → Call
get_orderbook instrument depth = (
  text "/public/get-book",
  (text "instrument_name", instrument) ∷ (text "depth", to_string depth) ∷ [],
)

unfoldable pub get_candlestick : Text → Text → Call
get_candlestick instrument timeframe = (
  text "/public/get-candlestick",
  (text "instrument_name", instrument) ∷ (text "timeframe", timeframe) ∷ [],
)

unfoldable pub get_ticker : Option Text → Call
get_ticker instrument = (text "/public/get-tickers", push_some (text "instrument_name") instrument)

unfoldable pub get_recent_trades : Text → Call
get_recent_trades instrument =
    (text "/public/get-trades", (text "instrument_name", instrument) ∷ [])

unfoldable pub get_valuations : Text → Text → Call
get_valuations instrument valuation_type = (
  text "/public/get-valuations",
  (text "instrument_name", instrument) ∷ (text "valuation_type", valuation_type) ∷ [],
)
