-- ===== src/Rest/Kraken.antt =====
-- src/kraken/rest.rs: the decoders that are written by hand, the accessors and the endpoints.
pub mod Pages
use mathlib.Core.Option
use exchange_apiws.Prelude.{ℕ, Bool, Option, none, some, List, [], ◌∷◌, map, if◌then◌else◌}
use exchange_apiws.Prelude.Text.{Text, text, to_string, same}
use exchange_apiws.Prelude.Options.{◌>>=◌, unwrap_or}
use exchange_apiws.Prelude.Int.{ℤ}
use exchange_apiws.Prelude.Float.{Float}
use exchange_apiws.Prelude.Json.{Json, JsonFloat}
use exchange_apiws.Rest.{Call, push_some, traverse, list_of, parse_or_zero, parse_levels}

-- The variables of `split_pair_keyed`.
pub record Found (Row Cursor : Type 0) : Type 0 where
  pub pair : Option Text
  pub rows : Option (List Row)
  pub last : Option Cursor

module _ {V Row Cursor : Type 0} (rows_of : V → Option (List Row))
    (cursor_of : V → Option Cursor) where
  -- One entry of the object.
  unfoldable pub read_entry : Found Row Cursor → Text × V → Option (Found Row Cursor)
  read_entry found (key, v) =
      if same key (text "last")
      then Option.map (λ c. record found { last = some c }) (cursor_of v)
      else Option.map (λ rs. record found { rows = some rs; pair = some key }) (rows_of v)

  -- `while let Some(key) = map.next_key()`.
  unfoldable pub read_entries : Found Row Cursor → List (Text × V) → Option (Found Row Cursor)
  read_entries found [] = some found
  read_entries found (entry ∷ entries) = elim (read_entry found entry) [
    | none ↦ none
    | some next ↦ read_entries next entries
  ]

  unfoldable pub split_pair_keyed : List (Text × V) → Option (Text × List Row × Cursor)
  unfolding read_entries
  split_pair_keyed entries = do
    found ← read_entries (record { pair = none; rows = none; last = none }) entries
    pair ← found.pair
    last ← found.last
    some (pair, unwrap_or found.rows [], last)

pub record KrakenCandle : Type 0 where
  pub time : ℤ
  pub open_price : Text
  pub high : Text
  pub low : Text
  pub close : Text
  pub vwap : Text
  pub volume : Text
  pub count : ℕ

pub record KrakenTrade (F : Type 0) : Type 0 where
  pub price : Text
  pub volume : Text
  pub time : F
  pub side : Text
  pub order_type : Text
  pub misc : Text
  pub trade_id : Option ℕ

pub record KrakenSpreadTick : Type 0 where
  pub time : ℤ
  pub bid : Text
  pub ask : Text

-- `KrakenOhlc`, `KrakenRecentTrades` and `KrakenSpread`.
pub record Page (Row Cursor : Type 0) : Type 0 where
  pub pair : Text
  pub rows : List Row
  pub last : Cursor

module _ {V : Type 0} ⦃j : Json V⦄ where
  -- A tuple takes an array of its own length.
  abbrev candle_of : List V → Option KrakenCandle
  candle_of (t ∷ o ∷ h ∷ l ∷ c ∷ w ∷ v ∷ n ∷ []) = do
    time ← j.as_i64 t
    open_price ← j.as_str o
    high ← j.as_str h
    low ← j.as_str l
    close ← j.as_str c
    vwap ← j.as_str w
    volume ← j.as_str v
    count ← j.as_u64 n
    some (record {
      time = time;
      open_price = open_price;
      high = high;
      low = low;
      close = close;
      vwap = vwap;
      volume = volume;
      count = count;
    })
  candle_of _ = none

  unfoldable pub decode_candle : V → Option KrakenCandle
  decode_candle v = j.as_array v >>= candle_of

  abbrev tick_of : List V → Option KrakenSpreadTick
  tick_of (t ∷ b ∷ a ∷ []) = do
    time ← j.as_i64 t
    bid ← j.as_str b
    ask ← j.as_str a
    some (record { time = time; bid = bid; ask = ask })
  tick_of _ = none

  unfoldable pub decode_tick : V → Option KrakenSpreadTick
  decode_tick v = j.as_array v >>= tick_of

  -- The seventh element, if there is one; what follows is ignored.
  abbrev trade_id_of : List V → Option (Option ℕ)
  trade_id_of [] = some none
  trade_id_of (i ∷ _) = Option.map (λ n. some n) (j.as_u64 i)

module _ {V F : Type 0} ⦃j : Json V⦄ ⦃jf : JsonFloat V F⦄ where
  abbrev trade_of : List V → Option (KrakenTrade F)
  trade_of (p ∷ v ∷ t ∷ s ∷ o ∷ m ∷ more) = do
    price ← j.as_str p
    volume ← j.as_str v
    time ← jf.as_f64 t
    side ← j.as_str s
    order_type ← j.as_str o
    misc ← j.as_str m
    trade_id ← trade_id_of more
    some (record {
      price = price;
      volume = volume;
      time = time;
      side = side;
      order_type = order_type;
      misc = misc;
      trade_id = trade_id;
    })
  trade_of _ = none

  unfoldable pub decode_trade : V → Option (KrakenTrade F)
  decode_trade v = j.as_array v >>= trade_of

-- `side == "b"`.
unfoldable pub is_buy : {F : Type 0} → KrakenTrade F → Bool
is_buy t = same t.side (text "b")

module _ {V : Type 0} ⦃j : Json V⦄ where
  -- The map visitor of a page, from the decoders of its rows and of its cursor.
  unfoldable pub decode_page :
      {Row Cursor : Type 0} → (V → Option Row) → (V → Option Cursor) → V → Option (Page Row Cursor)
  unfolding split_pair_keyed
  decode_page row cursor v = do
    entries ← j.as_object v
    found ← split_pair_keyed (list_of row) cursor entries
    some (record { pair = found.0; rows = found.1; last = found.2 })

  unfoldable pub decode_ohlc : V → Option (Page KrakenCandle ℤ)
  unfolding decode_page decode_candle
  decode_ohlc v = decode_page decode_candle j.as_i64 v

  unfoldable pub decode_spread : V → Option (Page KrakenSpreadTick ℤ)
  unfolding decode_page decode_tick
  decode_spread v = decode_page decode_tick j.as_i64 v

  unfoldable pub decode_trades :
      {F : Type 0} ⦃jf : JsonFloat V F⦄ → V → Option (Page (KrakenTrade F) Text)
  unfolding decode_page decode_trade
  decode_trades v = decode_page decode_trade j.as_str v

-- The arrays of a ticker: price, whole lot volume and lot volume; today and the last 24 hours.
pub record KrakenTicker : Type 0 where
  pub a : Text × Text × Text
  pub b : Text × Text × Text
  pub c : Text × Text
  pub v : Text × Text
  pub p : Text × Text
  pub t : ℕ × ℕ
  pub l : Text × Text
  pub h : Text × Text
  pub o : Text

module _ {F : Type 0} ⦃fl : Float F⦄ (parse : Text → Option F) (ticker : KrakenTicker) where
  unfoldable pub ask_price : F
  unfolding parse_or_zero
  ask_price = parse_or_zero parse ticker.a.0

  unfoldable pub bid_price : F
  unfolding parse_or_zero
  bid_price = parse_or_zero parse ticker.b.0

  unfoldable pub last_price : F
  unfolding parse_or_zero
  last_price = parse_or_zero parse ticker.c.0

  unfoldable pub volume_24h : F
  unfolding parse_or_zero
  volume_24h = parse_or_zero parse ticker.v.1

  unfoldable pub high_24h : F
  unfolding parse_or_zero
  high_24h = parse_or_zero parse ticker.h.1

  unfoldable pub low_24h : F
  unfolding parse_or_zero
  low_24h = parse_or_zero parse ticker.l.1

-- A side of the order book, each row with its timestamp.
unfoldable pub levels_f64 : {F : Type 0} → (Text → Option F) → List (Text × Text × F) → List (F × F)
unfolding parse_levels
levels_f64 parse rows = parse_levels parse (map (λ r. (r.0, r.1)) rows)

-- The endpoints.
unfoldable pub get_system_status : Call
get_system_status = (text "/0/public/SystemStatus", [])

unfoldable pub get_assets : Call
get_assets = (text "/0/public/Assets", [])

unfoldable pub get_asset_pairs : Option Text → Call
get_asset_pairs pair = (text "/0/public/AssetPairs", push_some (text "pair") pair)

unfoldable pub get_ticker : Text → Call
get_ticker pair = (text "/0/public/Ticker", (text "pair", pair) ∷ [])

unfoldable pub get_orderbook : Text → ℕ → Call
get_orderbook pair count =
    (text "/0/public/Depth", (text "pair", pair) ∷ (text "count", to_string count) ∷ [])

unfoldable pub get_ohlc : Text → ℕ → Call
get_ohlc pair interval_mins =
    (text "/0/public/OHLC", (text "pair", pair) ∷ (text "interval", to_string interval_mins) ∷ [])

unfoldable pub get_recent_trades : Text → Call
get_recent_trades pair = (text "/0/public/Trades", (text "pair", pair) ∷ [])

unfoldable pub get_spread : Text → Call
get_spread pair = (text "/0/public/Spread", (text "pair", pair) ∷ [])
