-- ===== src/Rest/Binance/Endpoints.antt =====
-- src/binance/rest.rs: the filters of a symbol, and the endpoints of the spot and futures markets.
use mathlib.Core.Option
use exchange_apiws.Prelude.{ℕ, Option, none, some, List, [], ◌∷◌, if◌then◌else◌}
use exchange_apiws.Prelude.Text.{Text, text, to_string, same}
use exchange_apiws.Prelude.Options.{◌>>=◌}
use exchange_apiws.Prelude.Json.{Json, JsonFloat}
use exchange_apiws.Rest.{Call, required}
use exchange_apiws.Rest.Binance.{str_f64}

pub data BinanceSymbolFilter (F : Type 0) : Type 0 where
  -- the tick, the least and the greatest price
  price_filter : F → F → F → BinanceSymbolFilter F
  -- the step, the least and the greatest quantity
  lot_size_filter : F → F → F → BinanceSymbolFilter F
  min_notional_filter notional : F → BinanceSymbolFilter F
  other : BinanceSymbolFilter F

module _ {V F : Type 0} ⦃j : Json V⦄ ⦃jf : JsonFloat V F⦄ where
  abbrev three :
      (F → F → F → BinanceSymbolFilter F) → Text → Text → Text → V → Option (BinanceSymbolFilter F)
  three make a b c v = do
    x ← required str_f64 a v
    y ← required str_f64 b v
    z ← required str_f64 c v
    some (make x y z)

  -- The variant that a tag names.
  unfoldable pub filter_of : Text → V → Option (BinanceSymbolFilter F)
  unfolding str_f64
  filter_of tag v =
      if same tag (text "PRICE_FILTER")
      then three price_filter (text "tickSize") (text "minPrice") (text "maxPrice") v
      else if same tag (text "LOT_SIZE")
      then three lot_size_filter (text "stepSize") (text "minQty") (text "maxQty") v
      else if same tag (text "MIN_NOTIONAL")
      then Option.map min_notional_filter (required str_f64 (text "minNotional") v)
      else if same tag (text "NOTIONAL")
      then Option.map notional (required str_f64 (text "minNotional") v)
      else some other

  -- `#[serde(tag = "filterType")]`.
  unfoldable pub decode_filter : V → Option (BinanceSymbolFilter F)
  unfolding filter_of
  decode_filter v = required j.as_str (text "filterType") v >>= λ tag. filter_of tag v

abbrev pub tick_of : {F : Type 0} → BinanceSymbolFilter F → Option F
tick_of (price_filter tick _ _) = some tick
tick_of _ = none

abbrev pub step_of : {F : Type 0} → BinanceSymbolFilter F → Option F
step_of (lot_size_filter step _ _) = some step
step_of _ = none

abbrev pub notional_of : {F : Type 0} → BinanceSymbolFilter F → Option F
notional_of (min_notional_filter n) = some n
notional_of (notional n) = some n
notional_of _ = none

-- `Iterator::find_map`.
abbrev pub find_map : {A B : Type 0} → (A → Option B) → List A → Option B
find_map f [] = none
find_map f (a ∷ as') = elim (f a) [ none ↦ find_map f as' | some b ↦ some b ]

-- The methods of a `BinanceSymbolInfo`, which read only its filters.
module _ {F : Type 0} (filters : List (BinanceSymbolFilter F)) where
  unfoldable pub tick_size : Option F
  tick_size = find_map tick_of filters

  unfoldable pub lot_size : Option F
  lot_size = find_map step_of filters

  unfoldable pub min_notional : Option F
  min_notional = find_map notional_of filters

-- A symbol's name and its filters; `symbol` of `BinanceExchangeInfo` finds one.
unfoldable pub find_symbol :
    {F : Type 0}
    → Text
    → List (Text × List (BinanceSymbolFilter F))
    → Option (Text × List (BinanceSymbolFilter F))
find_symbol symbol [] = none
find_symbol symbol ((s, filters) ∷ symbols) =
    let rest = find_symbol symbol symbols in if same s symbol then some (s, filters) else rest

abbrev pub symbol_limit : Text → ℕ → List (Text × Text)
symbol_limit symbol limit = (text "symbol", symbol) ∷ (text "limit", to_string limit) ∷ []

abbrev pub kline_params : Text → Text → ℕ → List (Text × Text)
kline_params symbol interval limit =
    (text "symbol", symbol) ∷ (text "interval", interval) ∷ (text "limit", to_string limit) ∷ []

unfoldable pub get_klines : Text → Text → ℕ → Call
get_klines symbol interval limit = (text "/api/v3/klines", kline_params symbol interval limit)

unfoldable pub get_orderbook : Text → ℕ → Call
get_orderbook symbol limit = (text "/api/v3/depth", symbol_limit symbol limit)

unfoldable pub get_recent_trades : Text → ℕ → Call
get_recent_trades symbol limit = (text "/api/v3/trades", symbol_limit symbol limit)

unfoldable pub get_ticker : Text → Call
get_ticker symbol = (text "/api/v3/ticker/bookTicker", (text "symbol", symbol) ∷ [])

unfoldable pub get_ticker_24h : Text → Call
get_ticker_24h symbol = (text "/api/v3/ticker/24hr", (text "symbol", symbol) ∷ [])

unfoldable pub get_exchange_info : Call
get_exchange_info = (text "/api/v3/exchangeInfo", [])

unfoldable pub get_futures_klines : Text → Text → ℕ → Call
get_futures_klines symbol interval limit =
    (text "/fapi/v1/klines", kline_params symbol interval limit)

unfoldable pub get_futures_funding_rate : Text → ℕ → Call
get_futures_funding_rate symbol limit = (text "/fapi/v1/fundingRate", symbol_limit symbol limit)

unfoldable pub get_futures_mark_price : Text → Call
get_futures_mark_price symbol = (text "/fapi/v1/premiumIndex", (text "symbol", symbol) ∷ [])

unfoldable pub get_futures_open_interest : Text → Call
get_futures_open_interest symbol = (text "/fapi/v1/openInterest", (text "symbol", symbol) ∷ [])
