-- ===== src/Rest/Bybit/Instruments.antt =====
-- src/bybit/rest.rs: the filters of an instrument, and the endpoints.
use exchange_apiws.Prelude.{ℕ, Option, List, [], ◌∷◌}
use exchange_apiws.Prelude.Text.{Text, text, to_string}
use exchange_apiws.Prelude.Options.{◌>>=◌, or_else}
use exchange_apiws.Clients.Bybit.{BybitCategory, as_str}
use exchange_apiws.Rest.{Call, push_some}

pub record BybitPriceFilter : Type 0 where
  pub tick_size : Option Text
  pub min_price : Option Text
  pub max_price : Option Text

pub record BybitLotSizeFilter : Type 0 where
  pub min_order_qty : Option Text
  pub max_order_qty : Option Text
  pub qty_step : Option Text
  pub min_notional_value : Option Text
  pub base_precision : Option Text
  pub quote_precision : Option Text
  pub min_order_amt : Option Text
  pub max_order_amt : Option Text

-- The fields of a `BybitInstrument` that its methods read.
pub record BybitInstrument : Type 0 where
  pub symbol : Text
  pub price_filter : Option BybitPriceFilter
  pub lot_size_filter : Option BybitLotSizeFilter

module _ {F : Type 0} (parse : Text → Option F) (i : BybitInstrument) where
  unfoldable pub tick_size : Option F
  tick_size = do f ← i.price_filter; s ← f.tick_size; parse s

  unfoldable pub lot_size : Option F
  lot_size = do l ← i.lot_size_filter; s ← or_else l.qty_step l.base_precision; parse s

  unfoldable pub min_order_qty : Option F
  min_order_qty = do l ← i.lot_size_filter; s ← l.min_order_qty; parse s

  unfoldable pub min_notional : Option F
  min_notional = do l ← i.lot_size_filter; s ← or_else l.min_notional_value l.min_order_amt; parse s

-- The parameters that most endpoints share.
abbrev pub category_param : BybitCategory → Text × Text
category_param category = (text "category", as_str category)

abbrev pub limit_param : ℕ → List (Text × Text)
limit_param limit = (text "limit", to_string limit) ∷ []

unfoldable pub get_klines : BybitCategory → Text → Text → ℕ → Call
unfolding as_str
get_klines category symbol interval limit = (
  text "/v5/market/kline",
  category_param category
      ∷ (text "symbol", symbol)
      ∷ (text "interval", interval)
      ∷ limit_param limit,
)

unfoldable pub get_orderbook : BybitCategory → Text → ℕ → Call
unfolding as_str
get_orderbook category symbol limit = (
  text "/v5/market/orderbook",
  category_param category ∷ (text "symbol", symbol) ∷ limit_param limit,
)

unfoldable pub get_tickers : BybitCategory → Option Text → Call
unfolding as_str
get_tickers category symbol =
    (text "/v5/market/tickers", category_param category ∷ push_some (text "symbol") symbol)

unfoldable pub get_recent_trades : BybitCategory → Text → ℕ → Call
unfolding as_str
get_recent_trades category symbol limit = (
  text "/v5/market/recent-trade",
  category_param category ∷ (text "symbol", symbol) ∷ limit_param limit,
)

unfoldable pub get_instruments : BybitCategory → Call
unfolding as_str
get_instruments category = (text "/v5/market/instruments-info", category_param category ∷ [])

unfoldable pub get_funding_rate : BybitCategory → Text → ℕ → Call
unfolding as_str
get_funding_rate category symbol limit = (
  text "/v5/market/funding/history",
  category_param category ∷ (text "symbol", symbol) ∷ limit_param limit,
)

unfoldable pub get_open_interest : BybitCategory → Text → Text → ℕ → Call
unfolding as_str
get_open_interest category symbol interval_time limit = (
  text "/v5/market/open-interest",
  category_param category
      ∷ (text "symbol", symbol)
      ∷ (text "intervalTime", interval_time)
      ∷ limit_param limit,
)

unfoldable pub get_long_short_ratio : BybitCategory → Text → Text → ℕ → Call
unfolding as_str
get_long_short_ratio category symbol period limit = (
  text "/v5/market/account-ratio",
  category_param category ∷ (text "symbol", symbol) ∷ (text "period", period) ∷ limit_param limit,
)
