-- ===== src/Streams/Coinbase.antt =====
-- src/coinbase/ws.rs: the channels of the Coinbase connector and its parser.
pub mod Updates
use exchange_apiws.Prelude.{
  ℕ, Bool, true, false, ◌||◌, Option, none, some, List, [], ◌∷◌, ◌++◌, ◌⊎◌, inl, inr, if◌then◌else◌,
}
use exchange_apiws.Prelude.Text.{Text, text, same, eq_ignore_ascii_case}
use exchange_apiws.Prelude.Options.{◌>>=◌, unwrap_or, filter_map}
use exchange_apiws.Prelude.Int.{ℤ, pos}
use exchange_apiws.Prelude.Float.{Float}
use exchange_apiws.Prelude.Json.{Json, JsonFloat, str_at, array_at}
use exchange_apiws.Error.{ExchangeError, json}
use exchange_apiws.Book.{OrderBookData, Level}
use exchange_apiws.Actors.{DataMessage, trade, ticker, order_book}
use exchange_apiws.Streams.{str_f64, str_or_empty, side_at}

abbrev pub exchange_name : Text
exchange_name = text "coinbase"

pub data CoinbaseChannel : Type 0 where
  ticker_channel market_trades level2 : CoinbaseChannel

unfoldable pub channel_as_str : CoinbaseChannel → Text
channel_as_str ticker_channel = text "ticker"
channel_as_str market_trades = text "market_trades"
channel_as_str level2 = text "level2"

-- `chrono` reads a time of RFC 3339 as milliseconds.
module _ {V F : Type 0} ⦃j : Json V⦄ ⦃jf : JsonFloat V F⦄ ⦃fl : Float F⦄
    (parse_rfc3339 : Text → Option ℤ) (now : ℤ) where
  unfoldable pub parse_ticker : V → Option (DataMessage F)
  parse_ticker t = do
    symbol ← str_at t (text "product_id")
    some (
        ticker record {
          symbol = symbol;
          exchange = exchange_name;
          price = str_f64 t (text "price");
          best_bid = str_f64 t (text "best_bid");
          best_ask = str_f64 t (text "best_ask");
          exchange_ts = now;
          receipt_ts = now;
        })

  unfoldable pub parse_trade : V → Option (DataMessage F)
  parse_trade t = do
    symbol ← str_at t (text "product_id")
    some (
        trade record {
          symbol = symbol;
          exchange = exchange_name;
          side = side_at t (text "side");
          price = str_f64 t (text "price");
          amount = str_f64 t (text "size");
          exchange_ts = unwrap_or (str_at t (text "time") >>= parse_rfc3339) (pos 0);
          receipt_ts = now;
          trade_id = str_or_empty t (text "trade_id");
        })

module _ {V F : Type 0} ⦃j : Json V⦄ ⦃jf : JsonFloat V F⦄ where
  -- A row of an event: its price, its quantity, and whether it is a bid.
  unfoldable pub parse_update : V → Option (F × F × Bool)
  parse_update u = do
    ps ← str_at u (text "price_level")
    px ← jf.parse_f64 ps
    qs ← str_at u (text "new_quantity")
    qty ← jf.parse_f64 qs
    let side = str_or_empty u (text "side")
    some (px, qty, eq_ignore_ascii_case side (text "bid") || eq_ignore_ascii_case side (text "buy"))

  -- The loop over the rows, with the bids first: one malformed row and there is no result.
  unfoldable pub parse_updates : List V → Option (List (Level F) × List (Level F))
  parse_updates [] = some ([], [])
  parse_updates (u ∷ us) =
      let rest = parse_updates us in
      do
        (px, qty, is_bid) ← parse_update u
        (bids, asks) ← rest
        some (if is_bid then ((px, qty) ∷ bids, asks) else (bids, (px, qty) ∷ asks))

  unfoldable pub parse_l2 : ℤ → V → Option (OrderBookData F)
  parse_l2 now ev = do
    symbol ← str_at ev (text "product_id")
    updates ← array_at ev (text "updates")
    (bids, asks) ← parse_updates updates
    some (record {
      symbol = symbol;
      exchange = exchange_name;
      asks = asks;
      bids = bids;
      exchange_ts = now;
      receipt_ts = now;
      is_snapshot = same (unwrap_or (str_at ev (text "type")) (text "update")) (text "snapshot");
      first_update_id = none;
      last_update_id = none;
    })

module _ {V F : Type 0} ⦃j : Json V⦄ ⦃jf : JsonFloat V F⦄ ⦃fl : Float F⦄
    (parse_rfc3339 : Text → Option ℤ) (now : ℤ) where
  -- The messages of one event on a channel.
  unfoldable pub parse_event : Text → V → List (DataMessage F)
  parse_event channel ev =
      if same channel (text "ticker")
      then filter_map (parse_ticker parse_rfc3339 now) (unwrap_or (array_at ev (text "tickers")) [])
      else if same channel (text "market_trades")
      then filter_map (parse_trade parse_rfc3339 now) (unwrap_or (array_at ev (text "trades")) [])
      else if same channel (text "l2_data") || same channel (text "level2")
      then elim (parse_l2 now ev) [ none ↦ [] | some msg ↦ order_book msg ∷ [] ]
      else []

  unfoldable pub parse_events : Text → List V → List (DataMessage F)
  parse_events channel [] = []
  parse_events channel (ev ∷ events) = parse_event channel ev ++ parse_events channel events

  -- `decode` is serde_json's `from_str`, with the text of its error.
  unfoldable pub parse_message : (Text → Text ⊎ V) → Text → ExchangeError ⊎ List (DataMessage F)
  unfolding parse_events
  parse_message decode raw = elim (decode raw) [
    | inl e ↦ inl (json e)
    | inr v ↦
        let channel = str_or_empty v (text "channel") in
        if same channel (text "subscriptions") || same channel []
        then inr []
        else elim (array_at v (text "events")) [
          | none ↦ inr []
          | some events ↦ inr (parse_events channel events)
        ]
  ]
