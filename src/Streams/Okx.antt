-- ===== src/Streams/Okx.antt =====
-- src/okx/ws.rs: the OKX connector's channels and its parser.
use exchange_apiws.Prelude.{
  ℕ, Bool, Option, none, some, List, [], map, ◌⊎◌, inl, inr, get_elem?, if◌then◌else◌,
}
use exchange_apiws.Prelude.Text.{Text, text, same}
use exchange_apiws.Prelude.Options.{◌>>=◌, unwrap_or, or_else, filter_map}
use exchange_apiws.Prelude.Int.{ℤ}
use exchange_apiws.Prelude.Float.{Float}
use exchange_apiws.Prelude.Json.{Json, JsonFloat, str_at, i64_at, array_at}
use exchange_apiws.Error.{ExchangeError, json}
use exchange_apiws.Book.{OrderBookData, Level}
use exchange_apiws.Actors.{DataMessage, trade, ticker, order_book}
use exchange_apiws.Streams.{str_f64, str_i64, str_or_empty, side_at, to_u64, add_one_i64}
use mathlib.Core.Option

abbrev pub exchange_name : Text
exchange_name = text "okx"

pub record OkxChannel : Type 0 where
  pub channel : Text
  pub inst_id : Text

-- `OkxChannel::trades`, `tickers` and `books`.
abbrev pub trades : Text → OkxChannel
trades inst_id = record { channel = text "trades"; inst_id = inst_id }

abbrev pub tickers : Text → OkxChannel
tickers inst_id = record { channel = text "tickers"; inst_id = inst_id }

abbrev pub books : Text → OkxChannel
books inst_id = record { channel = text "books"; inst_id = inst_id }

module _ {V F : Type 0} ⦃j : Json V⦄ ⦃jf : JsonFloat V F⦄ where
  unfoldable pub parse_level : V → Option (Level F)
  parse_level row = do
    cells ← j.as_array row
    p ← get_elem? cells 0
    ps ← j.as_str p
    px ← jf.parse_f64 ps
    q ← get_elem? cells 1
    qs ← j.as_str q
    sz ← jf.parse_f64 qs
    some (px, sz)

  unfoldable pub levels : V → Text → List (Level F)
  levels d key = unwrap_or (Option.map (filter_map parse_level) (array_at d key)) []

module _ {V : Type 0} ⦃j : Json V⦄ where
  -- `seqId`, and one more than `prevSeqId`.
  unfoldable pub last_id : V → Option ℕ
  last_id d = i64_at d (text "seqId") >>= to_u64

  unfoldable pub first_id : V → Option ℕ
  unfolding last_id
  first_id d = or_else (i64_at d (text "prevSeqId") >>= λ p. to_u64 (add_one_i64 p)) (last_id d)

module _ {V F : Type 0} ⦃j : Json V⦄ ⦃jf : JsonFloat V F⦄ ⦃fl : Float F⦄ (now : ℤ) where
  unfoldable pub parse_trade : V → Option (DataMessage F)
  parse_trade t = do
    symbol ← str_at t (text "instId")
    some (
        trade record {
          symbol = symbol;
          exchange = exchange_name;
          side = side_at t (text "side");
          price = str_f64 t (text "px");
          amount = str_f64 t (text "sz");
          exchange_ts = str_i64 t (text "ts");
          receipt_ts = now;
          trade_id = str_or_empty t (text "tradeId");
        })

  unfoldable pub parse_ticker : V → Option (DataMessage F)
  parse_ticker t = do
    symbol ← str_at t (text "instId")
    some (
        ticker record {
          symbol = symbol;
          exchange = exchange_name;
          price = str_f64 t (text "last");
          best_bid = str_f64 t (text "bidPx");
          best_ask = str_f64 t (text "askPx");
          exchange_ts = str_i64 t (text "ts");
          receipt_ts = now;
        })

  unfoldable pub parse_book : Bool → V → OrderBookData F
  parse_book is_snapshot d = record {
    symbol = str_or_empty d (text "instId");
    exchange = exchange_name;
    asks = levels d (text "asks");
    bids = levels d (text "bids");
    exchange_ts = str_i64 d (text "ts");
    receipt_ts = now;
    is_snapshot = is_snapshot;
    first_update_id = first_id d;
    last_update_id = last_id d;
  }

  -- The messages of the rows of a channel's frame.
  unfoldable pub parse_rows : Text → Bool → List V → List (DataMessage F)
  parse_rows channel is_snapshot rows =
      if same channel (text "trades")
      then filter_map parse_trade rows
      else if same channel (text "tickers")
      then filter_map parse_ticker rows
      else if same channel (text "books")
      then map (λ d. order_book (parse_book is_snapshot d)) rows
      else []

  -- `decode` is serde_json's `from_str`, with the text of its error.
  unfoldable pub parse_message : (Text → Text ⊎ V) → Text → ExchangeError ⊎ List (DataMessage F)
  unfolding parse_rows
  parse_message decode raw = if same raw (text "pong") then inr [] else elim (decode raw) [
    | inl e ↦ inl (json e)
    | inr v ↦ elim (j.get v (text "event")) [
      | some event ↦ inr []
      | none ↦ elim (array_at v (text "data")) [
        | none ↦ inr []
        | some rows ↦ inr (
            parse_rows (unwrap_or (j.get v (text "arg") >>= λ a. str_at a (text "channel")) [])
              (same (unwrap_or (str_at v (text "action")) (text "snapshot")) (text "snapshot"))
              rows)
      ]
    ]
  ]
