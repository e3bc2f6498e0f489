-- ===== src/Actors.antt =====
-- src/actors.rs: the messages that every connector turns its exchange's frames into. `OrderBookData`
-- is declared with the book that it feeds.
use exchange_apiws.Prelude.{Bool, Option}
use exchange_apiws.Prelude.Int.{ℤ}
use exchange_apiws.Prelude.Text.{Text}
use exchange_apiws.Book.{OrderBookData}

pub data TradeSide : Type 0 where
  buy sell : TradeSide

pub record TradeData (F : Type 0) : Type 0 where
  pub symbol : Text
  pub exchange : Text
  pub side : TradeSide
  pub price : F
  pub amount : F
  pub exchange_ts : ℤ
  pub receipt_ts : ℤ
  pub trade_id : Text

pub record TickerData (F : Type 0) : Type 0 where
  pub symbol : Text
  pub exchange : Text
  pub price : F
  pub best_bid : F
  pub best_ask : F
  pub exchange_ts : ℤ
  pub receipt_ts : ℤ

pub record CandleData (F : Type 0) : Type 0 where
  pub symbol : Text
  pub exchange : Text
  pub interval : Text
  pub open_ts : ℤ
  pub open_price : F  -- `open`
  pub high : F
  pub low : F
  pub close : F
  pub volume : F
  pub is_closed : Bool
  pub receipt_ts : ℤ

pub record FundingData (F : Type 0) : Type 0 where
  pub symbol : Text
  pub exchange : Text
  pub funding_rate : F
  pub next_funding_time : ℤ
  pub mark_price : Option F
  pub index_price : Option F
  pub exchange_ts : ℤ
  pub receipt_ts : ℤ

pub record OrderUpdate (F : Type 0) : Type 0 where
  pub symbol : Text
  pub exchange : Text
  pub order_id : Text
  pub client_oid : Option Text
  pub side : TradeSide
  pub order_type : Text
  pub status : Text
  pub price : F
  pub size : F
  pub filled_size : F
  pub remaining_size : F
  pub fee : F
  pub match_price : Option F
  pub match_size : Option F
  pub trade_id : Option Text
  pub exchange_ts : ℤ
  pub receipt_ts : ℤ

pub record PositionChange (F : Type 0) : Type 0 where
  pub symbol : Text
  pub exchange : Text
  pub current_qty : F
  pub avg_entry_price : F
  pub unrealised_pnl : F
  pub realised_pnl : F
  pub change_reason : Text
  pub exchange_ts : ℤ
  pub receipt_ts : ℤ

pub record BalanceUpdate (F : Type 0) : Type 0 where
  pub exchange : Text
  pub currency : Text
  pub available_balance : F
  pub hold_balance : F
  pub event : Text
  pub exchange_ts : ℤ
  pub receipt_ts : ℤ

pub record InstrumentEvent (F : Type 0) : Type 0 where
  pub symbol : Text
  pub exchange : Text
  pub subject : Text
  pub mark_price : Option F
  pub index_price : Option F
  pub funding_rate : Option F
  pub predicted_funding_rate : Option F
  pub premium_index : Option F
  pub exchange_ts : ℤ
  pub receipt_ts : ℤ

pub record AdvancedOrderUpdate (F : Type 0) : Type 0 where
  pub symbol : Text
  pub exchange : Text
  pub order_id : Text
  pub client_oid : Option Text
  pub status : Text
  pub side : TradeSide
  pub order_type : Text
  pub stop : Option Text
  pub stop_price : Option F
  pub price : Option F
  pub size : F
  pub exchange_ts : ℤ
  pub receipt_ts : ℤ

pub data DataMessage (F : Type 0) : Type 0 where
  trade : TradeData F → DataMessage F
  ticker : TickerData F → DataMessage F
  order_book : OrderBookData F → DataMessage F
  candle : CandleData F → DataMessage F
  funding_rate : FundingData F → DataMessage F
  order_update : OrderUpdate F → DataMessage F
  position_change : PositionChange F → DataMessage F
  balance_update : BalanceUpdate F → DataMessage F
  instrument_event : InstrumentEvent F → DataMessage F
  advanced_order_update : AdvancedOrderUpdate F → DataMessage F
