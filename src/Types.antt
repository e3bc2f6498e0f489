-- ===== src/Types.antt =====
-- src/types.rs: the enumerations of an order, and their names on the wire.
pub mod Candle
mod Tests
use exchange_apiws.Prelude.Text.{Text, text}

pub data Side : Type 0 where
  buy sell : Side

pub data OrderType : Type 0 where
  market limit : OrderType

pub data TimeInForce : Type 0 where
  gtc gtt ioc fok : TimeInForce

pub data Stp : Type 0 where
  dc co cn cb : Stp

abbrev pub side_as_str : Side → Text
side_as_str buy = text "buy"
side_as_str sell = text "sell"

abbrev pub flip : Side → Side
flip buy = sell
flip sell = buy

abbrev pub order_type_as_str : OrderType → Text
order_type_as_str market = text "market"
order_type_as_str limit = text "limit"

abbrev pub default_time_in_force : TimeInForce
default_time_in_force = gtc

abbrev pub time_in_force_as_str : TimeInForce → Text
time_in_force_as_str gtc = text "GTC"
time_in_force_as_str gtt = text "GTT"
time_in_force_as_str ioc = text "IOC"
time_in_force_as_str fok = text "FOK"

abbrev pub stp_as_str : Stp → Text
stp_as_str dc = text "DC"
stp_as_str co = text "CO"
stp_as_str cn = text "CN"
stp_as_str cb = text "CB"
