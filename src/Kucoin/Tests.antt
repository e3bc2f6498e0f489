-- ===== src/Kucoin/Tests.antt =====
-- Runs of the KuCoin connector of src/ws/feed.rs, and its theorem at one of them.
use exchange_apiws.Prelude.{ℕ, false, none, some, [], ◌∷◌, ◌≡◌, refl, inr}
use exchange_apiws.Prelude.Text.{text}
use exchange_apiws.Prelude.Int.{pos}
use exchange_apiws.Prelude.Values.{
  Value, num, str, obj, end, field, value_json, value_float, nat_float,
}
use exchange_apiws.Actors.{sell, trade, order_book}
use exchange_apiws.Kucoin.{
  live_futures, WsMessage, trades, subscription, parse_message, exchange_name,
}
use exchange_apiws.Kucoin.Fields.{str_f64, side_of}
use exchange_apiws.Kucoin.Parse.{parse_trade, parse_level2_delta}
use exchange_apiws.Kucoin.Topics.{IsPlain, parse_message-subscription}

abbrev execution : Value
execution = obj (
    field (text "side") (str (text "SELL")) (
      field (text "price") (str (text "101")) (
        field (text "size") (num 3) (
          field (text "ts") (num 1700000000123456789)
            (field (text "tradeId") (str (text "t1")) end)))))

abbrev frame : WsMessage Value
frame = record {
  id = [];
  msg_type = text "message";
  topic = some (text "/contractMarket/execution:XBTUSDTM");
  subject = some (text "match");
  payload = some execution;
  private_channel = none;
  response = none;
}

code : Unit {0}
unfolding parse_trade str_f64 side_of parse_level2_delta
code = tt

read :
    parse_trade {F = ℕ} (pos 7) (pos 8) (text "XBTUSDTM") exchange_name execution
    ≡ trade record {
      symbol = text "XBTUSDTM";
      exchange = text "kucoin";
      side = sell;
      price = 101;
      amount = 3;
      exchange_ts = pos 1700000000123;
      receipt_ts = pos 8;
      trade_id = text "t1";
    }
      ∷ []
unfolding code
read = refl

-- A quantity that cannot be read removes the level.
unread_quantity :
    parse_level2_delta {F = ℕ}
      (pos 7)
      (pos 8)
      (text "S")
      exchange_name
      (obj (field (text "change") (str (text "100,buy,x")) end))
    ≡ order_book record {
      symbol = text "S";
      exchange = text "kucoin";
      asks = [];
      bids = (100, 0) ∷ [];
      exchange_ts = pos 7;
      receipt_ts = pos 8;
      is_snapshot = false;
      first_update_id = none;
      last_update_id = none;
    }
      ∷ []
unfolding code
unread_quantity = refl

xbtusdtm-IsPlain : IsPlain (text "XBTUSDTM")
xbtusdtm-IsPlain = record { no_colon = refl; no_slash = refl; no_l = refl }

parse_message-subscription_example :
    parse_message {F = ℕ} (pos 7) (pos 8) (λ raw. inr frame) (text "{}")
    ≡ inr (parse_trade (pos 7) (pos 8) (text "XBTUSDTM") exchange_name execution)
unfolding subscription
parse_message-subscription_example =
    parse_message-subscription (pos 7) (pos 8) (λ raw. inr frame) (text "{}") (text "u1")
      live_futures trades (text "XBTUSDTM") frame execution xbtusdtm-IsPlain refl refl refl refl
