-- ===== src/Private/Tests.antt =====
-- A run of the private stream of src/bybit/private_ws.rs, and the theorem at it.
use exchange_apiws.Prelude.{ℕ, none, [], ◌∷◌, ◌≡◌, refl, inr}
use exchange_apiws.Prelude.Text.{text}
use exchange_apiws.Prelude.Int.{pos}
use exchange_apiws.Prelude.Values.{
  Value, str, obj, arr, end, field, nil, cons, value_json, value_float, nat_float,
}
use exchange_apiws.Streams.{str_f64, side_at}
use exchange_apiws.Streams.Kraken
use exchange_apiws.Actors.{sell, order_update}
use exchange_apiws.Private.Bybit
use exchange_apiws.Private.Binance
use exchange_apiws.Private.Cryptocom
use exchange_apiws.Private.Vocabulary.{FrameIsNormal}
use exchange_apiws.Private.Vocabulary.Frames.{frames_normal}

abbrev cancelled : Value
cancelled = obj (
    field (text "symbol") (str (text "BTCUSDT")) (
      field (text "orderStatus") (str (text "PartiallyFilledCanceled"))
        (field (text "side") (str (text "Sell")) (field (text "qty") (str (text "5")) end))))

abbrev frame : Value
frame =
    obj (
      field (text "topic") (str (text "order"))
        (field (text "data") (arr (cons cancelled nil)) end))

read :
    Bybit.parse_message {F = ℕ} (pos 9) (λ raw. inr frame) (text "{}")
    ≡ inr (
        order_update record {
          symbol = text "BTCUSDT";
          exchange = text "bybit";
          order_id = [];
          client_oid = none;
          side = sell;
          order_type = text "market";
          status = text "canceled";
          price = 0;
          size = 5;
          filled_size = 0;
          remaining_size = 0;
          fee = 0;
          match_price = none;
          match_size = none;
          trade_id = none;
          exchange_ts = pos 9;
          receipt_ts = pos 9;
        }
        ∷ [])
unfolding Bybit.parse_message Bybit.parse_rows Bybit.parse_order Bybit.map_status
    Bybit.order_type_of str_f64 side_at
read = refl

frames_normal_example :
    FrameIsNormal (Bybit.parse_message {F = ℕ} (pos 9) (λ raw. inr frame) (text "{}"))
    × FrameIsNormal (Binance.parse_message {F = ℕ} (pos 9) (λ raw. inr frame) (text "{}"))
    × FrameIsNormal (Cryptocom.parse_message {F = ℕ} (pos 9) (λ raw. inr frame) (text "{}"))
    × FrameIsNormal
        (Kraken.parse_message {F = ℕ} (λ s. none) (pos 9) (λ raw. inr frame) (text "{}"))
frames_normal_example = frames_normal ℕ (pos 9) (λ s. none) (λ raw. inr frame) (text "{}")
