-- ===== src/Private/Cryptocom.antt =====
-- src/cryptocom/private_ws.rs: the parser of Crypto.com's user channels.
use exchange_apiws.Prelude.{Option, none, some, List, [], ◌∷◌, map, ◌⊎◌, inl, inr, if◌then◌else◌}
use exchange_apiws.Prelude.Text.{Text, text, same, one_of, to_ascii_lowercase}
use exchange_apiws.Prelude.Options.{◌>>=◌, unwrap_or, or_else, filter_map}
use exchange_apiws.Prelude.Int.{ℤ}
use exchange_apiws.Prelude.Float.{Float}
use exchange_apiws.Prelude.Json.{Json, JsonFloat, str_at, array_at}
use exchange_apiws.Error.{ExchangeError, json}
use exchange_apiws.Actors.{DataMessage, OrderUpdate, BalanceUpdate, order_update, balance_update}
use exchange_apiws.Streams.{str_f64, str_or_empty, side_at}
use exchange_apiws.Streams.Kraken.{nonempty}
use exchange_apiws.Private.{i64_any, str_any, id_string, str_f64_any, flat_map}

abbrev pub exchange_name : Text
exchange_name = text "cryptocom"

module _ {F : Type 0} ⦃fl : Float F⦄ where
  unfoldable pub map_order_status : Text → F → Text
  map_order_status status filled_size =
      if same status (text "FILLED")
      then text "filled"
      else if one_of status (text "CANCELED" ∷ text "REJECTED" ∷ text "EXPIRED" ∷ [])
      then text "canceled"
      else if fl.is_positive filled_size
      then text "partialFilled"
      else text "open"

module _ {V F : Type 0} ⦃j : Json V⦄ ⦃jf : JsonFloat V F⦄ ⦃fl : Float F⦄ (now : ℤ) where
  unfoldable pub parse_user_order : V → Option (OrderUpdate F)
  parse_user_order d =
      let size : F = str_f64 d (text "quantity") in
      let filled_size : F = str_f64 d (text "cumulative_quantity") in
      do
        symbol ← str_at d (text "instrument_name")
        some (record {
          symbol = symbol;
          exchange = exchange_name;
          order_id = id_string d (text "order_id");
          client_oid = nonempty (str_or_empty d (text "client_oid"));
          side = side_at d (text "side");
          order_type = to_ascii_lowercase (str_any d (text "order_type" ∷ text "type" ∷ []));
          status = map_order_status (str_or_empty d (text "status")) filled_size;
          price = str_f64_any d (text "limit_price" ∷ text "price" ∷ []);
          size = size;
          filled_size = filled_size;
          remaining_size = fl.max_of (fl.sub size filled_size) fl.zero;
          fee = str_f64 d (text "cumulative_fee");
          match_price = none;
          match_size = none;
          trade_id = none;
          exchange_ts =
              unwrap_or (or_else (i64_any d (text "update_time")) (i64_any d (text "create_time")))
                now;
          receipt_ts = now;
        })

  unfoldable pub parse_user_trade : V → Option (OrderUpdate F)
  parse_user_trade d =
      let qty : F = str_f64 d (text "traded_quantity") in
      let price : F = str_f64 d (text "traded_price") in
      do
        symbol ← str_at d (text "instrument_name")
        some (record {
          symbol = symbol;
          exchange = exchange_name;
          order_id = id_string d (text "order_id");
          client_oid = nonempty (str_or_empty d (text "client_oid"));
          side = side_at d (text "side");
          order_type = [];
          status = text "partialFilled";
          price = price;
          size = qty;
          filled_size = qty;
          remaining_size = fl.zero;
          fee = str_f64_any d (text "fees" ∷ text "fee" ∷ []);
          match_price = some price;
          match_size = some qty;
          trade_id = nonempty (id_string d (text "trade_id"));
          exchange_ts = unwrap_or (i64_any d (text "create_time")) now;
          receipt_ts = now;
        })

  unfoldable pub parse_position_balance : V → Option (BalanceUpdate F)
  parse_position_balance p = do
    currency ← nonempty (str_or_empty p (text "instrument_name"))
    some (record {
      exchange = exchange_name;
      currency = currency;
      available_balance = str_f64_any p (text "max_withdrawal_balance" ∷ text "quantity" ∷ []);
      hold_balance = str_f64 p (text "reserved_qty");
      event = text "user.balance";
      exchange_ts = now;
      receipt_ts = now;
    })

  unfoldable pub parse_user_balance : V → List (BalanceUpdate F)
  unfolding parse_position_balance
  parse_user_balance d = elim (array_at d (text "position_balances")) [
    | none ↦ []
    | some positions ↦ filter_map parse_position_balance positions
  ]

  -- The messages of the rows of a channel's frame.
  unfoldable pub parse_rows : Text → List V → List (DataMessage F)
  parse_rows channel rows =
      if same channel (text "user.order")
      then map order_update (filter_map parse_user_order rows)
      else if same channel (text "user.trade")
      then map order_update (filter_map parse_user_trade rows)
      else if same channel (text "user.balance")
      then map balance_update (flat_map parse_user_balance rows)
      else []

  -- `decode` is serde_json's `from_str`, with the text of its error.
  unfoldable pub parse_message : (Text → Text ⊎ V) → Text → ExchangeError ⊎ List (DataMessage F)
  parse_message decode raw = elim (decode raw) [
    | inl e ↦ inl (json e)
    | inr v ↦ elim (j.get v (text "result")) [
      | none ↦ inr []
      | some result ↦ elim (array_at result (text "data")) [
        | none ↦ inr []
        | some rows ↦ inr (parse_rows (str_or_empty result (text "channel")) rows)
      ]
    ]
  ]
