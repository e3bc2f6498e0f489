-- ===== src/Private/Bybit.antt =====
-- src/bybit/private_ws.rs: the parser of Bybit's private topics.
use exchange_apiws.Prelude.{Option, none, some, List, [], ◌∷◌, map, ◌⊎◌, inl, inr, if◌then◌else◌}
use exchange_apiws.Prelude.Text.{Text, text, same, one_of, eq_ignore_ascii_case, to_ascii_lowercase}
use exchange_apiws.Prelude.Options.{◌>>=◌, unwrap_or, filter_map}
use exchange_apiws.Prelude.Int.{ℤ}
use exchange_apiws.Prelude.Float.{Float}
use exchange_apiws.Prelude.Json.{Json, JsonFloat, str_at, parsed_i64_at, array_at}
use exchange_apiws.Error.{ExchangeError, json}
use exchange_apiws.Actors.{
  DataMessage, OrderUpdate, PositionChange, BalanceUpdate, order_update, position_change,
  balance_update,
}
use exchange_apiws.Streams.{str_f64, str_or_empty, side_at}
use exchange_apiws.Streams.Kraken.{nonempty}
use exchange_apiws.Private.{i64_any, flat_map}

abbrev pub exchange_name : Text
exchange_name = text "bybit"

unfoldable pub map_status : Text → Text
map_status status =
    if same status (text "PartiallyFilled")
    then text "partialFilled"
    else if same status (text "Filled")
    then text "filled"
    else if one_of status (
        text "Cancelled"
        ∷ text "PartiallyFilledCanceled"
        ∷ text "Deactivated"
        ∷ text "Rejected"
        ∷ [])
    then text "canceled"
    else text "open"

module _ {V : Type 0} ⦃j : Json V⦄ where
  unfoldable pub order_type_of : V → Text
  order_type_of d = to_ascii_lowercase (unwrap_or (str_at d (text "orderType")) (text "Market"))

module _ {V F : Type 0} ⦃j : Json V⦄ ⦃jf : JsonFloat V F⦄ ⦃fl : Float F⦄ (now : ℤ) where
  unfoldable pub parse_order : V → Option (OrderUpdate F)
  parse_order d = do
    symbol ← str_at d (text "symbol")
    some (record {
      symbol = symbol;
      exchange = exchange_name;
      order_id = str_or_empty d (text "orderId");
      client_oid = nonempty (str_or_empty d (text "orderLinkId"));
      side = side_at d (text "side");
      order_type = order_type_of d;
      status = map_status (str_or_empty d (text "orderStatus"));
      price = str_f64 d (text "price");
      size = str_f64 d (text "qty");
      filled_size = str_f64 d (text "cumExecQty");
      remaining_size = str_f64 d (text "leavesQty");
      fee = str_f64 d (text "cumExecFee");
      match_price = none;
      match_size = none;
      trade_id = none;
      exchange_ts = unwrap_or (parsed_i64_at d (text "updatedTime")) now;
      receipt_ts = now;
    })

  unfoldable pub parse_execution : V → Option (OrderUpdate F)
  parse_execution d = do
    symbol ← str_at d (text "symbol")
    some (record {
      symbol = symbol;
      exchange = exchange_name;
      order_id = str_or_empty d (text "orderId");
      client_oid = nonempty (str_or_empty d (text "orderLinkId"));
      side = side_at d (text "side");
      order_type = order_type_of d;
      status = text "partialFilled";
      price = str_f64 d (text "orderPrice");
      size = str_f64 d (text "orderQty");
      filled_size = str_f64 d (text "execQty");
      remaining_size = fl.zero;
      fee = str_f64 d (text "execFee");
      match_price = some (str_f64 d (text "execPrice"));
      match_size = some (str_f64 d (text "execQty"));
      trade_id = nonempty (str_or_empty d (text "execId"));
      exchange_ts = unwrap_or (parsed_i64_at d (text "execTime")) now;
      receipt_ts = now;
    })

  -- The size of a position with its sign.
  unfoldable pub signed_qty : V → F
  signed_qty d =
      let side = str_or_empty d (text "side") in
      let magnitude : F = str_f64 d (text "size") in
      if eq_ignore_ascii_case side (text "sell")
      then fl.neg magnitude
      else if eq_ignore_ascii_case side (text "buy")
      then magnitude
      else fl.zero

  unfoldable pub parse_position : V → Option (PositionChange F)
  unfolding signed_qty
  parse_position d = do
    symbol ← str_at d (text "symbol")
    some (record {
      symbol = symbol;
      exchange = exchange_name;
      current_qty = signed_qty d;
      avg_entry_price = str_f64 d (text "entryPrice");
      unrealised_pnl = str_f64 d (text "unrealisedPnl");
      realised_pnl = str_f64 d (text "cumRealisedPnl");
      change_reason =
          unwrap_or (nonempty (str_or_empty d (text "positionStatus"))) (text "positionChange");
      exchange_ts = unwrap_or (parsed_i64_at d (text "updatedTime")) now;
      receipt_ts = now;
    })

  unfoldable pub parse_coin : Text → ℤ → V → Option (BalanceUpdate F)
  parse_coin event exchange_ts c = do
    currency ← nonempty (str_or_empty c (text "coin"))
    some (record {
      exchange = exchange_name;
      currency = currency;
      available_balance = str_f64 c (text "availableToWithdraw");
      hold_balance = str_f64 c (text "locked");
      event = event;
      exchange_ts = exchange_ts;
      receipt_ts = now;
    })

  unfoldable pub parse_wallet : Option ℤ → V → List (BalanceUpdate F)
  unfolding parse_coin
  parse_wallet creation_ts acct =
      let event = unwrap_or (nonempty (str_or_empty acct (text "accountType"))) (text "wallet") in
      elim (array_at acct (text "coin")) [
        | none ↦ []
        | some coins ↦ filter_map (parse_coin event (unwrap_or creation_ts now)) coins
      ]

  -- The messages of the rows of a topic's frame.
  unfoldable pub parse_rows : Text → Option ℤ → List V → List (DataMessage F)
  parse_rows topic creation_ts rows =
      if same topic (text "order")
      then map order_update (filter_map parse_order rows)
      else if same topic (text "execution")
      then map order_update (filter_map parse_execution rows)
      else if same topic (text "position")
      then map position_change (filter_map parse_position rows)
      else if same topic (text "wallet")
      then map balance_update (flat_map (parse_wallet creation_ts) rows)
      else []

  -- `decode` is serde_json's `from_str`, with the text of its error.
  unfoldable pub parse_message : (Text → Text ⊎ V) → Text → ExchangeError ⊎ List (DataMessage F)
  parse_message decode raw = elim (decode raw) [
    | inl e ↦ inl (json e)
    | inr v ↦ elim (j.get v (text "op")) [
      | some op ↦ inr []
      | none ↦ elim (array_at v (text "data")) [
        | none ↦ inr []
        | some rows ↦
            inr (parse_rows (str_or_empty v (text "topic")) (i64_any v (text "creationTime")) rows)
      ]
    ]
  ]
