-- ===== src/Private/Binance.antt =====
-- src/binance/private_ws.rs: the parser of Binance's user data.
use exchange_apiws.Prelude.{Option, none, some, List, [], ◌∷◌, ◌⊎◌, inl, inr, if◌then◌else◌}
use exchange_apiws.Prelude.Text.{Text, text, same, one_of, to_ascii_lowercase, to_string}
use exchange_apiws.Prelude.Options.{◌>>=◌, unwrap_or, or_else, filter_map}
use exchange_apiws.Prelude.Int.{ℤ, pos, negsuc}
use exchange_apiws.Prelude.Float.{Float}
use exchange_apiws.Prelude.Json.{Json, JsonFloat, str_at, i64_at, array_at}
use exchange_apiws.Error.{ExchangeError, json}
use exchange_apiws.Actors.{DataMessage, OrderUpdate, order_update, balance_update}
use exchange_apiws.Streams.{str_f64, str_or_empty, side_at, to_string_i64}
use exchange_apiws.Streams.Kraken.{nonempty}
use mathlib.Core.Option

abbrev pub exchange_name : Text
exchange_name = text "binance"

unfoldable pub map_status : Text → Text
map_status status =
    if same status (text "PARTIALLY_FILLED")
    then text "partialFilled"
    else if same status (text "FILLED")
    then text "filled"
    else if one_of status
        (text "CANCELED" ∷ text "REJECTED" ∷ text "EXPIRED" ∷ text "PENDING_CANCEL" ∷ [])
    then text "canceled"
    else text "open"

-- The number of a trade; a negative one means that there is none.
abbrev pub trade_number : ℤ → Option Text
trade_number (pos n) = some (to_string n)
trade_number (negsuc n) = none

module _ {V F : Type 0} ⦃j : Json V⦄ ⦃jf : JsonFloat V F⦄ ⦃fl : Float F⦄ (now : ℤ) where
  unfoldable pub parse_execution_report : V → Option (OrderUpdate F)
  parse_execution_report d =
      let size : F = str_f64 d (text "q") in
      let filled_size = str_f64 d (text "z") in
      let is_trade = same (str_or_empty d (text "x")) (text "TRADE") in
      do
        symbol ← str_at d (text "s")
        some (record {
          symbol = symbol;
          exchange = exchange_name;
          order_id = unwrap_or (Option.map to_string_i64 (i64_at d (text "i"))) [];
          client_oid = nonempty (str_or_empty d (text "c"));
          side = side_at d (text "S");
          order_type = to_ascii_lowercase (unwrap_or (str_at d (text "o")) (text "MARKET"));
          status = map_status (str_or_empty d (text "X"));
          price = str_f64 d (text "p");
          size = size;
          filled_size = filled_size;
          remaining_size = fl.max_of (fl.sub size filled_size) fl.zero;
          fee = str_f64 d (text "n");
          match_price = if is_trade then some (str_f64 d (text "L")) else none;
          match_size = if is_trade then some (str_f64 d (text "l")) else none;
          trade_id = i64_at d (text "t") >>= trade_number;
          exchange_ts = unwrap_or (or_else (i64_at d (text "T")) (i64_at d (text "E"))) now;
          receipt_ts = now;
        })

  unfoldable pub parse_balance : ℤ → V → Option (DataMessage F)
  parse_balance exchange_ts b = do
    currency ← nonempty (str_or_empty b (text "a"))
    some (
        balance_update record {
          exchange = exchange_name;
          currency = currency;
          available_balance = str_f64 b (text "f");
          hold_balance = str_f64 b (text "l");
          event = text "outboundAccountPosition";
          exchange_ts = exchange_ts;
          receipt_ts = now;
        })

  unfoldable pub parse_account_position : V → List (DataMessage F)
  unfolding parse_balance
  parse_account_position d = elim (array_at d (text "B")) [
    | none ↦ []
    | some balances ↦ filter_map (parse_balance (unwrap_or (i64_at d (text "E")) now)) balances
  ]

  -- The messages of an event.
  unfoldable pub parse_event : V → List (DataMessage F)
  parse_event v =
      let event = str_or_empty v (text "e") in
      if same event (text "executionReport")
      then elim (parse_execution_report v) [ none ↦ [] | some u ↦ order_update u ∷ [] ]
      else if same event (text "outboundAccountPosition")
      then parse_account_position v
      else []

  -- `decode` is serde_json's `from_str`, with the text of its error.
  unfoldable pub parse_message : (Text → Text ⊎ V) → Text → ExchangeError ⊎ List (DataMessage F)
  parse_message decode raw = elim (decode raw) [
    | inl e ↦ inl (json e)
    | inr v ↦ inr (parse_event v)
  ]
