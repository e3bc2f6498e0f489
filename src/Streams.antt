-- ===== src/Streams.antt =====
-- What the public WebSocket connectors of src/okx, src/bybit, src/binance, src/coinbase, src/cryptocom
-- and src/kraken share: fields that hold a number in a text, sides, and rows of price and quantity.
-- Each connector has a module. `now` is the clock's reading, which stays the same while a frame is
-- parsed.
pub mod Okx
pub mod Bybit
pub mod Binance
pub mod Coinbase
pub mod Cryptocom
pub mod Kraken
pub mod Chains
mod Tests
use exchange_apiws.Prelude.{
  ℕ, ◌-◌, ◌≤◌, Bool, true, false, Option, none, some, List, [], ◌∷◌, map, if◌then◌else◌, leb, ltb,
  ◌^◌, ◌+◌, ◌==◌, suc,
}
use exchange_apiws.Prelude.Text.{Text, text, eq_ignore_ascii_case, to_string}
use exchange_apiws.Prelude.Options.{◌>>=◌, unwrap_or, filter_map}
use exchange_apiws.Prelude.Int.{ℤ, pos, negsuc}
use exchange_apiws.Prelude.Float.{Float}
use exchange_apiws.Prelude.Json.{Json, JsonFloat, str_at}
use exchange_apiws.Book.{OrderBookData, Level}
use exchange_apiws.Actors.{TradeSide, buy, sell, DataMessage, order_book}
use mathlib.Core.Option

module _ {V F : Type 0} ⦃j : Json V⦄ ⦃jf : JsonFloat V F⦄ where
  -- A number in a text, the text being `data[key]`.
  unfoldable pub opt_str_f64 : V → Text → Option F
  opt_str_f64 v key = str_at v key >>= jf.parse_f64

  -- A cell of a row: a number in a text.
  unfoldable pub cell : V → ℕ → Option F
  cell row n = do x ← j.get_index row n; s ← j.as_str x; jf.parse_f64 s

  -- Rows `[price, qty]` of texts; a row that is malformed is left out.
  unfoldable pub parse_levels : Option V → List (Level F)
  unfolding cell
  parse_levels v =
      unwrap_or
        (Option.map (filter_map λ row. do p ← cell row 0; q ← cell row 1; some (p, q))
          (v >>= j.as_array))
        []

module _ {V F : Type 0} ⦃j : Json V⦄ ⦃jf : JsonFloat V F⦄ ⦃fl : Float F⦄ where
  unfoldable pub str_f64 : V → Text → F
  unfolding opt_str_f64
  str_f64 v key = unwrap_or (opt_str_f64 v key) fl.zero

module _ {V : Type 0} ⦃j : Json V⦄ where
  unfoldable pub str_i64 : V → Text → ℤ
  str_i64 v key = unwrap_or (str_at v key >>= j.parse_i64) (pos 0)

  abbrev pub str_or_empty : V → Text → Text
  str_or_empty v key = unwrap_or (str_at v key) []

  -- The side in a field: a sell if the word says so, in any case.
  unfoldable pub side_at : V → Text → TradeSide
  side_at v key =
      if eq_ignore_ascii_case (unwrap_or (str_at v key) (text "buy")) (text "sell")
      then sell
      else buy

-- `u64::try_from` of an i64.
abbrev pub to_u64 : ℤ → Option ℕ
to_u64 (pos n) = some n
to_u64 (negsuc n) = none

-- `i64` addition of one as a release build computes it.
abbrev pub add_one_i64 : ℤ → ℤ
add_one_i64 (pos n) = if n == 2 ^ 63 - 1 then negsuc (2 ^ 63 - 1) else pos (n + 1)
add_one_i64 (negsuc n) = if n == 0 then pos 0 else negsuc (n - 1)

-- `i64::to_string`.
abbrev pub to_string_i64 : ℤ → Text
to_string_i64 (pos n) = to_string n
to_string_i64 (negsuc n) = b'-' ∷ to_string (n + 1)

-- The book messages among those of a frame, in order.
abbrev pub books_of : {F : Type 0} → List (DataMessage F) → List (OrderBookData F)
books_of [] = []
books_of (order_book b ∷ msgs) = b ∷ books_of msgs
books_of (m ∷ msgs) = books_of msgs
