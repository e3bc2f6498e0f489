-- ===== src/Types/Tests.antt =====
-- Candles of src/types.rs, and the theorems about them.
use exchange_apiws.Prelude.{ℕ, ◌+◌, Option, none, some, List, [], ◌∷◌, length}
use exchange_apiws.Prelude.Int.{ℤ, pos}
use exchange_apiws.Prelude.Text.{Text, text}
use exchange_apiws.Types.Candle.{Candle}

data Value : Type 0 where
  integer : ℕ → Value
  string : Text → Value

abbrev as_i64 : Value → Option ℤ
as_i64 (integer n) = some (pos n)
as_i64 (string s) = none

abbrev as_str : Value → Option Text
as_str (integer n) = none
as_str (string s) = some s

abbrev as_f64 : Value → Option ℕ
as_f64 (integer n) = some n
as_f64 (string s) = none

-- A text stands for its length, and the empty one for nothing.
abbrev parse : Text → Option ℕ
parse [] = none
parse (c ∷ s) = some (1 + length s)

abbrev row : List Value
row =
    integer 1713
    ∷ string (text "86.0")
    ∷ integer 87
    ∷ string (text "85")
    ∷ integer 86
    ∷ string (text "1234.5")
    ∷ []

abbrev candle : Candle ℕ
candle = record { time = pos 1713; open_price = 4; high = 87; low = 2; close = 86; volume = 6 }
