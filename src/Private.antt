-- ===== src/Private.antt =====
-- The private streams: src/bybit/private_ws.rs, src/binance/private_ws.rs and
-- src/cryptocom/private_ws.rs, with the readers that they share. `now` is the clock's reading, which
-- stays the same while a frame is parsed. Words of the exchanges are ASCII.
pub mod Bybit
pub mod Binance
pub mod Cryptocom
pub mod Vocabulary
mod Tests
use exchange_apiws.Prelude.{Option, none, some, List, [], ◌∷◌, ◌++◌}
use exchange_apiws.Prelude.Text.{Text}
use exchange_apiws.Prelude.Options.{◌>>=◌, unwrap_or, or_else}
use exchange_apiws.Prelude.Int.{ℤ}
use exchange_apiws.Prelude.Float.{Float}
use exchange_apiws.Prelude.Json.{Json, JsonFloat, str_at, i64_at, parsed_i64_at}
use exchange_apiws.Streams.{opt_str_f64, str_or_empty}

module _ {V : Type 0} ⦃j : Json V⦄ where
  -- An integer, or one in a text.
  unfoldable pub i64_any : V → Text → Option ℤ
  i64_any d key = or_else (i64_at d key) (parsed_i64_at d key)

  -- The first of the fields that is a text with something in it.
  unfoldable pub str_any : V → List Text → Text
  str_any d [] = []
  str_any d (key ∷ keys) =
      let rest = str_any d keys in elim (str_or_empty d key) [ [] ↦ rest | ◌∷◌ c s ↦ c ∷ s ]

  -- An id, as a text or as a number.
  unfoldable pub id_string : V → Text → Text
  id_string d key = elim (j.get d key) [
    | none ↦ []
    | some v ↦ elim (j.as_str v) [ some s ↦ s | none ↦ unwrap_or (j.number_text v) [] ]
  ]

module _ {V F : Type 0} ⦃j : Json V⦄ ⦃jf : JsonFloat V F⦄ ⦃fl : Float F⦄ where
  unfoldable pub str_f64_any : V → List Text → F
  str_f64_any d [] = fl.zero
  str_f64_any d (key ∷ keys) =
      let rest = str_f64_any d keys in elim (opt_str_f64 d key) [ none ↦ rest | some x ↦ x ]

-- `flat_map` into a list.
abbrev pub flat_map : {A B : Type 0} → (A → List B) → List A → List B
flat_map f [] = []
flat_map f (x ∷ xs) = f x ++ flat_map f xs
