-- ===== src/Kucoin/Fields.antt =====
-- The helpers of src/ws/feed.rs that read a number from a field.
use exchange_apiws.Prelude.{ℕ, ◌+◌, ◌/◌, not, Option, none, some, List, [], ◌∷◌, if◌then◌else◌}
use exchange_apiws.Prelude.Text.{Text, text, eq_ignore_ascii_case}
use exchange_apiws.Prelude.Options.{unwrap_or}
use exchange_apiws.Prelude.Int.{ℤ, pos, negsuc, sub_ℕ}
use exchange_apiws.Prelude.Float.{Float}
use exchange_apiws.Prelude.Json.{Json, JsonFloat, str_at}
use exchange_apiws.Actors.{TradeSide, buy, sell}

-- `i64` division by a positive divisor, towards zero.
abbrev pub div_ℤ : ℤ → ℕ → ℤ
div_ℤ (pos n) k = pos (n / k)
div_ℤ (negsuc n) k = sub_ℕ 0 ((n + 1) / k)

module _ {V F : Type 0} ⦃j : Json V⦄ ⦃jf : JsonFloat V F⦄ where
  unfoldable pub str_f64_opt : V → Text → Option F
  str_f64_opt payload key = elim (j.get payload key) [
    | none ↦ none
    | some v ↦ elim (j.as_str v) [ some s ↦ jf.parse_f64 s | none ↦ jf.as_f64 v ]
  ]

  module _ ⦃fl : Float F⦄ where
    unfoldable pub str_f64 : V → Text → F
    unfolding str_f64_opt
    str_f64 payload key = unwrap_or (str_f64_opt payload key) fl.zero

    unfoldable pub first_f64 : V → List Text → F
    first_f64 payload [] = fl.zero
    first_f64 payload (key ∷ keys) =
        let rest = first_f64 payload keys in
        let v = str_f64 payload key in if not (fl.is_zero v) then v else rest

    -- A field that is none if it reads zero.
    unfoldable pub nonzero : V → Text → Option F
    nonzero payload key = let v = str_f64 payload key in if fl.is_zero v then none else some v

module _ {V : Type 0} ⦃j : Json V⦄ where
  unfoldable pub side_of : V → TradeSide
  side_of payload =
      if eq_ignore_ascii_case (unwrap_or (str_at payload (text "side")) (text "buy")) (text "sell")
      then sell
      else buy
