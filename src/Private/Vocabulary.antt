-- ===== src/Private/Vocabulary.antt =====
-- The words for an order's state: what src/bybit/private_ws.rs, src/binance/private_ws.rs,
-- src/cryptocom/private_ws.rs and src/kraken/ws.rs make of their exchanges' words.
pub mod Frames
use exchange_apiws.Prelude.{
  Bool, true, false, Option, none, some, List, [], ◌∷◌, ◌++◌, map, ◌≡◌, refl, arith, ◌⊎◌, inl, inr,
  All, Option-cases, Bool-cases, if◌then◌else◌,
}
use exchange_apiws.Prelude.Text.{Text, text, same, one_of}
use exchange_apiws.Prelude.Options.{filter_map, ◌>>=◌, unwrap_or}
use exchange_apiws.Prelude.Int.{ℤ}
use exchange_apiws.Prelude.Float.{Float}
use exchange_apiws.Prelude.Json.{Json, JsonFloat, str_at, i64_at, array_at}
use exchange_apiws.Error.{ExchangeError}
use exchange_apiws.Actors.{
  DataMessage, OrderUpdate, PositionChange, BalanceUpdate, trade, ticker, order_book, candle,
  funding_rate, order_update, position_change, balance_update, instrument_event,
  advanced_order_update,
}
use exchange_apiws.Streams.{str_f64, str_or_empty}
use exchange_apiws.Streams.Kraken
use exchange_apiws.Private.{flat_map, i64_any}
use exchange_apiws.Private.Bybit
use exchange_apiws.Private.Binance
use exchange_apiws.Private.Cryptocom

-- The words of this crate.
pub in_vocabulary : Text → Bool
in_vocabulary status =
    one_of status (text "open" ∷ text "partialFilled" ∷ text "filled" ∷ text "canceled" ∷ [])

-- A status that is one of them.
abbrev pub InVocabulary : Text → Type 0
InVocabulary status = in_vocabulary status ≡ true

abbrev pub IsNormal : {F : Type 0} → DataMessage F → Type 0
IsNormal (order_update u) = InVocabulary u.status
IsNormal (trade x) = Unit
IsNormal (ticker x) = Unit
IsNormal (order_book x) = Unit
IsNormal (candle x) = Unit
IsNormal (funding_rate x) = Unit
IsNormal (position_change x) = Unit
IsNormal (balance_update x) = Unit
IsNormal (instrument_event x) = Unit
IsNormal (advanced_order_update x) = Unit

-- An error, or messages that are all normal.
abbrev pub FrameIsNormal : {F : Type 0} → ExchangeError ⊎ List (DataMessage F) → Type 0
FrameIsNormal (inl e) = Unit
FrameIsNormal (inr msgs) = All IsNormal msgs

pub decoded : {V : Type 0} (d : Text ⊎ V) → ((e : Text) × (d ≡ inl e)) ⊎ ((v : V) × (d ≡ inr v))
decoded (inl e) = inl (e, refl)
decoded (inr v) = inr (v, refl)

module _ {V F : Type 0} where
  pub orders-IsNormal :
      (f : V → Option (OrderUpdate F)) (rows : List V)
      → ((d : V) (u : OrderUpdate F) → f d ≡ some u → InVocabulary u.status)
      → All IsNormal (map order_update (filter_map f rows))
  orders-IsNormal f [] h = tt
  orders-IsNormal f (d ∷ rows) h = elim (Option-cases (f d)) [
    | inl e ↦ rw (All, e) (orders-IsNormal f rows h)
    | inr (u, e) ↦ rw (All, e) (h d u e, orders-IsNormal f rows h)
  ]

  pub filtered-IsNormal :
      (f : V → Option (DataMessage F)) (rows : List V)
      → ((d : V) (m : DataMessage F) → f d ≡ some m → IsNormal m)
      → All IsNormal (filter_map f rows)
  filtered-IsNormal f [] h = tt
  filtered-IsNormal f (d ∷ rows) h = elim (Option-cases (f d)) [
    | inl e ↦ rw (All, e) (filtered-IsNormal f rows h)
    | inr (m, e) ↦ rw (All, e) (h d m e, filtered-IsNormal f rows h)
  ]

  pub map-IsNormal :
      (f : V → DataMessage F) (rows : List V)
      → ((d : V) → IsNormal (f d))
      → All IsNormal (map f rows)
  map-IsNormal f [] h = tt
  map-IsNormal f (d ∷ rows) h = (h d, map-IsNormal f rows h)

pub unless_order :
    {F : Type 0} (m : DataMessage F) → ((u : OrderUpdate F) → m ≡ order_update u → ⊥) → IsNormal m
unless_order (order_update u) h = absurd (h u refl)
unless_order (trade x) h = tt
unless_order (ticker x) h = tt
unless_order (order_book x) h = tt
unless_order (candle x) h = tt
unless_order (funding_rate x) h = tt
unless_order (position_change x) h = tt
unless_order (balance_update x) h = tt
unless_order (instrument_event x) h = tt
unless_order (advanced_order_update x) h = tt

-- A choice is normal if both its sides are.
pub if_IsNormal :
    {F : Type 0} (b : Bool) (xs ys : List (DataMessage F))
    → All IsNormal xs
    → All IsNormal ys
    → All IsNormal (if b then xs else ys)
if_IsNormal true xs ys x y = x
if_IsNormal false xs ys x y = y

bybit_words : (status : Text) → InVocabulary (Bybit.map_status status)
unfolding in_vocabulary Bybit.map_status
bybit_words status = ground arith

binance_words : (status : Text) → InVocabulary (Binance.map_status status)
unfolding in_vocabulary Binance.map_status
binance_words status = ground arith

kraken_words : (status : Text) → InVocabulary (Kraken.map_order_status status)
unfolding in_vocabulary Kraken.map_order_status
kraken_words status = ground arith

cryptocom_words :
    {F : Type 0} ⦃fl : Float F⦄ (status : Text) (filled : F)
    → InVocabulary (Cryptocom.map_order_status status filled)
unfolding in_vocabulary Cryptocom.map_order_status
cryptocom_words status filled = ground arith

module _ {V F : Type 0} ⦃j : Json V⦄ ⦃jf : JsonFloat V F⦄ ⦃fl : Float F⦄ (now : ℤ) where
  pub bybit_order :
      (d : V) (u : OrderUpdate F) → Bybit.parse_order now d ≡ some u → InVocabulary u.status
  unfolding Bybit.parse_order
  bybit_order d u h = ground (arith, bybit_words (str_or_empty d (text "orderStatus")))

  pub bybit_execution :
      (d : V) (u : OrderUpdate F) → Bybit.parse_execution now d ≡ some u → InVocabulary u.status
  unfolding Bybit.parse_execution in_vocabulary
  bybit_execution d u h = ground arith

  pub binance_order :
      (d : V) (u : OrderUpdate F)
      → Binance.parse_execution_report now d ≡ some u
      → InVocabulary u.status
  unfolding Binance.parse_execution_report
  binance_order d u h = ground (arith, binance_words (str_or_empty d (text "X")))

  pub cryptocom_trade :
      (d : V) (u : OrderUpdate F)
      → Cryptocom.parse_user_trade now d ≡ some u
      → InVocabulary u.status
  unfolding Cryptocom.parse_user_trade in_vocabulary
  cryptocom_trade d u h = ground arith

  pub cryptocom_order :
      (d : V) (u : OrderUpdate F)
      → Cryptocom.parse_user_order now d ≡ some u
      → InVocabulary u.status
  unfolding Cryptocom.parse_user_order
  cryptocom_order d u h = ground (
    arith,
    cryptocom_words (str_or_empty d (text "status"))
        (str_f64 {F = F} d (text "cumulative_quantity")),
  )

  pub kraken_order :
      (parse_rfc3339 : Text → Option ℤ) (d : V) (u : OrderUpdate F)
      → Kraken.parse_execution parse_rfc3339 now d ≡ some u
      → InVocabulary u.status
  unfolding Kraken.parse_execution
  kraken_order parse_rfc3339 d u h =
      ground (arith, kraken_words (str_or_empty d (text "order_status")))
