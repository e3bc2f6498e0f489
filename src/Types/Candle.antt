-- ===== src/Types/Candle.antt =====
-- `Candle::from_raw` of src/types.rs. The JSON values of `serde_json`, and the conversions of them and
-- of text to numbers, are parameters; a message is cut to the part that does not print a value.
use exchange_apiws.Prelude.{
  Option, none, some, List, [], ◌∷◌, ◌≡◌, refl, ◌⊎◌, inl, inr, arith, get_elem?,
}
use exchange_apiws.Prelude.Int.{ℤ}
use exchange_apiws.Prelude.Text.{Text, text}
use exchange_apiws.Error.{ExchangeError, insufficient_data}

pub record Candle (F : Type 0) : Type 0 where
  pub time : ℤ
  pub open_price : F
  pub high : F
  pub low : F
  pub close : F
  pub volume : F

-- The text of such an error.
abbrev pub message : ExchangeError → Text
message (insufficient_data m) = m
message _ = []

-- `?` on a result.
abbrev pub try : {A B : Type 0} → ExchangeError ⊎ A → (A → ExchangeError ⊎ B) → ExchangeError ⊎ B
try (inl e) f = inl e
try (inr a) f = f a

module _ {V F : Type 0} (as_i64 : V → Option ℤ) (as_str : V → Option Text) (as_f64 : V → Option F)
    (parse : Text → Option F) where
  -- The number that a field stands for: a string is parsed, anything else is read as a number.
  abbrev pub number : V → Option F
  number v = elim (as_str v) [ some s ↦ parse s | none ↦ as_f64 v ]

  unfoldable pub num : V → Text → ExchangeError ⊎ F
  num v field = elim (number v) [ none ↦ inl (insufficient_data field) | some x ↦ inr x ]

  unfoldable pub time_of : V → ExchangeError ⊎ ℤ
  time_of v = elim (as_i64 v) [
    | none ↦ inl (insufficient_data (text "candle[0] (timestamp) is not an integer"))
    | some t ↦ inr t
  ]

  unfoldable pub from_raw : List V → ExchangeError ⊎ Candle F
  unfolding num time_of
  from_raw (v0 ∷ v1 ∷ v2 ∷ v3 ∷ v4 ∷ v5 ∷ rest) = try (time_of v0) (λ time.
      try (num v1 (text "candle[1] (open)")) (λ open_price.
        try (num v2 (text "candle[2] (high)")) (λ high.
          try (num v3 (text "candle[3] (low)")) (λ low.
            try (num v4 (text "candle[4] (close)")) (λ close.
              try (num v5 (text "candle[5] (volume)")) (λ volume. inr (record {
                time = time;
                open_price = open_price;
                high = high;
                low = low;
                close = close;
                volume = volume;
              })))))))
  from_raw _ = inl (insufficient_data (text "candle array too short"))

  -- A candle that is read has its time in the first element and its five prices in the next five, in
  -- this order; further elements do not matter.
  pub from_raw-fields :
      (arr : List V) (c : Candle F)
      → from_raw arr ≡ inr c
      → ((v : V) × (get_elem? arr 0 ≡ some v) × (as_i64 v ≡ some c.time))
        × ((v : V) × (get_elem? arr 1 ≡ some v) × (number v ≡ some c.open_price))
        × ((v : V) × (get_elem? arr 2 ≡ some v) × (number v ≡ some c.high))
        × ((v : V) × (get_elem? arr 3 ≡ some v) × (number v ≡ some c.low))
        × ((v : V) × (get_elem? arr 4 ≡ some v) × (number v ≡ some c.close))
        × ((v : V) × (get_elem? arr 5 ≡ some v) × (number v ≡ some c.volume))
  unfolding from_raw
  from_raw-fields (v0 ∷ v1 ∷ v2 ∷ v3 ∷ v4 ∷ v5 ∷ rest) c h = (
    (v0, refl, ground arith),
    (v1, refl, ground arith),
    (v2, refl, ground arith),
    (v3, refl, ground arith),
    (v4, refl, ground arith),
    (v5, refl, ground arith),
  )
  from_raw-fields [] c h = cc
  from_raw-fields (a ∷ []) c h = cc
  from_raw-fields (a ∷ b ∷ []) c h = cc
  from_raw-fields (a ∷ b ∷ d ∷ []) c h = cc
  from_raw-fields (a ∷ b ∷ d ∷ e ∷ []) c h = cc
  from_raw-fields (a ∷ b ∷ d ∷ e ∷ f ∷ []) c h = cc

  -- Whatever is wrong with the array, the error is `InsufficientData`.
  pub from_raw-errors :
      (arr : List V) (e : ExchangeError) → from_raw arr ≡ inl e → e ≡ insufficient_data (message e)
  unfolding from_raw
  from_raw-errors (v0 ∷ v1 ∷ v2 ∷ v3 ∷ v4 ∷ v5 ∷ rest) e h = ground arith
  from_raw-errors [] e h = ground arith
  from_raw-errors (a ∷ []) e h = ground arith
  from_raw-errors (a ∷ b ∷ []) e h = ground arith
  from_raw-errors (a ∷ b ∷ c ∷ []) e h = ground arith
  from_raw-errors (a ∷ b ∷ c ∷ d ∷ []) e h = ground arith
  from_raw-errors (a ∷ b ∷ c ∷ d ∷ f ∷ []) e h = ground arith
