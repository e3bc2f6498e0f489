-- ===== src/Private/Vocabulary/Frames.antt =====
-- Every frame that src/bybit/private_ws.rs, src/binance/private_ws.rs, src/cryptocom/private_ws.rs and
-- src/kraken/ws.rs parse tells the state of an order in the words of this crate.
use exchange_apiws.Prelude.{
  Bool, Option, none, some, List, [], ◌∷◌, ◌≡◌, arith, ◌⊎◌, inl, inr, All, Option-cases,
}
use exchange_apiws.Prelude.Text.{Text, text, same}
use exchange_apiws.Prelude.Options.{filter_map, unwrap_or}
use exchange_apiws.Prelude.Int.{ℤ}
use exchange_apiws.Prelude.Float.{Float}
use exchange_apiws.Prelude.Json.{Json, JsonFloat, str_at, i64_at, array_at}
use exchange_apiws.Actors.{DataMessage, order_book, order_update, position_change, balance_update}
use exchange_apiws.Streams.{str_or_empty}
use exchange_apiws.Streams.Kraken
use exchange_apiws.Private.{flat_map, i64_any}
use exchange_apiws.Private.Bybit
use exchange_apiws.Private.Binance
use exchange_apiws.Private.Cryptocom
use exchange_apiws.Private.Vocabulary.{
  IsNormal, FrameIsNormal, decoded, orders-IsNormal, filtered-IsNormal, map-IsNormal, unless_order,
  if_IsNormal, bybit_order, bybit_execution, binance_order, cryptocom_trade, cryptocom_order,
  kraken_order,
}

module _ {V : Type 0} (F : Type 0) ⦃j : Json V⦄ ⦃jf : JsonFloat V F⦄ ⦃fl : Float F⦄ (now : ℤ) where
  bybit_rows :
      (topic : Text) (ts : Option ℤ) (rows : List V)
      → All IsNormal (Bybit.parse_rows {F = F} now topic ts rows)
  unfolding Bybit.parse_rows
  bybit_rows topic ts rows =
      if_IsNormal (same topic (text "order")) _ _
        (orders-IsNormal (Bybit.parse_order now) rows (bybit_order now))
        (if_IsNormal (same topic (text "execution")) _ _
          (orders-IsNormal (Bybit.parse_execution now) rows (bybit_execution now))
          (if_IsNormal (same topic (text "position")) _ _
            (map-IsNormal position_change (filter_map (Bybit.parse_position now) rows) (λ d. tt))
            (if_IsNormal (same topic (text "wallet")) _ _
              (map-IsNormal balance_update (flat_map (Bybit.parse_wallet now ts) rows) (λ d. tt))
              tt)))

  cryptocom_rows :
      (channel : Text) (rows : List V)
      → All IsNormal (Cryptocom.parse_rows {F = F} now channel rows)
  unfolding Cryptocom.parse_rows
  cryptocom_rows channel rows =
      if_IsNormal (same channel (text "user.order")) _ _
        (orders-IsNormal (Cryptocom.parse_user_order now) rows (cryptocom_order now))
        (if_IsNormal (same channel (text "user.trade")) _ _
          (orders-IsNormal (Cryptocom.parse_user_trade now) rows (cryptocom_trade now))
          (if_IsNormal (same channel (text "user.balance")) _ _
            (map-IsNormal balance_update (flat_map (Cryptocom.parse_user_balance now) rows)
              (λ d. tt))
            tt))

  binance_balance :
      (ts : ℤ) (b : V) (m : DataMessage F) → Binance.parse_balance now ts b ≡ some m → IsNormal m
  unfolding Binance.parse_balance
  binance_balance ts b m h = unless_order m (λ u e. ground arith)

  kraken_balance :
      (parse_rfc3339 : Text → Option ℤ) (b : V) (m : DataMessage F)
      → Kraken.parse_balance parse_rfc3339 now b ≡ some m
      → IsNormal m
  unfolding Kraken.parse_balance
  kraken_balance parse_rfc3339 b m h = unless_order m (λ u e. ground arith)

  binance_report :
      (v : V)
      → All IsNormal (elim (Binance.parse_execution_report {F = F} now v) [
        | none ↦ []
        | some u ↦ order_update u ∷ []
      ])
  binance_report v = elim (Option-cases (Binance.parse_execution_report {F = F} now v)) [
    | inl e ↦ rw (All, e) tt
    | inr (u, e) ↦ rw (All, e) (binance_order now v u e, tt)
  ]

  binance_position : (v : V) → All IsNormal (Binance.parse_account_position {F = F} now v)
  unfolding Binance.parse_account_position
  binance_position v = elim (Option-cases (array_at v (text "B"))) [
    | inl e ↦ rw (All, Binance.parse_account_position, e) tt
    | inr (balances, e) ↦
        rw (All, Binance.parse_account_position, e)
          (filtered-IsNormal (Binance.parse_balance now (unwrap_or (i64_at v (text "E")) now))
            balances (binance_balance (unwrap_or (i64_at v (text "E")) now)))
  ]

  binance_event : (v : V) → All IsNormal (Binance.parse_event {F = F} now v)
  unfolding Binance.parse_event
  binance_event v =
      if_IsNormal (same (str_or_empty v (text "e")) (text "executionReport")) _ _ (binance_report v)
        (if_IsNormal (same (str_or_empty v (text "e")) (text "outboundAccountPosition")) _ _
          (binance_position v) tt)

  kraken_rows :
      (parse_rfc3339 : Text → Option ℤ) (channel : Text) (is_snapshot : Bool) (rows : List V)
      → All IsNormal (Kraken.parse_rows {F = F} parse_rfc3339 now channel is_snapshot rows)
  unfolding Kraken.parse_rows Kraken.parse_trade Kraken.parse_ticker Kraken.parse_kline
  kraken_rows parse_rfc3339 channel is_snapshot rows =
      if_IsNormal (same channel (text "trade")) _ _
        (map-IsNormal (Kraken.parse_trade parse_rfc3339 now) rows (λ d. tt))
        (if_IsNormal (same channel (text "ticker")) _ _
          (map-IsNormal (Kraken.parse_ticker parse_rfc3339 now) rows (λ d. tt))
          (if_IsNormal (same channel (text "ohlc")) _ _
            (map-IsNormal (Kraken.parse_kline parse_rfc3339 now) rows (λ d. tt))
            (if_IsNormal (same channel (text "book")) _ _
              (map-IsNormal (λ b. order_book (Kraken.parse_book parse_rfc3339 now is_snapshot b))
                rows (λ d. tt))
              (if_IsNormal (same channel (text "executions")) _ _
                (orders-IsNormal (Kraken.parse_execution parse_rfc3339 now) rows
                  (kraken_order now parse_rfc3339))
                (if_IsNormal (same channel (text "balances")) _ _
                  (filtered-IsNormal (Kraken.parse_balance parse_rfc3339 now) rows
                    (kraken_balance parse_rfc3339))
                  tt)))))

  bybit_frame :
      (decode : Text → Text ⊎ V) (raw : Text)
      → FrameIsNormal (Bybit.parse_message {F = F} now decode raw)
  unfolding Bybit.parse_message
  bybit_frame decode raw = elim (decoded (decode raw)) [
    | inl (e, p) ↦ rw (Bybit.parse_message, p) tt
    | inr (v, p) ↦ elim (Option-cases (j.get v (text "op"))) [
      | inr (op, q) ↦ rw (Bybit.parse_message, p, q) tt
      | inl q ↦ elim (Option-cases (array_at v (text "data"))) [
        | inl r ↦ rw (Bybit.parse_message, p, q, r) tt
        | inr (rows, r) ↦
            rw (Bybit.parse_message, p, q, r)
              (bybit_rows (str_or_empty v (text "topic")) (i64_any v (text "creationTime")) rows)
      ]
    ]
  ]

  binance_frame :
      (decode : Text → Text ⊎ V) (raw : Text)
      → FrameIsNormal (Binance.parse_message {F = F} now decode raw)
  unfolding Binance.parse_message
  binance_frame decode raw = elim (decoded (decode raw)) [
    | inl (e, p) ↦ rw (Binance.parse_message, p) tt
    | inr (v, p) ↦ rw (Binance.parse_message, p) (binance_event v)
  ]

  cryptocom_frame :
      (decode : Text → Text ⊎ V) (raw : Text)
      → FrameIsNormal (Cryptocom.parse_message {F = F} now decode raw)
  unfolding Cryptocom.parse_message
  cryptocom_frame decode raw = elim (decoded (decode raw)) [
    | inl (e, p) ↦ rw (Cryptocom.parse_message, p) tt
    | inr (v, p) ↦ elim (Option-cases (j.get v (text "result"))) [
      | inl q ↦ rw (Cryptocom.parse_message, p, q) tt
      | inr (result, q) ↦ elim (Option-cases (array_at result (text "data"))) [
        | inl r ↦ rw (Cryptocom.parse_message, p, q, r) tt
        | inr (rows, r) ↦
            rw (Cryptocom.parse_message, p, q, r)
              (cryptocom_rows (str_or_empty result (text "channel")) rows)
      ]
    ]
  ]

  kraken_frame :
      (parse_rfc3339 : Text → Option ℤ) (decode : Text → Text ⊎ V) (raw : Text)
      → FrameIsNormal (Kraken.parse_message {F = F} parse_rfc3339 now decode raw)
  unfolding Kraken.parse_message
  kraken_frame parse_rfc3339 decode raw = elim (decoded (decode raw)) [
    | inl (e, p) ↦ rw (Kraken.parse_message, p) tt
    | inr (v, p) ↦ elim (Option-cases (j.get v (text "method"))) [
      | inr (method, q) ↦ rw (Kraken.parse_message, p, q) tt
      | inl q ↦ elim (Option-cases (array_at v (text "data"))) [
        | inl r ↦ rw (Kraken.parse_message, p, q, r) tt
        | inr (rows, r) ↦
            rw (Kraken.parse_message, p, q, r)
              (kraken_rows parse_rfc3339 (str_or_empty v (text "channel"))
                (same (unwrap_or (str_at v (text "type")) (text "update")) (text "snapshot")) rows)
      ]
    ]
  ]

  -- Whatever frame arrives and whatever word the exchange uses, an order update that the private
  -- streams of Bybit, Binance and Crypto.com or the stream of Kraken make of it has one of the four
  -- states of this crate: open, partialFilled, filled or canceled.
  pub frames_normal :
      (parse_rfc3339 : Text → Option ℤ) (decode : Text → Text ⊎ V) (raw : Text)
      → FrameIsNormal (Bybit.parse_message {F = F} now decode raw)
        × FrameIsNormal (Binance.parse_message {F = F} now decode raw)
        × FrameIsNormal (Cryptocom.parse_message {F = F} now decode raw)
        × FrameIsNormal (Kraken.parse_message {F = F} parse_rfc3339 now decode raw)
  frames_normal parse_rfc3339 decode raw = (
    bybit_frame decode raw,
    binance_frame decode raw,
    cryptocom_frame decode raw,
    kraken_frame parse_rfc3339 decode raw,
  )
