-- ===== src/Connect/Kraken/Dispatched.antt =====
-- What src/kraken/ws.rs subscribes to is what its parser recognises.
use exchange_apiws.Prelude.{
  ℕ, Bool, Option, none, some, List, [], ◌∷◌, map, ◌≡◌, refl, ap, ◌⊎◌, inr,
}
use exchange_apiws.Prelude.Text.{Text, text, same}
use exchange_apiws.Prelude.Options.{◌>>=◌, unwrap_or, filter_map}
use mathlib.Core.Option
use exchange_apiws.Prelude.Int.{ℤ}
use exchange_apiws.Prelude.Float.{Float}
use exchange_apiws.Prelude.Json.{Json, JsonFloat, str_at, array_at}
use exchange_apiws.Actors.{DataMessage, order_book, order_update}
use exchange_apiws.Streams.Kraken.{
  parse_trade, parse_ticker, parse_kline, parse_book, parse_execution, parse_balance, parse_rows,
  parse_message,
}
use exchange_apiws.Connect.{JsonMake, Faithful}
use exchange_apiws.Connect.Kraken.{
  subscribe, pairs_params, token_params, trade_subscription, ticker_subscription, ohlc_subscription,
  book_subscription, executions_subscription, balances_subscription,
}

-- The calls of the builders of subscriptions.
pub data Subscription : Type 0 where
  trades tickers : List Text → Subscription
  candles books : List Text → ℕ → Subscription
  executions balances : Text → Subscription

abbrev pub channel_of : Subscription → Text
channel_of (trades pairs) = text "trade"
channel_of (tickers pairs) = text "ticker"
channel_of (candles pairs interval) = text "ohlc"
channel_of (books pairs depth) = text "book"
channel_of (executions token) = text "executions"
channel_of (balances token) = text "balances"

abbrev pub pairs_of : Subscription → Option (List Text)
pairs_of (trades pairs) = some pairs
pairs_of (tickers pairs) = some pairs
pairs_of (candles pairs interval) = some pairs
pairs_of (books pairs depth) = some pairs
pairs_of (executions token) = none
pairs_of (balances token) = none

abbrev pub token_of : Subscription → Option Text
token_of (trades pairs) = none
token_of (tickers pairs) = none
token_of (candles pairs interval) = none
token_of (books pairs depth) = none
token_of (executions token) = some token
token_of (balances token) = some token

module _ {V : Type 0} (m : JsonMake V) where
  -- The text that is sent, and the value that it was printed from.
  abbrev pub text_of : Subscription → Text
  text_of (trades pairs) = trade_subscription m pairs
  text_of (tickers pairs) = ticker_subscription m pairs
  text_of (candles pairs interval) = ohlc_subscription m pairs interval
  text_of (books pairs depth) = book_subscription m pairs depth
  text_of (executions token) = executions_subscription m token
  text_of (balances token) = balances_subscription m token

  abbrev pub frame_of : Subscription → V
  frame_of (trades pairs) = subscribe m (pairs_params m (text "trade") pairs [])
  frame_of (tickers pairs) = subscribe m (pairs_params m (text "ticker") pairs [])
  frame_of (candles pairs interval) =
      subscribe m (pairs_params m (text "ohlc") pairs ((text "interval", m.number interval) ∷ []))
  frame_of (books pairs depth) =
      subscribe m (pairs_params m (text "book") pairs ((text "depth", m.number depth) ∷ []))
  frame_of (executions token) = subscribe m (token_params m (text "executions") token)
  frame_of (balances token) = subscribe m (token_params m (text "balances") token)

  text_of-print : (s : Subscription) → text_of s ≡ m.print (frame_of s)
  unfolding trade_subscription ticker_subscription ohlc_subscription book_subscription
      executions_subscription balances_subscription
  text_of-print (trades pairs) = refl
  text_of-print (tickers pairs) = refl
  text_of-print (candles pairs interval) = refl
  text_of-print (books pairs depth) = refl
  text_of-print (executions token) = refl
  text_of-print (balances token) = refl

module _ {V : Type 0} ⦃j : Json V⦄ (m : JsonMake V) where
  abbrev pub param_str : V → Text → Option Text
  param_str sent key = j.get sent (text "params") >>= λ p. str_at p key

  -- The channel, the pairs and the token that a subscription asks for.
  abbrev pub Asks : V → Subscription → Type 0
  Asks sent s =
      (str_at sent (text "method") ≡ some (text "subscribe"))
      × (param_str sent (text "channel") ≡ some (channel_of s))
      × ((j.get sent (text "params") >>= λ p. array_at p (text "symbol"))
          ≡ Option.map (map m.string) (pairs_of s))
      × (param_str sent (text "token") ≡ token_of s)

  frame_of-Asks : Faithful m → (s : Subscription) → Asks (frame_of m s) s
  frame_of-Asks laws (trades pairs) =
      simp (laws.get-object, laws.as_str-string, laws.as_array-array) (refl, refl, refl, refl)
  frame_of-Asks laws (tickers pairs) =
      simp (laws.get-object, laws.as_str-string, laws.as_array-array) (refl, refl, refl, refl)
  frame_of-Asks laws (candles pairs interval) =
      simp (laws.get-object, laws.as_str-string, laws.as_array-array) (refl, refl, refl, refl)
  frame_of-Asks laws (books pairs depth) =
      simp (laws.get-object, laws.as_str-string, laws.as_array-array) (refl, refl, refl, refl)
  frame_of-Asks laws (executions token) =
      simp (laws.get-object, laws.as_str-string) (refl, refl, refl, refl)
  frame_of-Asks laws (balances token) =
      simp (laws.get-object, laws.as_str-string) (refl, refl, refl, refl)

module _ {V F : Type 0} ⦃j : Json V⦄ ⦃jf : JsonFloat V F⦄ ⦃fl : Float F⦄
    (parse_rfc3339 : Text → Option ℤ) (now : ℤ) where
  -- The messages of the rows that answer a subscription.
  abbrev pub messages_of : Subscription → Bool → List V → List (DataMessage F)
  messages_of (trades pairs) snapshot rows = map (parse_trade parse_rfc3339 now) rows
  messages_of (tickers pairs) snapshot rows = map (parse_ticker parse_rfc3339 now) rows
  messages_of (candles pairs interval) snapshot rows = map (parse_kline parse_rfc3339 now) rows
  messages_of (books pairs depth) snapshot rows =
      map (λ b. order_book (parse_book parse_rfc3339 now snapshot b)) rows
  messages_of (executions token) snapshot rows =
      map order_update (filter_map (parse_execution parse_rfc3339 now) rows)
  messages_of (balances token) snapshot rows = filter_map (parse_balance parse_rfc3339 now) rows

  parse_rows-channel_of :
      (s : Subscription) (snapshot : Bool) (rows : List V)
      → parse_rows parse_rfc3339 now (channel_of s) snapshot rows ≡ messages_of s snapshot rows
  unfolding parse_rows
  parse_rows-channel_of (trades pairs) snapshot rows = refl
  parse_rows-channel_of (tickers pairs) snapshot rows = refl
  parse_rows-channel_of (candles pairs interval) snapshot rows = refl
  parse_rows-channel_of (books pairs depth) snapshot rows = refl
  parse_rows-channel_of (executions token) snapshot rows = refl
  parse_rows-channel_of (balances token) snapshot rows = refl

  -- Every subscription that Kraken's builders write, once read back, asks for a channel, with the
  -- pairs or the token that the caller gave; and every frame of rows on that channel is parsed, each
  -- row by the parser of what was subscribed to. The hypotheses are that JSON is read as it was
  -- written.
  pub parse_message-frame_of :
      (m : JsonMake V) (laws : Faithful m) (s : Subscription) (decode : Text → Text ⊎ V)
      (raw : Text) (v : V) (rows : List V)
      → decode (m.print (frame_of m s)) ≡ inr (frame_of m s)
      → decode raw ≡ inr v
      → j.get v (text "method") ≡ none
      → str_at v (text "channel") ≡ some (channel_of s)
      → array_at v (text "data") ≡ some rows
      → ((sent : V) × (decode (text_of m s) ≡ inr sent) × Asks m sent s)
        × (parse_message {F = F} parse_rfc3339 now decode raw
            ≡ inr (
                messages_of s
                  (same (unwrap_or (str_at v (text "type")) (text "update")) (text "snapshot"))
                  rows))
  unfolding parse_message
  parse_message-frame_of m laws s decode raw v rows back read method channel filled = (
    (frame_of m s, rw (text_of-print m s) back, frame_of-Asks m laws s),
    rw (parse_message, read, method, filled, channel) (ap inr (parse_rows-channel_of s _ rows)),
  )
