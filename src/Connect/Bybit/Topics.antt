-- ===== src/Connect/Bybit/Topics.antt =====
-- What src/bybit/ws.rs subscribes to is what its parser recognises.
use exchange_apiws.Prelude.{ℕ, Bool, none, some, List, [], ◌∷◌, map, ◌≡◌, refl, ◌⊎◌, inr}
use exchange_apiws.Prelude.Text.{Text, text, same}
use exchange_apiws.Prelude.Options.{unwrap_or}
use exchange_apiws.Prelude.Int.{ℤ}
use exchange_apiws.Prelude.Float.{Float}
use exchange_apiws.Prelude.Json.{Json, JsonFloat, str_at, array_at}
use exchange_apiws.Actors.{DataMessage, order_book}
use exchange_apiws.Clients.Bybit.{BybitCategory}
use exchange_apiws.Streams.Bybit.{
  trade_topic, ticker_topic, kline_topic, orderbook_topic, parse_trade_batch, parse_ticker,
  parse_kline_batch, parse_orderbook, dispatch, parse_message,
}
use exchange_apiws.Connect.{JsonMake, Faithful}
use exchange_apiws.Connect.Bybit.{new, frame, subscription_message, build_ws_config}

-- The calls of the builders of topics.
pub data Topic : Type 0 where
  trades tickers : Text → Topic
  klines : Text → Text → Topic
  books : Text → ℕ → Topic

abbrev pub name_of : Topic → Text
name_of (trades symbol) = trade_topic symbol
name_of (tickers symbol) = ticker_topic symbol
name_of (klines symbol interval) = kline_topic symbol interval
name_of (books symbol depth) = orderbook_topic symbol depth

module _ {V F : Type 0} ⦃j : Json V⦄ ⦃jf : JsonFloat V F⦄ ⦃fl : Float F⦄ (now : ℤ) where
  -- The messages of a payload that answers a topic.
  abbrev pub messages_of : Topic → V → Bool → List (DataMessage F)
  messages_of (trades symbol) payload snapshot = parse_trade_batch now payload
  messages_of (tickers symbol) payload snapshot = parse_ticker now payload
  messages_of (klines symbol interval) payload snapshot = parse_kline_batch now payload
  messages_of (books symbol depth) payload snapshot =
      order_book (parse_orderbook now payload snapshot) ∷ []

  dispatch-name_of :
      (t : Topic) (payload : V) (snapshot : Bool)
      → dispatch now (name_of t) payload snapshot ≡ messages_of t payload snapshot
  unfolding dispatch trade_topic ticker_topic kline_topic orderbook_topic
  dispatch-name_of (trades symbol) payload snapshot = refl
  dispatch-name_of (tickers symbol) payload snapshot = refl
  dispatch-name_of (klines symbol interval) payload snapshot = refl
  dispatch-name_of (books symbol depth) payload snapshot = refl

  -- A connector built for some topics sends, if there are any, one frame that asks for exactly these
  -- in order, and its configuration carries that frame; and every frame of data on one of the topics
  -- is parsed by the parser of what was subscribed to. The hypotheses are that JSON is read as it was
  -- written.
  pub parse_message-name_of :
      (m : JsonMake V) (laws : Faithful m) (category : BybitCategory) (symbol : Text) (t : Topic)
      (topics : List Topic) (decode : Text → Text ⊎ V) (raw : Text) (v payload : V) (asked : Topic)
      → decode (m.print (frame m (map name_of (t ∷ topics))))
        ≡ inr (frame m (map name_of (t ∷ topics)))
      → decode raw ≡ inr v
      → j.get v (text "op") ≡ none
      → str_at v (text "topic") ≡ some (name_of asked)
      → j.get v (text "data") ≡ some payload
      → ((msg : Text) × (sent : V) × ((build_ws_config m
              (new category (map name_of (t ∷ topics)))
              symbol).subscription_msg
            ≡ some msg)
          × (decode msg ≡ inr sent)
          × (str_at sent (text "op") ≡ some (text "subscribe"))
          × (array_at sent (text "args") ≡ some (map m.string (map name_of (t ∷ topics)))))
        × (parse_message {F = F} now decode raw
            ≡ inr (
                messages_of asked payload
                  (same (unwrap_or (str_at v (text "type")) (text "snapshot")) (text "snapshot"))))
  unfolding new build_ws_config subscription_message parse_message
  parse_message-name_of m laws category symbol t topics decode raw v payload asked back read op
        topic filled =
      (
        (
          m.print (frame m (map name_of (t ∷ topics))),
          frame m (map name_of (t ∷ topics)),
          refl,
          back,
          simp (laws.get-object, laws.as_str-string) refl,
          simp (laws.get-object, laws.as_array-array) refl,
        ),
        rw (parse_message, read, op, filled, topic, dispatch-name_of asked) refl,
      )
