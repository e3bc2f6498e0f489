-- ===== src/Kucoin/Topics.antt =====
-- The topics that src/ws/feed.rs subscribes to are the ones that its dispatch recognises.
use exchange_apiws.Prelude.{
  ℕ, true, false, ◌||◌, some, List, [], ◌∷◌, ◌++◌, ◌≡◌, refl, ◌∙◌, ap, arith, Bool-cases, inl, inr,
  ◌⊎◌, leb, if◌then◌else◌,
}
use exchange_apiws.Prelude.Text.{Text, text, has, after_last, starts_with, contains}
use exchange_apiws.Prelude.Options.{unwrap_or}
use exchange_apiws.Prelude.Int.{ℤ}
use exchange_apiws.Prelude.Float.{Float}
use exchange_apiws.Prelude.Json.{Json, JsonFloat}
use exchange_apiws.Actors.{DataMessage}
use exchange_apiws.Kucoin.{
  KucoinEnv, live_spot, live_futures, unified, WsMessage, Stream, trades, tickers, level2,
  order_updates, positions, balances, instruments, stop_orders, depths, subscription,
  extract_symbol, dispatch, parse_message, exchange_name,
}
use exchange_apiws.Kucoin.Parse.{
  parse_trade, parse_ticker, parse_orderbook_depth, parse_level2_delta, parse_order_update,
  parse_position_change, parse_balance_update, parse_instrument_event, parse_advanced_order_update,
}

-- The text after the last mark is what was appended after it.
after_last-append :
    (c : ℕ) (prefix s : Text)
    → has c s ≡ false
    → (has c (prefix ++ c ∷ s) ≡ true) × (after_last c (prefix ++ c ∷ s) ≡ s)
after_last-append c [] [] h = ground arith
after_last-append c [] (y ∷ s) h = ground arith
after_last-append c (x ∷ prefix) s h = ground (arith, after_last-append c prefix s h)

-- A needle without the mark does not start across it.
starts_with-append :
    (needle prefix : Text) (c : ℕ) (s : Text)
    → has c needle ≡ false
    → starts_with needle (prefix ++ c ∷ s) ≡ starts_with needle prefix
starts_with-append [] prefix c s h = refl
starts_with-append (x ∷ needle) [] c s h = ground arith
starts_with-append (x ∷ needle) (y ∷ prefix) c s h =
    ground (arith, starts_with-append needle prefix c s)

contains-append :
    (needle prefix : Text) (c : ℕ) (s : Text)
    → has c needle ≡ false
    → contains needle (prefix ++ c ∷ s) ≡ (contains needle prefix || contains needle s)
contains-append needle [] c s h = ground (arith, starts_with-append needle [] c s h)
contains-append needle (y ∷ prefix) c s h =
    ground
      (arith, starts_with-append needle (y ∷ prefix) c s h, contains-append needle prefix c s h)

-- A text without the needle's first character does not contain it.
contains-has : (c : ℕ) (needle s : Text) → has c s ≡ false → contains (c ∷ needle) s ≡ false
contains-has c needle [] h = refl
contains-has c needle (x ∷ s) h = ground (arith, contains-has c needle s)

-- A symbol as KuCoin writes them, in capitals: no mark of a topic is in it.
pub record IsPlain (symbol : Text) : Type 0 where
  pub no_colon : has b':' symbol ≡ false
  pub no_slash : has b'/' symbol ≡ false
  pub no_l : has b'l' symbol ≡ false

contains-topic :
    (c : ℕ) (needle prefix symbol : Text)
    → has b':' (c ∷ needle) ≡ false
    → has c symbol ≡ false
    → contains (c ∷ needle) (prefix ++ b':' ∷ symbol) ≡ contains (c ∷ needle) prefix
contains-topic c needle prefix symbol h k =
    contains-append (c ∷ needle) prefix b':' symbol h
    ∙ ground (arith, contains-has c needle symbol k)

module _ {V F : Type 0} ⦃j : Json V⦄ ⦃jf : JsonFloat V F⦄ ⦃fl : Float F⦄ (now later : ℤ) where
  -- What each stream's messages are parsed by.
  abbrev pub parsed : Stream → Text → Text → V → List (DataMessage F)
  parsed trades symbol subject payload = parse_trade now later symbol exchange_name payload
  parsed tickers symbol subject payload = parse_ticker now later symbol exchange_name payload
  parsed (depths depth) symbol subject payload =
      parse_orderbook_depth now later symbol exchange_name payload
  parsed level2 symbol subject payload = parse_level2_delta now later symbol exchange_name payload
  parsed order_updates symbol subject payload = parse_order_update now later exchange_name payload
  parsed positions symbol subject payload =
      parse_position_change now later symbol exchange_name payload
  parsed balances symbol subject payload = parse_balance_update now later exchange_name payload
  parsed instruments symbol subject payload =
      parse_instrument_event now later symbol exchange_name subject payload
  parsed stop_orders symbol subject payload =
      parse_advanced_order_update now later exchange_name payload

  -- The parser by what precedes the symbol.
  abbrev by_prefix : Text → Text → Text → V → List (DataMessage F)
  by_prefix prefix symbol subject payload =
      if contains (text "/contractMarket/execution") prefix
        || contains (text "/market/match") prefix
      then parse_trade now later symbol exchange_name payload
      else if contains (text "/contractMarket/tickerV2") prefix
          || (contains (text "/contractMarket/ticker") prefix
              || contains (text "/market/ticker") prefix)
      then parse_ticker now later symbol exchange_name payload
      else if contains (text "level2Depth") prefix
      then parse_orderbook_depth now later symbol exchange_name payload
      else if contains (text "level2") prefix
      then parse_level2_delta now later symbol exchange_name payload
      else if contains (text "/contractMarket/tradeOrders") prefix
      then parse_order_update now later exchange_name payload
      else if contains (text "/contract/position") prefix
      then parse_position_change now later symbol exchange_name payload
      else if contains (text "/contractAccount/wallet") prefix
      then parse_balance_update now later exchange_name payload
      else if contains (text "/contract/instrument") prefix
      then parse_instrument_event now later symbol exchange_name subject payload
      else if contains (text "/contractMarket/advancedOrders") prefix
      then parse_advanced_order_update now later exchange_name payload
      else []

  dispatch-prefix :
      (prefix symbol subject : Text) (payload : V)
      → IsPlain symbol
      → dispatch now later (prefix ++ b':' ∷ symbol) subject payload
        ≡ by_prefix prefix symbol subject payload
  unfolding dispatch extract_symbol
  dispatch-prefix prefix symbol subject payload h =
      rw
        (
          (after_last-append b':' prefix symbol h.no_colon).1,
          contains-topic b'/' (text "contractMarket/execution") prefix symbol refl h.no_slash,
          contains-topic b'/' (text "market/match") prefix symbol refl h.no_slash,
          contains-topic b'/' (text "contractMarket/tickerV2") prefix symbol refl h.no_slash,
          contains-topic b'/' (text "contractMarket/ticker") prefix symbol refl h.no_slash,
          contains-topic b'/' (text "market/ticker") prefix symbol refl h.no_slash,
          contains-topic b'l' (text "evel2Depth") prefix symbol refl h.no_l,
          contains-topic b'l' (text "evel2") prefix symbol refl h.no_l,
          contains-topic b'/' (text "contractMarket/tradeOrders") prefix symbol refl h.no_slash,
          contains-topic b'/' (text "contract/position") prefix symbol refl h.no_slash,
          contains-topic b'/' (text "contractAccount/wallet") prefix symbol refl h.no_slash,
          contains-topic b'/' (text "contract/instrument") prefix symbol refl h.no_slash,
          contains-topic b'/' (text "contractMarket/advancedOrders") prefix symbol refl h.no_slash,
        )
        refl

  dispatch-subscription :
      (uuid : Text) (env : KucoinEnv) (stream : Stream) (symbol subject : Text) (payload : V)
      → IsPlain symbol
      → dispatch now later
          (unwrap_or (subscription {V = V} uuid env stream symbol).topic [])
          subject
          payload
        ≡ parsed stream symbol subject payload
  unfolding subscription
  dispatch-subscription uuid live_futures trades symbol subject payload h =
      dispatch-prefix (text "/contractMarket/execution") symbol subject payload h
  dispatch-subscription uuid live_spot trades symbol subject payload h =
      dispatch-prefix (text "/market/match") symbol subject payload h
  dispatch-subscription uuid unified trades symbol subject payload h =
      dispatch-prefix (text "/market/match") symbol subject payload h
  dispatch-subscription uuid live_futures tickers symbol subject payload h =
      dispatch-prefix (text "/contractMarket/tickerV2") symbol subject payload h
  dispatch-subscription uuid live_spot tickers symbol subject payload h =
      dispatch-prefix (text "/market/ticker") symbol subject payload h
  dispatch-subscription uuid unified tickers symbol subject payload h =
      dispatch-prefix (text "/market/ticker") symbol subject payload h
  dispatch-subscription uuid live_futures level2 symbol subject payload h =
      dispatch-prefix (text "/contractMarket/level2") symbol subject payload h
  dispatch-subscription uuid live_spot level2 symbol subject payload h =
      dispatch-prefix (text "/market/level2") symbol subject payload h
  dispatch-subscription uuid unified level2 symbol subject payload h =
      dispatch-prefix (text "/market/level2") symbol subject payload h
  dispatch-subscription uuid env positions symbol subject payload h =
      dispatch-prefix (text "/contract/position") symbol subject payload h
  dispatch-subscription uuid env instruments symbol subject payload h =
      dispatch-prefix (text "/contract/instrument") symbol subject payload h
  dispatch-subscription uuid live_futures (depths depth) symbol subject payload h =
      elim (Bool-cases (leb depth 5)) [
        | inl e ↦
            rw e (dispatch-prefix (text "/contractMarket/level2Depth5") symbol subject payload h)
        | inr e ↦
            rw e (dispatch-prefix (text "/contractMarket/level2Depth50") symbol subject payload h)
      ]
  dispatch-subscription uuid live_spot (depths depth) symbol subject payload h =
      elim (Bool-cases (leb depth 5)) [
        | inl e ↦ rw e (dispatch-prefix (text "/spotMarket/level2Depth5") symbol subject payload h)
        | inr e ↦ rw e (dispatch-prefix (text "/spotMarket/level2Depth50") symbol subject payload h)
      ]
  dispatch-subscription uuid unified (depths depth) symbol subject payload h =
      elim (Bool-cases (leb depth 5)) [
        | inl e ↦ rw e (dispatch-prefix (text "/spotMarket/level2Depth5") symbol subject payload h)
        | inr e ↦ rw e (dispatch-prefix (text "/spotMarket/level2Depth50") symbol subject payload h)
      ]
  dispatch-subscription uuid env order_updates symbol subject payload h = unfold dispatch in refl
  dispatch-subscription uuid env balances symbol subject payload h = unfold dispatch in refl
  dispatch-subscription uuid env stop_orders symbol subject payload h = unfold dispatch in refl

  -- Round trip of a topic: a message on the topic that the connector subscribed to for a stream and a
  -- symbol without colon, slash or small l is parsed by that stream's parser, in each environment,
  -- and with that symbol.
  pub parse_message-subscription :
      (decode : Text → Text ⊎ WsMessage V) (raw uuid : Text) (env : KucoinEnv) (stream : Stream)
      (symbol : Text) (msg : WsMessage V) (payload : V)
      → IsPlain symbol
      → decode raw ≡ inr msg
      → msg.msg_type ≡ text "message"
      → msg.payload ≡ some payload
      → msg.topic ≡ (subscription {V = V} uuid env stream symbol).topic
      → parse_message now later decode raw
        ≡ inr (parsed stream symbol (unwrap_or msg.subject (text "unknown")) payload)
  unfolding parse_message
  parse_message-subscription decode raw uuid env stream symbol msg payload h d m p t =
      rw (d, parse_message, m, p, t)
        (ap inr (
          dispatch-subscription uuid env stream symbol (unwrap_or msg.subject (text "unknown"))
            payload h))
