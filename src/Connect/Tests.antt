-- ===== src/Connect/Tests.antt =====
-- Runs of the constructors and subscriptions of the connectors, and the theorems at them.
use exchange_apiws.Prelude.{
  ℕ, false, Option, none, some, List, [], ◌∷◌, map, ◌≡◌, refl, ◌∙◌, ap, ◌⊎◌, inr, arith,
  if◌then◌else◌,
}
use exchange_apiws.Prelude.Text.{Text, text, same}
use exchange_apiws.Prelude.Options.{or_else}
use exchange_apiws.Prelude.Int.{ℤ, pos, negsuc}
use exchange_apiws.Prelude.Values.{
  Value, Items, Fields, null, num, str, obj, arr, end, field, nil, cons, to_list, value_json,
  value_float, nat_float,
}
use exchange_apiws.Prelude.Json.{str_at, array_at}
use exchange_apiws.Actors.{order_book}
use exchange_apiws.Clients.Bybit.{BybitCategory}
use exchange_apiws.Streams.Binance.{parse_message, parse_depth_snapshot}
use exchange_apiws.Streams.Bybit as BybitStream
use exchange_apiws.Streams.Kraken as KrakenStream
use exchange_apiws.Connect.{JsonMake, Faithful, find_last}
use exchange_apiws.Connect.Binance.{spot, depth_snapshot_stream, kline_stream}
use exchange_apiws.Connect.Binance.Symbols.{parse_message-depth_snapshot_stream}
use exchange_apiws.Connect.Bybit
use exchange_apiws.Connect.Bybit.Topics
use exchange_apiws.Connect.Kraken.Dispatched

abbrev items : List Value → Items
items [] = nil
items (v ∷ vs) = cons v (items vs)

to_list-items : (vs : List Value) → to_list (items vs) ≡ vs
to_list-items [] = refl
to_list-items (v ∷ vs) = ap (λ l. v ∷ l) (to_list-items vs)

-- The fields, the last before the first.
abbrev fields : List (Text × Value) → Fields → Fields
fields [] acc = acc
fields ((k, v) ∷ rest) acc = fields rest (field k v acc)

get-fields :
    (fs : List (Text × Value)) (acc : Fields) (key : Text)
    → value_json.get (obj (fields fs acc)) key
      ≡ or_else (find_last key fs) (value_json.get (obj acc) key)
get-fields [] acc key = refl
get-fields ((k, v) ∷ fs) acc key = ground (arith, get-fields fs (field k v acc) key)

or_else-none : (o : Option Value) → or_else o none ≡ o
or_else-none none = refl
or_else-none (some v) = refl

abbrev whole : ℤ → Value
whole (pos n) = num n
whole (negsuc n) = null

abbrev make : JsonMake Value
make = record {
  string = str;
  number = num;
  integer = whole;
  array = λ vs. arr (items vs);
  object = λ fs. obj (fields fs end);
  print = λ v. text "{}";
}

make-Faithful : Faithful make
make-Faithful = record {
  get-object = λ fs key. get-fields fs end key ∙ or_else-none (find_last key fs);
  as_str-string = λ s. refl;
  as_array-array = λ vs. ap some (to_list-items vs);
}

-- A decoder that reads one frame, and anything else as another.
abbrev reads : Value → Value → Text → Text ⊎ Value
reads frame sent s = if same s (text "raw") then inr frame else inr sent

spot_url :
    (spot (
      kline_stream (text "BTCUSDT") (text "1m")
      ∷ depth_snapshot_stream (text "ETHUSDT") 7
      ∷ [])).url
    ≡ text "wss://stream.binance.com:9443/stream?streams=btcusdt@kline_1m/ethusdt@depth10@100ms"
unfolding spot kline_stream depth_snapshot_stream
spot_url = refl

-- A depth frame of the stream `btcusdt@depth5@100ms`.
abbrev depth : Value
depth = obj (field (text "lastUpdateId") (num 7) end)

abbrev depth_frame : Value
depth_frame =
    obj (field (text "stream") (str (text "btcusdt@depth5@100ms")) (field (text "data") depth end))

parse_message-depth_snapshot_stream_example :
    parse_message (pos 9) (reads depth_frame null) null (text "binance") (text "raw")
    ≡ inr (
        order_book (parse_depth_snapshot {F = ℕ} (pos 9) (text "binance") (text "BTCUSDT") depth)
        ∷ [])
unfolding depth_snapshot_stream
parse_message-depth_snapshot_stream_example =
    parse_message-depth_snapshot_stream ℕ (pos 9) (reads depth_frame null) null depth_frame depth
      (num 7) (text "binance") (text "raw") (text "BTCUSDT") 3 (ground arith) refl refl refl refl
      refl refl

abbrev subscribed : Dispatched.Subscription
subscribed = Dispatched.books (text "BTC/USD" ∷ text "ETH/USD" ∷ []) 10

abbrev kraken_frame : Value
kraken_frame = obj (
    field (text "channel") (str (text "book")) (field (text "data") (arr (cons (obj end) nil)) end))

parse_message-frame_of_example :
    ((sent : Value) × (reads kraken_frame
          (Dispatched.frame_of make subscribed)
          (Dispatched.text_of make subscribed)
        ≡ inr sent)
      × Dispatched.Asks make sent subscribed)
    × (KrakenStream.parse_message
          (λ s. none)
          (pos 9)
          (reads kraken_frame (Dispatched.frame_of make subscribed))
          (text "raw")
        ≡ inr (Dispatched.messages_of {F = ℕ} (λ s. none) (pos 9) subscribed false (obj end ∷ [])))
parse_message-frame_of_example =
    Dispatched.parse_message-frame_of (λ s. none) (pos 9) make make-Faithful subscribed
      (reads kraken_frame (Dispatched.frame_of make subscribed)) (text "raw") kraken_frame
      (obj end ∷ []) refl refl refl refl refl

abbrev bybit_topics : List Topics.Topic
bybit_topics = Topics.klines (text "BTCUSDT") (text "5") ∷ []

abbrev bybit_sent : Value
bybit_sent = Bybit.frame make (map Topics.name_of (Topics.trades (text "BTCUSDT") ∷ bybit_topics))

abbrev bybit_frame : Value
bybit_frame =
    obj (field (text "topic") (str (text "kline.5.BTCUSDT")) (field (text "data") (arr nil) end))

parse_message-name_of_example :
    ((msg : Text) × (sent : Value) × ((Bybit.build_ws_config make
          (Bybit.new BybitCategory.linear
            (map Topics.name_of (Topics.trades (text "BTCUSDT") ∷ bybit_topics)))
          (text "BTCUSDT")).subscription_msg
        ≡ some msg)
      × (reads bybit_frame bybit_sent msg ≡ inr sent)
      × (str_at sent (text "op") ≡ some (text "subscribe"))
      × (array_at sent (text "args")
          ≡ some (map str (map Topics.name_of (Topics.trades (text "BTCUSDT") ∷ bybit_topics)))))
    × (BybitStream.parse_message {F = ℕ} (pos 9) (reads bybit_frame bybit_sent) (text "raw")
        ≡ inr [])
unfolding BybitStream.kline_topic BybitStream.parse_kline_batch
parse_message-name_of_example =
    Topics.parse_message-name_of (pos 9) make make-Faithful BybitCategory.linear (text "BTCUSDT")
      (Topics.trades (text "BTCUSDT")) bybit_topics (reads bybit_frame bybit_sent) (text "raw")
      bybit_frame (arr nil) (Topics.klines (text "BTCUSDT") (text "5")) refl refl refl refl refl
