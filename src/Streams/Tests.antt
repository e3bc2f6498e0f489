-- ===== src/Streams/Tests.antt =====
-- Runs of the connectors of src/okx, src/cryptocom, src/coinbase and of the level2 stream of
-- src/ws/feed.rs with the local order book, and the theorems at them.
use exchange_apiws.Prelude.{
  ℕ, Bool, true, false, none, some, List, [], ◌∷◌, ◌++◌, map, ◌≡◌, refl, ◌⊎◌, inr, arith,
}
use exchange_apiws.Prelude.Text.{Text, text}
use exchange_apiws.Prelude.Int.{pos}
use exchange_apiws.Prelude.Values.{
  Value, num, str, obj, arr, end, field, nil, cons, value_json, value_float, nat_float,
}
use exchange_apiws.Actors.{DataMessage}
use exchange_apiws.Book.{LocalOrderBook, gap}
use exchange_apiws.Book.Invariant.{IsValid, run}
use exchange_apiws.Streams.{books_of}
use exchange_apiws.Streams.Okx
use exchange_apiws.Streams.Coinbase.{parse_update, parse_updates}
use exchange_apiws.Streams.Coinbase.Updates.{Malformed, levels_of, parse_updates-outcome}
use exchange_apiws.Streams.Chains.{books_of_all}
use exchange_apiws.Streams.Chains.Okx.{parse_message-synced}
use exchange_apiws.Streams.Chains.Single.{parse_level2_delta-synced, parse_level2_delta-dropped}
use exchange_apiws.Kucoin.Parse.{parse_level2_delta}

-- A book at the id 10.
abbrev book : LocalOrderBook ℕ
book = record {
  bids = [];
  asks = [];
  last_update_id = some 10;
  synced = true;
  symbol = text "S";
  exchange = text "x";
  exchange_ts = pos 0;
}

book-IsValid : IsValid book
book-IsValid = ground arith

abbrev okx_row : ℕ → ℕ → Value
okx_row prev last = obj (field (text "prevSeqId") (num prev) (field (text "seqId") (num last) end))

abbrev okx_arg : Value
okx_arg = obj (field (text "channel") (str (text "books")) end)

abbrev okx_frame : Value
okx_frame = obj (
    field (text "arg") okx_arg (
      field (text "action") (str (text "update"))
        (field (text "data") (arr (cons (okx_row 10 12) (cons (okx_row 12 13) nil))) end)))

parse_message-synced_example :
    (msgs : List (DataMessage ℕ)) × (Okx.parse_message (pos 5) (λ raw. inr okx_frame) (text "{}")
      ≡ inr msgs)
    × ((run book (books_of msgs)).0.synced ≡ true)
    × ((run book (books_of msgs)).0.last_update_id ≡ some 13)
unfolding Okx.parse_book Okx.last_id
parse_message-synced_example =
    parse_message-synced (pos 5) (λ raw. inr okx_frame) (text "{}") okx_frame okx_arg
      (okx_row 10 12 ∷ okx_row 12 13 ∷ []) 10 book refl refl refl refl refl refl refl
      (12, refl, refl, omega arith, (13, refl, refl, omega arith, tt)) (omega arith) book-IsValid
      refl refl

abbrev cryptocom_row : ℕ → ℕ → Value
cryptocom_row prev last = obj (field (text "pu") (num prev) (field (text "u") (num last) end))

abbrev cryptocom_result : Value
cryptocom_result = obj (
    field (text "channel") (str (text "book")) (
      field (text "type") (str (text "update")) (
        field (text "data") (arr (cons (cryptocom_row 10 12) (cons (cryptocom_row 12 13) nil)))
          end)))

abbrev cryptocom_frame : Value
cryptocom_frame =
    obj
      (field (text "method") (str (text "subscribe")) (field (text "result") cryptocom_result end))

abbrev change : Text → ℕ → Value
change price n =
    obj (field (text "change") (str (price ++ text ",buy,7")) (field (text "sequence") (num n) end))

parse_level2_delta-synced_example :
    ((run book (
        books_of_all
          (parse_level2_delta (pos 5) (pos 6) (text "S") (text "kucoin"))
          (change (text "100") 11 ∷ change (text "101") 12 ∷ []))).0.synced
      ≡ true)
    × ((run book (
          books_of_all
            (parse_level2_delta (pos 5) (pos 6) (text "S") (text "kucoin"))
            (change (text "100") 11 ∷ change (text "101") 12 ∷ []))).0.last_update_id
        ≡ some 12)
parse_level2_delta-synced_example =
    parse_level2_delta-synced ℕ (pos 5) (pos 6) (text "S") (text "kucoin") 10
      (change (text "100") 11 ∷ change (text "101") 12 ∷ []) book
      (refl, refl, omega arith, (refl, refl, omega arith, tt)) book-IsValid refl refl

parse_level2_delta-dropped_example :
    run book (
      books_of_all
        (parse_level2_delta (pos 5) (pos 6) (text "S") (text "kucoin"))
        (change (text "0") 11 ∷ change (text "101") 12 ∷ []))
    ≡ (record book { synced = false }, gap 11 12 ∷ [])
parse_level2_delta-dropped_example =
    parse_level2_delta-dropped ℕ (pos 5) (pos 6) (text "S") (text "kucoin") (change (text "0") 11)
      (change (text "101") 12) 10 book refl refl refl refl (omega arith) book-IsValid refl refl

abbrev update : Text → Text → Value
update price side = obj (
    field (text "price_level") (str price)
      (field (text "new_quantity") (str (text "5")) (field (text "side") (str side) end)))

code : Unit {0}
unfolding parse_update parse_updates
code = tt

kept :
    parse_updates {F = ℕ} (update (text "9") (text "bid") ∷ update (text "8") (text "offer") ∷ [])
    ≡ some ((9, 5) ∷ [], (8, 5) ∷ [])
unfolding code
kept = refl

lost :
    parse_updates {F = ℕ} (update (text "9") (text "bid") ∷ update (text "x") (text "bid") ∷ [])
    ≡ none
unfolding code
lost = refl

parse_updates-outcome_example :
    (Malformed ℕ (update (text "9") (text "bid") ∷ [])
      × (parse_updates {F = ℕ} (update (text "9") (text "bid") ∷ []) ≡ none))
    ⊎ ((rows : List (ℕ × ℕ × Bool)) × (map parse_update (update (text "9") (text "bid") ∷ [])
          ≡ map some rows)
        × (parse_updates (update (text "9") (text "bid") ∷ [])
            ≡ some (levels_of true rows, levels_of false rows)))
parse_updates-outcome_example = parse_updates-outcome ℕ (update (text "9") (text "bid") ∷ [])
