-- ===== src/Rest/Tests.antt =====
-- Replies decoded by the public REST clients, and the theorems about them at such replies.
use mathlib.Core.Option
use exchange_apiws.Prelude.{ℕ, Option, none, some, List, [], ◌∷◌, ◌++◌, ◌≡◌, refl, ap, get_elem?}
use exchange_apiws.Prelude.Text.{text}
use exchange_apiws.Prelude.Options.{◌>>=◌}
use exchange_apiws.Prelude.Values.{
  Value, str, num, arr, obj, nil, cons, field, end, value_json, value_float, nat_float,
}
use exchange_apiws.Streams
use exchange_apiws.Rest.{url_of, parse_levels}
use exchange_apiws.Rest.Levels.{parse_levels-streams}
use exchange_apiws.Rest.Kraken.{
  split_pair_keyed, read_entry, decode_spread, decode_page, get_orderbook,
}
use exchange_apiws.Rest.Kraken.Pages.{split_pair_keyed-order}
use exchange_apiws.Rest.Binance.Endpoints.{price_filter, decode_filter, filter_of}
use exchange_apiws.Rest.Binance.{str_f64}
use exchange_apiws.Http.{build_query_string}

depth :
    url_of (text "https://api.kraken.com") (get_orderbook (text "XBT/USD") 10)
    ≡ text "https://api.kraken.com/0/public/Depth?pair=XBT%2FUSD&count=10"
unfolding url_of get_orderbook build_query_string
depth = refl

abbrev tick : Value
tick = arr (cons (num 7) (cons (str (text "1")) (cons (str (text "2")) nil)))

spread :
    Option.map
      (λ p. p.pair)
      (decode_spread
        (obj (field (text "last") (num 9) (field (text "XBT") (arr (cons tick nil)) end))))
    ≡ some (text "XBT")
unfolding decode_spread decode_page split_pair_keyed read_entry
spread = refl

notional_filter :
    decode_filter {F = ℕ} (
      obj (
        field (text "filterType") (str (text "PRICE_FILTER")) (
          field
            (text "tickSize")
            (str (text "5"))
            (field (text "minPrice") (str (text "1")) (field (text "maxPrice") (num 9) end)))))
    ≡ some (price_filter 5 1 9)
unfolding decode_filter filter_of str_f64
notional_filter = refl

abbrev rows_of : ℕ → Option (List ℕ)
rows_of n = some (n ∷ [])

abbrev cursor_of : ℕ → Option ℕ
cursor_of n = some n

split_pair_keyed-order_example :
    (split_pair_keyed rows_of cursor_of ([] ++ (text "XBT", 3) ∷ (text "last", 4) ∷ [])
      ≡ split_pair_keyed rows_of cursor_of ([] ++ (text "last", 4) ∷ (text "XBT", 3) ∷ []))
    × (split_pair_keyed rows_of cursor_of ((text "XBT", 3) ∷ (text "last", 4) ∷ [])
        ≡ (rows_of 3 >>= λ rows. cursor_of 4 >>= λ last. some (text "XBT", rows, last)))
    × (split_pair_keyed rows_of cursor_of ((text "XBT", 3) ∷ []) ≡ none)
    × (split_pair_keyed rows_of cursor_of ((text "last", 4) ∷ []) ≡ none)
split_pair_keyed-order_example =
    split_pair_keyed-order rows_of cursor_of [] [] (text "XBT") 3 4 refl

abbrev side : Value
side = arr (
    cons (arr (cons (str (text "100")) (cons (str (text "2")) nil)))
      (cons (arr (cons (str (text "x")) (cons (str (text "3")) nil))) nil))

indexes :
    (v : Value) (vs : List Value) (n : ℕ)
    → value_json.as_array v ≡ some vs
    → value_json.get_index v n ≡ get_elem? vs n
indexes v vs n e = ap (λ o. o >>= λ ws. get_elem? ws n) e

parse_levels-streams_example :
    Streams.parse_levels (some side)
    ≡ parse_levels value_float.parse_f64 ((text "100", text "2") ∷ (text "x", text "3") ∷ [])
parse_levels-streams_example =
    parse_levels-streams indexes side ((text "100", text "2") ∷ (text "x", text "3") ∷ []) refl
