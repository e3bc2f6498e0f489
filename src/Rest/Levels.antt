-- ===== src/Rest/Levels.antt =====
-- The levels of an order book, fetched by src/binance/rest.rs or src/bybit/rest.rs or streamed by
-- their connectors.
use exchange_apiws.Prelude.{ℕ, Option, none, some, List, [], ◌∷◌, ◌≡◌, refl, ap₂, get_elem?}
use exchange_apiws.Prelude.Text.{Text}
use exchange_apiws.Prelude.Options.{◌>>=◌, filter_map}
use exchange_apiws.Prelude.Json.{Json, JsonFloat}
use exchange_apiws.Streams
use exchange_apiws.Streams.{cell}
use exchange_apiws.Rest.{traverse, list_of, pair_of, text_pair, level, parse_levels}

-- A successful bind had a value.
>>=-eq-some :
    {A B : Type 0} (m : Option A) (f : A → Option B) (b : B)
    → (m >>= f) ≡ some b
    → (a : A) × (m ≡ some a) × (f a ≡ some b)
>>=-eq-some none f b h = cc
>>=-eq-some (some a) f b h = (a, refl, h)

module _ {V F : Type 0} ⦃j : Json V⦄ ⦃jf : JsonFloat V F⦄
    (indexes : (v : V) (vs : List V) (n : ℕ)
      → j.as_array v ≡ some vs
      → j.get_index v n ≡ get_elem? vs n) where
  pair_of-cells :
      (v : V) (vs : List V) (x y : Text)
      → j.as_array v ≡ some vs
      → pair_of vs ≡ some (x, y)
      → (cell v 0 ≡ jf.parse_f64 x) × (cell v 1 ≡ jf.parse_f64 y)
  unfolding cell
  pair_of-cells v [] x y e h = cc
  pair_of-cells v (p ∷ []) x y e h = cc
  pair_of-cells v (p ∷ q ∷ r ∷ vs) x y e h = cc
  pair_of-cells v (p ∷ q ∷ []) x y e h =
      let (s, ps, h') = >>=-eq-some (j.as_str p) _ (x, y) h in
      let (t, qs, same) = >>=-eq-some (j.as_str q) _ (x, y) h' in
      let first : s ≡ x = cc in
      let second : t ≡ y = cc in
      (
        rw (indexes v (p ∷ q ∷ []) 0 e, ps, first) refl,
        rw (indexes v (p ∷ q ∷ []) 1 e, qs, second) refl,
      )

  -- What the stream's parser makes of a row.
  abbrev streamed : V → Option (F × F)
  streamed row = do p ← cell row 0; q ← cell row 1; some (p, q)

  streamed-eq-level :
      (v : V) (x y : Text) → text_pair v ≡ some (x, y) → streamed v ≡ level jf.parse_f64 (x, y)
  streamed-eq-level v x y h =
      let (vs, e, h') = >>=-eq-some (j.as_array v) pair_of (x, y) h in
      let (first, second) = pair_of-cells v vs x y e h' in rw (first, second) refl

  filter_map-streamed :
      (vs : List V) (rows : List (Text × Text))
      → traverse text_pair vs ≡ some rows
      → filter_map streamed vs ≡ filter_map (level jf.parse_f64) rows
  filter_map-streamed [] [] h = refl
  filter_map-streamed [] (r ∷ rows) h = cc
  filter_map-streamed (v ∷ vs) rows h =
      let ((x, y), e, h') = >>=-eq-some (text_pair v) _ rows h in
      let (rest, es, same) = >>=-eq-some (traverse text_pair vs) _ rows h' in
      let whole : (x, y) ∷ rest ≡ rows = cc in
      rw (← whole) (
        ap₂ (λ o l. elim o as (λ _. List (F × F)) [ none ↦ l | some z ↦ z ∷ l ])
          (streamed-eq-level v x y e) (filter_map-streamed vs rest es))

  -- The levels of a side of the book that Binance's or Bybit's REST client decodes, `bids_f64` or
  -- `asks_f64`, are those that the parser of the streams reads from the same JSON, in the same order,
  -- whenever the client decodes it at all: for a book it makes no difference which way a side came.
  -- The hypothesis is that the elements of an array are found by their positions.
  pub parse_levels-streams :
      (v : V) (rows : List (Text × Text))
      → list_of text_pair v ≡ some rows
      → Streams.parse_levels (some v) ≡ parse_levels jf.parse_f64 rows
  unfolding parse_levels Streams.parse_levels
  parse_levels-streams v rows h =
      let (vs, e, h') = >>=-eq-some (j.as_array v) (traverse text_pair) rows h in
      rw e (filter_map-streamed vs rows h')
