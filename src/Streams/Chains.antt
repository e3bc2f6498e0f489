-- ===== src/Streams/Chains.antt =====
-- The book messages that the connectors parse, fed to the local order book of src/book.rs: when the
-- exchange numbers its rows without a hole, the book stays synced.
pub mod Okx
pub mod Cryptocom
pub mod Single
use exchange_apiws.Prelude.{
  ℕ, ◌+◌, ◌≤◌, ◌<◌, ◌^◌, max, false, true, some, List, [], ◌∷◌, ◌++◌, map, ◌≡◌, refl, ap, arith,
  All,
}
use exchange_apiws.Prelude.Float.{Float}
use exchange_apiws.Actors.{DataMessage, order_book}
use exchange_apiws.Book.{OrderBookData, LocalOrderBook}
use exchange_apiws.Book.Invariant.{InRange, IsValid, run}
use exchange_apiws.Book.Chain.{Chained, highest, run-Chained}
use exchange_apiws.Streams.{books_of}

module _ {V F : Type 0} where
  pub books_of-map :
      (parse : V → OrderBookData F) (rows : List V)
      → books_of (map (λ d. order_book (parse d)) rows) ≡ map parse rows
  books_of-map parse [] = refl
  books_of-map parse (d ∷ rows) = ap (◌∷◌ (parse d)) (books_of-map parse rows)

  -- The book messages of frames that come one after the other.
  abbrev pub books_of_all : (V → List (DataMessage F)) → List V → List (OrderBookData F)
  books_of_all parse [] = []
  books_of_all parse (d ∷ rows) = books_of (parse d) ++ books_of_all parse rows

module _ {F : Type 0} ⦃fl : Float F⦄ where
  -- Deltas whose first id is at most one more than the last id of the one before.
  abbrev pub Numbered : ℕ → List (OrderBookData F) → Type 0
  Numbered prev [] = Unit
  Numbered prev (msg ∷ msgs) =
      (msg.is_snapshot ≡ false)
      × (first : ℕ) × (last : ℕ) × (msg.first_update_id ≡ some first)
      × (msg.last_update_id ≡ some last)
      × (first ≤ prev + 1)
      × (first < 2 ^ 64)
      × (last < 2 ^ 64)
      × Numbered last msgs

module _ {F : Type 0} ⦃fl : Float F⦄ where
  Numbered-Chained :
      (prev top : ℕ) (msgs : List (OrderBookData F))
      → prev ≤ top
      → Numbered prev msgs
      → Chained top msgs × All InRange msgs
  Numbered-Chained prev top [] le n = (tt, tt)
  Numbered-Chained prev top (msg ∷ msgs) le (d, first, last, f, l, near, bf, bl, n) =
      let rest = Numbered-Chained last (max top last) msgs (omega arith) n in
      ((d, last, l, rw f (omega arith), rest.0), (rw (l, f) (bl, bf), rest.1))

  -- A synced book stays synced through numbered deltas.
  pub run-Numbered :
      (b : LocalOrderBook F) (prev : ℕ) (msgs : List (OrderBookData F))
      → IsValid b
      → b.synced ≡ true
      → b.last_update_id ≡ some prev
      → Numbered prev msgs
      → ((run b msgs).0.synced ≡ true) × ((run b msgs).0.last_update_id ≡ some (highest prev msgs))
  run-Numbered b prev msgs v s p n =
      let (chained, in_range) = Numbered-Chained prev prev msgs (omega arith) n in
      run-Chained b msgs prev v in_range s p chained

  -- The same for the messages of a frame with one book message for each row.
  pub run-rows :
      {V : Type 0} (parse : V → OrderBookData F) (b : LocalOrderBook F) (prev : ℕ) (rows : List V)
      → IsValid b
      → b.synced ≡ true
      → b.last_update_id ≡ some prev
      → Numbered prev (map parse rows)
      → ((run b (books_of (map (λ d. order_book (parse d)) rows))).0.synced ≡ true)
        × ((run b (books_of (map (λ d. order_book (parse d)) rows))).0.last_update_id
            ≡ some (highest prev (map parse rows)))
  run-rows parse b prev rows v s p n =
      rw (books_of-map parse rows) (run-Numbered b prev (map parse rows) v s p n)
