-- ===== src/Streams/Chains/Single.antt =====
-- The exchanges whose frames hold one book message: the level2 stream of src/ws/feed.rs, and the depth
-- updates of src/binance/ws.rs, with the local order book.
use exchange_apiws.Prelude.{
  ℕ, ◌+◌, ◌<◌, ◌^◌, false, true, some, List, [], ◌∷◌, ◌≡◌, refl, arith, max, length,
}
use exchange_apiws.Prelude.Text.{Text, text}
use exchange_apiws.Prelude.Int.{ℤ}
use exchange_apiws.Prelude.Float.{Float}
use exchange_apiws.Prelude.Json.{Json, JsonFloat, u64_at}
use exchange_apiws.Actors.{order_book}
use exchange_apiws.Book.{LocalOrderBook, gap}
use exchange_apiws.Book.Invariant.{IsValid, run, apply-sequence}
use exchange_apiws.Book.Chain.{highest}
use exchange_apiws.Kucoin.Parse.{level2_price, level2_message, parse_level2_delta}
use exchange_apiws.Streams.Chains.{books_of_all, Numbered, run-Numbered}

module _ {V : Type 0} (F : Type 0) ⦃j : Json V⦄ ⦃jf : JsonFloat V F⦄ ⦃fl : Float F⦄ where
  -- Changes with consecutive sequence numbers, each with a price other than zero.
  abbrev pub Sequenced : ℕ → List V → Type 0
  Sequenced prev [] = Unit
  Sequenced prev (d ∷ rows) =
      (u64_at d (text "sequence") ≡ some (prev + 1))
      × (fl.is_zero (level2_price d) ≡ false)
      × (prev + 1 < 2 ^ 64)
      × Sequenced (prev + 1) rows

module _ {V : Type 0} (F : Type 0) ⦃j : Json V⦄ ⦃jf : JsonFloat V F⦄ ⦃fl : Float F⦄ (now later : ℤ)
    (symbol exchange : Text) where
  priced :
      (d : V)
      → fl.is_zero (level2_price {F = F} d) ≡ false
      → parse_level2_delta now later symbol exchange d
        ≡ order_book (level2_message {F = F} now later symbol exchange d) ∷ []
  unfolding parse_level2_delta
  priced d z = rw z refl

  unpriced :
      (d : V)
      → fl.is_zero (level2_price {F = F} d) ≡ true
      → parse_level2_delta {F = F} now later symbol exchange d ≡ []
  unfolding parse_level2_delta
  unpriced d z = rw z refl

  Sequenced-Numbered :
      (prev : ℕ) (rows : List V)
      → Sequenced F prev rows
      → Numbered {F = F} prev (books_of_all (parse_level2_delta now later symbol exchange) rows)
  unfolding level2_message
  Sequenced-Numbered prev [] h = tt
  Sequenced-Numbered prev (d ∷ rows) (s, z, b, h) =
      rw (priced d z)
        (refl, prev + 1, prev + 1, s, s, omega arith, b, b, Sequenced-Numbered (prev + 1) rows h)

  highest-Sequenced :
      (prev : ℕ) (rows : List V)
      → Sequenced F prev rows
      → highest {F = F} prev (books_of_all (parse_level2_delta now later symbol exchange) rows)
        ≡ prev + length rows
  unfolding level2_message
  highest-Sequenced prev [] h = omega arith
  highest-Sequenced prev (d ∷ rows) (s, z, b, h) =
      let above : max prev (prev + 1) ≡ prev + 1 = omega arith in
      rw (priced d z, s, above) (omega (arith, highest-Sequenced (prev + 1) rows h))

  -- Changes of the level2 stream with consecutive numbers and prices other than zero keep a synced
  -- book synced, and its last id grows by their count. Numbers fit a u64.
  pub parse_level2_delta-synced :
      (prev : ℕ) (rows : List V) (b : LocalOrderBook F)
      → Sequenced F prev rows
      → IsValid b
      → b.synced ≡ true
      → b.last_update_id ≡ some prev
      → ((run b (books_of_all (parse_level2_delta now later symbol exchange) rows)).0.synced ≡ true)
        × ((run b
              (books_of_all (parse_level2_delta now later symbol exchange) rows)).0.last_update_id
            ≡ some (prev + length rows))
  parse_level2_delta-synced prev rows b h v s p = rw (← highest-Sequenced prev rows h) (
      run-Numbered b prev (books_of_all (parse_level2_delta now later symbol exchange) rows) v s p
        (Sequenced-Numbered prev rows h))

  -- A change whose price is zero or unreadable yields no message, so that the book never learns its
  -- number: the change after it, although it follows on, is refused as a gap, and the book is then
  -- out of sync.
  pub parse_level2_delta-dropped :
      (d next : V) (prev : ℕ) (b : LocalOrderBook F)
      → fl.is_zero (level2_price {F = F} d) ≡ true
      → u64_at d (text "sequence") ≡ some (prev + 1)
      → fl.is_zero (level2_price {F = F} next) ≡ false
      → u64_at next (text "sequence") ≡ some (prev + 2)
      → prev + 2 < 2 ^ 64
      → IsValid b
      → b.synced ≡ true
      → b.last_update_id ≡ some prev
      → run b (books_of_all (parse_level2_delta now later symbol exchange) (d ∷ next ∷ []))
        ≡ (record b { synced = false }, gap (prev + 1) (prev + 2) ∷ [])
  unfolding run level2_message
  parse_level2_delta-dropped d next prev b z s z' s' bound v y p =
      let msg = level2_message {F = F} now later symbol exchange next in
      let refused =
        apply-sequence b msg prev (prev + 2) (prev + 2) v (rw s' (bound, bound)) refl y p s'
          (rw s' refl) in
      rw (unpriced d z, priced next z') (ground (arith, refused))
