-- ===== src/Streams/Chains/Cryptocom.antt =====
-- The `book` channel of src/cryptocom/ws.rs with the local order book.
use exchange_apiws.Prelude.{
  ℕ, ◌+◌, ◌-◌, ◌<◌, ◌^◌, false, true, some, List, [], ◌∷◌, map, ◌≡◌, refl, arith, ◌⊎◌, inr,
}
use exchange_apiws.Prelude.Text.{Text, text}
use exchange_apiws.Prelude.Int.{ℤ}
use exchange_apiws.Prelude.Float.{Float}
use exchange_apiws.Prelude.Json.{Json, JsonFloat, str_at, u64_at, array_at}
use exchange_apiws.Actors.{DataMessage, order_book}
use exchange_apiws.Book.{LocalOrderBook}
use exchange_apiws.Book.Invariant.{IsValid, run}
use exchange_apiws.Book.Chain.{highest}
use exchange_apiws.Streams.{books_of, str_or_empty}
use exchange_apiws.Streams.Cryptocom.{parse_book, parse_rows, parse_message, first_id, last_id}
use exchange_apiws.Streams.Chains.{Numbered, run-rows}

module _ {V : Type 0} ⦃j : Json V⦄ where
  -- Rows each of which names the id of the one before it.
  abbrev pub Linked : ℕ → List V → Type 0
  Linked prev [] = Unit
  Linked prev (d ∷ rows) =
      (last : ℕ) × (u64_at d (text "pu") ≡ some prev)
      × (u64_at d (text "u") ≡ some last)
      × (last < 2 ^ 64 - 1)
      × Linked last rows

  row_ids :
      (d : V) (prev last : ℕ)
      → u64_at d (text "pu") ≡ some prev
      → u64_at d (text "u") ≡ some last
      → prev < 2 ^ 64 - 1
      → (first_id d ≡ some (prev + 1)) × (last_id d ≡ some last)
  unfolding first_id last_id
  row_ids d prev last p l b = (rw p (ground arith), rw l refl)

module _ {V : Type 0} (F : Type 0) ⦃j : Json V⦄ ⦃jf : JsonFloat V F⦄ ⦃fl : Float F⦄ (now : ℤ)
    (instrument : Text) where
  Linked-Numbered :
      (prev : ℕ) (rows : List V)
      → prev < 2 ^ 64 - 1
      → Linked prev rows
      → Numbered {F = F} prev (map (parse_book now instrument false) rows)
  unfolding parse_book
  Linked-Numbered prev [] b h = tt
  Linked-Numbered prev (d ∷ rows) b (last, p, l, bl, h) =
      let (first_eq, last_eq) = row_ids d prev last p l b in
      (
        refl,
        prev + 1,
        last,
        first_eq,
        last_eq,
        omega arith,
        omega arith,
        omega arith,
        Linked-Numbered last rows bl h,
      )

module _ {V F : Type 0} ⦃j : Json V⦄ ⦃jf : JsonFloat V F⦄ ⦃fl : Float F⦄ (now : ℤ) where
  -- A frame of the `book` channel of type `update`, whose rows each carry the id of the row before as
  -- `pu`, the first the book's own, parses, and its messages leave a synced book synced, with the
  -- highest id seen. Ids are below the last of a u64.
  pub parse_message-Linked :
      (decode : Text → Text ⊎ V) (raw : Text) (v result : V) (rows : List V) (prev : ℕ)
      (b : LocalOrderBook F)
      → decode raw ≡ inr v
      → str_at v (text "method") ≡ some (text "subscribe")
      → j.get v (text "result") ≡ some result
      → str_at result (text "channel") ≡ some (text "book")
      → str_at result (text "type") ≡ some (text "update")
      → array_at result (text "data") ≡ some rows
      → Linked prev rows
      → prev < 2 ^ 64 - 1
      → IsValid b
      → b.synced ≡ true
      → b.last_update_id ≡ some prev
      → (msgs : List (DataMessage F)) × (parse_message now decode raw ≡ inr msgs)
        × ((run b (books_of msgs)).0.synced ≡ true)
        × ((run b (books_of msgs)).0.last_update_id
            ≡ some (
                highest {F = F} prev
                  (map (parse_book now (str_or_empty result (text "instrument_name")) false) rows)))
  unfolding parse_message parse_rows
  parse_message-Linked decode raw v result rows prev b d m r c u dt l bound valid s p =
      let parse = parse_book now (str_or_empty result (text "instrument_name")) false in
      let kept =
        run-rows parse b prev rows valid s p (
          Linked-Numbered F now (str_or_empty result (text "instrument_name")) prev rows bound l) in
      (
        map (λ d. order_book (parse d)) rows,
        rw (d, parse_message, m, r, dt, c, u) refl,
        kept.0,
        kept.1,
      )
