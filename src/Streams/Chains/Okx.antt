-- ===== src/Streams/Chains/Okx.antt =====
-- The `books` channel of src/okx/ws.rs with the local order book.
use exchange_apiws.Prelude.{
  ℕ, ◌+◌, ◌-◌, ◌<◌, ◌^◌, false, true, none, some, List, [], ◌∷◌, map, ◌≡◌, refl, arith, ◌⊎◌, inr,
}
use exchange_apiws.Prelude.Text.{Text, text, same}
use exchange_apiws.Prelude.Int.{ℤ, pos}
use exchange_apiws.Prelude.Float.{Float}
use exchange_apiws.Prelude.Json.{Json, JsonFloat, str_at, i64_at, array_at}
use exchange_apiws.Actors.{DataMessage, order_book}
use exchange_apiws.Book.{LocalOrderBook}
use exchange_apiws.Book.Invariant.{IsValid, run}
use exchange_apiws.Book.Chain.{highest}
use exchange_apiws.Streams.{books_of}
use exchange_apiws.Streams.Okx.{parse_book, parse_rows, parse_message, first_id, last_id}
use exchange_apiws.Streams.Chains.{Numbered, run-rows}

module _ {V : Type 0} ⦃j : Json V⦄ where
  -- Rows each of which names the id of the one before it.
  abbrev pub Linked : ℕ → List V → Type 0
  Linked prev [] = Unit
  Linked prev (d ∷ rows) =
      (last : ℕ) × (i64_at d (text "prevSeqId") ≡ some (pos prev))
      × (i64_at d (text "seqId") ≡ some (pos last))
      × (last < 2 ^ 63 - 1)
      × Linked last rows

  row_ids :
      (d : V) (prev last : ℕ)
      → i64_at d (text "prevSeqId") ≡ some (pos prev)
      → i64_at d (text "seqId") ≡ some (pos last)
      → prev < 2 ^ 63 - 1
      → (first_id d ≡ some (prev + 1)) × (last_id d ≡ some last)
  unfolding first_id last_id
  row_ids d prev last p l b = (rw (p, l) (ground arith), rw l refl)

module _ {V : Type 0} (F : Type 0) ⦃j : Json V⦄ ⦃jf : JsonFloat V F⦄ ⦃fl : Float F⦄ (now : ℤ) where
  Linked-Numbered :
      (prev : ℕ) (rows : List V)
      → prev < 2 ^ 63 - 1
      → Linked prev rows
      → Numbered {F = F} prev (map (parse_book now false) rows)
  unfolding parse_book
  Linked-Numbered prev [] b h = tt
  Linked-Numbered prev (d ∷ rows) b (last, p, l, bl, h) =
      let (first_eq, last_eq) = row_ids d prev last p l b in
      (
        refl,
        prev + 1,
        last,
        first_eq,
        last_eq,
        omega arith,
        omega arith,
        omega arith,
        Linked-Numbered last rows bl h,
      )

module _ {V F : Type 0} ⦃j : Json V⦄ ⦃jf : JsonFloat V F⦄ ⦃fl : Float F⦄ (now : ℤ) where
  -- A frame of the `books` channel whose rows each carry the id of the row before as `prevSeqId`, the
  -- first the book's own, parses, and its messages leave a synced book synced, with the highest id
  -- seen: a row whose `seqId` is below its `prevSeqId`, by which OKX starts its numbers again, does not
  -- lower it. Ids fit an i64.
  pub parse_message-synced :
      (decode : Text → Text ⊎ V) (raw : Text) (v a : V) (rows : List V) (prev : ℕ)
      (b : LocalOrderBook F)
      → same raw (text "pong") ≡ false
      → decode raw ≡ inr v
      → j.get v (text "event") ≡ none
      → j.get v (text "arg") ≡ some a
      → str_at a (text "channel") ≡ some (text "books")
      → str_at v (text "action") ≡ some (text "update")
      → array_at v (text "data") ≡ some rows
      → Linked prev rows
      → prev < 2 ^ 63 - 1
      → IsValid b
      → b.synced ≡ true
      → b.last_update_id ≡ some prev
      → (msgs : List (DataMessage F)) × (parse_message now decode raw ≡ inr msgs)
        × ((run b (books_of msgs)).0.synced ≡ true)
        × ((run b (books_of msgs)).0.last_update_id
            ≡ some (highest {F = F} prev (map (parse_book now false) rows)))
  unfolding parse_message parse_rows
  parse_message-synced decode raw v a rows prev b np d e ar c u dt l bound valid s p =
      let kept =
        run-rows (parse_book now false) b prev rows valid s p
          (Linked-Numbered F now prev rows bound l) in
      (
        map (λ d. order_book (parse_book now false d)) rows,
        rw (np, d, parse_message, e, dt, ar, c, u) refl,
        kept.0,
        kept.1,
      )
