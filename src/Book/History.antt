-- ===== src/Book/History.antt =====
-- The book of src/book.rs against what its owner thinks it is: at each price, the last quantity
-- quoted since the last snapshot.
use exchange_apiws.Prelude.{
  Option, none, some, List, [], ◌∷◌, ◌++◌, ◌≡◌, refl, arith, All, Option-cases, inl, inr,
}
use exchange_apiws.Prelude.Float.{Float}
use exchange_apiws.Prelude.SortedMap
use exchange_apiws.Book.{
  Px, px_ord, Level, OrderBookData, LocalOrderBook, BookApply, snapshot_applied, delta_applied,
  awaiting_snapshot, stale, gap, new, apply, apply_snapshot, apply_delta,
}
use exchange_apiws.Book.Levels.{last_quote, quoted, get-apply_levels}
use exchange_apiws.Book.Invariant.{InRange, IsValid, run, new-IsValid, apply-IsValid}

-- The levels quoted since the last snapshot, in order.
pub record Quotes (F : Type 0) : Type 0 where
  pub bids : List (Level F)
  pub asks : List (Level F)

module _ {F : Type 0} where
  abbrev pub quote : Quotes F → OrderBookData F → BookApply → Quotes F
  quote q msg snapshot_applied = record { bids = msg.bids; asks = msg.asks }
  quote q msg delta_applied = record { bids = q.bids ++ msg.bids; asks = q.asks ++ msg.asks }
  quote q msg awaiting_snapshot = q
  quote q msg stale = q
  quote q msg (gap expected got) = q

module _ {F : Type 0} ⦃fl : Float F⦄ where
  -- The quotes that a stream leaves, by the outcomes that the book reports.
  abbrev pub quotes : LocalOrderBook F → Quotes F → List (OrderBookData F) → Quotes F
  quotes b q [] = q
  quotes b q (msg ∷ msgs) = quotes (apply b msg).0 (quote q msg (apply b msg).1) msgs

  -- What the book reads at each price is what was last quoted there.
  abbrev Shows : LocalOrderBook F → Quotes F → Type 0
  Shows b q =
      (p : Px F)
      → (SortedMap.get p b.bids ≡ quoted p q.bids none)
        × (SortedMap.get p b.asks ≡ quoted p q.asks none)

  abbrev or_else : Option F → Option F → Option F
  or_else none old = old
  or_else (some q) old = some q

  last_quote-append :
      (p : Px F) (xs ys : List (Level F))
      → last_quote p (xs ++ ys) ≡ or_else (last_quote p ys) (last_quote p xs)
  unfolding last_quote
  last_quote-append p [] ys = ground arith
  last_quote-append p (x ∷ xs) ys = elim (Option-cases (last_quote p ys)) [
    | inl e ↦ rw (last_quote-append p xs ys, e) refl
    | inr (q, e) ↦ rw (last_quote-append p xs ys, e) refl
  ]

  quoted-append :
      (p : Px F) (xs ys : List (Level F)) (old : Option F)
      → quoted p (xs ++ ys) old ≡ quoted p ys (quoted p xs old)
  unfolding quoted
  quoted-append p xs ys old = elim (Option-cases (last_quote p ys)) [
    | inl e ↦ ground (arith, last_quote-append p xs ys)
    | inr (q, e) ↦ ground (arith, last_quote-append p xs ys)
  ]

  apply_snapshot-Shows :
      (b : LocalOrderBook F) (q : Quotes F) (msg : OrderBookData F)
      → Shows (apply_snapshot b msg) (quote q msg snapshot_applied)
  unfolding apply_snapshot SortedMap.get
  apply_snapshot-Shows b q msg p = (
    ground (arith, get-apply_levels p msg.bids [] tt),
    ground (arith, get-apply_levels p msg.asks [] tt),
  )

  apply_delta-Shows :
      (b : LocalOrderBook F) (q : Quotes F) (msg : OrderBookData F)
      → IsValid b
      → Shows b q
      → Shows (apply_delta b msg) (quote q msg delta_applied)
  unfolding apply_delta
  apply_delta-Shows b q msg v h p =
      let bids = get-apply_levels p msg.bids b.bids v.bids_sorted in
      let asks = get-apply_levels p msg.asks b.asks v.asks_sorted in
      let (old_bid, old_ask) = h p in
      (
        ground (arith, bids, old_bid, quoted-append p q.bids msg.bids none),
        ground (arith, asks, old_ask, quoted-append p q.asks msg.asks none),
      )

  apply-Shows :
      (b : LocalOrderBook F) (q : Quotes F) (msg : OrderBookData F)
      → IsValid b
      → Shows b q
      → Shows (apply b msg).0 (quote q msg (apply b msg).1)
  unfolding apply
  apply-Shows b q msg v h =
      ground (arith, h, apply_snapshot-Shows b q msg, apply_delta-Shows b q msg v h)

  run-Shows :
      (b : LocalOrderBook F) (q : Quotes F) (msgs : List (OrderBookData F))
      → IsValid b
      → All InRange msgs
      → Shows b q
      → Shows (run b msgs).0 (quotes b q msgs)
  unfolding run
  run-Shows b q [] v r h = h
  run-Shows b q (msg ∷ msgs) v r h =
      run-Shows (apply b msg).0 (quote q msg (apply b msg).1) msgs (apply-IsValid b msg v r.0) r.1
        (apply-Shows b q msg v h)

  -- Fed any messages whose ids fit a u64, a new book implements the history of its quotes: on both
  -- sides, every price reads the last quantity quoted for it by the last snapshot and the deltas
  -- applied since, and nothing if that quantity is zero or there is none.
  pub run-quotes :
      (msgs : List (OrderBookData F)) (p : Px F)
      → All InRange msgs
      → (SortedMap.get p (run new msgs).0.bids
          ≡ quoted p (quotes new (record { bids = []; asks = [] }) msgs).bids none)
        × (SortedMap.get p (run new msgs).0.asks
            ≡ quoted p (quotes new (record { bids = []; asks = [] }) msgs).asks none)
  unfolding new SortedMap.get quoted
  run-quotes msgs p r =
      run-Shows new (record { bids = []; asks = [] }) msgs new-IsValid r (λ p. (refl, refl)) p
