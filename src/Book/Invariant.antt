-- ===== src/Book/Invariant.antt =====
-- What holds of a `LocalOrderBook` of src/book.rs between two messages, and the outcome of each
-- message.
use exchange_apiws.Prelude.{
  ℕ, ◌+◌, ◌^◌, ◌<◌, true, false, ltb, leb, if◌then◌else◌, not, ◌&&◌, Option, none, some, List, [],
  ◌∷◌, ◌≡◌, ◌≢◌, refl, arith, All, length, replicate,
}
use mathlib.Core.Option
use exchange_apiws.Prelude.Float.{Float}
use exchange_apiws.Prelude.SortedMap.Laws.{IsSorted}
use exchange_apiws.Book.{
  px_ord, OrderBookData, LocalOrderBook, BookApply, snapshot_applied, delta_applied,
  awaiting_snapshot, stale, gap, is_gap, new, apply_snapshot, apply_delta, apply,
}
use exchange_apiws.Book.Levels.{IsNonzero, apply_levels-IsSorted, apply_levels-IsNonzero}

-- An id that fits its u64.
abbrev pub FitsU64 : Option ℕ → Type 0
FitsU64 none = Unit
FitsU64 (some u) = u < 2 ^ 64

abbrev pub InRange : {F : Type 0} → OrderBookData F → Type 0
InRange msg = FitsU64 msg.last_update_id × FitsU64 msg.first_update_id

module _ {F : Type 0} ⦃fl : Float F⦄ where
  pub record IsValid (b : LocalOrderBook F) : Type 0 where
    pub bids_sorted : IsSorted b.bids
    pub asks_sorted : IsSorted b.asks
    pub bids_nonzero : IsNonzero b.bids
    pub asks_nonzero : IsNonzero b.asks
    pub id_fits : FitsU64 b.last_update_id

  -- The messages of a stream, one after the other, with their outcomes.
  unfoldable pub run : LocalOrderBook F → List (OrderBookData F) → LocalOrderBook F × List BookApply
  run b [] = (b, [])
  run b (msg ∷ msgs) =
      let (c, outcome) = apply b msg in let (d, outcomes) = run c msgs in (d, outcome ∷ outcomes)

  pub new-IsValid : IsValid new
  unfolding new
  new-IsValid = ground arith

  module _ (b : LocalOrderBook F) (msg : OrderBookData F) (v : IsValid b) (r : InRange msg) where
    apply_snapshot-IsValid : IsValid (apply_snapshot b msg)
    unfolding apply_snapshot
    apply_snapshot-IsValid = ground (
      arith,
      apply_levels-IsSorted msg.bids [],
      apply_levels-IsSorted msg.asks [],
      apply_levels-IsNonzero msg.bids [],
      apply_levels-IsNonzero msg.asks [],
    )

    apply_delta-IsValid : IsValid (apply_delta b msg)
    unfolding apply_delta
    apply_delta-IsValid = ground (
      arith,
      apply_levels-IsSorted msg.bids b.bids,
      apply_levels-IsSorted msg.asks b.asks,
      apply_levels-IsNonzero msg.bids b.bids,
      apply_levels-IsNonzero msg.asks b.asks,
    )

  -- Every message keeps the invariant.
  pub apply-IsValid :
      (b : LocalOrderBook F) (msg : OrderBookData F)
      → IsValid b
      → InRange msg
      → IsValid (apply b msg).0
  unfolding apply
  apply-IsValid b msg v r =
      ground (arith, apply_snapshot-IsValid b msg v r, apply_delta-IsValid b msg v r)

  run-IsValid :
      (b : LocalOrderBook F) (msgs : List (OrderBookData F))
      → IsValid b
      → All InRange msgs
      → IsValid (run b msgs).0
  unfolding run
  run-IsValid b [] v r = v
  run-IsValid b (msg ∷ msgs) v r = run-IsValid (apply b msg).0 msgs (apply-IsValid b msg v r.0) r.1

  -- After any messages whose ids fit a u64, a book that began as `new` has each side in strictly
  -- ascending order of price, holds no level of quantity zero, and its last id fits a u64.
  pub run-new-IsValid :
      (msgs : List (OrderBookData F)) → All InRange msgs → IsValid (run new msgs).0
  run-new-IsValid msgs r = run-IsValid new msgs new-IsValid r

  -- A delta for a synced book whose last id is `prev`, with `first` and `last` its own ids (`first`
  -- is `last` if it has none): it is stale, and changes nothing, if `last` is at most `prev`; else
  -- it is a gap, which only clears `synced`, if `first` is beyond `prev + 1`, and it is applied
  -- otherwise. The `prev + 1` of the code never wraps.
  pub apply-sequence :
      (b : LocalOrderBook F) (msg : OrderBookData F) (prev first last : ℕ)
      → IsValid b
      → InRange msg
      → msg.is_snapshot ≡ false
      → b.synced ≡ true
      → b.last_update_id ≡ some prev
      → msg.last_update_id ≡ some last
      → Option.get_or msg.first_update_id last ≡ first
      → apply b msg ≡ (
          if leb last prev
          then (b, stale)
          else if ltb (prev + 1) first
          then (record b { synced = false }, gap (prev + 1) first)
          else (apply_delta b msg, delta_applied))
  unfolding apply
  apply-sequence b msg prev first last v r d s p l f = ground arith

  -- A message that is neither applied as a snapshot nor as a delta leaves the book as it was,
  -- but for `synced`, which a gap clears.
  pub apply-refused :
      (b : LocalOrderBook F) (msg : OrderBookData F)
      → (apply b msg).1 ≢ snapshot_applied
      → (apply b msg).1 ≢ delta_applied
      → (apply b msg).0 ≡ record b { synced = b.synced && not (is_gap (apply b msg).1) }
  unfolding apply is_gap
  apply-refused b msg s d = ground arith

  abbrev pub IsDelta : OrderBookData F → Type 0
  IsDelta msg = msg.is_snapshot ≡ false

  -- A book that is not synced ignores every delta, however many come.
  pub run-unsynced :
      (b : LocalOrderBook F) (msgs : List (OrderBookData F))
      → b.synced ≡ false
      → All IsDelta msgs
      → run b msgs ≡ (b, replicate (length msgs) awaiting_snapshot)
  unfolding run apply
  run-unsynced b [] s d = refl
  run-unsynced b (msg ∷ msgs) s d = ground (arith, run-unsynced b msgs)
