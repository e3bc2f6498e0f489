-- ===== src/Book/Tests.antt =====
-- Runs of the order book of src/book.rs on whole-number prices, and the theorems about it at them.
use exchange_apiws.Prelude.{
  ℕ, true, false, none, some, [], ◌∷◌, ◌≡◌, refl, arith, compare, leb, Ordering,
}
use exchange_apiws.Prelude.Values.{nat_float}
use exchange_apiws.Prelude.Int.{pos}
use exchange_apiws.Prelude.SortedMap
use exchange_apiws.Prelude.Text.{text}
use exchange_apiws.Book.{
  px_ord, OrderBookData, LocalOrderBook, snapshot_applied, delta_applied, awaiting_snapshot, stale,
  gap, new, apply_levels, apply, best_bid, best_ask, is_crossed, snapshot,
}
use exchange_apiws.Book.Levels.{quoted}
use exchange_apiws.Book.Invariant.{IsValid, run, run-new-IsValid}
use exchange_apiws.Book.Sequence.{applied, Covered, run-covers}
use exchange_apiws.Book.Top.{at}
use exchange_apiws.Book.Export.{apply-snapshot}
use exchange_apiws.Book.History.{run-quotes}
use exchange_apiws.Book.Chain.{run-Chained}

abbrev message : OrderBookData ℕ
message = record {
  symbol = text "XBTUSDTM";
  exchange = text "kucoin";
  asks = [];
  bids = [];
  exchange_ts = pos 5;
  receipt_ts = pos 6;
  is_snapshot = false;
  first_update_id = none;
  last_update_id = none;
}

-- A snapshot at id 10, deltas of the ids 9 to 12 and 13, and one that skips 14.
abbrev seed : OrderBookData ℕ
seed = record message {
  is_snapshot = true;
  bids = (100, 5) ∷ (99, 3) ∷ [];
  asks = (101, 2) ∷ (103, 4) ∷ [];
  first_update_id = some 10;
  last_update_id = some 10;
}

abbrev overlap : OrderBookData ℕ
overlap = record message {
  bids = (100, 0) ∷ (98, 7) ∷ [];
  first_update_id = some 9;
  last_update_id = some 12;
}

abbrev next : OrderBookData ℕ
next = record message { asks = (102, 1) ∷ []; last_update_id = some 13 }

abbrev skip : OrderBookData ℕ
skip = record message { first_update_id = some 15; last_update_id = some 15 }

abbrev ready : LocalOrderBook ℕ
ready = record {
  bids = (at 98, 7) ∷ (at 99, 3) ∷ [];
  asks = (at 101, 2) ∷ (at 102, 1) ∷ (at 103, 4) ∷ [];
  last_update_id = some 13;
  synced = true;
  symbol = text "XBTUSDTM";
  exchange = text "kucoin";
  exchange_ts = pos 5;
}

code : Unit {0}
unfolding new run apply apply_levels SortedMap.insert SortedMap.remove SortedMap.get best_bid
    best_ask is_crossed
code = tt

stream :
    run new (overlap ∷ seed ∷ overlap ∷ next ∷ next ∷ [])
    ≡ (ready, awaiting_snapshot ∷ snapshot_applied ∷ delta_applied ∷ delta_applied ∷ stale ∷ [])
unfolding code
stream = refl

skipped : apply ready skip ≡ (record ready { synced = false }, gap 14 15)
unfolding code
skipped = refl

run-new-IsValid_example : IsValid (run new (seed ∷ overlap ∷ next ∷ [])).0
run-new-IsValid_example = run-new-IsValid (seed ∷ overlap ∷ next ∷ []) (omega arith)

ready-IsValid : IsValid ready
ready-IsValid = ground arith

abbrev seeded : LocalOrderBook ℕ
unfolding code
seeded = (apply new seed).0

run-covers_example : Covered 11 (applied seeded (overlap ∷ next ∷ []))
unfolding code
run-covers_example =
    run-covers seeded (overlap ∷ next ∷ []) 10 13 11 (ground arith) (omega arith) (refl, (refl, tt))
      refl refl refl refl (omega arith) (omega arith)

ge_lt : (x y : ℕ) → leb y x ≡ false → compare x y ≡ Ordering.lt
ge_lt x y h = ground arith

apply-snapshot_example : (apply new (snapshot (pos 7) ready)).0 ≡ ready
apply-snapshot_example = apply-snapshot (pos 7) ready ready-IsValid (omega arith) (omega arith)

run-quotes_example :
    (SortedMap.get (at 100) (run new (seed ∷ overlap ∷ [])).0.bids
      ≡ quoted (at 100) ((100, 5) ∷ (99, 3) ∷ (100, 0) ∷ (98, 7) ∷ []) none)
    × (SortedMap.get (at 100) (run new (seed ∷ overlap ∷ [])).0.asks
        ≡ quoted (at 100) ((101, 2) ∷ (103, 4) ∷ []) none)
unfolding code
run-quotes_example = run-quotes (seed ∷ overlap ∷ []) (at 100) (omega arith)

run-Chained_example :
    ((run ready (overlap ∷ record next { last_update_id = some 14 } ∷ [])).0.synced ≡ true)
    × ((run ready (overlap ∷ record next { last_update_id = some 14 } ∷ [])).0.last_update_id
        ≡ some 14)
run-Chained_example =
    run-Chained ready (overlap ∷ record next { last_update_id = some 14 } ∷ []) 13 ready-IsValid
      (omega arith) refl refl (refl, 12, refl, omega arith, (refl, 14, refl, omega arith, tt))
