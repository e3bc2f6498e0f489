-- ===== src/Book.antt =====
-- src/book.rs: the local order book, assembled from snapshot and delta messages, and the message
-- type of src/actors.rs that feeds it.
pub mod Levels
pub mod Invariant
pub mod Sequence
pub mod Top
pub mod Export
pub mod History
pub mod Chain
mod Tests
use Prim.Native.Nat.{Ordering}
use mathlib.Core.Option
use mathlib.Core.List.{reverse}
use exchange_apiws.Prelude.{
  ℕ, ◌+◌, ◌-◌, ◌%◌, ◌^◌, Bool, true, false, Option, none, some, List, [], ◌∷◌, map, not, ltb, leb,
  if◌then◌else◌, length, take,
}
use exchange_apiws.Prelude.Order.{Ord, IsTotal}
use exchange_apiws.Prelude.Int.{ℤ}
use exchange_apiws.Prelude.Text.{Text}
use exchange_apiws.Prelude.Float.{Float}
use exchange_apiws.Prelude.Options.{◌>>=◌}
use exchange_apiws.Prelude.SortedMap

-- The key wrapper `Px(f64)`.
pub record Px (F : Type 0) : Type 0 where
  pub price : F

module _ {F : Type 0} ⦃fl : Float F⦄ where
  abbrev pub px_cmp : Px F → Px F → Ordering
  px_cmp a b = fl.total_cmp a.price b.price

  pub px_cmp-IsTotal : IsTotal px_cmp
  px_cmp-IsTotal = record {
    cmp_refl = λ a. fl.total.cmp_refl a.price;
    eq_of_cmp = λ a b h i. record { price = fl.total.eq_of_cmp a.price b.price h i };
    lt_of_gt = λ a b. fl.total.lt_of_gt a.price b.price;
    gt_of_lt = λ a b. fl.total.gt_of_lt a.price b.price;
    lt_trans = λ a b c. fl.total.lt_trans a.price b.price c.price;
  }

  instance abbrev pub px_ord : Ord (Px F)
  px_ord = record { cmp = px_cmp; total = px_cmp-IsTotal }

-- A level `[price, qty]`.
abbrev pub Level : Type 0 → Type 0
Level F = F × F

-- `OrderBookData` of src/actors.rs.
pub record OrderBookData (F : Type 0) : Type 0 where
  pub symbol : Text
  pub exchange : Text
  pub asks : List (Level F)
  pub bids : List (Level F)
  pub exchange_ts : ℤ
  pub receipt_ts : ℤ
  pub is_snapshot : Bool
  pub first_update_id : Option ℕ  -- u64
  pub last_update_id : Option ℕ  -- u64

pub data BookApply : Type 0 where
  snapshot_applied delta_applied awaiting_snapshot stale : BookApply
  gap : ℕ → ℕ → BookApply

unfoldable pub is_gap : BookApply → Bool
is_gap (gap expected got) = true
is_gap _ = false

abbrev pub Side : Type 0 → Type 0
Side F = List (Px F × F)

pub record LocalOrderBook (F : Type 0) : Type 0 where
  pub bids : Side F
  pub asks : Side F
  pub last_update_id : Option ℕ  -- u64
  pub synced : Bool
  pub symbol : Text
  pub exchange : Text
  pub exchange_ts : ℤ

abbrev pub is_empty : Text → Bool
is_empty [] = true
is_empty (c ∷ s) = false

-- `u64` addition as a release build computes it.
abbrev pub add_u64 : ℕ → ℕ → ℕ
add_u64 a b = (a + b) % 2 ^ 64

unfoldable pub new : {F : Type 0} → LocalOrderBook F
new = record {
  bids = [];
  asks = [];
  last_update_id = none;
  synced = false;
  symbol = [];
  exchange = [];
  exchange_ts = ℤ.pos 0;
}

module _ {F : Type 0} ⦃fl : Float F⦄ where
  -- `apply_levels`: a zero quantity removes the level, any other sets it.
  unfoldable pub apply_levels : Side F → List (Level F) → Side F
  apply_levels side [] = side
  apply_levels side ((price, qty) ∷ levels) =
      apply_levels
        (if fl.is_zero qty
          then SortedMap.remove (record { price = price }) side
          else SortedMap.insert (record { price = price }) qty side)
        levels

  unfoldable pub note_source : LocalOrderBook F → OrderBookData F → LocalOrderBook F
  note_source b msg =
      let c =
        if is_empty b.symbol
        then record b { symbol = msg.symbol; exchange = msg.exchange }
        else b in
      record c { exchange_ts = msg.exchange_ts }

  -- The `is_snapshot` branch of `apply`.
  unfoldable pub apply_snapshot : LocalOrderBook F → OrderBookData F → LocalOrderBook F
  unfolding note_source
  apply_snapshot b msg =
      note_source
        (record b {
          bids = apply_levels [] msg.bids;
          asks = apply_levels [] msg.asks;
          last_update_id = msg.last_update_id;
          synced = true;
        })
        msg

  -- The sequence check of `apply`: the refusal of a delta, if it is refused.
  unfoldable pub check_sequence : Option ℕ → OrderBookData F → Option BookApply
  check_sequence (some prev) msg = elim msg.last_update_id [
    | none ↦ none
    | some last ↦
        if leb last prev
        then some stale
        else let first = Option.get_or msg.first_update_id last in
          if ltb (add_u64 prev 1) first then some (gap (add_u64 prev 1) first) else none
  ]
  check_sequence none msg = none

  -- The end of `apply`, for a delta that is in sequence.
  unfoldable pub apply_delta : LocalOrderBook F → OrderBookData F → LocalOrderBook F
  unfolding note_source
  apply_delta b msg =
      note_source
        (record b {
          bids = apply_levels b.bids msg.bids;
          asks = apply_levels b.asks msg.asks;
          last_update_id = elim msg.last_update_id [ none ↦ b.last_update_id | some u ↦ some u ];
        })
        msg

  unfoldable pub apply : LocalOrderBook F → OrderBookData F → LocalOrderBook F × BookApply
  unfolding apply_snapshot check_sequence apply_delta
  apply b msg =
      if msg.is_snapshot
      then (apply_snapshot b msg, snapshot_applied)
      else if not b.synced
      then (b, awaiting_snapshot)
      else elim (check_sequence b.last_update_id msg) [
        | none ↦ (apply_delta b msg, delta_applied)
        | some (gap expected got) ↦ (record b { synced = false }, gap expected got)
        | some refusal ↦ (b, refusal)
      ]

  unfoldable pub best_bid : LocalOrderBook F → Option (Level F)
  best_bid b = Option.map (λ e. (e.0.price, e.1)) (SortedMap.last b.bids)

  unfoldable pub best_ask : LocalOrderBook F → Option (Level F)
  best_ask b = Option.map (λ e. (e.0.price, e.1)) (SortedMap.first b.asks)

  unfoldable pub spread : LocalOrderBook F → Option F
  unfolding best_bid best_ask
  spread b = do ask ← best_ask b; bid ← best_bid b; some (fl.sub ask.0 bid.0)

  unfoldable pub mid_price : LocalOrderBook F → Option F
  unfolding best_bid best_ask
  mid_price b = do ask ← best_ask b; bid ← best_bid b; some (fl.midpoint ask.0 bid.0)

  unfoldable pub is_crossed : LocalOrderBook F → Bool
  unfolding best_bid best_ask
  is_crossed b = elim (best_bid b) [
    | none ↦ false
    | some bid ↦ elim (best_ask b) [ none ↦ false | some ask ↦ fl.ge bid.0 ask.0 ]
  ]

  unfoldable pub levels_of : Side F → List (Level F)
  levels_of side = map (λ e. (e.0.price, e.1)) side

  unfoldable pub top_bids : LocalOrderBook F → ℕ → List (Level F)
  unfolding levels_of
  top_bids b depth = levels_of (take depth (reverse b.bids))

  unfoldable pub top_asks : LocalOrderBook F → ℕ → List (Level F)
  unfolding levels_of
  top_asks b depth = levels_of (take depth b.asks)

  unfoldable pub bid_depth : LocalOrderBook F → ℕ
  bid_depth b = length b.bids

  unfoldable pub ask_depth : LocalOrderBook F → ℕ
  ask_depth b = length b.asks

  -- `snapshot`; the clock's reading is the argument `now`.
  unfoldable pub snapshot : ℤ → LocalOrderBook F → OrderBookData F
  unfolding top_bids top_asks
  snapshot now b = record {
    symbol = b.symbol;
    exchange = b.exchange;
    asks = top_asks b (2 ^ 64 - 1);
    bids = top_bids b (2 ^ 64 - 1);
    exchange_ts = b.exchange_ts;
    receipt_ts = now;
    is_snapshot = true;
    first_update_id = b.last_update_id;
    last_update_id = b.last_update_id;
  }
