-- ===== src/Book/Top.antt =====
-- The top of the book in src/book.rs: the best prices and the crossed test.
use exchange_apiws.Prelude.{
  false, Option, none, some, [], ◌∷◌, ◌≡◌, refl, sym, subst, ◌⊎◌, inl, inr, arith, All, All-imp,
  Option-cases,
}
use mathlib.Core.Option
use Prim.Native.Nat.{Ordering}
use exchange_apiws.Prelude.Order.{◌≺◌}
use exchange_apiws.Prelude.Float.{Float}
use exchange_apiws.Prelude.SortedMap
use exchange_apiws.Prelude.SortedMap.Laws.{IsSorted, last-max, first-min}
use exchange_apiws.Book.{Px, px_ord, Level, Side, LocalOrderBook, best_bid, best_ask, is_crossed}
use exchange_apiws.Book.Invariant.{IsValid}

module _ {F : Type 0} ⦃fl : Float F⦄ where
  abbrev pub at : F → Px F
  at p = record { price = p }

  -- The best bid of a valid book is one of its levels, and no bid has a higher price; the best ask
  -- is one of its levels, and no ask has a lower price.
  pub best-extreme :
      (b : LocalOrderBook F) (bid bid_qty ask ask_qty : F)
      → IsValid b
      → best_bid b ≡ some (bid, bid_qty)
      → best_ask b ≡ some (ask, ask_qty)
      → All (λ e. (e.0 ≺ at bid) ⊎ (e.0 ≡ at bid)) b.bids
        × (SortedMap.get (at bid) b.bids ≡ some bid_qty)
        × All (λ e. (at ask ≺ e.0) ⊎ (e.0 ≡ at ask)) b.asks
        × (SortedMap.get (at ask) b.asks ≡ some ask_qty)
  unfolding best_bid best_ask
  best-extreme b bid bid_qty ask ask_qty v h k =
      let (below, bid_found) =
        last-max b.bids (at bid, bid_qty) v.bids_sorted
          (entry bid bid_qty (SortedMap.last b.bids) h) in
      let (above, ask_found) =
        first-min b.asks (at ask, ask_qty) v.asks_sorted
          (entry ask ask_qty (SortedMap.first b.asks) k) in
      (below, bid_found, above, ask_found)
    where
      entry :
          (p q : F) (o : Option (Px F × F))
          → Option.map {B = Level F} (λ e. (e.0.price, e.1)) o ≡ some (p, q)
          → o ≡ some (at p, q)
      entry p q none h = cc
      entry p q (some (k, w)) h = ground arith

  -- An empty side has no best price.
  last-none : (m : Side F) → SortedMap.last m ≡ none → m ≡ []
  last-none [] h = refl
  last-none (e ∷ []) h = cc
  last-none (e ∷ d ∷ m) h = absurd (ground (arith, last-none (d ∷ m) h))

  first-none : (m : Side F) → SortedMap.first m ≡ none → m ≡ []
  first-none [] h = refl
  first-none (e ∷ m) h = cc

  All-always {κ} : {P : Px F × F → Type κ} → ((e : Px F × F) → P e) → (m : Side F) → All P m
  All-always h [] = tt
  All-always h (e ∷ m) = (h e, All-always h m)

  -- From the two best entries in order, every bid is below every ask.
  separated :
      (bids asks : Side F) (e a : Px F × F)
      → IsSorted bids
      → IsSorted asks
      → SortedMap.last bids ≡ some e
      → SortedMap.first asks ≡ some a
      → e.0 ≺ a.0
      → All (λ d. All (λ c. d.0 ≺ c.0) asks) bids
  separated bids asks e a s t h k l =
      All-imp
        (λ d below. All-imp (λ c above. ordered d c below above) asks (first-min asks a t k).0) bids
        (last-max bids e s h).0
    where
      ordered : (d c : Px F × F) → (d.0 ≺ e.0) ⊎ (d.0 ≡ e.0) → (a.0 ≺ c.0) ⊎ (c.0 ≡ a.0) → d.0 ≺ c.0
      ordered d c (inl x) (inl y) = px_ord.lt_trans d.0 a.0 c.0 (px_ord.lt_trans d.0 e.0 a.0 x l) y
      ordered d c (inl x) (inr y) = rw y (px_ord.lt_trans d.0 e.0 a.0 x l)
      ordered d c (inr x) (inl y) = rw x (px_ord.lt_trans e.0 a.0 c.0 l y)
      ordered d c (inr x) (inr y) = rw (x, y) l

  -- In a valid book that is not crossed every bid lies below every ask, where a failed `>=` of
  -- prices means the total order's `<`.
  pub is_crossed_sound :
      (b : LocalOrderBook F)
      → IsValid b
      → ((x y : F) → fl.ge x y ≡ false → fl.total_cmp x y ≡ Ordering.lt)
      → is_crossed b ≡ false
      → All (λ e. All (λ a. e.0 ≺ a.0) b.asks) b.bids
  unfolding is_crossed
  is_crossed_sound b v ge h = elim (Option-cases (SortedMap.last b.bids)) [
    | inl empty ↦
        subst (λ m. All (λ e. All (λ a. e.0 ≺ a.0) b.asks) m) (sym (last-none b.bids empty)) tt
    | inr (e, best) ↦ elim (Option-cases (SortedMap.first b.asks)) [
      | inl empty ↦
          All-always (λ d. subst (λ m. All (λ a. d.0 ≺ a.0) m) (sym (first-none b.asks empty)) tt)
            b.bids
      | inr (a, least) ↦
          separated b.bids b.asks e a v.bids_sorted v.asks_sorted best least
            (ge e.0.price a.0.price (ground arith))
    ]
  ]
