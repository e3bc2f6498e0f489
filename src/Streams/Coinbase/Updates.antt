-- ===== src/Streams/Coinbase/Updates.antt =====
-- The level2 events of src/coinbase/ws.rs: what becomes of their rows.
use exchange_apiws.Prelude.{
  Bool, true, false, none, some, List, [], ◌∷◌, map, ◌≡◌, refl, arith, ◌⊎◌, inl, inr, if◌then◌else◌,
  Option-cases,
}
use exchange_apiws.Prelude.Json.{Json, JsonFloat}
use exchange_apiws.Book.{Level}
use exchange_apiws.Streams.Coinbase.{parse_update, parse_updates}

module _ {F : Type 0} where
  -- The bids, or the asks, of the rows, in order.
  abbrev pub levels_of : Bool → List (F × F × Bool) → List (Level F)
  levels_of bids [] = []
  levels_of bids ((px, qty, is_bid) ∷ rows) =
      let rest = levels_of bids rows in
      if is_bid
      then if bids then (px, qty) ∷ rest else rest
      else if bids
      then rest
      else (px, qty) ∷ rest

module _ {V : Type 0} (F : Type 0) ⦃j : Json V⦄ ⦃jf : JsonFloat V F⦄ where
  -- Some row cannot be read.
  abbrev pub Malformed : List V → Type 0
  Malformed [] = ⊥
  Malformed (u ∷ us) = (parse_update {F = F} u ≡ none) ⊎ Malformed us

  -- An event's rows are kept all or not at all: either one of them cannot be read, and the event
  -- yields nothing, its readable rows included, or every row stands, in its order, on its side.
  pub parse_updates-outcome :
      (us : List V)
      → (Malformed us × (parse_updates {F = F} us ≡ none))
        ⊎ ((rows : List (F × F × Bool)) × (map parse_update us ≡ map some rows)
            × (parse_updates us ≡ some (levels_of true rows, levels_of false rows)))
  unfolding parse_updates
  parse_updates-outcome [] = inr ([], refl, refl)
  parse_updates-outcome (u ∷ us) = elim (Option-cases (parse_update {F = F} u)) [
    | inl e ↦ inl (inl e, rw e refl)
    | inr (row, e) ↦ elim (parse_updates-outcome us) [
      | inl (bad, n) ↦ inl (inr bad, rw (e, n) refl)
      | inr (rows, all, done) ↦ inr (row ∷ rows, rw (e, all) refl, rw (e, done) (ground arith))
    ]
  ]
