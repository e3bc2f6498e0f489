-- ===== src/Orders/Placing.antt =====
-- What the order bodies of src/rest/orders.rs hold.
use exchange_apiws.Prelude.{
  ℕ, zero, suc, ◌≤◌, ◌<◌, Bool, true, false, not, ◌&&◌, ◌||◌, Option, none, some, [], ◌∷◌, ◌≡◌, ◌≢◌,
  refl, ◌⊎◌, inl, inr, arith, ltb, ◌==◌, if◌then◌else◌,
}
use exchange_apiws.Prelude.Int.{ℤ, pos, negsuc, ◌+ℤ◌, ◌-ℤ◌}
use exchange_apiws.Prelude.Text.{Text, text, same}
use exchange_apiws.Error.{ExchangeError}
use exchange_apiws.Types.{Side, buy, sell, side_as_str, OrderType, market, limit, TimeInForce, Stp}
use exchange_apiws.Orders.{
  Json, string, number, Body, OrderDetail, is_active, is_filled, is_cancelled, place_order_body,
  close_position_body, printed, place_fields, close_fields, is_limit, is_some, SubmittedOrder,
  submit, calc_contracts,
}

abbrev pub field : {F : Type 0} → Text → Body F → Option (Json F)
field key [] = none
field key ((name, value) ∷ body) =
    let rest = field key body in if same name key then some value else rest

-- What an order does to a position.
abbrev pub exposure : Side → ℕ → ℤ
exposure buy n = pos n
exposure sell n = pos 0 -ℤ pos n

module _ {F : Type 0} where
  -- The order that closes a position that is not flat is a market order with the given id, whose
  -- side and size take the position to exactly zero, whether it is long or short; and a flat
  -- position is refused.
  pub close_position_body-flat :
      (client_oid symbol : Text) (qty : ℤ) (leverage : ℕ)
      → (qty ≡ pos 0)
          × (close_position_body {F = F} client_oid symbol (pos 0) leverage
              ≡ inl (ExchangeError.order (text "qty is 0 — nothing to close")))
        ⊎ (side : Side) × (size : ℕ) × (body : Body F) × (close_position_body client_oid symbol qty
              leverage
            ≡ inr body)
          × (field (text "side") body ≡ some (string (side_as_str side)))
          × (field (text "size") body ≡ some (number size))
          × (field (text "type") body ≡ some (string (text "market")))
          × (field (text "clientOid") body ≡ some (string client_oid))
          × (qty +ℤ exposure side size ≡ pos 0)
  unfolding close_position_body ◌+ℤ◌ ◌-ℤ◌
  close_position_body-flat client_oid symbol (pos zero) leverage = inl (refl, refl)
  close_position_body-flat client_oid symbol (pos (suc n)) leverage =
      let long : ltb 0 (suc n) ≡ true = ground arith in
      let some_left : (suc n == 0) ≡ false = ground arith in
      inr (
        sell,
        suc n,
        close_fields client_oid symbol sell (suc n) leverage,
        rw (some_left, long) refl,
        refl,
        refl,
        refl,
        refl,
        ground arith,
      )
  close_position_body-flat client_oid symbol (negsuc n) leverage =
      let some_left : (suc n == 0) ≡ false = ground arith in
      inr (
        buy,
        suc n,
        close_fields client_oid symbol buy (suc n) leverage,
        rw some_left refl,
        refl,
        refl,
        refl,
        refl,
        ground arith,
      )

  submit-done :
      (post : Text → Body F → ExchangeError ⊎ Text) (oid : Text) (body : Body F)
      (placed : SubmittedOrder)
      → submit post oid (inr body) ≡ inr placed
      → (placed.client_oid ≡ oid) × (post (text "/api/v1/orders") body ≡ inr placed.order_id)
  unfolding submit
  submit-done post oid body placed h = answered (post (text "/api/v1/orders") body) h
    where
      answered :
          (answer : ExchangeError ⊎ Text)
          → elim answer as (λ x. ExchangeError ⊎ SubmittedOrder) [
            | inl e ↦ inl e
            | inr order_id ↦ inr (record { order_id = order_id; client_oid = oid })
          ]
            ≡ inr placed
          → (placed.client_oid ≡ oid) × (answer ≡ inr placed.order_id)
      answered (inl e) k = absurd (ground arith)
      answered (inr id) k = (ground arith, ground arith)

  field-price :
      (oid symbol : Text) (side : Side) (size leverage : ℕ) (t : OrderType) (price : Option F)
      (tif : Option TimeInForce) (reduce : Bool) (stp : Option Stp)
      → field (text "price") (place_fields oid symbol side size leverage t price tif reduce stp)
        ≡ printed price
  field-price oid symbol side size leverage t none tif reduce none = refl
  field-price oid symbol side size leverage t none tif reduce (some x) = refl
  field-price oid symbol side size leverage t (some p) tif reduce stp = refl

  -- An order that was placed is no limit order without a price. Its body, which the exchange answered
  -- with the order's id, holds the id that the caller gave, the price if there is one and none if not,
  -- the side and the size; and the caller's id is handed back with the answer.
  pub place_order_body-fields :
      (client_oid symbol : Text) (side : Side) (size leverage : ℕ) (order_type : OrderType)
      (price : Option F) (tif : Option TimeInForce) (reduce_only : Bool) (stp : Option Stp)
      (post : Text → Body F → ExchangeError ⊎ Text) (placed : SubmittedOrder)
      → submit post client_oid (
          place_order_body client_oid symbol side size leverage order_type price tif reduce_only
            stp)
        ≡ inr placed
      → ((order_type ≢ limit) ⊎ (price ≢ none))
        × (placed.client_oid ≡ client_oid)
        × ((body : Body F) × (post (text "/api/v1/orders") body ≡ inr placed.order_id)
            × (field (text "clientOid") body ≡ some (string client_oid))
            × (field (text "price") body ≡ printed price)
            × (field (text "side") body ≡ some (string (side_as_str side)))
            × (field (text "size") body ≡ some (number size)))
  unfolding place_order_body submit
  place_order_body-fields client_oid symbol side size leverage order_type price tif reduce_only stp
        post placed h =
      let body =
        place_fields client_oid symbol side size leverage order_type price tif reduce_only stp in
      elim (allowed order_type price) [
        | inl (isnt, e) ↦
            let (same_id, posted) = submit-done post client_oid body placed (rw e at h) in
            (
              isnt,
              same_id,
              (
                body,
                posted,
                refl,
                field-price client_oid symbol side size leverage order_type price tif reduce_only
                    stp,
                refl,
                refl,
              ),
            )
        | inr e ↦ absurd (inl≢inr (rw e at h))
      ]
    where
      inl≢inr : {e : ExchangeError} → {p : SubmittedOrder} → inl e ≢ inr p
      inl≢inr = λ k. cc

      allowed :
          (t : OrderType) (p : Option F)
          → ((t ≢ limit) ⊎ (p ≢ none)) × ((is_limit t && not (is_some p)) ≡ false)
            ⊎ ((is_limit t && not (is_some p)) ≡ true)
      allowed limit none = inr refl
      allowed limit (some p) = inl (inr (λ k. cc), refl)
      allowed market p = inl (inl (λ k. cc), refl)

-- Every order is active, filled or cancelled. If no cancellation is recorded, it is cancelled exactly
-- when it is neither of the others.
pub is_cancelled_complete :
    (o : OrderDetail)
    → ((is_active o || (is_filled o || is_cancelled o)) ≡ true)
      × ((o.cancel_exist ≡ some true) ⊎ (is_cancelled o ≡ not (is_active o || is_filled o)))
unfolding is_cancelled
is_cancelled_complete o = ground arith

module _ {F : Type 0} (le_zero : F → Bool) (mul div : F → F → F) (of_u32 : ℕ → F)
    (to_u32 : F → ℕ) where
  -- A size that `calc_contracts` returns is at least one, unless the cap is zero, and at most the
  -- cap, unless the price or the leverage is refused: then it is one, whatever the cap.
  pub calc_contracts-bounds :
      (contract : ExchangeError ⊎ Option F) (price balance : F) (leverage : ℕ) (risk_fraction : F)
      (max_contracts n : ℕ)
      → calc_contracts le_zero mul div of_u32 to_u32 contract price balance leverage risk_fraction
          max_contracts
        ≡ inr n
      → ((0 < n) ⊎ (max_contracts ≡ 0))
        × ((n ≤ max_contracts) ⊎ (n ≡ 1) × ((le_zero price ≡ true) ⊎ (leverage ≡ 0)))
  unfolding calc_contracts
  calc_contracts-bounds contract price balance leverage risk_fraction max_contracts n h =
      elim contract [
        | inl e ↦ ground arith
        | inr none ↦ ground arith
        | inr (some cv) ↦ ground arith
      ]
