-- ===== src/Orders.antt =====
-- src/rest/orders.rs: the bodies of the orders that are placed, and the state of those that come
-- back. Prices are of any type; the POST of a body is a parameter.
pub mod Placing
mod Tests
use mathlib.Core.Option
use exchange_apiws.Prelude.{
  ℕ, suc, ◌+◌, ◌≤◌, Bool, true, false, not, ◌&&◌, ◌||◌, Option, none, some, List, [], ◌∷◌, ◌++◌,
  ◌⊎◌, inl, inr, min, max, leb, ltb, ◌==◌, if◌then◌else◌,
}
use exchange_apiws.Prelude.Int.{ℤ, pos, negsuc}
use exchange_apiws.Prelude.Text.{Text, text, same}
use exchange_apiws.Error.{ExchangeError, order}
use exchange_apiws.Types.{
  Side, buy, sell, side_as_str, OrderType, market, limit, order_type_as_str, TimeInForce,
  default_time_in_force, time_in_force_as_str, Stp, stp_as_str,
}

-- A value of a body. Numbers that are sent as strings are kept as the numbers that are printed.
pub data Json (F : Type 0) : Type 0 where
  string : Text → Json F
  number : ℕ → Json F
  boolean : Bool → Json F
  printed_u32 : ℕ → Json F
  printed_f64 : F → Json F

abbrev pub Body : Type 0 → Type 0
Body F = List (Text × Json F)

pub record SubmittedOrder : Type 0 where
  pub order_id : Text
  pub client_oid : Text

-- The fields of `OrderDetail` that its methods read.
pub record OrderDetail : Type 0 where
  pub status : Text
  pub active : Option Bool
  pub cancel_exist : Option Bool
  pub size : ℕ
  pub filled_size : Option ℕ

unfoldable pub is_active : OrderDetail → Bool
is_active o = Option.get_or o.active (not (same o.status (text "done")))

unfoldable pub is_filled : OrderDetail → Bool
is_filled o = elim o.filled_size [ none ↦ false | some filled ↦ leb o.size filled ]

unfoldable pub is_cancelled : OrderDetail → Bool
unfolding is_active is_filled
is_cancelled o = Option.get_or o.cancel_exist false || (not (is_active o) && not (is_filled o))

-- `body[key] = …` for a value that may be missing.
abbrev pub optional_field : {F : Type 0} → Text → Option (Json F) → Body F
optional_field key none = []
optional_field key (some value) = (key, value) ∷ []

abbrev pub printed : {F : Type 0} → Option F → Option (Json F)
printed none = none
printed (some p) = some (printed_f64 p)

abbrev pub stp_field : {F : Type 0} → Option Stp → Option (Json F)
stp_field none = none
stp_field (some stp) = some (string (stp_as_str stp))

abbrev pub is_limit : OrderType → Bool
is_limit limit = true
is_limit market = false

abbrev pub is_some : {A : Type 0} → Option A → Bool
is_some none = false
is_some (some a) = true

-- `qty.unsigned_abs()`.
abbrev pub unsigned_abs : ℤ → ℕ
unsigned_abs (pos n) = n
unsigned_abs (negsuc n) = suc n

abbrev pub closing_side : ℤ → Side
closing_side (pos n) = if ltb 0 n then sell else buy
closing_side (negsuc n) = buy

module _ {F : Type 0} where
  -- The body of an order that is placed, `price` and `stp` only where they are given.
  abbrev pub place_fields :
      Text
      → Text
      → Side
      → ℕ
      → ℕ
      → OrderType
      → Option F
      → Option TimeInForce
      → Bool
      → Option Stp
      → Body F
  place_fields client_oid symbol side size leverage order_type price tif reduce_only stp =
      (text "clientOid", string client_oid)
      ∷ (text "side", string (side_as_str side))
      ∷ (text "symbol", string symbol)
      ∷ (text "type", string (order_type_as_str order_type))
      ∷ (text "size", number size)
      ∷ (text "leverage", printed_u32 leverage)
      ∷ (
        text "timeInForce",
        string (time_in_force_as_str (Option.get_or tif default_time_in_force)),
      )
      ∷ (text "reduceOnly", boolean reduce_only)
      ∷ (optional_field (text "price") (printed price)
          ++ optional_field (text "stp") (stp_field stp))

  abbrev pub close_fields : Text → Text → Side → ℕ → ℕ → Body F
  close_fields client_oid symbol side abs_qty leverage =
      (text "clientOid", string client_oid)
      ∷ (text "side", string (side_as_str side))
      ∷ (text "symbol", string symbol)
      ∷ (text "type", string (text "market"))
      ∷ (text "size", number abs_qty)
      ∷ (text "leverage", printed_u32 leverage)
      ∷ (text "closeOrder", boolean true)
      ∷ (text "timeInForce", string (text "GTC"))
      ∷ []

  -- What `place_order_with_client_oid` posts, or the error that it returns first.
  unfoldable pub place_order_body :
      Text
      → Text
      → Side
      → ℕ
      → ℕ
      → OrderType
      → Option F
      → Option TimeInForce
      → Bool
      → Option Stp
      → ExchangeError ⊎ Body F
  place_order_body client_oid symbol side size leverage order_type price tif reduce_only stp =
      if is_limit order_type && not (is_some price)
      then inl (order (text "place_order: price is required for limit orders"))
      else inr
          (place_fields client_oid symbol side size leverage order_type price tif reduce_only stp)

  unfoldable pub close_position_body : Text → Text → ℤ → ℕ → ExchangeError ⊎ Body F
  close_position_body client_oid symbol qty leverage =
      if unsigned_abs qty == 0
      then inl (order (text "qty is 0 — nothing to close"))
      else inr (close_fields client_oid symbol (closing_side qty) (unsigned_abs qty) leverage)

  unfoldable pub place_stop_order_body :
      Text → Text → Side → ℕ → ℕ → F → Text → Option F → Bool → ExchangeError ⊎ Body F
  place_stop_order_body client_oid symbol side size leverage stop_price stop_type price
        reduce_only =
      inr (
        (text "clientOid", string client_oid)
        ∷ (text "side", string (side_as_str side))
        ∷ (text "symbol", string symbol)
        ∷ (text "type", string (if is_some price then text "limit" else text "market"))
        ∷ (text "size", number size)
        ∷ (text "leverage", printed_u32 leverage)
        ∷ (text "stop", string stop_type)
        ∷ (text "stopPrice", printed_f64 stop_price)
        ∷ (text "stopPriceType", string (text "MP"))
        ∷ (text "reduceOnly", boolean reduce_only)
        ∷ optional_field (text "price") (printed price))

  -- The end of each `…_with_client_oid`: post the body, and hand the id back with the answer.
  unfoldable pub submit :
      (post : Text → Body F → ExchangeError ⊎ Text)
      → Text
      → ExchangeError ⊎ Body F
      → ExchangeError ⊎ SubmittedOrder
  submit post client_oid (inl e) = inl e
  submit post client_oid (inr body) = elim (post (text "/api/v1/orders") body) [
    | inl e ↦ inl e
    | inr order_id ↦ inr (record { order_id = order_id; client_oid = client_oid })
  ]

-- `calc_contracts`. The arithmetic of `f64` and the lookup of the contract are parameters; `le_zero` is
-- `x <= 0.0`.
module _ {F : Type 0} (le_zero : F → Bool) (mul div : F → F → F) (of_u32 : ℕ → F)
    (to_u32 : F → ℕ) where
  unfoldable pub calc_contracts : ExchangeError ⊎ Option F → F → F → ℕ → F → ℕ → ExchangeError ⊎ ℕ
  calc_contracts contract price balance leverage risk_fraction max_contracts =
      if le_zero price then inr 1 else if leverage == 0 then inr 1 else elim contract [
        | inl e ↦ inl e
        | inr multiplier ↦ elim multiplier [
          | none ↦ inl (order (text "calc_contracts: contract returned no multiplier"))
          | some cv ↦
              let notional_per_ct = mul price cv in
              let margin_per_ct = div notional_per_ct (of_u32 leverage) in
              let raw = to_u32 (div (mul balance risk_fraction) margin_per_ct) in
              inr (min (max raw 1) max_contracts)
        ]
      ]
