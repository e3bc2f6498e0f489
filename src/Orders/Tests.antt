-- ===== src/Orders/Tests.antt =====
-- Orders of src/rest/orders.rs on whole-number prices, and the theorems about them.
use exchange_apiws.Prelude.{
  ℕ, ◌*◌, ◌/◌, ◌≤◌, ◌<◌, Bool, true, Option, none, some, ◌≡◌, refl, ◌⊎◌, inr, ◌==◌,
}
use exchange_apiws.Prelude.Text.{Text, text}
use exchange_apiws.Error.{ExchangeError}
use exchange_apiws.Orders.{
  Body, OrderDetail, place_order_body, SubmittedOrder, submit, calc_contracts,
}
use exchange_apiws.Orders.Placing.{calc_contracts-bounds}

code : Unit {0}
unfolding place_order_body submit calc_contracts
code = tt

abbrev price : Option ℕ
price = some 99

abbrev cap : ℕ
cap = 8

abbrev placed_size : ℕ
placed_size = 4

abbrev leverage : ℕ
leverage = 10

abbrev post : Text → Body ℕ → ExchangeError ⊎ Text
post endpoint body = inr (text "o7")

abbrev placed : SubmittedOrder
placed = record { order_id = text "o7"; client_oid = text "c1" }

abbrev partial : OrderDetail
partial = record {
  status = text "done";
  active = none;
  cancel_exist = none;
  size = 5;
  filled_size = some 2;
}

abbrev le_zero : ℕ → Bool
le_zero p = p == 0

abbrev times : ℕ → ℕ → ℕ
times a b = a * b

abbrev over : ℕ → ℕ → ℕ
over a b = a / b

calc_contracts-bounds_example :
    ((0 < placed_size) ⊎ (cap ≡ 0))
    × ((4 ≤ cap) ⊎ (placed_size ≡ 1) × ((le_zero 50 ≡ true) ⊎ (leverage ≡ 0)))
unfolding code
calc_contracts-bounds_example =
    calc_contracts-bounds le_zero times over (λ n. n) (λ n. n) (inr (some 2)) 50 40 leverage 1 cap
      placed_size refl
