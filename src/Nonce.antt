-- ===== src/Nonce.antt =====
-- The counters of src/kraken/private.rs and src/cryptocom/private.rs from which request nonces and
-- ids are taken. A call is two atomic operations on a shared counter, and the operations of several
-- callers may interleave in any way: a run is a list of operations.
pub mod Unique
mod Tests
use exchange_apiws.Prelude.{
  ℕ, ◌+◌, ◌-◌, ◌^◌, ◌%◌, max, Option, none, some, List, [], ◌∷◌, ltb, if◌then◌else◌,
}

pub data Op : Type 0 where
  fetch_max : ℕ → Op
  fetch_add : Op

-- What one caller does, the clock in milliseconds being `now_ms`.
abbrev pub next_nonce : ℕ → List Op
next_nonce now_ms = fetch_max now_ms ∷ fetch_add ∷ []

-- `fetch_add` wraps around at 2 ^ 64.
unfoldable pub step : ℕ → Op → ℕ × Option ℕ
step state (fetch_max now_ms) = (max state now_ms, none)
step state fetch_add = ((state + 1) % 2 ^ 64, some state)

-- The values that the calls of `fetch_add` return, in the order in which they happen.
unfoldable pub run : ℕ → List Op → List ℕ
unfolding step
run state [] = []
run state (op ∷ ops) =
    let (next, nonce) = step state op in
    let nonces = run next ops in elim nonce [ none ↦ nonces | some n ↦ n ∷ nonces ]

-- `i64::try_from(next).unwrap_or(i64::MAX)`.
unfoldable pub to_i64 : ℕ → ℕ
to_i64 next = if ltb next (2 ^ 63) then next else 2 ^ 63 - 1
