-- ===== src/Nonce/Unique.antt =====
-- The nonces of src/kraken/private.rs and src/cryptocom/private.rs are never handed out twice.
use exchange_apiws.Prelude.{
  ℕ, ◌+◌, ◌^◌, ◌%◌, ◌≤◌, ◌<◌, List, [], ◌∷◌, ◌++◌, ◌≡◌, map, refl, max, arith, All, All-imp,
  All-append, length, length-append,
}
use exchange_apiws.Nonce.{Op, fetch_max, fetch_add, run, to_i64}

-- Each element is less than all that follow it.
abbrev pub Increasing : List ℕ → Type 0
Increasing [] = Unit
Increasing (n ∷ ns) = All (λ m. n < m) ns × Increasing ns

-- The clock readings of a run are at most a limit.
abbrev pub Reads : ℕ → Op → Type 0
Reads limit (fetch_max now_ms) = now_ms ≤ limit
Reads limit fetch_add = Unit

Reads-weaken : (limit : ℕ) (op : Op) → Reads limit op → Reads (limit + 1) op
Reads-weaken limit (fetch_max now_ms) h = omega arith
Reads-weaken limit fetch_add h = tt

run-Increasing :
    (state limit : ℕ) (ops : List Op)
    → state ≤ limit
    → All (Reads limit) ops
    → limit + length ops < 2 ^ 63
    → All (λ n. state ≤ n) (run state ops)
      × All (λ n. n < 2 ^ 63) (run state ops)
      × Increasing (run state ops)
unfolding run
run-Increasing state limit [] h r b = (tt, tt, tt)
run-Increasing state limit (fetch_max now_ms ∷ ops) h (r, rs) b =
    let (low, high, up) =
      run-Increasing (max state now_ms) limit ops (omega arith) rs (omega arith) in
    (All-imp (λ n k. omega arith) (run (max state now_ms) ops) low, high, up)
run-Increasing state limit (fetch_add ∷ ops) h (r, rs) b =
    let next : (state + 1) % 2 ^ 64 ≡ state + 1 = omega arith in
    let (low, high, up) =
      run-Increasing (state + 1) (limit + 1) ops (omega arith)
        (All-imp (λ op k. Reads-weaken limit op k) ops rs) (omega arith) in
    rw next (
      (omega arith, All-imp (λ n k. omega arith) (run (state + 1) ops) low),
      (omega arith, high),
      (All-imp (λ n k. omega arith) (run (state + 1) ops) low, up),
    )

to_i64-id : (ns : List ℕ) → All (λ n. n < 2 ^ 63) ns → map to_i64 ns ≡ ns
unfolding to_i64
to_i64-id [] h = refl
to_i64-id (n ∷ ns) (h, hs) = ground (arith, to_i64-id ns hs)

-- However the operations of the callers interleave, and however their clocks jump, the nonces that a
-- client hands out strictly increase, so no two are equal, and the conversion to `i64` does not
-- change them, provided the readings and the number of operations together stay below 2 ^ 63.
pub run-distinct :
    (limit : ℕ) (ops : List Op)
    → All (Reads limit) ops
    → limit + length ops < 2 ^ 63
    → Increasing (run 0 ops) × (map to_i64 (run 0 ops) ≡ run 0 ops)
run-distinct limit ops r b =
    let (_, high, up) = run-Increasing 0 limit ops (omega arith) r b in
    (up, to_i64-id (run 0 ops) high)

-- Once a call has raised the counter to its clock reading, no nonce is below that reading: not the
-- one that the call takes in the end, nor any that other callers take in between, while the readings
-- and the number of operations together stay below 2 ^ 63.
pub run-floor :
    (state now_ms limit : ℕ) (others : List Op)
    → state ≤ limit
    → now_ms ≤ limit
    → All (Reads limit) others
    → limit + length others + 2 < 2 ^ 63
    → All (λ n. now_ms ≤ n) (run state (fetch_max now_ms ∷ (others ++ fetch_add ∷ [])))
unfolding run
run-floor state now_ms limit others s h r b =
    let (low, _, _) =
      run-Increasing (max state now_ms) limit (others ++ fetch_add ∷ []) (omega arith)
        (All-append (Reads limit) others (fetch_add ∷ []) r (tt, tt))
        (omega (arith, length-append others (fetch_add ∷ []))) in
    All-imp (λ n k. omega arith) (run (max state now_ms) (others ++ fetch_add ∷ [])) low
