-- ===== src/Nonce/Tests.antt =====
-- Two callers of `next_nonce` that interleave, and the theorems about them.
use exchange_apiws.Prelude.{List, [], ◌∷◌, ◌≡◌, refl, map, arith}
use exchange_apiws.Nonce.{Op, fetch_max, fetch_add, next_nonce, run, to_i64}
use exchange_apiws.Nonce.Unique.{Increasing, run-distinct}

-- The second caller's clock is behind.
abbrev interleaved : List Op
interleaved = fetch_max 100 ∷ fetch_max 98 ∷ fetch_add ∷ fetch_add ∷ next_nonce 100

nonces : run 0 interleaved ≡ 100 ∷ 101 ∷ 102 ∷ []
unfolding run
nonces = refl

run-distinct_example :
    Increasing (run 0 interleaved) × (map to_i64 (run 0 interleaved) ≡ run 0 interleaved)
run-distinct_example = run-distinct 100 interleaved (ground arith) (omega arith)
