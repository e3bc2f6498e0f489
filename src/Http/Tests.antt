-- ===== src/Http/Tests.antt =====
-- Queries and retried requests of src/http.rs and src/client.rs, and the theorems about them.
use mathlib.Core.Option
use exchange_apiws.Prelude.{
  ℕ, ◌≤◌, true, none, some, List, [], ◌∷◌, ◌++◌, ◌≡◌, ◌≢◌, refl, ◌⊎◌, inr, All, arith, length,
}
use exchange_apiws.Prelude.Text.{Text, text, same}
use exchange_apiws.Http.{build_query_string}
use exchange_apiws.Http.Retry.{
  Response, Reply, received, unreachable, pending, send_with_retry, get, Envelope, refusal,
  execute_with_retries,
}
use exchange_apiws.Http.Retry.Returns.{
  IsTransient, send_with_retry-returns, send_with_retry-first, execute_with_retries-ok,
}

code : Unit {0}
unfolding build_query_string send_with_retry get execute_with_retries
code = tt

encoded : build_query_string ((text "a b", text "1&2") ∷ []) ≡ text "?a%20b=1%262"
unfolding code
encoded = refl

abbrev response : ℕ → Response
response status = record { status = status; retry_after = some 1; body = some (text "x") }

abbrev limited : Reply
limited = received (response 429)

abbrev label : Text
label = text "Bybit POST"

abbrev replies : List Reply
replies = unreachable (text "reset") ∷ limited ∷ received (response 200) ∷ []

send_with_retry-first_example :
    ((response 200).status ≢ 429)
    × ((before : List Reply) × (after : List Reply) × (replies
          ≡ before ++ received (response 200) ∷ after)
        × All IsTransient before
        × (length before ≡ length (send_with_retry label replies).0))
unfolding code
send_with_retry-first_example = send_with_retry-first label replies (response 200) refl

abbrev stuck : List Reply
stuck =
    limited
    ∷ unreachable (text "reset")
    ∷ limited
    ∷ limited
    ∷ limited
    ∷ limited
    ∷ unreachable (text "reset")
    ∷ unreachable (text "dns")
    ∷ []

send_with_retry-returns_example :
    ((send_with_retry label stuck).1 ≢ pending) × (length (send_with_retry label stuck).0 ≤ 7)
send_with_retry-returns_example = send_with_retry-returns label stuck (omega arith)

abbrev decode : Response → Text ⊎ ℕ
decode r = inr r.status

abbrev envelope : Response → Text ⊎ Envelope ℕ
envelope r = inr (record { code = some (text "200000"); msg = none; payload = some r.status })

abbrev from_value : ℕ → Text ⊎ ℕ
from_value n = inr n

execute_with_retries-ok_example :
    (before : List Reply) × (r : Response) × (after : List Reply) × (raw : Envelope ℕ) × (replies
      ≡ before ++ received r ∷ after)
    × (r.status ≢ 429)
    × (envelope r ≡ inr raw)
    × (same (Option.get_or raw.code (text "unknown")) (text "200000") ≡ true)
    × (from_value (Option.get_or raw.payload 0) ≡ inr 200)
unfolding code refusal
execute_with_retries-ok_example =
    execute_with_retries-ok 0 envelope from_value (text "GET") (text "/t") 3 replies 200
      (omega arith) refl refl
