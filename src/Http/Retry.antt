-- ===== src/Http/Retry.antt =====
-- The retry loops: `send_with_retry` and `PublicRestClient::get` of src/http.rs, and
-- `execute_with_retries` of src/client.rs. What each request is answered is the input, one reply for
-- each; the sleeps are the output. The length of a backoff depends on the clock, so a sleep is
-- recorded by the attempt it follows.
pub mod Loop
pub mod Returns
use mathlib.Core.Option
use exchange_apiws.Prelude.{
  ℕ, ◌+◌, ◌-◌, ◌/◌, ◌%◌, Bool, true, false, ◌&&◌, Option, none, some, List, [], ◌∷◌, ◌++◌, ◌⊎◌, inl,
  inr, ltb, leb, ◌==◌, if◌then◌else◌,
}
use exchange_apiws.Prelude.Text.{Text, text, same, one_of, to_string}
use exchange_apiws.Error.{ExchangeError, http, json, api}

-- `retry_after` is the header that the loop reads, if it is there and holds a number.
pub record Response : Type 0 where
  pub status : ℕ
  pub retry_after : Option ℕ
  pub body : Option Text

pub data Reply : Type 0 where
  received : Response → Reply
  unreachable : Text → Reply

pub data Wait : Type 0 where
  backed_off : ℕ → Wait
  asked : ℕ → Wait

-- The variables of a loop.
pub record Attempts : Type 0 where
  pub attempt : ℕ
  pub rate_limit_hits : ℕ
  pub last_err : Option ExchangeError

-- `pending`: the replies given were all used, and the loop asks for another.
pub data Outcome (A : Type 0) : Type 0 where
  pending : Outcome A
  ok : A → Outcome A
  err : ExchangeError → Outcome A

-- What the body of a loop does with one reply: leave, or sleep and go on.
pub data Step (A : Type 0) : Type 0 where
  leave : Outcome A → Step A
  again : Wait → Attempts → Step A

abbrev pub default_retries : ℕ
default_retries = 3

abbrev pub max_rate_limit_retries : ℕ
max_rate_limit_retries = 5

abbrev pub start : Attempts
start = record { attempt = 0; rate_limit_hits = 0; last_err = none }

-- The error after the last attempt: the last one noted.
abbrev pub or_exhausted : Text → ℕ → Option ExchangeError → ExchangeError
or_exhausted label retries none =
    api (text "retry_exhausted")
      (label ++ (text " failed after " ++ (to_string retries ++ text " attempts")))
or_exhausted label retries (some e) = e

module _ {A : Type 0} where
  -- `while attempt < retries { … }` and the `Err` after it. What the body does before it sends may
  -- fail.
  unfoldable pub while_attempts :
      Text
      → ℕ
      → Option ExchangeError
      → (Attempts → Reply → Step A)
      → Attempts
      → List Reply
      → List Wait × Outcome A
  while_attempts label retries refused body s [] =
      if ltb s.attempt retries
      then elim refused [ none ↦ ([], pending) | some e ↦ ([], err e) ]
      else ([], err (or_exhausted label retries s.last_err))
  while_attempts label retries refused body s (r ∷ replies) =
      if ltb s.attempt retries
      then elim refused [
        | none ↦ elim (body s r) [
          | leave o ↦ ([], o)
          | again w t ↦
              let (waits, o) = while_attempts label retries refused body t replies in (w ∷ waits, o)
        ]
        | some e ↦ ([], err e)
      ]
      else ([], err (or_exhausted label retries s.last_err))

  -- A request that did not get through.
  unfoldable pub on_unreachable : ℕ → Attempts → Text → Step A
  on_unreachable retries s e =
      if ltb s.attempt (retries - 1)
      then again (backed_off s.attempt)
          (record s { attempt = s.attempt + 1; last_err = some (http e) })
      else leave (err (http e))

  -- A response with status 429, and the sleep that it asks for.
  unfoldable pub on_rate_limit : Text → Wait → Attempts → Step A
  on_rate_limit label wait s =
      if ltb max_rate_limit_retries (s.rate_limit_hits + 1)
      then leave (err (api (text "429") (label ++ text " was rate-limited 5 times; giving up")))
      else again wait (record s {
        rate_limit_hits = s.rate_limit_hits + 1;
        last_err = some (api (text "429") (text "rate limited"));
      })

unfoldable pub send_body : Text → Attempts → Reply → Step Response
unfolding on_unreachable on_rate_limit
send_body label s (unreachable e) = on_unreachable default_retries s e
send_body label s (received r) =
    if r.status == 429
    then on_rate_limit label
        (elim r.retry_after [ none ↦ backed_off s.attempt | some secs ↦ asked secs ]) s
    else leave (ok r)

unfoldable pub send_with_retry : Text → List Reply → List Wait × Outcome Response
unfolding while_attempts send_body
send_with_retry label replies =
    while_attempts label default_retries none (send_body label) start replies

-- `as_u16().to_string()` of a status, which has three digits.
abbrev pub status_text : ℕ → Text
status_text n = (48 + n / 100) ∷ (48 + n / 10 % 10) ∷ (48 + n % 10) ∷ []

-- `resp.json::<T>()` is a parameter: the text is the error it fails with.
module _ {A : Type 0} (decode : Response → Text ⊎ A) where
  -- The response of `get` that is not a rate limit.
  unfoldable pub accept : Response → Outcome A
  accept r =
      if leb 200 r.status && ltb r.status 300
      then elim (decode r) [ inl e ↦ err (http e) | inr a ↦ ok a ]
      else let code = status_text r.status in
        elim r.body [ none ↦ err (api code (text "no body")) | some body ↦ err (api code body) ]

  unfoldable pub get_body : Text → Attempts → Reply → Step A
  unfolding on_unreachable on_rate_limit accept
  get_body path s (unreachable e) = on_unreachable default_retries s e
  get_body path s (received r) =
      if r.status == 429
      then on_rate_limit (text "GET " ++ path)
          (elim r.retry_after [ none ↦ asked 2 | some secs ↦ asked secs ]) s
      else leave (accept r)

  unfoldable pub get : Text → List Reply → List Wait × Outcome A
  unfolding while_attempts get_body
  get path replies =
      while_attempts (text "GET " ++ path) default_retries none (get_body path) start replies

-- `{"code": …, "msg": …, "data": …}`: the fields that are there, the first two if they are strings.
pub record Envelope (V : Type 0) : Type 0 where
  pub code : Option Text
  pub msg : Option Text
  pub payload : Option V

abbrev pub is_verb : Text → Bool
is_verb verb = one_of verb (text "GET" ∷ text "POST" ∷ text "DELETE" ∷ text "PUT" ∷ [])

-- What stops a request from being built: the headers cannot be signed, or there is no such verb.
unfoldable pub refusal : Option ExchangeError → Text → Option ExchangeError
refusal (some e) verb = some e
refusal none verb =
    if is_verb verb
    then none
    else some (ExchangeError.config (text "unsupported HTTP verb: " ++ verb))

-- The type of JSON values, and the decoders of `serde_json`, are parameters.
module _ {V A : Type 0} (null : V) (envelope : Response → Text ⊎ Envelope V)
    (from_value : V → Text ⊎ A) where
  unfoldable pub unwrap_envelope : Envelope V → Outcome A
  unwrap_envelope raw =
      let code = Option.get_or raw.code (text "unknown") in
      if same code (text "200000")
      then elim (from_value (Option.get_or raw.payload null)) [
        | inl e ↦ err (json e)
        | inr a ↦ ok a
      ]
      else err (api code (Option.get_or raw.msg (text "no message")))

  unfoldable pub execute_body : Text → ℕ → Attempts → Reply → Step A
  unfolding on_unreachable on_rate_limit unwrap_envelope
  execute_body label retries s (unreachable e) = on_unreachable retries s e
  execute_body label retries s (received r) =
      if r.status == 429
      then on_rate_limit label
          (elim r.retry_after [ none ↦ asked 2000 | some millis ↦ asked millis ]) s
      else elim (envelope r) [
        | inl e ↦ leave (err (http e))
        | inr raw ↦ leave (unwrap_envelope raw)
      ]

  -- `headers` is the error of `build_headers_with_offset`, if it has one.
  unfoldable pub execute_with_retries :
      Option ExchangeError → Text → Text → ℕ → List Reply → List Wait × Outcome A
  unfolding while_attempts execute_body refusal
  execute_with_retries headers verb endpoint retries replies =
      let label = verb ++ 32 ∷ endpoint in
      while_attempts label retries (refusal headers verb) (execute_body label retries) start replies
