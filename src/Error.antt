-- ===== src/Error.antt =====
-- src/error.rs: the errors, and how a caller is told to react to them. An error of another crate is
-- the text that it prints.
pub mod Triage
mod Tests
use exchange_apiws.Prelude.{
  ℕ, Bool, true, false, ◌&&◌, ◌||◌, Option, none, some, List, [], ◌∷◌, if◌then◌else◌,
}
use exchange_apiws.Prelude.Text.{
  Text, text, same, one_of, starts_with, contains, to_ascii_lowercase,
}

pub data ExchangeError : Type 0 where
  http web_socket json auth config order insufficient_data other : Text → ExchangeError
  -- the code and the message
  api : Text → Text → ExchangeError
  -- the url and the attempts
  ws_disconnected : Text → ℕ → ExchangeError

pub data ErrorClass : Type 0 where
  retriable fatal : ErrorClass
  ambiguous : Option Text → ErrorClass

abbrev pub kucoin_code : ExchangeError → Option Text
kucoin_code (api code message) = some code
kucoin_code _ = none

-- `matches!(self.kucoin_code(), Some(…))`.
abbrev pub has_code : List Text → ExchangeError → Bool
has_code codes e = elim (kucoin_code e) [ none ↦ false | some code ↦ one_of code codes ]

unfoldable pub is_rate_limited : ExchangeError → Bool
is_rate_limited e = has_code (text "429" ∷ text "429000" ∷ []) e

unfoldable pub is_clock_skew : ExchangeError → Bool
is_clock_skew e = has_code (text "400002" ∷ text "400003" ∷ []) e

abbrev pub is_auth_variant : ExchangeError → Bool
is_auth_variant (auth message) = true
is_auth_variant _ = false

unfoldable pub is_auth : ExchangeError → Bool
is_auth e =
    is_auth_variant e
    || has_code
        (text "400002"
          ∷ text "400003"
          ∷ text "400004"
          ∷ text "400005"
          ∷ text "400006"
          ∷ text "400007"
          ∷ [])
        e

unfoldable pub is_retriable_code : Text → Bool
is_retriable_code code =
    one_of code (
      text "100001"
      ∷ text "100002"
      ∷ text "200002"
      ∷ text "300001"
      ∷ text "500000"
      ∷ text "502"
      ∷ text "503"
      ∷ text "504"
      ∷ [])
    || starts_with (text "5") code

unfoldable pub is_retriable : ExchangeError → Bool
unfolding is_rate_limited is_clock_skew is_retriable_code
is_retriable (http e) = true
is_retriable (ws_disconnected url attempts) = true
is_retriable (api code message) =
    (is_retriable_code code || is_rate_limited (api code message))
    || is_clock_skew (api code message)
is_retriable _ = false

unfoldable pub is_duplicate_client_oid : ExchangeError → Bool
is_duplicate_client_oid (api code message) =
    let m = to_ascii_lowercase message in
    (((same code (text "400100") || same code (text "300005")) || same code (text "100004"))
      && contains (text "clientoid") m)
    && (contains (text "duplicate") m || contains (text "exist") m)
is_duplicate_client_oid _ = false

unfoldable pub classify : ExchangeError → ErrorClass
unfolding is_retriable
classify e = if is_retriable e then retriable else fatal

unfoldable pub classify_submit : ExchangeError → Text → ErrorClass
unfolding classify is_duplicate_client_oid
classify_submit (http e) client_oid = ambiguous (some client_oid)
classify_submit (api code message) client_oid =
    if is_duplicate_client_oid (api code message)
    then ambiguous (some client_oid)
    else classify (api code message)
classify_submit e client_oid = classify e
