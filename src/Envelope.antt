-- ===== src/Envelope.antt =====
-- The envelopes of the exchanges' REST replies: `unwrap_kraken_envelope` of src/kraken/rest.rs,
-- `unwrap_bybit_envelope` of src/bybit/rest.rs and `unwrap_cryptocom_envelope` of
-- src/cryptocom/rest.rs. `from_value` decodes the result into the caller's type.
pub mod Refusals
mod Tests
use exchange_apiws.Prelude.{
  ℕ, ◌+◌, Bool, true, false, Option, none, some, List, [], ◌∷◌, ◌++◌, ◌⊎◌, inl, inr, ◌==◌, ◌≡◌,
  refl, if◌then◌else◌,
}
use exchange_apiws.Prelude.Text.{Text, text, to_string}
use exchange_apiws.Prelude.Options.{◌>>=◌, unwrap_or, filter_map}
use exchange_apiws.Prelude.Int.{ℤ, pos, negsuc}
use exchange_apiws.Prelude.Json.{Json, str_at, i64_at, array_at}
use exchange_apiws.Error.{
  ExchangeError, json, api, ErrorClass, fatal, classify, is_rate_limited, is_auth, is_clock_skew,
}

-- `to_string` of an i64.
abbrev pub int_to_string : ℤ → Text
int_to_string (pos n) = to_string n
int_to_string (negsuc n) = text "-" ++ to_string (n + 1)

abbrev pub is_zero : ℤ → Bool
is_zero (pos n) = n == 0
is_zero (negsuc n) = false

-- `join("; ")`.
abbrev pub joined : List Text → Text
joined [] = []
joined (e ∷ []) = e
joined (e ∷ f ∷ es) = e ++ text "; " ++ joined (f ∷ es)

module _ {V A : Type 0} ⦃j : Json V⦄ (null : V) (from_value : V → Text ⊎ A) where
  abbrev pub decode_result : V → ExchangeError ⊎ A
  decode_result raw = elim (from_value (unwrap_or (j.get raw (text "result")) null)) [
    | inl e ↦ inl (json e)
    | inr a ↦ inr a
  ]

  abbrev pub errors_of : V → List Text
  errors_of raw = filter_map j.as_str (unwrap_or (array_at raw (text "error")) [])

  unfoldable pub unwrap_kraken_envelope : V → ExchangeError ⊎ A
  unwrap_kraken_envelope raw = elim (errors_of raw) [
    | [] ↦ decode_result raw
    | e ∷ es ↦ inl (api (text "kraken_error") (joined (e ∷ es)))
  ]

  -- What the envelopes of Bybit and Crypto.com share: the keys of the code and of the message differ.
  unfoldable pub unwrap_coded : Text → Text → V → ExchangeError ⊎ A
  unwrap_coded code_key message_key raw =
      let ret_code = unwrap_or (i64_at raw code_key) (negsuc 0) in
      if is_zero ret_code
      then decode_result raw
      else inl
          (api (int_to_string ret_code) (unwrap_or (str_at raw message_key) (text "no message")))

  unfoldable pub unwrap_bybit_envelope : V → ExchangeError ⊎ A
  unwrap_bybit_envelope raw = unwrap_coded (text "retCode") (text "retMsg") raw

  unfoldable pub unwrap_cryptocom_envelope : V → ExchangeError ⊎ A
  unwrap_cryptocom_envelope raw = unwrap_coded (text "code") (text "message") raw
