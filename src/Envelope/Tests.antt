-- ===== src/Envelope/Tests.antt =====
-- Replies of Kraken and Bybit, unwrapped.
use exchange_apiws.Prelude.{◌≡◌, refl, inl, inr, none}
use exchange_apiws.Prelude.Text.{text}
use exchange_apiws.Prelude.Values.{
  Value, str, obj, arr, num, null, end, field, nil, cons, value_json,
}
use exchange_apiws.Error.{api}
use exchange_apiws.Http.Retry.{Response, accept}
use exchange_apiws.Clients.{read_response}
use exchange_apiws.Envelope.Refusals.{IsFinal, read_response-IsFinal}
use exchange_apiws.Envelope.{unwrap_kraken_envelope, unwrap_bybit_envelope, unwrap_coded}

abbrev refused : Value
refused = obj (
    field (text "error") (arr (cons (str (text "EGeneral:x")) (cons (str (text "EAPI:y")) nil)))
      end)

kraken_refused :
    unwrap_kraken_envelope {A = Value} null inr refused
    ≡ inl (api (text "kraken_error") (text "EGeneral:x; EAPI:y"))
unfolding unwrap_kraken_envelope
kraken_refused = refl

bybit_without_code :
    unwrap_bybit_envelope {A = Value} null inr refused ≡ inl (api (text "-1") (text "no message"))
unfolding unwrap_bybit_envelope unwrap_coded
bybit_without_code = refl

bybit_answered :
    unwrap_bybit_envelope {A = Value} null inr
      (obj (field (text "retCode") (num 0) (field (text "result") (num 7) end)))
    ≡ inr (num 7)
unfolding unwrap_bybit_envelope unwrap_coded
bybit_answered = refl

abbrev answer : Response
answer = record { status = 200; retry_after = none; body = none }

read_response-IsFinal_example : IsFinal (api (text "kraken_error") (text "EGeneral:x; EAPI:y"))
unfolding unwrap_kraken_envelope read_response accept
read_response-IsFinal_example =
    read_response-IsFinal {A = Value} null inr (λ r. inr refused) answer refused
      (api (text "kraken_error") (text "EGeneral:x; EAPI:y")) refl refl refl
