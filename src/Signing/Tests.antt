-- ===== src/Signing/Tests.antt =====
-- Runs of the signed texts of src/auth.rs, src/kraken/auth.rs and src/cryptocom/auth.rs, and the
-- theorems at them.
use exchange_apiws.Prelude.{[], ◌∷◌, ◌≡◌, refl}
use exchange_apiws.Prelude.Text.{text}
use exchange_apiws.Prelude.Int.{pos}
use exchange_apiws.Prelude.SortedMap
use exchange_apiws.Signing.{prehash, form_encode}
use exchange_apiws.Signing.Params.{
  Param, str, obj, end, field, build_params_string, sorted_entries, sign_payload,
}
use exchange_apiws.Signing.Reorder.{fields, swap, sign_payload-Reordered}

signed :
    prehash (text "17") (text "post") (text "/api/v1/orders") (text "{}")
    ≡ text "17POST/api/v1/orders{}"
unfolding prehash
signed = refl

form : form_encode ((text "a b", text "c/d") ∷ (text "n", text "1") ∷ []) ≡ text "a+b=c%2Fd&n=1"
unfolding form_encode
form = refl

abbrev order : Param
order = obj (field (text "side") (str (text "BUY")) (field (text "qty") (str (text "1")) end))

abbrev reordered : Param
reordered = obj (field (text "qty") (str (text "1")) (field (text "side") (str (text "BUY")) end))

sorted : build_params_string order ≡ text "qty1sideBUY"
unfolding build_params_string sorted_entries SortedMap.insert
sorted = refl

-- Different parameters may be signed by the same text.
ambiguous :
    build_params_string (obj (field (text "a") (str (text "bc")) end))
    ≡ build_params_string (obj (field (text "ab") (str (text "c")) end))
unfolding build_params_string sorted_entries SortedMap.insert
ambiguous = refl

sign_payload-Reordered_example :
    sign_payload (text "private/create-order") (pos 7) (text "key") order (pos 9)
    ≡ sign_payload (text "private/create-order") (pos 7) (text "key") reordered (pos 9)
sign_payload-Reordered_example =
    sign_payload-Reordered (text "private/create-order") (pos 7) (text "key") (pos 9)
      (fields (swap (λ e. cc e)))
