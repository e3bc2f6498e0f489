-- ===== src/Connect/Binance/Symbols.antt =====
-- The partial-depth streams of src/binance/ws.rs: their frames hold no symbol, and the parser takes it
-- from the stream's name.
use exchange_apiws.Prelude.{
  ℕ, false, none, some, [], ◌∷◌, ◌++◌, ◌≡◌, ◌≢◌, refl, ◌⊎◌, inr, arith, All, ◌&&◌, leb,
}
use exchange_apiws.Prelude.Text.{Text, text, to_ascii_lowercase, lower}
use exchange_apiws.Prelude.Int.{ℤ}
use exchange_apiws.Prelude.Float.{Float}
use exchange_apiws.Prelude.Json.{Json, JsonFloat, str_at}
use exchange_apiws.Actors.{order_book}
use exchange_apiws.Streams.Binance.{
  before_at, parse_event, parse_untyped, to_uppercase, open_envelope, parse_depth_snapshot,
  parse_message,
}
use exchange_apiws.Connect.Binance.{depth_snapshot_stream}

-- A character of a symbol as Binance writes them: no small letter, and no `@`.
abbrev pub IsCapital : ℕ → Type 0
IsCapital c = ((leb 97 c && leb c 122) ≡ false) × (c ≢ 64)

upper-lower : (c : ℕ) → IsCapital c → to_uppercase (lower c ∷ []) ≡ c ∷ []
upper-lower c (h, n) = ground arith

-- A stream's name before the `@`, in capitals, is the symbol.
to_uppercase-before_at :
    (symbol s : Text)
    → All IsCapital symbol
    → to_uppercase (before_at (to_ascii_lowercase symbol ++ b'@' ∷ s)) ≡ symbol
to_uppercase-before_at [] s h = refl
to_uppercase-before_at (c ∷ symbol) s ((h, n), hs) =
    ground (arith, to_uppercase-before_at symbol s hs)

-- A frame of a partial-depth stream, one with a `lastUpdateId` and neither `e` nor `u`, is parsed as
-- a snapshot of the book of the symbol that the stream was subscribed to for, at whatever number of
-- levels, although only the stream's name tells the symbol. The symbol is written without small
-- letters and without `@`.
pub parse_message-depth_snapshot_stream :
    {V : Type 0} (F : Type 0) ⦃j : Json V⦄ ⦃jf : JsonFloat V F⦄ ⦃fl : Float F⦄ (now : ℤ)
    (decode : Text → Text ⊎ V) (null v inner update : V) (exchange raw symbol : Text) (levels : ℕ)
    → All IsCapital symbol
    → decode raw ≡ inr v
    → str_at v (text "stream") ≡ some (depth_snapshot_stream symbol levels)
    → j.get v (text "data") ≡ some inner
    → j.get inner (text "e") ≡ none
    → j.get inner (text "u") ≡ none
    → j.get inner (text "lastUpdateId") ≡ some update
    → parse_message {F = F} now decode null exchange raw
      ≡ inr (order_book (parse_depth_snapshot now exchange symbol inner) ∷ [])
unfolding parse_message parse_event parse_untyped open_envelope depth_snapshot_stream
parse_message-depth_snapshot_stream F now decode null v inner update exchange raw symbol levels h
      read stream filled untyped unnumbered snapshot =
    rw
      (
        parse_message,
        read,
        open_envelope,
        stream,
        filled,
        parse_event,
        untyped,
        parse_untyped,
        unnumbered,
        snapshot,
        to_uppercase-before_at symbol _ h,
      )
      refl
