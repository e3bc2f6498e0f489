-- ===== src/Market/Tests.antt =====
-- Runs of fetch_klines_extended and of the clock offset of src/rest/market.rs, and the theorems at
-- them.
use exchange_apiws.Prelude.{
  ℕ, min, some, List, [], ◌∷◌, ◌++◌, ◌≡◌, refl, ◌⊎◌, inr, arith, All, take, length,
}
use exchange_apiws.Prelude.Int.{pos, ◌+ℤ◌, ◌-ℤ◌}
use exchange_apiws.Error.{ExchangeError}
use exchange_apiws.Types.Candle.{Candle}
use exchange_apiws.Market.{
  Window, wrap_i64, window, next_end, pages, batch_of, insert, sort_by_time, trimmed,
  skewed_timestamp_ms, refresh_server_time,
}
use exchange_apiws.Market.Paging.{Covers, pages-hole}
use exchange_apiws.Market.Kept.{Sorted, candles, pages-oldest}

abbrev at : ℕ → Candle ℕ
at n = record { time = pos n; open_price = 0; high = 0; low = 0; close = 0; volume = 0 }

abbrev read : ℕ → ExchangeError ⊎ Candle ℕ
read n = inr (at n)

-- Bars of one minute. The bar at 840000 lies between the two pages.
abbrev replies : List (ExchangeError ⊎ List ℕ)
replies = inr (960000 ∷ 900000 ∷ []) ∷ inr (780000 ∷ 720000 ∷ []) ∷ []

code : Unit {0}
unfolding pages window next_end batch_of insert sort_by_time trimmed wrap_i64 ◌-ℤ◌ ◌+ℤ◌
    skewed_timestamp_ms refresh_server_time
code = tt

abbrev first : Window
first = record { from_ms = pos 880000; to_ms = pos 1000000 }

abbrev second : Window
second = record { from_ms = pos 700000; to_ms = pos 820000 }

two_pages :
    pages read 4 2 (pos 1) replies (pos 1000000) []
    ≡ (first ∷ second ∷ [], some (inr (at 720000 ∷ at 780000 ∷ at 900000 ∷ at 960000 ∷ [])))
unfolding code
two_pages = refl

pages-hole_example :
    (second.to_ms ≡ pos 820000)
    × All (λ x. Covers 840000 x → ⊥) (pages read 4 2 (pos 1) replies (pos 1000000) []).0
unfolding code
pages-hole_example =
    pages-hole read 4 2 1 replies 1000000 [] [] first second 880000 840000 (omega arith)
      (omega arith) (omega arith) refl refl (omega arith) (omega arith)

-- Three candles where two were asked for: the newest is left out.
newest_lost :
    (pages read 2 2 (pos 1) (inr (960000 ∷ 900000 ∷ 840000 ∷ []) ∷ []) (pos 1000000) []).1
    ≡ some (inr (at 840000 ∷ at 900000 ∷ []))
unfolding code
newest_lost = refl

pages-oldest_example :
    (n : ℕ) × (rest : List (Candle ℕ)) × (sort_by_time (candles read (take n replies))
      ≡ (at 720000 ∷ at 780000 ∷ at 900000 ∷ at 960000 ∷ []) ++ rest)
    × (4 ≡ min 4 (length (candles read (take n replies))))
    × Sorted ((at 720000 ∷ at 780000 ∷ at 900000 ∷ at 960000 ∷ []) ++ rest)
unfolding code
pages-oldest_example =
    pages-oldest read 4 2 (pos 1) replies (pos 1000000)
      (at 720000 ∷ at 780000 ∷ at 900000 ∷ at 960000 ∷ []) refl
