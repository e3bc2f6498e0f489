-- ===== src/Market.antt =====
-- src/rest/market.rs: fetch_klines_extended, and the clock offset that sync_server_time and
-- refresh_server_time keep for the signed requests of src/auth.rs.
pub mod Paging
pub mod Kept
pub mod Clock
mod Tests
use exchange_apiws.Prelude.{
  ℕ, suc, ◌+◌, ◌-◌, ◌*◌, ◌%◌, ◌^◌, min, Bool, true, false, Option, none, some, List, [], ◌∷◌, ◌++◌,
  ◌⊎◌, inl, inr, if◌then◌else◌, leb, ltb, length, take,
}
use exchange_apiws.Prelude.Int.{ℤ, pos, negsuc, sub_ℕ, ◌-ℤ◌, ◌+ℤ◌, leb_ℤ}
use exchange_apiws.Prelude.Options.{filter_map}
use exchange_apiws.Error.{ExchangeError}
use exchange_apiws.Types.Candle.{Candle}

-- The i64 that has the low 64 bits of an integer.
unfoldable pub wrap_i64 : ℤ → ℤ
wrap_i64 (pos n) = let m = n % 2 ^ 64 in if ltb m (2 ^ 63) then pos m else negsuc (2 ^ 64 - 1 - m)
wrap_i64 (negsuc n) =
    let m = n % 2 ^ 64 in if ltb m (2 ^ 63) then negsuc m else pos (2 ^ 64 - 1 - m)

abbrev pub scale : ℤ → ℕ → ℤ
scale (pos n) k = pos (n * k)
scale (negsuc n) k = sub_ℕ 0 ((n + 1) * k)

-- `i64::try_from(n).unwrap_or(i64::MAX)` of a usize.
abbrev pub usize_to_i64 : ℕ → ℕ
usize_to_i64 n = if ltb n (2 ^ 63) then n else 2 ^ 63 - 1

-- The bounds `from` and `to` of a request.
pub record Window : Type 0 where
  pub from_ms : ℤ
  pub to_ms : ℤ

-- `gran_i * 60_000`.
unfoldable pub bar_ms : ℤ → ℤ
bar_ms gran_i = wrap_i64 (scale gran_i 60000)

-- The window of a page of so many bars, and the end of the window after it.
unfoldable pub window : ℤ → ℕ → ℤ → Window
unfolding bar_ms
window gran_i batch window_end_ms = record {
  from_ms = wrap_i64 (window_end_ms -ℤ wrap_i64 (scale (bar_ms gran_i) (usize_to_i64 batch)));
  to_ms = window_end_ms;
}

unfoldable pub next_end : ℤ → Window → ℤ
unfolding bar_ms
next_end gran_i w = wrap_i64 (w.from_ms -ℤ bar_ms gran_i)

module _ {F : Type 0} where
  -- `sort_by_key(|c| c.time)`, which is stable.
  unfoldable pub insert : Candle F → List (Candle F) → List (Candle F)
  insert c [] = c ∷ []
  insert c (d ∷ cs) = let rest = insert c cs in if leb_ℤ c.time d.time then c ∷ d ∷ cs else d ∷ rest

  unfoldable pub sort_by_time : List (Candle F) → List (Candle F)
  unfolding insert
  sort_by_time [] = []
  sort_by_time (c ∷ cs) = insert c (sort_by_time cs)

  -- The end of `fetch_klines_extended`.
  unfoldable pub trimmed : ℕ → List (Candle F) → List (Candle F)
  trimmed total all = take total (sort_by_time all)

abbrev pub to_option : {A : Type 0} → ExchangeError ⊎ A → Option A
to_option (inl e) = none
to_option (inr a) = some a

abbrev pub is_nil : {A : Type 0} → List A → Bool
is_nil [] = true
is_nil (x ∷ xs) = false

-- The loop of `fetch_klines_extended` on the replies of the exchange: the windows asked for, and the
-- result unless the replies are used up. `read` is `Candle::from_raw`.
module _ {R F : Type 0} (read : R → ExchangeError ⊎ Candle F) (total page_size : ℕ)
    (gran_i : ℤ) where
  unfoldable pub batch_of : List (Candle F) → ℕ
  batch_of all = min (total - length all) page_size

  unfoldable pub pages :
      List (ExchangeError ⊎ List R)
      → ℤ
      → List (Candle F)
      → List Window × Option (ExchangeError ⊎ List (Candle F))
  pages [] window_end_ms all =
      if leb total (length all)
      then ([], some (inr (trimmed total all)))
      else (window gran_i (batch_of all) window_end_ms ∷ [], none)
  pages (reply ∷ replies) window_end_ms all =
      if leb total (length all)
      then ([], some (inr (trimmed total all)))
      else let w = window gran_i (batch_of all) window_end_ms in
        elim reply [
          | inl e ↦ (w ∷ [], some (inl e))
          | inr raw ↦
              let more = all ++ sort_by_time (filter_map (λ r. to_option (read r)) raw) in
              elim (is_nil raw) [
                | true ↦ (w ∷ [], some (inr (trimmed total more)))
                | false ↦
                    let later = pages replies (next_end gran_i w) more in (w ∷ later.0, later.1)
              ]
        ]

-- `skewed_timestamp_ms` of src/auth.rs: addition that stops at the bounds of an i64.
unfoldable pub skewed_timestamp_ms : ℤ → ℤ → ℤ
skewed_timestamp_ms local_ms offset_ms =
    let sum = local_ms +ℤ offset_ms in
    if leb_ℤ (pos (2 ^ 63)) sum
    then pos (2 ^ 63 - 1)
    else if leb_ℤ sum (negsuc (2 ^ 63))
    then negsuc (2 ^ 63 - 1)
    else sum

-- `sync_server_time` on the state of the offset, with the reply of the exchange.
unfoldable pub sync_server_time : ℤ → ExchangeError ⊎ ℤ → ℤ → ℤ × (ExchangeError ⊎ ℤ)
sync_server_time local_ms (inl e) offset = (offset, inl e)
sync_server_time local_ms (inr server_ms) offset =
    let fresh = wrap_i64 (server_ms -ℤ local_ms) in (fresh, inr fresh)

unfoldable pub refresh_server_time : ℤ → ExchangeError ⊎ ℤ → ℤ → ℤ × Option ℤ
unfolding sync_server_time
refresh_server_time local_ms reply offset =
    let (next, result) = sync_server_time local_ms reply offset in (next, to_option result)
