-- ===== src/Market/Clock.antt =====
-- The clock offset of src/rest/market.rs and the timestamps that src/auth.rs makes of it.
use exchange_apiws.Prelude.{ℕ, ◌-◌, ◌<◌, ◌^◌, ◌≡◌, refl, arith, inl, inr, ◌⊎◌, Bool-cases}
use exchange_apiws.Prelude.Int.{ℤ, pos, negsuc, leb_ℤ, ◌≤ℤ◌, ◌+ℤ◌, ◌-ℤ◌}
use exchange_apiws.Error.{ExchangeError}
use exchange_apiws.Market.{wrap_i64, skewed_timestamp_ms, sync_server_time, refresh_server_time}

-- The timestamp is the sum of the clock's reading and the offset, or the bound of an i64 that the sum
-- has passed; it fits an i64 whatever the two are.
pub skewed_timestamp_ms-bounds :
    (local_ms offset_ms : ℤ)
    → (negsuc (2 ^ 63 - 1) ≤ℤ skewed_timestamp_ms local_ms offset_ms)
      × (skewed_timestamp_ms local_ms offset_ms ≤ℤ pos (2 ^ 63 - 1))
      × ((skewed_timestamp_ms local_ms offset_ms ≡ local_ms +ℤ offset_ms)
          ⊎ (((skewed_timestamp_ms local_ms offset_ms ≡ pos (2 ^ 63 - 1))
                × (pos (2 ^ 63) ≤ℤ local_ms +ℤ offset_ms))
              ⊎ ((skewed_timestamp_ms local_ms offset_ms ≡ negsuc (2 ^ 63 - 1))
                  × (local_ms +ℤ offset_ms ≤ℤ negsuc (2 ^ 63)))))
unfolding skewed_timestamp_ms
skewed_timestamp_ms-bounds l o = (
  ground arith,
  ground arith,
  elim (Bool-cases (leb_ℤ (pos (2 ^ 63)) (l +ℤ o))) [
    | inl over ↦ inr (inl (rw over refl, ground arith))
    | inr fits ↦ elim (Bool-cases (leb_ℤ (l +ℤ o) (negsuc (2 ^ 63)))) [
      | inl under ↦ inr (inr (rw (fits, under) refl, ground arith))
      | inr within ↦ inl (rw (fits, within) refl)
    ]
  ],
)

-- After a synchronisation a request that is signed at once carries the server's time, and a refresh
-- that fails leaves the offset as it was. Times are not negative.
pub skewed_timestamp_ms-sync :
    (local_ms server_ms : ℕ) (offset : ℤ) (e : ExchangeError)
    → local_ms < 2 ^ 63
    → server_ms < 2 ^ 63
    → (skewed_timestamp_ms
          (pos local_ms)
          (refresh_server_time (pos local_ms) (inr (pos server_ms)) offset).0
        ≡ pos server_ms)
      × ((refresh_server_time (pos local_ms) (inl e) offset).0 ≡ offset)
unfolding skewed_timestamp_ms refresh_server_time sync_server_time wrap_i64 ◌+ℤ◌ ◌-ℤ◌
skewed_timestamp_ms-sync l s o e h k = (ground arith, refl)
