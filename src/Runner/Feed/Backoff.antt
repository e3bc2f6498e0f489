-- ===== src/Runner/Feed/Backoff.antt =====
-- The backoff schedule of `run_feed` in src/ws/runner.rs.
use exchange_apiws.Prelude.{
  ℕ, zero, suc, ◌+◌, ◌-◌, ◌*◌, ◌^◌, ◌≤◌, ◌<◌, min, leb, leb→le, Bool-cases, inl, inr, ◌≡◌, arith,
}
use native.Mathlib.Nat.{pow-suc}
use exchange_apiws.Runner.Config.{WsRunnerConfig, backoff_delay}

pow_mono : (i j : ℕ) → i ≤ j → 2 ^ i ≤ 2 ^ j
pow_mono i zero h = let e : i ≡ 0 = omega arith in rw e (omega arith)
pow_mono i (suc j) h = elim (Bool-cases (leb i j)) [
  | inl le ↦ omega (arith, pow-suc 2 j, pow_mono i j (leb→le _ _ le))
  | inr gt ↦ let e : i ≡ suc j = ground arith in rw e (omega arith)
]

-- The delay before a reconnect is the base delay, doubled for each attempt after the first but four
-- times at most, up to the configured ceiling: the saturation and the guard on the shift never show.
-- So it does not fall from one attempt to a later one.
pub backoff_delay_schedule :
    (config : WsRunnerConfig) (a b : ℕ)
    → config.max_reconnect_delay_secs < 2 ^ 64
    → a ≤ b
    → (backoff_delay config (a + 1)
        ≡ min (config.reconnect_delay_secs * 2 ^ min a 4) config.max_reconnect_delay_secs)
      × (backoff_delay config (a + 1) ≤ backoff_delay config (b + 1))
unfolding backoff_delay
backoff_delay_schedule config a b h k =
    let grows = pow_mono (min a 4) (min b 4) (omega arith) in
    let products : config.reconnect_delay_secs * 2 ^ min a 4
        ≤ config.reconnect_delay_secs * 2 ^ min b 4 =
      grind arith in
    (by_shift a, rw (by_shift a, by_shift b) (omega arith))
  where
    by_shift :
        (c : ℕ)
        → backoff_delay config (c + 1)
          ≡ min (config.reconnect_delay_secs * 2 ^ min c 4) config.max_reconnect_delay_secs
    by_shift c = let e : min (min (c + 1 - 1) 63) 4 ≡ min c 4 = omega arith in rw e (omega arith)
