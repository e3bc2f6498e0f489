-- ===== src/Runner/Guard.antt =====
-- `WsMsgGuard` of src/ws/runner.rs: the sliding-window limit on outbound messages. An `Instant` is
-- a number of nanoseconds, and a check is given the two readings of the clock that it makes.
pub mod Window
pub mod Spacing
use exchange_apiws.Prelude.{
  ℕ, ◌+◌, ◌-◌, ◌*◌, ◌≤◌, ◌<◌, Bool, List, [], ◌∷◌, ◌++◌, length, ltb, leb, if◌then◌else◌,
}

pub record WsMsgGuard : Type 0 where
  pub window : List ℕ  -- oldest first
  pub max_msgs : ℕ
  pub window_dur : ℕ

abbrev pub secs : ℕ → ℕ
secs n = n * 1000000000

unfoldable pub new : WsMsgGuard
new = record { window = []; max_msgs = 100; window_dur = secs 10 }

-- The `while` loop of `check`: drop the instants older than the window. A difference of instants
-- stops at zero.
unfoldable pub drop_old : ℕ → ℕ → List ℕ → List ℕ
drop_old dur now [] = []
drop_old dur now (t ∷ window) =
    let rest = drop_old dur now window in if ltb dur (now - t) then rest else t ∷ window

-- How long `check` sleeps, once the old instants are gone.
unfoldable pub wait : WsMsgGuard → ℕ → List ℕ → ℕ
wait g now [] = 0
wait g now (oldest ∷ window) =
    if leb g.max_msgs (length (oldest ∷ window)) then g.window_dur - (now - oldest) else 0

unfoldable pub throttle : WsMsgGuard → ℕ → ℕ
unfolding drop_old wait
throttle g now = wait g now (drop_old g.window_dur now g.window)

-- `check`: `now` is read at its start, and `later` after the sleep.
unfoldable pub check : ℕ → ℕ → WsMsgGuard → WsMsgGuard
unfolding drop_old
check now later g = record g { window = drop_old g.window_dur now g.window ++ later ∷ [] }

-- A run of checks, with the instants at which it let messages out.
unfoldable pub checks : WsMsgGuard → List (ℕ × ℕ) → WsMsgGuard × List ℕ
unfolding check
checks g [] = (g, [])
checks g ((now, later) ∷ readings) =
    let (h, sends) = checks (check now later g) readings in (h, later ∷ sends)
