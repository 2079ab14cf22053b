-- ===== src/Rtsp/Backoff.antt =====
-- rtsp.go: the pause before a stream is connected again.
use camonitor.Prelude.{ℕ, zero, suc, ◌*◌, ◌≤◌, arith, ltb, if◌then◌else◌}
use camonitor.Clock.{Duration, second}

abbrev pub min_backoff : Duration
min_backoff = second

abbrev pub max_backoff : Duration
max_backoff = 30 * second

unfoldable pub next_backoff : Duration → Duration
next_backoff backoff = if ltb max_backoff (backoff * 2) then max_backoff else backoff * 2

-- The pause after as many failures and one more.
unfoldable pub backoff_after : ℕ → Duration
unfolding next_backoff
backoff_after zero = min_backoff
backoff_after (suc n) = next_backoff (backoff_after n)

-- The pause is between one second and thirty, and never gets shorter.
pub backoff_bounds :
    (n : ℕ)
    → (min_backoff ≤ backoff_after n)
      × (backoff_after n ≤ max_backoff)
      × (backoff_after n ≤ backoff_after (suc n))
unfolding backoff_after
backoff_bounds zero = ground arith
backoff_bounds (suc n) = ground (arith, backoff_bounds n)
