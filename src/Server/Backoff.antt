-- ===== src/Server/Backoff.antt =====
-- cmd/clawdh-server/dbwriter.go: how long to wait after failures.
use clawdh.Base.{ℕ, zero, suc, ◌-◌, ◌*◌, ◌≤◌, ltb, if◌then◌else◌, arith, second, minute}

-- The loop of backoff with the rounds that are left.
doubled : ℕ → ℕ → ℕ
doubled zero d = d
doubled (suc left) d = if ltb d minute then doubled left (d * 2) else d

-- backoff, at a number of failures
unfoldable pub backoff : ℕ → ℕ
unfolding doubled
backoff n = let d = doubled (n - 1) (2 * second) in if ltb minute d then minute else d

doubled-le : (left d : ℕ) → d ≤ doubled left d
unfolding doubled
doubled-le zero d = omega arith
doubled-le (suc left) d = ground (arith, doubled-le left (d * 2))

-- One round more waits no less.
doubled_mono : (left d : ℕ) → doubled left d ≤ doubled (suc left) d
unfolding doubled
doubled_mono zero d = ground arith
doubled_mono (suc left) d = ground (arith, doubled_mono left (d * 2))

-- The wait is between two seconds and a minute, and another failure does not shorten it.
pub backoff-bounds :
    (n : ℕ) → (2 * second ≤ backoff n) × (backoff n ≤ minute) × (backoff n ≤ backoff (suc n))
unfolding backoff
backoff-bounds zero = ground arith
backoff-bounds (suc n) = ground (arith, doubled-le n (2 * second), doubled_mono n (2 * second))
