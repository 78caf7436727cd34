-- ===== src/RateLimit.antt =====
-- api/rate_limit.py: the in-process sliding window `RateLimiter`. `Attempts` is its dictionary of
-- attempts; the proofs are in the modules below.
-- A clock reading is a number of microseconds, `int(x)` of a number of seconds is a division by
-- `second`. The cutoff `now - window` may be negative in the source, so the test
-- `t <= now - window` is written `t + window <= now`.
pub mod Attempts
pub mod Laws
pub mod Valid
pub mod Updates
pub mod Pruning
pub mod Recording
pub mod Recorded
pub mod Checked
pub mod History
pub mod Shared
mod Tests
use procuresignal.Prelude.{
  List, Option, String, [], if◌then◌else◌, length, ltb, max, none, some, ℕ, ◌*◌, ◌+◌, ◌-◌, ◌/◌,
  ◌>>=◌, ◌∷◌,
}
use procuresignal.RateLimit.Attempts.{
  Windows, append_attempt, delete, drop_expired, evict_expired, lookup, oldest_key, store,
}

-- Microseconds in a second.
abbrev pub second : ℕ
second = 1000000

-- What `RateLimiter.__init__` is given, and `DEFAULT_MAX_KEYS` and the limits of the two
-- limiters of the module.
pub record Settings : Type 0 where
  pub max_attempts : ℕ
  pub window : ℕ
  pub max_keys : ℕ

abbrev pub login_settings : Settings
login_settings = record { max_attempts = 5; window = 15 * 60 * second; max_keys = 10000 }

abbrev pub registration_settings : Settings
registration_settings = record { max_attempts = 10; window = 60 * 60 * second; max_keys = 10000 }

-- `_prune`: the state after it, and the window that it returns.
unfoldable pub pruned : String → Windows → List ℕ → Windows × Option (List ℕ)
pruned key s [] = (delete key s, none)
pruned key s (t ∷ w) = (store key (t ∷ w) s, some (t ∷ w))

unfoldable pub prune : Settings → String → ℕ → Windows → Windows × Option (List ℕ)
unfolding pruned
prune c key now s = elim (lookup key s) [
  | none ↦ (s, none)
  | some w ↦ pruned key s (drop_expired c.window now w)
]

-- The wait that `check` computes from the pruned window.
unfoldable pub retry_after : Settings → ℕ → Option (List ℕ) → Option ℕ
retry_after c now none = none
retry_after c now (some []) = none
retry_after c now (some (t ∷ w)) =
    if ltb (length (t ∷ w)) c.max_attempts
    then none
    else some (max 1 ((t + c.window - now) / second))

-- `check`: the state after it, and the seconds to wait, if `key` is throttled.
unfoldable pub check : Settings → String → ℕ → Windows → Windows × Option ℕ
unfolding prune retry_after
check c key now s = let (s', w) = prune c key now s in (s', retry_after c now w)

-- `record`, before it looks at the number of keys.
unfoldable pub note : Settings → String → ℕ → Windows → Option Windows
unfolding prune
note c key now s = do
  kept ← evict_expired c.window now s
  some (prune c key now (append_attempt key now kept)).0

-- The rest of `record`: the key that was active least recently is dropped.
unfoldable pub cap_keys : Settings → Windows → Option Windows
cap_keys c s =
    if ltb c.max_keys (length s) then (oldest_key s >>= λ k. some (delete k s)) else some s

unfoldable pub record_attempt : Settings → String → ℕ → Windows → Option Windows
unfolding note cap_keys
record_attempt c key now s = do s1 ← note c key now s; cap_keys c s1

-- `reset` and `tracked_keys`.
unfoldable pub reset : Windows → Windows
reset s = []

unfoldable pub tracked_keys : Windows → ℕ
tracked_keys s = length s
