-- ===== src/RateLimit/Tests.antt =====
-- api/rate_limit.py on small inputs, and the theorems applied there.
use procuresignal.Prelude.{
  List, [], arith, length, max, none, refl, some, ◌*◌, ◌+◌, ◌/◌, ◌<◌, ◌∷◌, ◌≡◌, ◌≢◌, ◌≤◌,
}
use procuresignal.RateLimit.{Settings, check, record_attempt, second, tracked_keys}
use procuresignal.RateLimit.Attempts.{Windows, evict_expired, oldest_key}
use procuresignal.RateLimit.Checked.{check-wait}
use procuresignal.RateLimit.History.{Call, ask, failure, failures, run, throttled_needs_failures}
use procuresignal.RateLimit.Laws.{live}
use procuresignal.RateLimit.Recorded.{Bounded, record_attempt-Bounded}
use procuresignal.RateLimit.Valid.{IsValid, IsValid-le}

abbrev small : Settings
small = record { max_attempts = 2; window = 60000000; max_keys = 2 }

abbrev calls : List Call
calls = failure "a" 1000000 ∷ ask "a" 1000000 ∷ failure "a" 2000000 ∷ []

abbrev two : Windows
two = ("a", 1000000 ∷ 2000000 ∷ []) ∷ ("b", 3000000 ∷ []) ∷ []

two-IsValid : IsValid 3000000 two
two-IsValid = (
  refl,
  ((λ e. cc), ((omega arith), tt), (omega arith, (omega arith, tt))),
  (refl, ((λ e. cc), tt, (omega arith, tt)), tt),
)

-- The third key costs "a" its window: "a" was active least recently.
record_attempt-full :
    record_attempt small "c" 4000000 two ≡ some (("b", 3000000 ∷ []) ∷ ("c", 4000000 ∷ []) ∷ [])
unfolding record_attempt evict_expired oldest_key
record_attempt-full = refl

check-two : (check small "a" 3000000 two).1 ≡ some 58
unfolding check
check-two = refl

record_attempt-Bounded_example : Bounded small 4000000 (record_attempt small "c" 4000000 two)
unfolding tracked_keys
record_attempt-Bounded_example =
    record_attempt-Bounded small "c" 4000000 two
      (IsValid-le 3000000 4000000 two (omega arith) two-IsValid) (omega arith)

check-wait_example :
    (1 ≤ 58)
    × (58 ≤ max 1 (60000000 / second))
    × (length (live 60000000 (3000000 + (58 + 1) * second) "a" two)
        < length (live 60000000 3000000 "a" two))
check-wait_example = check-wait small "a" 3000000 58 two two-IsValid check-two

throttled_needs_failures_example :
    (s : Windows) × (run small calls [] ≡ some s)
    × ((check small "a" 3000000 s).1 ≢ none → 2 ≤ failures 60000000 3000000 "a" calls)
throttled_needs_failures_example =
    throttled_needs_failures small calls 3000000 "a" (omega arith) (omega arith)
