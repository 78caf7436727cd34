-- ===== src/RateLimit/History.antt =====
-- api/rate_limit.py: the limiter against the history of calls that it has seen.
use procuresignal.Prelude.{
  Bool-cases, List, Option, String, [], arith, if◌then◌else◌, inl, inr, length, length-append, ltb,
  none, refl, some, str_eq, ℕ, ◌&&◌, ◌+◌, ◌<◌, ◌>>=◌, ◌∷◌, ◌≡◌, ◌≢◌, ◌≤◌,
}
use procuresignal.RateLimit.{Settings, check, record_attempt, tracked_keys}
use procuresignal.RateLimit.Attempts.{Windows, drop_expired}
use procuresignal.RateLimit.Checked.{check-IsValid, check-none_iff, length-check-le, live-check}
use procuresignal.RateLimit.Laws.{live}
use procuresignal.RateLimit.Recorded.{Bounded, live-record_attempt, record_attempt-Bounded}
use procuresignal.RateLimit.Valid.{IsValid, IsValid-le}

-- A call of `record` or of `check`, with the time that the clock shows.
pub data Call : Type 0 where
  failure : String → ℕ → Call
  ask : String → ℕ → Call

unfoldable pub run : Settings → List Call → Windows → Option Windows
run c [] s = some s
run c (failure key t ∷ calls) s = record_attempt c key t s >>= λ s1. run c calls s1
run c (ask key t ∷ calls) s = run c calls (check c key t s).0

-- The clock does not run backwards between `start` and `end`.
abbrev pub Chronological : ℕ → ℕ → List Call → Type 0
Chronological start end [] = start ≤ end
Chronological start end (failure key t ∷ calls) = (start ≤ t) × Chronological t end calls
Chronological start end (ask key t ∷ calls) = (start ≤ t) × Chronological t end calls

-- The failures of `key` in the last `window` before `now`.
unfoldable pub failures : ℕ → ℕ → String → List Call → ℕ
failures window now key [] = 0
failures window now key (failure j t ∷ calls) =
    (if str_eq j key && ltb now (t + window) then 1 else 0) + failures window now key calls
failures window now key (ask j t ∷ calls) = failures window now key calls

Chronological-le : (a b : ℕ) (calls : List Call) → Chronological a b calls → a ≤ b
Chronological-le a b [] h = h
Chronological-le a b (failure key t ∷ calls) h = omega (arith, Chronological-le t b calls h.1)
Chronological-le a b (ask key t ∷ calls) h = omega (arith, Chronological-le t b calls h.1)

-- What holds when the calls have been made: the limiter is well formed, within its ceiling, and
-- has at most the failures that were made.
abbrev pub Explained : Settings → ℕ → (String → ℕ) → Option Windows → Type 0
Explained c now count none = ⊥
Explained c now count (some s) =
    IsValid now s
    × (tracked_keys s ≤ c.max_keys)
    × ((key : String) → length (live c.window now key s) ≤ count key)

module _ (c : Settings) where
  length-live-record_attempt :
      (key : String) (now later : ℕ) (j : String) (s r : Windows)
      → IsValid now s
      → now ≤ later
      → record_attempt c key now s ≡ some r
      → length (live c.window later j r)
        ≤ (if str_eq key j && ltb later (now + c.window) then 1 else 0)
          + length (live c.window later j s)
  length-live-record_attempt key now later j s r v h e =
      elim (live-record_attempt c key now s later j r v h e) [
        | inl more ↦ rw more (
            ground (
              arith,
              length-append (live c.window later j s) (drop_expired c.window later (now ∷ [])),
            ))
        | inr (nothing, over) ↦ rw nothing (omega arith)
      ]

  Explained-le :
      (now : ℕ) (f g : String → ℕ) (o : Option Windows)
      → ((key : String) → f key ≤ g key)
      → Explained c now f o
      → Explained c now g o
  Explained-le now f g none h e = e
  Explained-le now f g (some s) h e = (e.0, e.1, λ key. omega (arith, h key, e.2 key))

  run-Explained :
      (start end : ℕ) (calls : List Call) (s : Windows)
      → Chronological start end calls
      → IsValid start s
      → tracked_keys s ≤ c.max_keys
      → Explained c end
          (λ key. failures c.window end key calls + length (live c.window end key s))
          (run c calls s)
  unfolding run failures
  run-Explained start end [] s h v b = (IsValid-le start end s h v, b, λ key. omega arith)
  run-Explained start end (failure key t ∷ calls) s h v b =
      go (record_attempt c key t s) refl
        (record_attempt-Bounded c key t s (IsValid-le start t s h.0 v) b)
        (run-Explained t end calls)
    where
      go :
          (o : Option Windows)
          → record_attempt c key t s ≡ o
          → Bounded c t o
          → ((r : Windows)
              → Chronological t end calls
              → IsValid t r
              → tracked_keys r ≤ c.max_keys
              → Explained c end
                  (λ j. failures c.window end j calls + length (live c.window end j r))
                  (run c calls r))
          → Explained c end
              (λ j.
                failures c.window end j (failure key t ∷ calls) + length (live c.window end j s))
              (record_attempt c key t s >>= λ s1. run c calls s1)
      go none e w rest = absurd w
      go (some r) e w rest = rw e (
          Explained-le end _ _ (run c calls r)
            (λ j. omega (
              arith,
              length-live-record_attempt key t end j s r (IsValid-le start t s h.0 v)
                  (Chronological-le t end calls h.1) e,
            ))
            (rest r h.1 w.0 w.1))
  run-Explained start end (ask key t ∷ calls) s h v b =
      let w = IsValid-le start t s h.0 v in
      let later = Chronological-le t end calls h.1 in
      Explained-le end _ _ (run c calls (check c key t s).0)
        (λ j. rw (live-check c key t s end j w later) (omega arith))
        (run-Explained t end calls (check c key t s).0 h.1 (check-IsValid c key t s w)
          (omega (arith, length-check-le c key t s w, b)))

not-lt_of_premise : (A : Type 0) (n m : ℕ) → ¬ A → (n < m → A) → m ≤ n
not-lt_of_premise A n m refuse low = elim (Bool-cases (ltb n m)) [
  | inl lt ↦ absurd (refuse (low (ground arith)))
  | inr ge ↦ ground arith
]

-- From an empty limiter, every sequence of calls is served, and a caller who is told to wait has
-- failed `max_attempts` times within the window.
pub throttled_needs_failures :
    (c : Settings) (calls : List Call) (now : ℕ) (key : String)
    → 0 < c.max_attempts
    → Chronological 0 now calls
    → (s : Windows) × (run c calls [] ≡ some s)
      × ((check c key now s).1 ≢ none → c.max_attempts ≤ failures c.window now key calls)
unfolding tracked_keys
throttled_needs_failures c calls now key m h =
    go (run c calls []) refl (run-Explained c 0 now calls [] h tt (omega arith))
  where
    go :
        (o : Option Windows)
        → run c calls [] ≡ o
        → Explained c now (λ j. failures c.window now j calls + length (live c.window now j [])) o
        → (s : Windows) × (run c calls [] ≡ some s)
          × ((check c key now s).1 ≢ none → c.max_attempts ≤ failures c.window now key calls)
    go none e x = absurd x
    go (some s) e x = (
      s,
      e,
      λ wait. omega (arith, not-lt_of_premise _ _ _ wait (check-none_iff c key now s m).1, x.2 key),
    )
