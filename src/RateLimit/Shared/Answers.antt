-- ===== src/RateLimit/Shared/Answers.antt =====
-- api/rate_limit.py: the window in Redis gives the answers of the in-process one.
use procuresignal.Prelude.{
  List, Option, [], arith, length, some, suc, ℕ, ◌+◌, ◌<◌, ◌>>=◌, ◌∷◌, ◌≡◌, ◌≤◌, refl,
}
use procuresignal.RateLimit.{Settings, check, record_attempt, tracked_keys}
use procuresignal.RateLimit.Attempts.{Windows}
use procuresignal.RateLimit.Checked.{length-check-le}
use procuresignal.RateLimit.History.{Call, ask, failure}
use procuresignal.RateLimit.Recording.{
  Capped, drops, fits, length-noted-le, noted, record_attempt-Capped,
}
use procuresignal.RateLimit.Shared.{Backend, empty_backend, reached, shared_check, shared_record}
use procuresignal.RateLimit.Shared.Agreed.{Agree, check-Agree, check-answer, record-Agree}
use procuresignal.RateLimit.Valid.{IsValid, IsValid-le}

-- What the calls of `check` answer.
unfoldable pub local_answers : Settings → List Call → Windows → Option (List (Option ℕ))
local_answers c [] s = some []
local_answers c (failure key t ∷ calls) s =
    record_attempt c key t s >>= λ s1. local_answers c calls s1
local_answers c (ask key t ∷ calls) s = do
  rest ← local_answers c calls (check c key t s).0
  some ((check c key t s).1 ∷ rest)

unfoldable pub shared_answers : Settings → List Call → Backend → List (Option ℕ)
unfolding shared_check shared_record
shared_answers c [] b = []
shared_answers c (failure key t ∷ calls) b =
    shared_answers c calls (shared_record c reached key t b)
shared_answers c (ask key t ∷ calls) b =
    (shared_check c reached key t b).1 ∷ shared_answers c calls (shared_check c reached key t b).0

-- The clock does not run backwards, and no failure has the time of an earlier call.
abbrev pub Spaced : ℕ → List Call → Type 0
Spaced now [] = Unit
Spaced now (failure key t ∷ calls) = (now < t) × Spaced t calls
Spaced now (ask key t ∷ calls) = (now ≤ t) × Spaced t calls

abbrev pub failures_in : List Call → ℕ
failures_in [] = 0
failures_in (failure key t ∷ calls) = suc (failures_in calls)
failures_in (ask key t ∷ calls) = failures_in calls

module _ (c : Settings) (m : 0 < c.max_attempts) where
  local_answers-from :
      (calls : List Call) (now : ℕ) (s : Windows) (b : Backend)
      → Spaced now calls
      → failures_in calls + length s ≤ c.max_keys
      → Agree c now s b
      → local_answers c calls s ≡ some (shared_answers c calls b)
  unfolding local_answers shared_answers shared_check shared_record tracked_keys
  local_answers-from [] now s b d k a = refl
  local_answers-from (failure key t ∷ calls) now s b d k a =
      go (record_attempt-Capped c key t s v) (local_answers-from calls t (noted c key t s))
    where
      v : IsValid t s
      v = IsValid-le now t s (omega (arith, d.0)) a.0

      go :
          {r : Option Windows}
          → Capped c (noted c key t s) r
          → ((b' : Backend)
              → Spaced t calls
              → failures_in calls + length (noted c key t s) ≤ c.max_keys
              → Agree c t (noted c key t s) b'
              → local_answers c calls (noted c key t s) ≡ some (shared_answers c calls b'))
          → (r >>= λ s1. local_answers c calls s1)
            ≡ some (shared_answers c calls (shared_record c reached key t b))
      go (fits h e) rest = rw e (
          rest (shared_record c reached key t b) d.1 (omega (arith, k, length-noted-le c key t s v))
            (record-Agree c now t key s b d.0 a))
      go (drops l h p e) rest = absurd (omega (arith, k, h, length-noted-le c key t s v))
  local_answers-from (ask key t ∷ calls) now s b d k a =
      rw
        (
          local_answers-from calls t (check c key t s).0 (shared_check c reached key t b).0 d.1
              (omega (arith, k, length-check-le c key t s (IsValid-le now t s d.0 a.0)))
              (check-Agree c now t key s b d.0 a),
          check-answer c now t key s b m d.0 a,
        )
        refl

  -- While Redis is reached, and with a positive limit, calls in chronological order of which no failure
  -- has the time of an earlier call, and at most max_keys failures, get the same answers from the
  -- window in Redis and from the in-process one, each of which starts empty.
  pub answers_agree :
      (calls : List Call)
      → Spaced 0 calls
      → failures_in calls ≤ c.max_keys
      → local_answers c calls [] ≡ some (shared_answers c calls empty_backend)
  answers_agree calls d k =
      local_answers-from calls 0 [] empty_backend d (omega (arith, k))
        (tt, (λ later j l. refl), (λ j. tt))
