-- ===== src/RateLimit/Shared/Tests.antt =====
-- api/rate_limit.py: the window in Redis on small inputs.
use procuresignal.Prelude.{List, [], arith, none, refl, some, ◌∷◌, ◌≡◌}
use procuresignal.RateLimit.{Settings}
use procuresignal.RateLimit.History.{Call, ask, failure}
use procuresignal.RateLimit.Shared.{
  Backend, empty_backend, lost_after, reached, shared_check, shared_record,
}
use procuresignal.RateLimit.Shared.Answers.{answers_agree, local_answers, shared_answers}

abbrev limits : Settings
limits = record { max_attempts = 2; window = 60000000; max_keys = 2 }

abbrev attempts : List Call
attempts = failure "a" 1000000 ∷ ask "a" 1000000 ∷ failure "a" 2000000 ∷ ask "a" 3000000 ∷ []

answered : shared_answers limits attempts empty_backend ≡ none ∷ some 58 ∷ []
unfolding shared_answers
answered = refl

answers_agree_example :
    local_answers limits attempts [] ≡ some (shared_answers limits attempts empty_backend)
answers_agree_example =
    answers_agree limits (omega arith) attempts
      (omega arith, (omega arith, (omega arith, (omega arith, tt)))) (omega arith)

-- Two failures with one reading of the clock are one member of the sorted set.
same_instant :
    (shared_record limits reached "a" 5
      (shared_record limits reached "a" 5 empty_backend)
      "a").scores
    ≡ 5 ∷ []
unfolding shared_record
same_instant = refl

-- Without Redis nobody is throttled.
open_when_lost : (b : Backend) → (shared_check limits lost_after "a" 5 b).1 ≡ none
unfolding shared_check
open_when_lost b = refl
