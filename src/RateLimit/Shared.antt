-- ===== src/RateLimit/Shared.antt =====
-- api/rate_limit.py: `RedisWindow`, the window that the replicas share. A sorted set is the list of
-- its scores, lowest first, as a member is its score written out; Redis drops it when its time is up.
-- Redis commands are those of its documentation. A call whose connection fails may have been executed
-- or not.
pub mod Agreed
pub mod Answers
mod Tests
use procuresignal.Prelude.{
  Bool, List, Option, String, [], if◌then◌else◌, keep, leb, length, ltb, max, none, some, str_eq, ℕ,
  ◌*◌, ◌+◌, ◌-◌, ◌/◌, ◌==◌, ◌∷◌,
}
use procuresignal.RateLimit.{Settings, second}

pub record SortedSet : Type 0 where
  pub scores : List ℕ
  pub expires_at : ℕ

abbrev pub Backend : Type 0
Backend = String → SortedSet

abbrev pub empty_backend : Backend
empty_backend key = record { scores = []; expires_at = 0 }

-- What a call gets from Redis: its answer, or an exception before or after it was executed.
pub data Contact : Type 0 where
  reached lost_before lost_after : Contact

abbrev pub with_set : String → SortedSet → Backend → Backend
with_set key z b = λ k. if str_eq key k then z else b k

-- The scores at a time, with the expiry of the key.
abbrev pub present : ℕ → SortedSet → List ℕ
present now z = if leb z.expires_at now then [] else z.scores

-- ZREMRANGEBYSCORE key 0 (now - window)
abbrev pub pruned_scores : ℕ → ℕ → List ℕ → List ℕ
pruned_scores window now scores = keep (λ t. ltb now (t + window)) scores

-- ZADD of a member that is its own score
abbrev pub zadd : ℕ → List ℕ → List ℕ
zadd t [] = t ∷ []
zadd t (x ∷ xs) =
    let rest = zadd t xs in if t == x then x ∷ xs else if ltb t x then t ∷ x ∷ xs else x ∷ rest

-- `check` from its count and the oldest score.
abbrev pub shared_wait : Settings → ℕ → List ℕ → Option ℕ
shared_wait c now [] = if ltb 0 c.max_attempts then none else some (max 1 (c.window / second))
shared_wait c now (t ∷ scores) =
    if ltb (length (t ∷ scores)) c.max_attempts
    then none
    else some (max 1 ((t + c.window - now) / second))

module _ (c : Settings) where
  abbrev pub pruned_set : String → ℕ → Backend → SortedSet
  pruned_set key now b = record (b key) {
    scores = pruned_scores c.window now (present now (b key));
  }

  unfoldable pub shared_check : Contact → String → ℕ → Backend → Backend × Option ℕ
  shared_check reached key now b =
      let z = pruned_set key now b in (with_set key z b, shared_wait c now z.scores)
  shared_check lost_before key now b = (b, none)
  shared_check lost_after key now b = (with_set key (pruned_set key now b) b, none)

  abbrev pub added_set : String → ℕ → Backend → SortedSet
  added_set key now b = record {
    scores = zadd now (pruned_scores c.window now (present now (b key)));
    expires_at = now + (c.window + 60 * second);
  }

  unfoldable pub shared_record : Contact → String → ℕ → Backend → Backend
  shared_record reached key now b = with_set key (added_set key now b) b
  shared_record lost_before key now b = b
  shared_record lost_after key now b = with_set key (added_set key now b) b
