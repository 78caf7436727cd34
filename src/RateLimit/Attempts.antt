-- ===== src/RateLimit/Attempts.antt =====
-- The dictionary `_attempts` of api/rate_limit.py: keys in insertion order, each with its deque of
-- attempt times, oldest first.
use procuresignal.Prelude.{
  List, Option, String, [], if◌then◌else◌, last?, leb, ltb, none, some, str_eq, ℕ, ◌++◌, ◌+◌, ◌>>=◌,
  ◌∷◌,
}

abbrev pub Windows : Type 0
Windows = List (String × List ℕ)

-- self._attempts.get(key)
abbrev pub lookup : String → Windows → Option (List ℕ)
lookup k [] = none
lookup k ((j, w) ∷ s) = if str_eq j k then some w else lookup k s

-- The deque of a key, changed in place.
abbrev pub store : String → List ℕ → Windows → Windows
store k v [] = []
store k v ((j, w) ∷ s) = if str_eq j k then (j, v) ∷ s else (j, w) ∷ store k v s

-- self._attempts.setdefault(key, deque()).append(now)
abbrev pub append_attempt : String → ℕ → Windows → Windows
append_attempt k t [] = (k, t ∷ []) ∷ []
append_attempt k t ((j, w) ∷ s) =
    if str_eq j k then (j, w ++ t ∷ []) ∷ s else (j, w) ∷ append_attempt k t s

-- del self._attempts[key]
abbrev pub delete : String → Windows → Windows
delete k [] = []
delete k ((j, w) ∷ s) = if str_eq j k then s else (j, w) ∷ delete k s

-- The `popleft` loop of `_prune`.
abbrev pub drop_expired : ℕ → ℕ → List ℕ → List ℕ
drop_expired window now [] = []
drop_expired window now (t ∷ w) = if leb (t + window) now then drop_expired window now w else t ∷ w

-- `_evict_expired`; `window[-1]` of an empty deque is an IndexError.
unfoldable pub evict_expired : ℕ → ℕ → Windows → Option Windows
evict_expired window now [] = some []
evict_expired window now ((k, w) ∷ s) = do
  t ← last? w
  rest ← evict_expired window now s
  some (if leb (t + window) now then rest else (k, w) ∷ rest)

-- The key with the least `_attempts[k][-1]`, the first of them in insertion order.
unfoldable pub oldest_from : String → ℕ → Windows → Option String
oldest_from best t [] = some best
oldest_from best t ((k, w) ∷ s) = do
  u ← last? w
  if ltb u t then oldest_from k u s else oldest_from best t s

-- min(self._attempts, key=…); `min` of nothing is a ValueError.
unfoldable pub oldest_key : Windows → Option String
unfolding oldest_from
oldest_key [] = none
oldest_key ((k, w) ∷ s) = last? w >>= λ t. oldest_from k t s
