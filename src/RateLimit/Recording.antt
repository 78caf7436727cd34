-- ===== src/RateLimit/Recording.antt =====
-- api/rate_limit.py: `record` keeps the dictionary well formed and bounded, and adds one attempt.
use procuresignal.Prelude.{
  Bool-cases, Option, String, [], all, arith, eq_refl, if◌then◌else◌, inl, inr, length, ltb, none,
  refl, some, str_eq, suc, ℕ, ◌++◌, ◌<◌, ◌∷◌, ◌≡◌, ◌≢◌, ◌≤◌,
}
use procuresignal.RateLimit.{Settings, cap_keys, note, prune, record_attempt}
use procuresignal.RateLimit.Attempts.{
  Windows, append_attempt, delete, drop_expired, lookup, oldest_from, oldest_key,
}
use procuresignal.RateLimit.Laws.{live}
use procuresignal.RateLimit.Pruning.{Pruned-IsValid, length-Pruned-le, live-Pruned, prune-Pruned}
use procuresignal.RateLimit.Updates.{
  append_attempt-IsValid, length-append_attempt-le, live-append_attempt,
}
use procuresignal.RateLimit.Valid.{
  IsValid, alive, alive-IsValid, evict_expired-eq, last?-eq-some, last_time, length-alive-le,
  live-alive,
}

-- What `record` has before it looks at the number of keys.
module _ (c : Settings) (key : String) (now : ℕ) where
  abbrev appended : Windows → Windows
  appended s = append_attempt key now (alive c.window now s)

  pub noted : Windows → Windows
  noted s = (prune c key now (appended s)).0

  pub note-eq-noted : (s : Windows) → IsValid now s → note c key now s ≡ some (noted s)
  unfolding note noted
  note-eq-noted s v = ground (arith, evict_expired-eq c.window now s v)

  appended-IsValid : (s : Windows) → IsValid now s → IsValid now (appended s)
  appended-IsValid s v = append_attempt-IsValid now key _ (alive-IsValid c.window now s v)

  pub noted-IsValid : (s : Windows) → IsValid now s → IsValid now (noted s)
  unfolding noted
  noted-IsValid s v =
      Pruned-IsValid c key now _ (appended-IsValid s v) (prune-Pruned c key now (appended s))

  pub live-noted :
      (later : ℕ) (j : String) (s : Windows)
      → now ≤ later
      → IsValid now s
      → live c.window later j (noted s) ≡ (
          if str_eq key j
          then live c.window later j s ++ drop_expired c.window later (now ∷ [])
          else live c.window later j s)
  unfolding noted
  live-noted later j s h v = ground (
    arith,
    live-Pruned c key now (appended s) (appended-IsValid s v) later j h
        (prune-Pruned c key now (appended s)),
    live-append_attempt c.window later now key j (alive c.window now s)
        (alive-IsValid c.window now s v),
    live-alive c.window now later j s h v,
  )

  pub length-noted-le : (s : Windows) → IsValid now s → length (noted s) ≤ suc (length s)
  unfolding noted
  length-noted-le s v = omega (
    arith,
    length-Pruned-le c key now (appended s) (appended-IsValid s v)
        (prune-Pruned c key now (appended s)),
    length-append_attempt-le now key (alive c.window now s),
    length-alive-le c.window now s,
  )

-- The key that `min` finds is in the dictionary.
oldest_from-present :
    (now : ℕ) (best : String) (t : ℕ) (s all : Windows)
    → IsValid now s
    → lookup best all ≢ none
    → ((j : String) → lookup j s ≢ none → lookup j all ≢ none)
    → (k : String) × (oldest_from best t s ≡ some k) × (lookup k all ≢ none)
unfolding oldest_from
oldest_from-present now best t [] all v h sub = (best, refl, h)
oldest_from-present now best t ((k, w) ∷ s) all v h sub = elim (Bool-cases (ltb (last_time w) t)) [
  | inl lower ↦
      let (j, e, p) = oldest_from-present now k (last_time w) s all v.2 (sub k here) below in
      (j, ground (arith, last?-eq-some w v.1.0), p)
  | inr kept ↦
      let (j, e, p) = oldest_from-present now best t s all v.2 h below in
      (j, ground (arith, last?-eq-some w v.1.0), p)
]
  where
    here : lookup k ((k, w) ∷ s) ≢ none
    here e = ground (arith, eq_refl k)

    below : (j : String) → lookup j s ≢ none → lookup j all ≢ none
    below j n = sub j (λ e. ground (arith))

oldest_key-present :
    (now : ℕ) (s : Windows)
    → IsValid now s
    → s ≢ []
    → (k : String) × (oldest_key s ≡ some k) × (lookup k s ≢ none)
unfolding oldest_key
oldest_key-present now [] v h = absurd (h refl)
oldest_key-present now ((k, w) ∷ s) v h =
    let (j, e, p) =
      oldest_from-present now k (last_time w) s ((k, w) ∷ s) v.2 here (λ j n e. ground arith) in
    (j, ground (arith, last?-eq-some w v.1.0), p)
  where
    here : lookup k ((k, w) ∷ s) ≢ none
    here e = ground (arith, eq_refl k)

-- The two ways in which `record` ends.
pub data Capped (c : Settings) (s : Windows) (r : Option Windows) : Type 0 where
  fits : length s ≤ c.max_keys → r ≡ some s → Capped c s r
  drops :
      (k : String)
      → c.max_keys < length s
      → lookup k s ≢ none
      → r ≡ some (delete k s)
      → Capped c s r

pub cap_keys-Capped :
    (c : Settings) (now : ℕ) (s : Windows) → IsValid now s → Capped c s (cap_keys c s)
unfolding cap_keys
cap_keys-Capped c now [] v = fits (omega arith) (ground arith)
cap_keys-Capped c now ((k, w) ∷ s) v = elim (Bool-cases (ltb c.max_keys (length ((k, w) ∷ s)))) [
  | inl over ↦
      let (j, e, p) = oldest_key-present now ((k, w) ∷ s) v (λ n. cc) in
      drops j (ground arith) p (ground arith)
  | inr under ↦ fits (ground arith) (ground arith)
]

module _ (c : Settings) (key : String) (now : ℕ) (s : Windows) (v : IsValid now s) where
  pub record_attempt-Capped : Capped c (noted c key now s) (record_attempt c key now s)
  unfolding record_attempt
  record_attempt-Capped =
      rw (note-eq-noted c key now s v)
        (cap_keys-Capped c now (noted c key now s) (noted-IsValid c key now s v))
