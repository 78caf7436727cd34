-- ===== src/RateLimit/Recorded.antt =====
-- api/rate_limit.py: the guarantees of `record` and `check`.
use procuresignal.Prelude.{
  Option, String, [], arith, inl, length, none, some, ℕ, ◌<◌, ◌≡◌, ◌≤◌, ◌⊎◌,
}
use procuresignal.RateLimit.{Settings, record_attempt, tracked_keys}
use procuresignal.RateLimit.Attempts.{Windows}
use procuresignal.RateLimit.Laws.{live, with_attempt}
use procuresignal.RateLimit.Recording.{
  Capped, drops, fits, length-noted-le, live-noted, noted, noted-IsValid, record_attempt-Capped,
}
use procuresignal.RateLimit.Updates.{delete-IsValid, length-delete, live-delete}
use procuresignal.RateLimit.Valid.{IsValid}

-- What a successful `record` leaves: a well-formed dictionary within the ceiling.
abbrev pub Bounded : Settings → ℕ → Option Windows → Type 0
Bounded c now none = ⊥
Bounded c now (some s) = IsValid now s × (tracked_keys s ≤ c.max_keys)

module _ (c : Settings) (key : String) (now : ℕ) (s : Windows) where
  pub record_attempt-Bounded :
      IsValid now s → tracked_keys s ≤ c.max_keys → Bounded c now (record_attempt c key now s)
  unfolding tracked_keys
  record_attempt-Bounded v b = go (record_attempt-Capped c key now s v)
    where
      go : {r : Option Windows} → Capped c (noted c key now s) r → Bounded c now r
      go (fits h e) = rw e (noted-IsValid c key now s v, h)
      go (drops k h p e) = rw e (
        delete-IsValid now k _ (noted-IsValid c key now s v),
        omega (arith, length-delete k (noted c key now s) p, length-noted-le c key now s v),
      )

  -- One more live attempt of its key, unless the ceiling on keys costs `j` its window.
  pub live-record_attempt :
      (later : ℕ) (j : String) (r : Windows)
      → IsValid now s
      → now ≤ later
      → record_attempt c key now s ≡ some r
      → (live c.window later j r ≡ with_attempt c.window later key now j (live c.window later j s))
        ⊎ ((live c.window later j r ≡ []) × (c.max_keys < tracked_keys (noted c key now s)))
  unfolding tracked_keys
  live-record_attempt later j r v h e = go (record_attempt-Capped c key now s v)
    where
      go :
          Capped c (noted c key now s) (record_attempt c key now s)
          → (live c.window later j r
              ≡ with_attempt c.window later key now j (live c.window later j s))
            ⊎ ((live c.window later j r ≡ []) × (c.max_keys < length (noted c key now s)))
      go (fits b d) = inl (ground (arith, live-noted c key now later j s h v))
      go (drops k b p d) = ground (
        arith,
        live-noted c key now later j s h v,
        live-delete c.window later now k j (noted c key now s) (noted-IsValid c key now s v),
      )
