-- ===== src/RateLimit/Valid.antt =====
-- api/rate_limit.py: the invariant of the dictionary, and what eviction keeps of it.
use procuresignal.Prelude.{
  List, String, [], arith, eq_iff, if◌then◌else◌, last?, leb, length, none, refl, some, ℕ, ◌+◌, ◌∷◌,
  ◌≡◌, ◌≢◌, ◌≤◌,
}
use procuresignal.RateLimit.Attempts.{Windows, evict_expired, lookup}
use procuresignal.RateLimit.Laws.{Ascending, Until, drop_expired-eq-nil, live}

abbrev pub IsWindow : ℕ → List ℕ → Type 0
IsWindow now w = (w ≢ []) × Ascending w × Until now w

-- Every key stands once, and its deque is not empty, ascending and not later than `now`.
abbrev pub IsValid : ℕ → Windows → Type 0
IsValid now [] = Unit
IsValid now ((k, w) ∷ s) = (lookup k s ≡ none) × IsWindow now w × IsValid now s

abbrev pub last_time : List ℕ → ℕ
last_time [] = 0
last_time (x ∷ []) = x
last_time (x ∷ y ∷ w) = last_time (y ∷ w)

-- What `evict_expired` leaves, as a total function.
pub alive : ℕ → ℕ → Windows → Windows
alive window now [] = []
alive window now ((k, w) ∷ s) =
    let rest = alive window now s in if leb (last_time w + window) now then rest else (k, w) ∷ rest

pub last?-eq-some : (w : List ℕ) → w ≢ [] → last? w ≡ some (last_time w)
last?-eq-some [] h = absurd (h refl)
last?-eq-some (x ∷ []) h = refl
last?-eq-some (x ∷ y ∷ w) h = last?-eq-some (y ∷ w) (λ e. cc)

Until-le : (a b : ℕ) (w : List ℕ) → a ≤ b → Until a w → Until b w
Until-le a b [] h u = tt
Until-le a b (x ∷ w) h u = (omega arith, Until-le a b w h u.1)

pub IsValid-le : (a b : ℕ) (s : Windows) → a ≤ b → IsValid a s → IsValid b s
IsValid-le a b [] h v = tt
IsValid-le a b ((k, w) ∷ s) h v =
    (v.0, (v.1.0, v.1.1, Until-le a b w h v.1.2), IsValid-le a b s h v.2)

module _ (window now : ℕ) where
  pub evict_expired-eq :
      (s : Windows) → IsValid now s → evict_expired window now s ≡ some (alive window now s)
  unfolding evict_expired alive
  evict_expired-eq [] v = refl
  evict_expired-eq ((k, w) ∷ s) v = ground (arith, last?-eq-some w v.1.0, evict_expired-eq s v.2)

  pub lookup-alive-none :
      (k : String) (s : Windows) → lookup k s ≡ none → lookup k (alive window now s) ≡ none
  unfolding alive
  lookup-alive-none k [] h = refl
  lookup-alive-none k ((j, w) ∷ s) h = ground (arith, lookup-alive-none k s)

  pub alive-IsValid : (s : Windows) → IsValid now s → IsValid now (alive window now s)
  unfolding alive
  alive-IsValid [] v = tt
  alive-IsValid ((k, w) ∷ s) v = ground (arith, alive-IsValid s v.2, lookup-alive-none k s v.0)

  pub length-alive-le : (s : Windows) → length (alive window now s) ≤ length s
  unfolding alive
  length-alive-le [] = omega arith
  length-alive-le ((k, w) ∷ s) = ground (arith, length-alive-le s)

  -- Eviction removes no live attempt.
  pub live-alive :
      (later : ℕ) (k : String) (s : Windows)
      → now ≤ later
      → IsValid now s
      → live window later k (alive window now s) ≡ live window later k s
  unfolding alive
  live-alive later k [] h v = refl
  live-alive later k ((j, w) ∷ s) h v = ground (
    arith,
    live-alive later k s h v.2,
    lookup-alive-none k s,
    last?-eq-some w v.1.0,
    eq_iff j k,
    drop_expired-eq-nil window later (last_time w) w v.1.1,
  )
