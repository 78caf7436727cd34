-- ===== src/RateLimit/Laws.antt =====
-- api/rate_limit.py: the windows seen as sets of live attempts.
use procuresignal.Prelude.{
  List, Option, String, [], arith, if◌then◌else◌, last?, none, refl, some, str_eq, ℕ, ◌++◌, ◌+◌,
  ◌∷◌, ◌≡◌, ◌≤◌,
}
use procuresignal.RateLimit.Attempts.{Windows, drop_expired, lookup}

-- Oldest first.
abbrev pub Ascending : List ℕ → Type 0
Ascending [] = Unit
Ascending (x ∷ []) = Unit
Ascending (x ∷ y ∷ w) = (x ≤ y) × Ascending (y ∷ w)

-- No time is later than `now`.
abbrev pub Until : ℕ → List ℕ → Type 0
Until now [] = Unit
Until now (x ∷ w) = (x ≤ now) × Until now w

-- The attempts of a key that are still inside the window.
abbrev pub or_empty : Option (List ℕ) → List ℕ
or_empty none = []
or_empty (some w) = w

abbrev pub live : ℕ → ℕ → String → Windows → List ℕ
live window now k s = drop_expired window now (or_empty (lookup k s))

-- The live attempts of `j` after `key` failed at `now`.
abbrev pub with_attempt : ℕ → ℕ → String → ℕ → String → List ℕ → List ℕ
with_attempt window later key now j l =
    if str_eq key j then l ++ drop_expired window later (now ∷ []) else l

module _ (window : ℕ) where
  pub drop_expired-drop_expired :
      (now later : ℕ) (w : List ℕ)
      → now ≤ later
      → drop_expired window later (drop_expired window now w) ≡ drop_expired window later w
  drop_expired-drop_expired now later [] h = refl
  drop_expired-drop_expired now later (t ∷ w) h =
      ground (arith, drop_expired-drop_expired now later w)

  pub drop_expired-eq-nil :
      (now t : ℕ) (w : List ℕ)
      → Ascending w
      → last? w ≡ some t
      → t + window ≤ now
      → drop_expired window now w ≡ []
  drop_expired-eq-nil now t [] a l h = refl
  drop_expired-eq-nil now t (x ∷ []) a l h = ground arith
  drop_expired-eq-nil now t (x ∷ y ∷ w) a l h =
      ground (arith, drop_expired-eq-nil now t (y ∷ w) a.1 l h, first-le-last t y w a.1 l)
    where
      first-le-last : (t y : ℕ) (w : List ℕ) → Ascending (y ∷ w) → last? (y ∷ w) ≡ some t → y ≤ t
      first-le-last t y [] a l = ground arith
      first-le-last t y (z ∷ w) a l = ground (arith, first-le-last t z w)

  pub drop_expired-append :
      (now t : ℕ) (w : List ℕ)
      → Ascending w
      → Until t w
      → drop_expired window now (w ++ t ∷ [])
        ≡ drop_expired window now w ++ drop_expired window now (t ∷ [])
  drop_expired-append now t [] a u = refl
  drop_expired-append now t (x ∷ []) a u = ground arith
  drop_expired-append now t (x ∷ y ∷ w) a u =
      ground (arith, drop_expired-append now t (y ∷ w) a.1 u.1)
