-- ===== src/RateLimit/Checked.antt =====
-- api/rate_limit.py: the answers of `check`.
use mathlib.Core.Path.{subst}
use procuresignal.Prelude.{
  List, Option, String, [], arith, length, max, none, refl, some, ℕ, ◌*◌, ◌+◌, ◌/◌, ◌<◌, ◌↔◌, ◌∷◌,
  ◌≡◌, ◌≤◌,
}
use procuresignal.RateLimit.{Settings, check, pruned, retry_after, second, tracked_keys}
use procuresignal.RateLimit.Attempts.{Windows, drop_expired, lookup}
use procuresignal.RateLimit.Laws.{Until, drop_expired-drop_expired, live, or_empty}
use procuresignal.RateLimit.Pruning.{
  Pruned-IsValid, length-Pruned-le, live-Pruned, lookup-IsWindow, prune-Pruned,
}
use procuresignal.RateLimit.Valid.{IsValid}

abbrev pub nonempty : List ℕ → Option (List ℕ)
nonempty [] = none
nonempty (t ∷ w) = some (t ∷ w)

module _ (c : Settings) (key : String) (now : ℕ) (s : Windows) where
  pruned-1 : (l : List ℕ) → (pruned key s l).1 ≡ nonempty l
  unfolding pruned
  pruned-1 [] = refl
  pruned-1 (t ∷ l) = refl

  pub check-eq : (check c key now s).1 ≡ retry_after c now (nonempty (live c.window now key s))
  unfolding check
  check-eq = ground (arith, pruned-1 (live c.window now key s))

  -- A key is let through exactly while fewer than `max_attempts` of its attempts are live.
  pub check-none_iff :
      0 < c.max_attempts
      → ((check c key now s).1 ≡ none) ↔ (length (live c.window now key s) < c.max_attempts)
  check-none_iff m = rw check-eq (go (live c.window now key s))
    where
      go : (l : List ℕ) → (retry_after c now (nonempty l) ≡ none) ↔ (length l < c.max_attempts)
      go [] = unfold retry_after in ((λ e. m), (λ h. refl))
      go (t ∷ l) = unfold retry_after in ((λ e. ground arith), (λ h. ground arith))

  -- `check` keeps the invariant and every live attempt of every key.
  pub check-IsValid : IsValid now s → IsValid now (check c key now s).0
  unfolding check
  check-IsValid v = Pruned-IsValid c key now s v (prune-Pruned c key now s)

  pub length-check-le : IsValid now s → tracked_keys (check c key now s).0 ≤ tracked_keys s
  unfolding check tracked_keys
  length-check-le v = length-Pruned-le c key now s v (prune-Pruned c key now s)

  pub live-check :
      (later : ℕ) (j : String)
      → IsValid now s
      → now ≤ later
      → live c.window later j (check c key now s).0 ≡ live c.window later j s
  unfolding check
  live-check later j v h = live-Pruned c key now s v later j h (prune-Pruned c key now s)

module _ (window now : ℕ) where
  Until-drop_expired : (t : ℕ) (w : List ℕ) → Until t w → Until t (drop_expired window now w)
  Until-drop_expired t [] u = tt
  Until-drop_expired t (x ∷ w) u = ground (arith, Until-drop_expired t w u.1)

  drop_expired-first :
      (w : List ℕ) (t : ℕ) (l : List ℕ) → drop_expired window now w ≡ t ∷ l → now < t + window
  drop_expired-first [] t l h = cc
  drop_expired-first (x ∷ w) t l h = ground (arith, drop_expired-first w t l)

  length-drop_expired-le : (w : List ℕ) → length (drop_expired window now w) ≤ length w
  length-drop_expired-le [] = omega arith
  length-drop_expired-le (x ∷ w) = ground (arith, length-drop_expired-le w)

  Until-live : (key : String) (s : Windows) → IsValid now s → Until now (live window now key s)
  Until-live key s v = go (lookup key s) refl
    where
      go : (o : Option (List ℕ)) → lookup key s ≡ o → Until now (live window now key s)
      go none e = rw e tt
      go (some w) e = rw e (Until-drop_expired now w (lookup-IsWindow now key s w v e).2)

-- The wait is at least a second and at most the window, and one second after it the oldest live
-- attempt has left the window.
pub check-wait :
    (c : Settings) (key : String) (now wait : ℕ) (s : Windows)
    → IsValid now s
    → (check c key now s).1 ≡ some wait
    → (1 ≤ wait)
      × (wait ≤ max 1 (c.window / second))
      × (length (live c.window (now + (wait + 1) * second) key s)
          < length (live c.window now key s))
check-wait c key now wait s v h = go (live c.window now key s) refl
  where
    go :
        (l : List ℕ)
        → live c.window now key s ≡ l
        → (1 ≤ wait)
          × (wait ≤ max 1 (c.window / second))
          × (length (live c.window (now + (wait + 1) * second) key s)
              < length (live c.window now key s))
    go [] e = unfold retry_after in cc (h, check-eq c key now s, e)
    go (t ∷ l) e =
        let later : ℕ = now + (wait + 1) * second in
        unfold retry_after in
        ground (
          arith,
          h,
          check-eq c key now s,
          drop_expired-first c.window now (or_empty (lookup key s)) t l e,
          subst (Until now) e (Until-live c.window now key s v),
          drop_expired-drop_expired c.window now later (or_empty (lookup key s)),
          length-drop_expired-le c.window later l,
        )
