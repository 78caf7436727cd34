-- ===== src/RateLimit/Pruning.antt =====
-- api/rate_limit.py: `_prune` keeps the invariant and every live attempt.
use procuresignal.Prelude.{
  List, Option, String, [], arith, eq_iff, if◌then◌else◌, length, none, refl, some, str_eq, ℕ, ◌∷◌,
  ◌≡◌, ◌≢◌, ◌≤◌,
}
use procuresignal.RateLimit.{Settings, prune}
use procuresignal.RateLimit.Attempts.{Windows, delete, drop_expired, lookup, store}
use procuresignal.RateLimit.Laws.{Ascending, Until, drop_expired-drop_expired, live}
use procuresignal.RateLimit.Updates.{delete-IsValid, length-delete-le, live-delete}
use procuresignal.RateLimit.Valid.{IsValid, IsWindow}

lookup-store-none :
    (k j : String) (w : List ℕ) (s : Windows) → lookup j s ≡ none → lookup j (store k w s) ≡ none
lookup-store-none k j w [] h = refl
lookup-store-none k j w ((i, u) ∷ s) h = ground (arith, lookup-store-none k j w s)

store-IsValid :
    (now : ℕ) (k : String) (w : List ℕ) (s : Windows)
    → IsWindow now w
    → IsValid now s
    → IsValid now (store k w s)
store-IsValid now k w [] ok v = tt
store-IsValid now k w ((j, u) ∷ s) ok v =
    ground (arith, store-IsValid now k w s ok v.2, lookup-store-none k j w s v.0)

lookup-store :
    (k j : String) (w : List ℕ) (s : Windows)
    → lookup k s ≢ none
    → lookup j (store k w s) ≡ (if str_eq k j then some w else lookup j s)
lookup-store k j w [] h = absurd (h refl)
lookup-store k j w ((i, u) ∷ s) h =
    ground (arith, lookup-store k j w s, eq_iff i k, eq_iff i j, eq_iff k j)

length-store : (k : String) (w : List ℕ) (s : Windows) → length (store k w s) ≡ length s
length-store k w [] = refl
length-store k w ((j, u) ∷ s) = ground (arith, length-store k w s)

pub lookup-IsWindow :
    (now : ℕ) (k : String) (s : Windows) (w : List ℕ)
    → IsValid now s
    → lookup k s ≡ some w
    → IsWindow now w
lookup-IsWindow now k [] w v h = cc
lookup-IsWindow now k ((j, u) ∷ s) w v h = ground (arith, lookup-IsWindow now k s w v.2)

pub drop_expired-IsWindow :
    (window now : ℕ) (w : List ℕ)
    → Ascending w
    → Until now w
    → drop_expired window now w ≢ []
    → IsWindow now (drop_expired window now w)
drop_expired-IsWindow window now [] a u h = absurd (h refl)
drop_expired-IsWindow window now (x ∷ []) a u h = ground arith
drop_expired-IsWindow window now (x ∷ y ∷ w) a u h =
    ground (arith, drop_expired-IsWindow window now (y ∷ w) a.1 u.1)

-- The two ways in which `prune` ends.
pub data Pruned (c : Settings) (key : String) (now : ℕ) (s : Windows) (r : Windows) : Type 0 where
  absent : lookup key s ≡ none → r ≡ s → Pruned c key now s r
  emptied :
      (w : List ℕ)
      → lookup key s ≡ some w
      → drop_expired c.window now w ≡ []
      → r ≡ delete key s
      → Pruned c key now s r
  shortened :
      (w : List ℕ)
      → lookup key s ≡ some w
      → drop_expired c.window now w ≢ []
      → r ≡ store key (drop_expired c.window now w) s
      → Pruned c key now s r

pub prune-Pruned :
    (c : Settings) (key : String) (now : ℕ) (s : Windows) → Pruned c key now s (prune c key now s).0
unfolding prune
prune-Pruned c key now s = split (lookup key s) refl
  where
    with_rest :
        (w : List ℕ)
        → lookup key s ≡ some w
        → (l : List ℕ) → drop_expired c.window now w ≡ l
        → Pruned c key now s (prune c key now s).0
    with_rest w e [] d = emptied w e d (ground arith)
    with_rest w e (t ∷ l) d = shortened w e (λ n. cc) (ground arith)

    split : (o : Option (List ℕ)) → lookup key s ≡ o → Pruned c key now s (prune c key now s).0
    split none e = absent e (ground arith)
    split (some w) e = with_rest w e (drop_expired c.window now w) refl

module _ (c : Settings) (key : String) (now : ℕ) (s : Windows) (v : IsValid now s) where
  pub Pruned-IsValid : {r : Windows} → Pruned c key now s r → IsValid now r
  Pruned-IsValid (absent l e) = rw e v
  Pruned-IsValid (emptied w l d e) = rw e (delete-IsValid now key s v)
  Pruned-IsValid (shortened w l d e) =
      let ok = lookup-IsWindow now key s w v l in
      rw e (store-IsValid now key _ s (drop_expired-IsWindow c.window now w ok.1 ok.2 d) v)

  pub live-Pruned :
      (later : ℕ) (j : String) {r : Windows}
      → now ≤ later
      → Pruned c key now s r
      → live c.window later j r ≡ live c.window later j s
  live-Pruned later j h (absent l e) = rw e
  live-Pruned later j h (emptied w l d e) = rw e (
      rw (live-delete c.window later now key j s v)
        (ground (arith, drop_expired-drop_expired c.window now later w h, eq_iff key j)))
  live-Pruned later j h (shortened w l d e) = ground (
    arith,
    drop_expired-drop_expired c.window now later w h,
    lookup-store key j (drop_expired c.window now w) s,
    eq_iff key j,
  )

  pub length-Pruned-le : {r : Windows} → Pruned c key now s r → length r ≤ length s
  length-Pruned-le (absent l e) = rw e (omega arith)
  length-Pruned-le (emptied w l d e) = rw e (length-delete-le key s)
  length-Pruned-le (shortened w l d e) =
      rw (e, length-store key (drop_expired c.window now w) s) (omega arith)
