-- ===== src/RateLimit/Updates.antt =====
-- api/rate_limit.py: what appending, pruning and deleting do to the live attempts.
use procuresignal.Prelude.{
  List, String, [], arith, eq_iff, false, if◌then◌else◌, length, none, refl, str_eq, suc, ℕ, ◌++◌,
  ◌∷◌, ◌≡◌, ◌≢◌, ◌≤◌,
}
use procuresignal.RateLimit.Attempts.{Windows, append_attempt, delete, drop_expired, lookup}
use procuresignal.RateLimit.Laws.{Ascending, Until, drop_expired-append, live}
use procuresignal.RateLimit.Valid.{IsValid, IsWindow}

Ascending-append : (t : ℕ) (w : List ℕ) → Ascending w → Until t w → Ascending (w ++ t ∷ [])
Ascending-append t [] a u = tt
Ascending-append t (x ∷ []) a u = (u.0, tt)
Ascending-append t (x ∷ y ∷ w) a u = (a.0, Ascending-append t (y ∷ w) a.1 u.1)

Until-append : (t : ℕ) (w : List ℕ) → Until t w → Until t (w ++ t ∷ [])
Until-append t [] u = (omega arith, tt)
Until-append t (x ∷ w) u = (u.0, Until-append t w u.1)

IsWindow-append : (t : ℕ) (w : List ℕ) → IsWindow t w → IsWindow t (w ++ t ∷ [])
IsWindow-append t [] v = absurd (v.0 refl)
IsWindow-append t (x ∷ w) v =
    (λ e. cc, Ascending-append t (x ∷ w) v.1 v.2, Until-append t (x ∷ w) v.2)

lookup-append_attempt_ne :
    (t : ℕ) (k j : String) (s : Windows)
    → lookup j s ≡ none
    → str_eq k j ≡ false
    → lookup j (append_attempt k t s) ≡ none
lookup-append_attempt_ne t k j [] h n = ground arith
lookup-append_attempt_ne t k j ((i, w) ∷ s) h n =
    ground (arith, lookup-append_attempt_ne t k j s, eq_iff i k, eq_iff i j)

pub append_attempt-IsValid :
    (t : ℕ) (k : String) (s : Windows) → IsValid t s → IsValid t (append_attempt k t s)
append_attempt-IsValid t k [] v = (refl, ((λ e. cc), tt, (omega arith, tt)), tt)
append_attempt-IsValid t k ((j, w) ∷ s) v = ground (
  arith,
  append_attempt-IsValid t k s v.2,
  IsWindow-append t w v.1,
  lookup-append_attempt_ne t k j s v.0,
  eq_iff k j,
  eq_iff j k,
)

-- One more attempt of its key, and no other key is touched.
pub live-append_attempt :
    (window later t : ℕ) (k j : String) (s : Windows)
    → IsValid t s
    → live window later j (append_attempt k t s) ≡ (
        if str_eq k j
        then live window later j s ++ drop_expired window later (t ∷ [])
        else live window later j s)
live-append_attempt window later t k j [] v = ground arith
live-append_attempt window later t k j ((i, w) ∷ s) v = ground (
  arith,
  live-append_attempt window later t k j s v.2,
  drop_expired-append window later t w v.1.1 v.1.2,
  eq_iff i k,
  eq_iff i j,
  eq_iff k j,
)

pub length-append_attempt-le :
    (t : ℕ) (k : String) (s : Windows) → length (append_attempt k t s) ≤ suc (length s)
length-append_attempt-le t k [] = omega arith
length-append_attempt-le t k ((j, w) ∷ s) = ground (arith, length-append_attempt-le t k s)

lookup-delete-none : (k j : String) (s : Windows) → lookup j s ≡ none → lookup j (delete k s) ≡ none
lookup-delete-none k j [] h = refl
lookup-delete-none k j ((i, w) ∷ s) h = ground (arith, lookup-delete-none k j s)

pub delete-IsValid : (now : ℕ) (k : String) (s : Windows) → IsValid now s → IsValid now (delete k s)
delete-IsValid now k [] v = tt
delete-IsValid now k ((j, w) ∷ s) v =
    ground (arith, delete-IsValid now k s v.2, lookup-delete-none k j s v.0)

-- Deleting a key empties its window, and no other.
pub live-delete :
    (window later now : ℕ) (k j : String) (s : Windows)
    → IsValid now s
    → live window later j (delete k s) ≡ (if str_eq k j then [] else live window later j s)
live-delete window later now k j [] v = ground arith
live-delete window later now k j ((i, w) ∷ s) v =
    ground (arith, live-delete window later now k j s v.2, eq_iff i k, eq_iff i j, eq_iff k j)

pub length-delete-le : (k : String) (s : Windows) → length (delete k s) ≤ length s
length-delete-le k [] = omega arith
length-delete-le k ((j, w) ∷ s) = ground (arith, length-delete-le k s)

-- A key that is there takes one entry with it.
pub length-delete :
    (k : String) (s : Windows) → lookup k s ≢ none → suc (length (delete k s)) ≡ length s
length-delete k [] h = absurd (h refl)
length-delete k ((j, w) ∷ s) h = ground (arith, length-delete k s)
