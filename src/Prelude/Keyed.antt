-- ===== src/Prelude/Keyed.antt =====
-- Tables with a unique key: each key has at most one row, which every statement on that key finds.
use procuresignal.Prelude.Tests.{if◌then◌else◌}
use procuresignal.Prelude.Table.{find?, rowcount, update_where, updated, find?-update_where}
use mathlib.Core.Path.{◌≡◌, refl}
use mathlib.Core.Logic.{◌↔◌}
use mathlib.Core.Bool.{Bool, true, false, ◌&&◌}
use mathlib.Core.List.{List, [], ◌∷◌, ◌++◌}
use mathlib.Core.Option.{Option, none, some}
use native.Mathlib.Omega.{arith}

-- What is asked of the row that a key has; a missing row is fine.
abbrev pub OnRow {ℓ} : {A : Type ℓ} → (A → Type 0) → Option A → Type 0
OnRow P none = Unit
OnRow P (some r) = P r

module _ {ℓ κ} {A : Type ℓ} {K : Type κ} (eq : K → K → Bool) (key : A → K) where
  abbrev pub has_key : K → A → Bool
  has_key k r = eq (key r) k

  abbrev pub row_of : K → List A → Option A
  row_of k rows = find? (has_key k) rows

  abbrev pub IsDistinct : List A → Type ℓ
  IsDistinct [] = Unit
  IsDistinct (r ∷ rows) = (row_of (key r) rows ≡ none) × IsDistinct rows

  pub row_of-has_key :
      (k : K) (rows : List A) → elim (row_of k rows) [ none ↦ true | some r ↦ has_key k r ] ≡ true
  row_of-has_key k [] = refl
  row_of-has_key k (r ∷ rows) = ground (arith, row_of-has_key k rows)

  pub row_of-update_where :
      (k : K) (q : A → Bool) (f : A → A) (rows : List A)
      → ((r : A) → key (f r) ≡ key r)
      → row_of k (update_where q f rows) ≡ updated q f (row_of k rows)
  row_of-update_where k q f rows h = find?-update_where (has_key k) q f rows (λ r. rw (h r))

  pub IsDistinct-update_where :
      (q : A → Bool) (f : A → A) (rows : List A)
      → ((r : A) → key (f r) ≡ key r)
      → IsDistinct rows
      → IsDistinct (update_where q f rows)
  IsDistinct-update_where q f [] h d = tt
  IsDistinct-update_where q f (r ∷ rows) h d = (
    ground (arith, row_of-update_where (key r) q f rows h, h r, d.0),
    IsDistinct-update_where q f rows h d.1,
  )

  -- At most one row of a key matches.
  pub rowcount_of :
      ((a b : K) → (eq a b ≡ true) ↔ (a ≡ b))
      → (k : K) (g : A → Bool) (rows : List A) → IsDistinct rows
      → rowcount (λ r. has_key k r && g r) rows
        ≡ elim (row_of k rows) [ none ↦ 0 | some r ↦ if g r then 1 else 0 ]
  rowcount_of eq_ok k g [] d = refl
  rowcount_of eq_ok k g (r ∷ rows) d =
      ground (arith, rowcount_of eq_ok k g rows d.1, d.0, eq_ok (key r) k)

  row_of-append :
      (k : K) (rows : List A) (r : A)
      → row_of k rows ≡ none
      → eq (key r) k ≡ false
      → row_of k (rows ++ r ∷ []) ≡ none
  row_of-append k [] r h n = ground arith
  row_of-append k (x ∷ rows) r h n = ground (arith, row_of-append k rows r)

  -- An insert of a key that has no row keeps the keys distinct.
  pub IsDistinct-append :
      ((a b : K) → (eq a b ≡ true) ↔ (a ≡ b))
      → (rows : List A) (r : A) → row_of (key r) rows ≡ none
      → IsDistinct rows
      → IsDistinct (rows ++ r ∷ [])
  IsDistinct-append eq_ok [] r n d = (refl, tt)
  IsDistinct-append eq_ok (x ∷ rows) r n d = ground (
    arith,
    IsDistinct-append eq_ok rows r,
    row_of-append (key x) rows r,
    eq_ok (key x) (key r),
    eq_ok (key r) (key x),
    d.0,
    d.1,
  )
