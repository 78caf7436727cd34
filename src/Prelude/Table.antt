-- ===== src/Prelude/Table.antt =====
-- A database table as the list of its rows in primary-key order, and what the statements of the
-- source do to it: `update(T).where(p).values(f)` with its `rowcount`, and
-- `select(T).where(p)` with `scalar_one_or_none` or `first`.
use Prim.Native.Nat.{ℕ, ◌+◌}
use mathlib.Core.Path.{◌≡◌, refl}
use native.Mathlib.Omega.{arith}
use mathlib.Core.Bool.{Bool, true, false}
use mathlib.Core.List.{List, [], ◌∷◌, ◌++◌}
use mathlib.Core.Option.{Option, none, some}
use Prim.Native.String.{String}
use text.Mathlib.Text.{◌==◌ as str_eq}
use text.Mathlib.TextEquality.{eq_iff}
use procuresignal.Prelude.Tests.{if◌then◌else◌, ltb, leb}

-- Comparisons with NULL are not true.
abbrev pub after : Option ℕ → ℕ → Bool
after none now = false
after (some t) now = ltb now t

abbrev pub not_after : Option ℕ → ℕ → Bool
not_after none now = false
not_after (some t) now = leb t now

abbrev pub before : Option ℕ → ℕ → Bool
before none now = false
before (some t) now = ltb t now

abbrev pub not_before : Option ℕ → ℕ → Bool
not_before none now = false
not_before (some t) now = leb now t

abbrev pub owned_by : Option String → String → Bool
owned_by none owner = false
owned_by (some o) owner = str_eq o owner

abbrev pub is_none {ℓ} : {A : Type ℓ} → Option A → Bool
is_none none = true
is_none (some a) = false

pub owned_by→eq : (o : Option String) (owner : String) → owned_by o owner ≡ true → o ≡ some owner
owned_by→eq none owner h = cc
owned_by→eq (some o) owner h = ground (arith, eq_iff o owner)

module _ {ℓ} {A : Type ℓ} where
  -- UPDATE … SET f WHERE p
  abbrev pub update_where : (A → Bool) → (A → A) → List A → List A
  update_where p f [] = []
  update_where p f (r ∷ rows) = (if p r then f r else r) ∷ update_where p f rows

  -- The number of rows that a statement with this condition matches.
  abbrev pub rowcount : (A → Bool) → List A → ℕ
  rowcount p [] = 0
  rowcount p (r ∷ rows) = (if p r then 1 else 0) + rowcount p rows

  -- SELECT … WHERE p, the first row.
  abbrev pub find? : (A → Bool) → List A → Option A
  find? p [] = none
  find? p (r ∷ rows) = if p r then some r else find? p rows

  -- The row that a condition finds, after an update that leaves the condition alone.
  abbrev pub updated : (A → Bool) → (A → A) → Option A → Option A
  updated q f none = none
  updated q f (some r) = some (if q r then f r else r)

  pub find?-update_where :
      (p q : A → Bool) (f : A → A) (rows : List A)
      → ((r : A) → p (f r) ≡ p r)
      → find? p (update_where q f rows) ≡ updated q f (find? p rows)
  find?-update_where p q f [] h = refl
  find?-update_where p q f (r ∷ rows) h = ground (arith, h r, find?-update_where p q f rows h)

  -- A row is there already, or it is the one that was appended.
  pub find?-append :
      (p : A → Bool) (rows : List A) (r : A)
      → find? p (rows ++ r ∷ [])
        ≡ elim (find? p rows) [ some found ↦ some found | none ↦ if p r then some r else none ]
  find?-append p [] r = refl
  find?-append p (x ∷ rows) r = ground (arith, find?-append p rows r)

  -- A statement that matches no row changes nothing.
  pub update_where-eq_self :
      (q : A → Bool) (f : A → A) (rows : List A)
      → rowcount q rows ≡ 0
      → update_where q f rows ≡ rows
  update_where-eq_self q f [] h = refl
  update_where-eq_self q f (r ∷ rows) h = ground (arith, update_where-eq_self q f rows)

  -- A row that is found meets the condition.
  pub find?-holds :
      (p : A → Bool) (rows : List A) → elim (find? p rows) [ none ↦ true | some r ↦ p r ] ≡ true
  find?-holds p [] = refl
  find?-holds p (r ∷ rows) = ground (arith, find?-holds p rows)
