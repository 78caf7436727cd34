-- ===== src/Notifications/Outbox/Enqueue.antt =====
-- shared/procuresignal/notifications/outbox.py: each alert is queued once.
-- No two rows have the same rule, event, recipient and channel: the unique constraint.
use mathlib.Core.Path.{subst}
use procuresignal.Prelude.{
  All, Bool, Bool-cases, List, [], arith, eq_iff, false, if◌then◌else◌, inl, inr, is_some, length,
  length-append, ltb, refl, sym, true, ℕ, ◌++◌, ◌+◌, ◌∷◌, ◌≡◌, ◌≤◌,
}
use procuresignal.Notifications.Outbox.{
  Notification, RuleMatch, enqueue_users, in_app, new_notification, queued,
}
use procuresignal.Prelude.Table.{find?, rowcount}

abbrev pub HasUniqueKeys : List Notification → Type 0
HasUniqueKeys rows = (m : RuleMatch) (user : ℕ) → rowcount (queued m user) rows ≤ 1

rowcount-append :
    (p : Notification → Bool) (n : Notification) (rows : List Notification)
    → rowcount p (rows ++ n ∷ []) ≡ rowcount p rows + (if p n then 1 else 0)
rowcount-append p n [] = ground arith
rowcount-append p n (x ∷ rows) = ground (arith, rowcount-append p n rows)

find?-rowcount :
    (p : Notification → Bool) (rows : List Notification)
    → is_some (find? p rows) ≡ ltb 0 (rowcount p rows)
find?-rowcount p [] = refl
find?-rowcount p (x ∷ rows) = ground (arith, find?-rowcount p rows)

rowcount-queued :
    (m m' : RuleMatch) (user user' : ℕ) (rows : List Notification)
    → m'.rule_id ≡ m.rule_id
    → m'.event_id ≡ m.event_id
    → user' ≡ user
    → rowcount (queued m' user') rows ≡ rowcount (queued m user) rows
rowcount-queued m m' user user' [] e f g = refl
rowcount-queued m m' user user' (n ∷ rows) e f g =
    ground (arith, e, f, g, rowcount-queued m m' user user' rows e f g)

-- A row that is appended because its key was not found keeps the keys unique.
HasUniqueKeys-append :
    (m : RuleMatch) (user : ℕ) (rows : List Notification)
    → is_some (find? (queued m user) rows) ≡ false
    → HasUniqueKeys rows
    → HasUniqueKeys (rows ++ new_notification m user ∷ [])
HasUniqueKeys-append m user rows absent h m' user' = ground (
  arith,
  absent,
  h m' user',
  find?-rowcount (queued m user) rows,
  rowcount-append (queued m' user') (new_notification m user) rows,
  rowcount-queued m m' user user' rows,
)

-- Rows are only added, as many as are counted, under keys that had none.
abbrev pub Grown : List Notification → List Notification × ℕ → Type 0
Grown rows r =
    ((p : Notification → Bool) → rowcount p rows ≤ rowcount p r.0)
    × (length r.0 ≡ length rows + r.1)
    × (HasUniqueKeys rows → HasUniqueKeys r.0)

pub enqueue_users-Grown :
    (m : RuleMatch) (users : List ℕ) (rows : List Notification)
    → Grown rows (enqueue_users m users rows)
unfolding enqueue_users
enqueue_users-Grown m [] rows = ((λ p. omega arith), omega arith, (λ h. h))
enqueue_users-Grown m (user ∷ users) rows =
    let rest = enqueue_users-Grown m users (rows ++ new_notification m user ∷ []) in
    elim (Bool-cases (is_some (find? (queued m user) rows))) [
      | inl found ↦ rw (found, enqueue_users) (enqueue_users-Grown m users rows)
      | inr absent ↦
          rw (absent, enqueue_users)
            (
              (λ p. ground (arith, rest.0 p, rowcount-append p (new_notification m user) rows)),
              ground (arith, rest.1, length-append rows (new_notification m user ∷ [])),
              (λ h. rest.2 (HasUniqueKeys-append m user rows absent h)),
            )
    ]

abbrev pub Has : RuleMatch → List Notification → ℕ → Type 0
Has m rows user = 1 ≤ rowcount (queued m user) rows

pub Has-more :
    (m : RuleMatch) (users : List ℕ) (rows rows' : List Notification)
    → ((p : Notification → Bool) → rowcount p rows ≤ rowcount p rows')
    → All (Has m rows) users
    → All (Has m rows') users
Has-more m [] rows rows' more h = tt
Has-more m (user ∷ users) rows rows' more (h, hs) =
    (ground (arith, more (queued m user), h), Has-more m users rows rows' more hs)

enqueue_users-found :
    (m : RuleMatch) (user : ℕ) (users : List ℕ) (rows : List Notification)
    → is_some (find? (queued m user) rows) ≡ true
    → enqueue_users m (user ∷ users) rows ≡ enqueue_users m users rows
unfolding enqueue_users
enqueue_users-found m user users rows found = rw (found, enqueue_users) refl

enqueue_users-absent :
    (m : RuleMatch) (user : ℕ) (users : List ℕ) (rows : List Notification)
    → is_some (find? (queued m user) rows) ≡ false
    → (enqueue_users m (user ∷ users) rows).0
      ≡ (enqueue_users m users (rows ++ new_notification m user ∷ [])).0
unfolding enqueue_users
enqueue_users-absent m user users rows absent = rw (absent, enqueue_users) refl

pub enqueue_users-Has :
    (m : RuleMatch) (users : List ℕ) (rows : List Notification)
    → All (Has m (enqueue_users m users rows).0) users
enqueue_users-Has m [] rows = tt
enqueue_users-Has m (user ∷ users) rows =
    let added : List Notification = rows ++ new_notification m user ∷ [] in
    elim (Bool-cases (is_some (find? (queued m user) rows))) [
      | inl found ↦
          subst (λ (r : List Notification × ℕ). All (Has m r.0) (user ∷ users))
            (sym (enqueue_users-found m user users rows found))
            (
              ground (
                arith,
                found,
                find?-rowcount (queued m user) rows,
                (enqueue_users-Grown m users rows).0 (queued m user),
              ),
              enqueue_users-Has m users rows,
            )
      | inr absent ↦
          subst (λ (r : List Notification). All (Has m r) (user ∷ users))
            (sym (enqueue_users-absent m user users rows absent))
            (
              ground (
                arith,
                (enqueue_users-Grown m users added).0 (queued m user),
                rowcount-append (queued m user) (new_notification m user) rows,
                eq_iff in_app in_app,
              ),
              enqueue_users-Has m users added,
            )
    ]

-- What is queued already is skipped.
pub enqueue_users-skips :
    (m : RuleMatch) (users : List ℕ) (rows : List Notification)
    → All (Has m rows) users
    → enqueue_users m users rows ≡ (rows, 0)
unfolding enqueue_users
enqueue_users-skips m [] rows h = refl
enqueue_users-skips m (user ∷ users) rows (h, hs) =
    ground (arith, h, find?-rowcount (queued m user) rows, enqueue_users-skips m users rows hs)
