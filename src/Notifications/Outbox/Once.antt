-- ===== src/Notifications/Outbox/Once.antt =====
-- shared/procuresignal/notifications/outbox.py: each alert is queued once for each recipient.
-- Every match is queued exactly once for every recipient.
use procuresignal.Prelude.{All, Bool, List, [], arith, length, refl, ℕ, ◌+◌, ◌∷◌, ◌≡◌, ◌≤◌}
use procuresignal.Notifications.Outbox.{
  Notification, RuleMatch, enqueue_matches, enqueue_users, queued,
}
use procuresignal.Notifications.Outbox.Enqueue.{
  Grown, Has, Has-more, HasUniqueKeys, enqueue_users-Grown, enqueue_users-Has, enqueue_users-skips,
}
use procuresignal.Prelude.Table.{rowcount}

abbrev pub IsQueued : (ℕ → List ℕ) → List RuleMatch → List Notification → Type 0
IsQueued recipients ms rows =
    All (λ m. All (λ user. rowcount (queued m user) rows ≡ 1) (recipients m.organization_id)) ms

enqueue_matches-Grown :
    (recipients : ℕ → List ℕ) (ms : List RuleMatch) (rows : List Notification)
    → Grown rows (enqueue_matches recipients ms rows)
unfolding enqueue_matches
enqueue_matches-Grown recipients [] rows = ((λ p. omega arith), omega arith, (λ h. h))
enqueue_matches-Grown recipients (m ∷ ms) rows =
    let one = enqueue_users-Grown m (recipients m.organization_id) rows in
    let others =
      enqueue_matches-Grown recipients ms (enqueue_users m (recipients m.organization_id) rows).0 in
    (
      (λ p. ground (arith, one.0 p, others.0 p)),
      ground (arith, one.1, others.1),
      (λ h. others.2 (one.2 h)),
    )

abbrev Each : (ℕ → List ℕ) → List RuleMatch → List Notification → Type 0
Each recipients ms rows = All (λ m. All (Has m rows) (recipients m.organization_id)) ms

enqueue_matches-Each :
    (recipients : ℕ → List ℕ) (ms : List RuleMatch) (rows : List Notification)
    → Each recipients ms (enqueue_matches recipients ms rows).0
unfolding enqueue_matches
enqueue_matches-Each recipients [] rows = tt
enqueue_matches-Each recipients (m ∷ ms) rows =
    let first : List Notification = (enqueue_users m (recipients m.organization_id) rows).0 in
    (
      Has-more m (recipients m.organization_id) first (enqueue_matches recipients ms first).0
          (enqueue_matches-Grown recipients ms first).0
          (enqueue_users-Has m (recipients m.organization_id) rows),
      enqueue_matches-Each recipients ms first,
    )

enqueue_matches-skips :
    (recipients : ℕ → List ℕ) (ms : List RuleMatch) (rows : List Notification)
    → Each recipients ms rows
    → enqueue_matches recipients ms rows ≡ (rows, 0)
unfolding enqueue_matches
enqueue_matches-skips recipients [] rows h = refl
enqueue_matches-skips recipients (m ∷ ms) rows (h, hs) =
    rw
      (
        enqueue_users-skips m (recipients m.organization_id) rows h,
        enqueue_matches-skips recipients ms rows hs,
      )
      refl

users-IsQueued :
    (m : RuleMatch) (users : List ℕ) (rows : List Notification)
    → HasUniqueKeys rows
    → All (Has m rows) users
    → All (λ user. rowcount (queued m user) rows ≡ 1) users
users-IsQueued m [] rows unique h = tt
users-IsQueued m (user ∷ users) rows unique (h, hs) =
    (ground (arith, unique m user, h), users-IsQueued m users rows unique hs)

Each-IsQueued :
    (recipients : ℕ → List ℕ) (ms : List RuleMatch) (rows : List Notification)
    → HasUniqueKeys rows
    → Each recipients ms rows
    → IsQueued recipients ms rows
Each-IsQueued recipients [] rows unique h = tt
Each-IsQueued recipients (m ∷ ms) rows unique (h, hs) = (
  users-IsQueued m (recipients m.organization_id) rows unique h,
  Each-IsQueued recipients ms rows unique hs,
)

-- From an outbox with unique keys, enqueue_matches leaves one with unique keys, in which every match
-- is queued exactly once for every recipient of its organization; no row is lost, the count that is
-- returned is the number of rows that are new, and evaluating the same matches again adds none.
pub enqueue_once :
    (recipients : ℕ → List ℕ) (ms : List RuleMatch) (rows : List Notification)
    → HasUniqueKeys rows
    → HasUniqueKeys (enqueue_matches recipients ms rows).0
      × IsQueued recipients ms (enqueue_matches recipients ms rows).0
      × ((p : Notification → Bool)
          → rowcount p rows ≤ rowcount p (enqueue_matches recipients ms rows).0)
      × (length (enqueue_matches recipients ms rows).0
          ≡ length rows + (enqueue_matches recipients ms rows).1)
      × (enqueue_matches recipients ms (enqueue_matches recipients ms rows).0
          ≡ ((enqueue_matches recipients ms rows).0, 0))
enqueue_once recipients ms rows unique =
    let grown = enqueue_matches-Grown recipients ms rows in
    let each = enqueue_matches-Each recipients ms rows in
    (
      grown.2 unique,
      Each-IsQueued recipients ms (enqueue_matches recipients ms rows).0 (grown.2 unique) each,
      grown.0,
      grown.1,
      enqueue_matches-skips recipients ms (enqueue_matches recipients ms rows).0 each,
    )
