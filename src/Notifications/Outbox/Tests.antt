-- ===== src/Notifications/Outbox/Tests.antt =====
-- shared/procuresignal/notifications/outbox.py: examples.
use procuresignal.Prelude.{
  Bool, List, [], all, arith, false, length, refl, true, ℕ, ◌+◌, ◌∷◌, ◌≡◌, ◌≤◌,
}
use procuresignal.Notifications.Outbox.{
  Notification, RuleMatch, enqueue_matches, failed, mark_failed, new_notification, recipients_for,
}
use procuresignal.Notifications.Outbox.Drain.{Round, drains, drains_settle, is_settled}
use procuresignal.Notifications.Outbox.Enqueue.{HasUniqueKeys}
use procuresignal.Notifications.Outbox.Once.{IsQueued, enqueue_once}
use procuresignal.Prelude.Table.{rowcount}

abbrev found : RuleMatch
found = record { rule_id = 4; organization_id = 7; event_id = 9; supplier_public_ids = "s1" ∷ [] }

abbrev old_row : Notification
old_row = new_notification found 1

abbrev team : ℕ → List ℕ
team organization =
    recipients_for
      (record { user_id = 1; is_active = true }
        ∷ record { user_id = 2; is_active = true }
        ∷ record { user_id = 3; is_active = false }
        ∷ [])
      (record { user_id = 1; organization_id = 7 }
        ∷ record { user_id = 2; organization_id = 7 }
        ∷ record { user_id = 3; organization_id = 7 }
        ∷ [])
      organization

one_new :
    enqueue_matches team (found ∷ []) (old_row ∷ []) ≡ (old_row ∷ new_notification found 2 ∷ [], 1)
unfolding enqueue_matches recipients_for
one_new = refl

old_row-HasUniqueKeys : HasUniqueKeys (old_row ∷ [])
old_row-HasUniqueKeys m user = ground arith

abbrev queued_now : List Notification
queued_now = (enqueue_matches team (found ∷ []) (old_row ∷ [])).0

enqueue_once_example :
    HasUniqueKeys queued_now
    × IsQueued team (found ∷ []) queued_now
    × ((p : Notification → Bool) → rowcount p (old_row ∷ []) ≤ rowcount p queued_now)
    × (length queued_now ≡ 1 + (enqueue_matches team (found ∷ []) (old_row ∷ [])).1)
    × (enqueue_matches team (found ∷ []) queued_now ≡ (queued_now, 0))
enqueue_once_example = enqueue_once team (found ∷ []) (old_row ∷ []) old_row-HasUniqueKeys

abbrev down : Round
down = ((λ n. false), 100)

abbrev outage : List Round
outage = down ∷ down ∷ down ∷ down ∷ down ∷ []

gives_up : drains outage 500 (old_row ∷ []) ≡ record old_row { status = failed; attempts = 5 } ∷ []
unfolding drains mark_failed
gives_up = refl

drains_settle_example : all is_settled (drains outage 500 (old_row ∷ [])) ≡ true
drains_settle_example = drains_settle outage 500 (old_row ∷ []) (omega arith) (omega arith) refl
