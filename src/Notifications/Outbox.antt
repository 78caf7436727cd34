-- ===== src/Notifications/Outbox.antt =====
-- shared/procuresignal/notifications/outbox.py, and the drain of transports/in_app.py.
-- The outbox is the list of its rows, oldest first. A match names its rule, its event and the
-- organization of the rule; the texts of a notification, its public id and its last error are not
-- modelled. A transport delivers a notification or raises an error, told by a Bool.
pub mod Enqueue
pub mod Once
pub mod Drain
mod Tests
use procuresignal.Prelude.{
  Bool, List, Option, String, [], any, false, if◌then◌else◌, is_some, leb, none, some, str_eq, suc,
  true, zero, ℕ, ◌&&◌, ◌++◌, ◌+◌, ◌==◌, ◌∷◌,
}
use procuresignal.Prelude.Table.{find?}

-- MAX_DELIVERY_ATTEMPTS and IN_APP
abbrev pub max_delivery_attempts : ℕ
max_delivery_attempts = 5

abbrev pub in_app : String
in_app = "in_app"

pub data Status : Type 0 where
  pending delivered failed : Status

pub record Notification : Type 0 where
  pub organization_id : ℕ
  pub alert_rule_id : ℕ
  pub risk_event_id : ℕ
  pub recipient_user_id : ℕ
  pub channel : String
  pub supplier_public_ids : List String
  pub status : Status
  pub attempts : ℕ
  pub delivered_at : Option ℕ

pub record RuleMatch : Type 0 where
  pub rule_id : ℕ
  pub organization_id : ℕ
  pub event_id : ℕ
  pub supplier_public_ids : List String

pub record Member : Type 0 where
  pub user_id : ℕ
  pub is_active : Bool

pub record Belongs : Type 0 where
  pub user_id : ℕ
  pub organization_id : ℕ

-- The users, in the order of their ids, that are active and belong to the organization.
unfoldable pub recipients_for : List Member → List Belongs → ℕ → List ℕ
recipients_for [] memberships organization = []
recipients_for (u ∷ users) memberships organization =
    let rest = recipients_for users memberships organization in
    if u.is_active
      && any (λ b. (b.user_id == u.user_id) && (b.organization_id == organization)) memberships
    then u.user_id ∷ rest
    else rest

-- The query for an existing notification.
abbrev pub queued : RuleMatch → ℕ → Notification → Bool
queued m user n =
    (n.alert_rule_id == m.rule_id)
    && (n.risk_event_id == m.event_id)
    && (n.recipient_user_id == user)
    && str_eq n.channel in_app

abbrev pub new_notification : RuleMatch → ℕ → Notification
new_notification m user = record {
  organization_id = m.organization_id;
  alert_rule_id = m.rule_id;
  risk_event_id = m.event_id;
  recipient_user_id = user;
  channel = in_app;
  supplier_public_ids = m.supplier_public_ids;
  status = pending;
  attempts = 0;
  delivered_at = none;
}

-- The inner loop, with the number of rows created.
unfoldable pub enqueue_users : RuleMatch → List ℕ → List Notification → List Notification × ℕ
enqueue_users m [] rows = (rows, 0)
enqueue_users m (user ∷ users) rows =
    let skipped = enqueue_users m users rows in
    let (rows', created) = enqueue_users m users (rows ++ new_notification m user ∷ []) in
    if is_some (find? (queued m user) rows) then skipped else (rows', created + 1)

-- No request of the loop changes users or memberships, so `recipients` is read once for each
-- organization with the same result.
unfoldable pub enqueue_matches :
    (recipients : ℕ → List ℕ) → List RuleMatch → List Notification → List Notification × ℕ
unfolding enqueue_users
enqueue_matches recipients [] rows = (rows, 0)
enqueue_matches recipients (m ∷ ms) rows =
    let (rows', created) = enqueue_users m (recipients m.organization_id) rows in
    let (rows'', others) = enqueue_matches recipients ms rows' in (rows'', created + others)

abbrev pub is_pending : Notification → Bool
is_pending n = elim n.status [ pending ↦ true | delivered ↦ false | failed ↦ false ]

abbrev pub mark_delivered : ℕ → Notification → Notification
mark_delivered now n = record n { status = delivered; delivered_at = some now }

unfoldable pub mark_failed : Notification → Notification
mark_failed n = record n {
  attempts = n.attempts + 1;
  status = if leb max_delivery_attempts (n.attempts + 1) then failed else n.status;
}

-- `pending_notifications` and the loop of `deliver_pending` over the rows that it reads, of which
-- there are at most `limit`.
unfoldable pub deliver_pending :
    (Notification → Bool) → ℕ → ℕ → List Notification → List Notification × ℕ
unfolding mark_failed
deliver_pending transport now limit [] = ([], 0)
deliver_pending transport now zero (n ∷ rows) = (n ∷ rows, 0)
deliver_pending transport now (suc limit) (n ∷ rows) =
    let (passed, count) = deliver_pending transport now (suc limit) rows in
    let (rows', count') = deliver_pending transport now limit rows in
    if is_pending n
    then if transport n
      then (mark_delivered now n ∷ rows', count' + 1)
      else (mark_failed n ∷ rows', count')
    else (n ∷ passed, count)
