-- ===== src/Notifications/Outbox/Drain.antt =====
-- shared/procuresignal/notifications/transports/in_app.py: the drain comes to an end.
-- A drain, as the task runs it: a transport, which may fail differently each time, and a time.
use procuresignal.Prelude.{
  Bool, List, [], all, arith, false, if◌then◌else◌, leb, length, ltb, refl, suc, sym, true, zero, ℕ,
  ◌&&◌, ◌+◌, ◌∷◌, ◌≡◌, ◌≤◌,
}
use mathlib.Core.Path.{subst}
use procuresignal.Notifications.Outbox.{
  Notification, Status, deliver_pending, delivered, failed, is_pending, mark_delivered, mark_failed,
  max_delivery_attempts, pending,
}
use procuresignal.Prelude.Table.{rowcount}

abbrev pub Round : Type 0
Round = (Notification → Bool) × ℕ

unfoldable pub drains : List Round → ℕ → List Notification → List Notification
unfolding deliver_pending
drains [] limit rows = rows
drains ((transport, now) ∷ rounds) limit rows =
    drains rounds limit (deliver_pending transport now limit rows).0

-- What one attempt makes of a row.
abbrev pub attempted : Round → Notification → Notification
attempted (transport, now) n =
    if is_pending n then if transport n then mark_delivered now n else mark_failed n else n

abbrev each : Round → List Notification → List Notification
each r [] = []
each r (n ∷ rows) = attempted r n ∷ each r rows

each-idle :
    (r : Round) (rows : List Notification) → rowcount is_pending rows ≡ 0 → each r rows ≡ rows
each-idle r [] h = refl
each-idle r (n ∷ rows) h = ground (arith, h, each-idle r rows)

deliver_pending-each :
    (transport : Notification → Bool) (now limit : ℕ) (rows : List Notification)
    → rowcount is_pending rows ≤ limit
    → (deliver_pending transport now limit rows).0 ≡ each (transport, now) rows
unfolding deliver_pending
deliver_pending-each transport now limit [] h = refl
deliver_pending-each transport now zero (n ∷ rows) h =
    sym (each-idle (transport, now) (n ∷ rows) (omega arith))
deliver_pending-each transport now (suc limit) (n ∷ rows) h = ground (
  arith,
  h,
  deliver_pending-each transport now (suc limit) rows,
  deliver_pending-each transport now limit rows,
)

-- A pending row has attempts left, and at most `k` of them; a failed one has had all of them.
abbrev is_owed : ℕ → Notification → Bool
is_owed k n = elim n.status [
  | pending ↦ ltb n.attempts max_delivery_attempts && leb max_delivery_attempts (n.attempts + k)
  | delivered ↦ true
  | failed ↦ leb max_delivery_attempts n.attempts
]

-- A row as the outbox has it.
abbrev pub is_sound : Notification → Bool
is_sound n = elim n.status [
  | pending ↦ ltb n.attempts max_delivery_attempts
  | delivered ↦ true
  | failed ↦ leb max_delivery_attempts n.attempts
]

-- It is delivered, or it has failed on every attempt that it is given.
abbrev pub is_settled : Notification → Bool
is_settled n = elim n.status [
  | pending ↦ false
  | delivered ↦ true
  | failed ↦ leb max_delivery_attempts n.attempts
]

attempted-is_owed :
    (r : Round) (k : ℕ) (n : Notification)
    → is_owed (suc k) n ≡ true
    → is_owed k (attempted r n) ≡ true
unfolding mark_failed
attempted-is_owed (transport, now) k n h = by_status n.status refl
  where
    by_status : (s : Status) → n.status ≡ s → is_owed k (attempted (transport, now) n) ≡ true
    by_status pending e = ground (arith, e, h)
    by_status delivered e = ground (arith, e, h)
    by_status failed e = ground (arith, e, h)

each-is_owed :
    (r : Round) (k : ℕ) (rows : List Notification)
    → all (is_owed (suc k)) rows ≡ true
    → all (is_owed k) (each r rows) ≡ true
each-is_owed r k [] h = refl
each-is_owed r k (n ∷ rows) h = ground (arith, h, attempted-is_owed r k n, each-is_owed r k rows)

each-pending-le :
    (r : Round) (rows : List Notification)
    → rowcount is_pending (each r rows) ≤ rowcount is_pending rows
unfolding mark_failed
each-pending-le r [] = omega arith
each-pending-le r (n ∷ rows) = ground (arith, each-pending-le r rows)

drains-is_owed :
    (rounds : List Round) (limit k left : ℕ) (rows : List Notification)
    → left ≡ length rounds + k
    → rowcount is_pending rows ≤ limit
    → all (is_owed left) rows ≡ true
    → all (is_owed k) (drains rounds limit rows) ≡ true
unfolding drains
drains-is_owed [] limit k left rows e le h =
    let same : left ≡ k = ground (arith, e) in subst (λ (n : ℕ). all (is_owed n) rows ≡ true) same h
drains-is_owed ((transport, now) ∷ rounds) limit k left rows e le h =
    let less : left ≡ suc (length rounds + k) = ground (arith, e) in
    let same = deliver_pending-each transport now limit rows le in
    let ready : all (is_owed (suc (length rounds + k))) rows ≡ true =
      subst (λ (n : ℕ). all (is_owed n) rows ≡ true) less h in
    drains-is_owed rounds limit k (length rounds + k) (deliver_pending transport now limit rows).0
      refl (ground (arith, same, each-pending-le (transport, now) rows, le))
      (ground (arith, same, each-is_owed (transport, now) (length rounds + k) rows ready))

all-is_sound :
    (k : ℕ) (rows : List Notification)
    → max_delivery_attempts ≤ k
    → all is_sound rows ≡ true
    → all (is_owed k) rows ≡ true
all-is_sound k [] le h = refl
all-is_sound k (n ∷ rows) le h = ground (arith, le, h, all-is_sound k rows le)

all-is_settled :
    (rows : List Notification) → all (is_owed 0) rows ≡ true → all is_settled rows ≡ true
all-is_settled [] h = refl
all-is_settled (n ∷ rows) h = ground (arith, h, all-is_settled rows)

-- Five drains or more of an outbox, whatever the transports do each time, settle every notification:
-- it is delivered, or it has failed, which takes at least five attempts. The limit has to reach the
-- number of pending rows, a pending row has had fewer than five attempts and a failed one five.
pub drains_settle :
    (rounds : List Round) (limit : ℕ) (rows : List Notification)
    → max_delivery_attempts ≤ length rounds
    → rowcount is_pending rows ≤ limit
    → all is_sound rows ≡ true
    → all is_settled (drains rounds limit rows) ≡ true
drains_settle rounds limit rows enough le h = all-is_settled (drains rounds limit rows) (
    drains-is_owed rounds limit 0 (length rounds) rows (omega arith) le
      (all-is_sound (length rounds) rows enough h))
