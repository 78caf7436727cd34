-- ===== src/Retrieval/SourceLease/Exclusive.antt =====
-- shared/procuresignal/retrieval/audit.py: a leased outcome belongs to its worker.
use mathlib.Core.Path.{subst}
use procuresignal.Prelude.{
  Bool, List, Option, String, all, arith, eq_refl, false, none, refl, some, true, ℕ, ◌&&◌, ◌+◌, ◌≡◌,
  ◌≤◌,
}
use procuresignal.Prelude.Table.{find?-append, owned_by→eq, rowcount, update_where, updated}
use procuresignal.Retrieval.Circuit.{lease_duration}
use procuresignal.Retrieval.SourceLease.{
  Counts, Key, Outcome, claim_seen, complete_source, expired, held, insert_outcome, key_of,
  new_outcome, outcome_of, renewable, renewed, taken_over, with_key,
}
use procuresignal.Retrieval.SourceLease.Calls.{
  Call, Claimed, any_succeeds, calls, claim_seen-Claimed, insertion, locked_out, renewal, takeover,
}
use procuresignal.Retrieval.SourceLease.Laws.{
  HasDistinctKeys, insert-HasDistinctKeys, outcome_of-update_where, outcome_of-with_key,
  rowcount-outcome, same_key_iff, update-HasDistinctKeys,
}
use procuresignal.Retrieval.SourceLease.Held.{IsLeased, foreign, Holds, calls-Holds}

module _ (k : Key) (owner : String) (now : ℕ) (rows : List Outcome) where
  claim_row :
      (g : Outcome → Bool) (f : Outcome → Outcome) (o : Option Outcome)
      → outcome_of k rows ≡ o
      → elim o [ none ↦ true | some x ↦ with_key k x ] ≡ true
      → HasDistinctKeys rows
      → ((x : Outcome) → g x ≡ true → IsLeased owner (now + lease_duration) (some (f x)))
      → rowcount (λ o. with_key k o && g o) rows ≡ 1
      → IsLeased owner (now + lease_duration) (updated (λ o. with_key k o && g o) f o)
  claim_row g f none e s d leases n = ground (arith, rowcount-outcome k g rows d)
  claim_row g f (some o) e s d leases n = ground (arith, rowcount-outcome k g rows d, leases o)

  claim-Holds :
      (g : Outcome → Bool) (f : Outcome → Outcome)
      → ((x : Outcome) → key_of (f x) ≡ key_of x)
      → HasDistinctKeys rows
      → ((x : Outcome) → g x ≡ true → IsLeased owner (now + lease_duration) (some (f x)))
      → rowcount (λ o. with_key k o && g o) rows ≡ 1
      → Holds k owner (now + lease_duration) (update_where (λ o. with_key k o && g o) f rows)
  claim-Holds g f keeps d leases n = (
    update-HasDistinctKeys (λ o. with_key k o && g o) f rows keeps d,
    rw (outcome_of-update_where k (λ o. with_key k o && g o) f rows keeps)
        (claim_row g f (outcome_of k rows) refl (outcome_of-with_key k rows) d leases n),
  )

  insert-Holds :
      HasDistinctKeys rows
      → (insert_outcome k owner now rows).1 ≡ true
      → Holds k owner (now + lease_duration) (insert_outcome k owner now rows).0
  insert-Holds d h = (
    insert-HasDistinctKeys k owner now rows d,
    ground (arith, find?-append (with_key k) rows (new_outcome k owner now), same_key_iff k k),
  )

  Claimed-Holds :
      {r : List Outcome × Bool}
      → HasDistinctKeys rows
      → Claimed k owner now rows r
      → r.1 ≡ true
      → Holds k owner (now + lease_duration) r.0
  Claimed-Holds d (renewal e) h =
      let n : rowcount (λ o. with_key k o && renewable owner o) rows ≡ 1 = ground (arith, e, h) in
      rw e (
        claim-Holds (renewable owner) (renewed now) (λ x. refl) d
          (λ x g. ground (arith, g, owned_by→eq x.lease_owner owner)) n)
  Claimed-Holds d (locked_out e) h = ground (arith, e, h)
  Claimed-Holds d (takeover n e) h =
      rw e (
        claim-Holds (expired now) (taken_over owner now) (λ x. refl) d (λ x g. ground (arith, g)) n)
  Claimed-Holds d (insertion e) h = rw e (insert-Holds d (rw e at h))

served :
    (k : Key) (owner : String) (until now : ℕ) (counted : Counts → Counts) (rows : List Outcome)
    (o : Option Outcome)
    → outcome_of k rows ≡ o
    → HasDistinctKeys rows
    → now ≤ until
    → IsLeased owner until o
    → (complete_source k owner now counted rows).1 ≡ true
unfolding complete_source
served k owner until now counted rows none e d early h = absurd h
served k owner until now counted rows (some o) e d early h =
    ground (arith, h.0, h.1, h.2, rowcount-outcome k (held owner now) rows d, eq_refl owner)

-- A claim of a source that succeeds, whatever it had read, gives its worker the source for the
-- length of the lease: whatever other workers call until then, no claim, completion or failure of
-- it by them succeeds, and the worker's own completion goes through until then.
pub source_lease_is_exclusive :
    (k : Key) (owner : String) (start now : ℕ) (counted : Counts → Counts) (locked : Bool)
    (seen : Option Outcome) (rows rows' : List Outcome) (others : List Call)
    → HasDistinctKeys rows
    → claim_seen locked seen k owner start rows ≡ (rows', true)
    → all (foreign k owner (start + lease_duration)) others ≡ true
    → now ≤ start + lease_duration
    → (any_succeeds k others rows' ≡ false)
      × ((complete_source k owner now counted (calls others rows')).1 ≡ true)
source_lease_is_exclusive k owner start now counted locked seen rows rows' others d h f early =
    let until : ℕ = start + lease_duration in
    let begun : Holds k owner until rows' =
      Claimed-Holds k owner start rows d
        (subst (Claimed k owner start rows) h (claim_seen-Claimed locked seen k owner start rows))
        refl in
    let kept = calls-Holds k owner until others rows' f begun in
    (
      kept.1,
      served k owner until now counted (calls others rows') (outcome_of k (calls others rows')) refl
          kept.0.0 early kept.0.1,
    )
