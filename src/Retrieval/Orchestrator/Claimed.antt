-- ===== src/Retrieval/Orchestrator/Claimed.antt =====
-- retrieval/orchestrator.py: what `_claim` grants and refuses.
use mathlib.Core.Path.{ap, subst}
use procuresignal.Prelude.{
  ◌∙◌, eq_iff, ◌≤◌, ◌≢◌, false, str_eq, Bool, List, Option, String, arith, sym, none, refl, some,
  true, ℕ, ◌&&◌, ◌+◌, ◌≡◌,
}
use procuresignal.Prelude.Table.{find?, rowcount}
use procuresignal.Retrieval.Circuit.{lease_duration}
use procuresignal.Retrieval.RunLease.{Run, with_id}
use procuresignal.Retrieval.RunLease.Laws.{HasDistinctIds, IsLeased, rowcount_of_run, run_of}
use procuresignal.Retrieval.Orchestrator.Claim.{
  claim_run_key, insert_run, claim_found, refreshed, reclaimable, renewable, renewed, taken_over,
  update_run,
}
use procuresignal.Retrieval.Orchestrator.Granted.{Granted, by_flag, claim_run_key-Granted}

module _ (other owner : String) (until now : ℕ) (rows : List Run) (d : HasDistinctIds rows)
    (differ : other ≢ owner) (early : now ≤ until) where
  -- A condition that the leased run does not meet.
  leased_count :
      (id : ℕ) (g : Run → Bool) (o : Option Run)
      → run_of id rows ≡ o
      → IsLeased other until o
      → ((r : Run) → IsLeased other until (some r) → g r ≡ false)
      → rowcount (λ r. with_id id r && g r) rows ≡ 0
  leased_count id g none e h misses = absurd h
  leased_count id g (some r) e h misses = ground (arith, rowcount_of_run id rows d g, e, misses r h)

  not_renewable : (r : Run) → IsLeased other until (some r) → renewable owner r ≡ false
  not_renewable r (s, o, t) = ground (arith, s, o, eq_iff other owner, differ)

  not_reclaimable : (r : Run) → IsLeased other until (some r) → reclaimable now r ≡ false
  not_reclaimable r (s, o, t) = ground (arith, s, t, early)

  missed_refused :
      (id : ℕ) (g : Run → Bool) (f : Run → Run) (refused : String)
      → rowcount (λ r. with_id id r && g r) rows ≡ 0
      → (update_run id g f refused rows).1.acquired ≡ false
  unfolding update_run
  missed_refused id g f refused e = rw e refl

  found_refused :
      (run : Run)
      → IsLeased other until (run_of run.id rows)
      → (claim_found run owner now rows).1.acquired ≡ false
  unfolding claim_found
  found_refused run h = ground (
    arith,
    missed_refused run.id (renewable owner) (renewed now) (refreshed (find? (with_id run.id) rows))
        (leased_count run.id (renewable owner) (run_of run.id rows) refl h not_renewable),
    missed_refused run.id (reclaimable now) (taken_over owner now) "already_running"
        (leased_count run.id (reclaimable now) (run_of run.id rows) refl h not_reclaimable),
  )

  update_run-id :
      (id : ℕ) (g : Run → Bool) (f : Run → Run) (refused : String)
      → (update_run id g f refused rows).1.run_id ≡ id
  unfolding update_run
  update_run-id id g f refused = ground arith

  found-id : (run : Run) → (claim_found run owner now rows).1.run_id ≡ run.id
  unfolding claim_found
  found-id run = ground (
    arith,
    update_run-id run.id (renewable owner) (renewed now) (refreshed (find? (with_id run.id) rows)),
    update_run-id run.id (reclaimable now) (taken_over owner now) "already_running",
  )

  found_of_refused :
      (run : ℕ) (r : Run)
      → IsLeased other until (run_of run rows)
      → (claim_found r owner now rows).1.run_id ≡ run
      → (claim_found r owner now rows).1.acquired ≡ false
  found_of_refused run r h e =
      found_refused r
        (subst (λ (id : ℕ). IsLeased other until (run_of id rows)) (sym e ∙ found-id r) h)

  insert_refused :
      (there : Option Run) (key : String) (id run : ℕ)
      → run_of id rows ≡ none
      → IsLeased other until (run_of run rows)
      → (insert_run there key owner now id rows).1.run_id ≡ run
      → (insert_run there key owner now id rows).1.acquired ≡ false
  unfolding insert_run
  insert_refused none key id run fresh h e =
      absurd (subst (IsLeased other until) (ap (λ (x : ℕ). run_of x rows) (sym e) ∙ fresh) h)
  insert_refused (some r) key id run fresh h e = found_of_refused run r h e

  pub claim_run_key-refused :
      (seen : Option Run) (key : String) (id run : ℕ)
      → run_of id rows ≡ none
      → IsLeased other until (run_of run rows)
      → (claim_run_key seen key owner now id rows).1.run_id ≡ run
      → (claim_run_key seen key owner now id rows).1.acquired ≡ false
  unfolding claim_run_key
  claim_run_key-refused none key id run fresh h e =
      insert_refused (find? (λ r. str_eq r.run_key key) rows) key id run fresh h e
  claim_run_key-refused (some r) key id run fresh h e = found_of_refused run r h e

module _ (first second : String) (start now : ℕ) (rows rows' : List Run) where
  -- Once a worker has acquired a run by its key, the run is leased to it, and until the lease ends a
  -- claim that leads another worker to that run is refused and leaves the table alone, whatever that
  -- worker had read before.
  pub claims_exclude :
      (seen later : Option Run) (key key' status : String) (id id' run : ℕ)
      → HasDistinctIds rows
      → run_of id rows ≡ none
      → run_of id' rows' ≡ none
      → claim_run_key seen key first start id rows
        ≡ (rows', record { run_id = run; acquired = true; status = status })
      → first ≢ second
      → now ≤ start + lease_duration
      → (claim_run_key later key' second now id' rows').1.run_id ≡ run
      → IsLeased first (start + lease_duration) (run_of run rows')
        × ((claim_run_key later key' second now id' rows').1.acquired ≡ false)
        × ((claim_run_key later key' second now id' rows').0 ≡ rows')
  claims_exclude seen later key key' status id id' run d fresh fresh' h differ early e =
      let granted : Granted first (start + lease_duration) rows
          (rows', record { run_id = run; acquired = true; status = status }) =
        subst (Granted first (start + lease_duration) rows) h
          (claim_run_key-Granted first start rows d seen key id fresh) in
      let refused =
        claim_run_key-refused first second (start + lease_duration) now rows' granted.0 differ early
          later key' id' run fresh' granted.1 e in
      (
        granted.1,
        refused,
        by_flag second (now + lease_duration) rows' (claim_run_key later key' second now id' rows')
            refused (claim_run_key-Granted second now rows' granted.0 later key' id' fresh'),
      )
