-- ===== src/Retrieval/Orchestrator/Granted.antt =====
-- shared/procuresignal/retrieval/orchestrator.py: what `_claim` grants, by the way it comes to it.
use mathlib.Core.Path.{subst}
use procuresignal.Prelude.{
  ==_iff, false, [], ◌∷◌, str_eq, ◌++◌, Bool, Bool-cases, List, Option, String, arith,
  if◌then◌else◌, inl, inr, none, refl, some, true, ℕ, ◌&&◌, ◌+◌, ◌==◌, ◌≡◌,
}
use procuresignal.Prelude.Keyed.{IsDistinct-append, IsDistinct-update_where}
use procuresignal.Prelude.Table.{
  find?-append, update_where, owned_by→eq, not_before, find?, rowcount, update_where-eq_self,
}
use procuresignal.Retrieval.Circuit.{lease_duration}
use procuresignal.Retrieval.RunLease.{
  Run, Status, completed, failed, pending, running, with_id, is_running,
}
use procuresignal.Retrieval.RunLease.Laws.{
  HasDistinctIds, IsLeased, rowcount_of_run, run_of, run_of-has_id, run_of-update_where,
}
use procuresignal.Retrieval.Orchestrator.Claim.{
  new_run, claim_run_key, insert_run, Claim, is_completed, claim_found, refreshed, reclaimable,
  renewable, renewed, taken_over, update_run,
}

-- What a claim leaves: if acquired, a lease of its owner, and otherwise the table as it was.
abbrev pub Granted : String → ℕ → List Run → (List Run × Claim) → Type 0
Granted owner until rows r =
    HasDistinctIds r.0
    × (if r.1.acquired then IsLeased owner until (run_of r.1.run_id r.0) else (r.0 ≡ rows))

pub by_flag :
    (owner : String) (until : ℕ) (rows : List Run) (r : List Run × Claim)
    → r.1.acquired ≡ false
    → Granted owner until rows r
    → r.0 ≡ rows
by_flag owner until rows r e g =
    subst (λ (b : Bool). if b then IsLeased owner until (run_of r.1.run_id r.0) else (r.0 ≡ rows)) e
      g.1

module _ (owner : String) (now : ℕ) (rows : List Run) (d : HasDistinctIds rows) where
  is_running→eq : (s : Status) → is_running s ≡ true → s ≡ running
  is_running→eq running h = refl
  is_running→eq pending h = ground (arith, h)
  is_running→eq completed h = ground (arith, h)
  is_running→eq failed h = ground (arith, h)

  renewable→leased :
      (r : Run)
      → renewable owner r ≡ true
      → IsLeased owner (now + lease_duration) (some (renewed now r))
  renewable→leased r h = (
    is_running→eq r.status (ground (arith, h)),
    owned_by→eq r.lease_owner owner (ground (arith, h)),
    refl,
  )

  reclaimable→leased :
      (r : Run)
      → reclaimable now r ≡ true
      → IsLeased owner (now + lease_duration) (some (taken_over owner now r))
  reclaimable→leased r h = (is_running→eq r.status (ground (arith, h)), refl, refl)

  -- A condition that no row of the run meets.
  missed :
      (id : ℕ) (g : Run → Bool) (f : Run → Run) (refused : String)
      → rowcount (λ r. with_id id r && g r) rows ≡ 0
      → Granted owner (now + lease_duration) rows (update_run id g f refused rows)
  unfolding update_run
  missed id g f refused e =
      rw (update_where-eq_self (λ r. with_id id r && g r) f rows e, e) (d, refl)

  update_found :
      (id : ℕ) (g : Run → Bool) (f : Run → Run) (refused : String) (o : Option Run)
      → run_of id rows ≡ o
      → elim o [ none ↦ true | some r ↦ with_id id r ] ≡ true
      → ((r : Run) → (f r).id ≡ r.id)
      → ((r : Run) → g r ≡ true → IsLeased owner (now + lease_duration) (some (f r)))
      → Granted owner (now + lease_duration) rows (update_run id g f refused rows)
  update_found id g f refused none e has keeps leases =
      missed id g f refused (ground (arith, rowcount_of_run id rows d g, e))
  update_found id g f refused (some r) e has keeps leases = elim (Bool-cases (g r)) [
    | inl met ↦
        let one : rowcount (λ x. with_id id x && g x) rows ≡ 1 =
          ground (arith, rowcount_of_run id rows d g, e, met) in
        let found : run_of id (update_where (λ x. with_id id x && g x) f rows) ≡ some (f r) =
          ground
            (arith, run_of-update_where id (λ x. with_id id x && g x) f rows keeps, e, met, has) in
        unfold update_run in
        rw one (
          IsDistinct-update_where ◌==◌ (λ (x : Run). x.id) (λ x. with_id id x && g x) f rows keeps
              d,
          rw found (leases r met),
        )
    | inr unmet ↦ missed id g f refused (ground (arith, rowcount_of_run id rows d g, e, unmet))
  ]

  update_run-Granted :
      (id : ℕ) (g : Run → Bool) (f : Run → Run) (refused : String)
      → ((r : Run) → (f r).id ≡ r.id)
      → ((r : Run) → g r ≡ true → IsLeased owner (now + lease_duration) (some (f r)))
      → Granted owner (now + lease_duration) rows (update_run id g f refused rows)
  update_run-Granted id g f refused keeps leases =
      update_found id g f refused (run_of id rows) refl (run_of-has_id id rows) keeps leases

  claim_found-Granted :
      (run : Run) → Granted owner (now + lease_duration) rows (claim_found run owner now rows)
  unfolding claim_found
  claim_found-Granted run = elim (Bool-cases (is_completed run.status)) [
    | inl done ↦ rw (done) (d, refl)
    | inr open_ ↦ elim (Bool-cases (renewable owner run)) [
      | inl mine ↦
          rw (open_, mine)
            (update_run-Granted run.id (renewable owner) (renewed now)
              (refreshed (find? (with_id run.id) rows)) (λ r. refl) (λ r h. renewable→leased r h))
      | inr other ↦
          elim (Bool-cases (is_running run.status && not_before run.lease_expires_at now)) [
            | inl live ↦ rw (open_, other, live) (d, refl)
            | inr over ↦
                rw (open_, other, over)
                  (update_run-Granted run.id (reclaimable now) (taken_over owner now)
                    "already_running" (λ r. refl) (λ r h. reclaimable→leased r h))
          ]
    ]
  ]

  -- A new run is leased to the worker that inserted it.
  new_run-Granted :
      (key : String) (id : ℕ)
      → run_of id rows ≡ none
      → Granted owner (now + lease_duration) rows (insert_run none key owner now id rows)
  unfolding insert_run
  new_run-Granted key id fresh =
      let found : run_of id (rows ++ new_run key owner now id ∷ [])
          ≡ some (new_run key owner now id) =
        ground (arith, find?-append (with_id id) rows (new_run key owner now id), fresh) in
      (
        IsDistinct-append ◌==◌ (λ (x : Run). x.id) ==_iff rows (new_run key owner now id) fresh d,
        rw found (refl, refl, refl),
      )

  insert_run-Granted :
      (there : Option Run) (key : String) (id : ℕ)
      → run_of id rows ≡ none
      → Granted owner (now + lease_duration) rows (insert_run there key owner now id rows)
  insert_run-Granted none key id fresh = new_run-Granted key id fresh
  insert_run-Granted (some run) key id fresh = unfold insert_run in claim_found-Granted run

  pub claim_run_key-Granted :
      (seen : Option Run) (key : String) (id : ℕ)
      → run_of id rows ≡ none
      → Granted owner (now + lease_duration) rows (claim_run_key seen key owner now id rows)
  unfolding claim_run_key
  claim_run_key-Granted none key id fresh =
      insert_run-Granted (find? (λ r. str_eq r.run_key key) rows) key id fresh
  claim_run_key-Granted (some run) key id fresh = claim_found-Granted run
