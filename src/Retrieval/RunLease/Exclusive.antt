-- ===== src/Retrieval/RunLease/Exclusive.antt =====
-- shared/procuresignal/retrieval/audit.py: a leased run belongs to its worker until the lease ends.
use mathlib.Core.Path.{subst}
use procuresignal.Prelude.{
  List, Option, String, all, ap, arith, eq_refl, false, none, refl, some, str_eq, true, ℕ, ◌+◌, ◌≡◌,
  ◌≢◌, ◌≤◌,
}
use procuresignal.Retrieval.Circuit.{lease_duration}
use procuresignal.Retrieval.RunLease.{Counts, Run, claim_candidate, complete_run, fence_run, leased}
use procuresignal.Retrieval.RunLease.Laws.{
  HasDistinctIds, claim_candidate-HasDistinctIds, complete_run-refused, complete_run-served,
  fence_run-IsLeased, run_of, run_of-has_id, run_of-update_where,
}
use procuresignal.Retrieval.RunLease.Held.{
  Call, calls, any_takes, foreign, claim_candidate-changed, Holds, calls-Holds, claimed_row,
}

claim-Holds :
    (run : ℕ) (owner : String) (now : ℕ) (rows rows' : List Run) (r : Run)
    → HasDistinctIds rows
    → claim_candidate run owner now rows ≡ (rows', some r)
    → Holds run owner (now + lease_duration) rows'
claim-Holds run owner now rows rows' r d h =
    let got : (claim_candidate run owner now rows).1 ≢ none =
      λ e. ground (arith, ap (λ (p : List Run × Option Run). p.1) h) in
    subst (Holds run owner (now + lease_duration)) (ap (λ (p : List Run × Option Run). p.0) h) (
      claim_candidate-HasDistinctIds run owner now rows d,
      rw (claim_candidate-changed run owner now rows got) (
          rw (run_of-update_where run _ (leased owner now) rows (λ x. refl)) (
            claimed_row run owner 0 now rows (run_of run rows) refl (run_of-has_id run rows) d
              got)),
    )

-- A claim that succeeds gives its worker the run for the length of the lease: whatever statements
-- other workers make about any run until then, no other claim of it succeeds and no other worker
-- completes it, and its own fence and completion go through until then.
pub lease_is_exclusive :
    (run : ℕ) (owner : String) (start now : ℕ) (counted : Counts → Counts) (rows rows' : List Run)
    (r : Run) (others : List Call)
    → HasDistinctIds rows
    → claim_candidate run owner start rows ≡ (rows', some r)
    → all (foreign run owner (start + lease_duration)) others ≡ true
    → now ≤ start + lease_duration
    → let end : List Run = calls others rows' in
      (any_takes run others rows' ≡ false)
      × (fence_run run owner now end ≡ true)
      × ((complete_run run owner now counted end).1 ≡ true)
lease_is_exclusive run owner start now counted rows rows' r others d h f early =
    let end : List Run = calls others rows' in
    let until : ℕ = start + lease_duration in
    let kept =
      calls-Holds run owner until others rows' f (claim-Holds run owner start rows rows' r d h) in
    (
      kept.1,
      ground (
        arith,
        fence_run-IsLeased run owner until end kept.0.0 now owner kept.0.1,
        eq_refl owner,
      ),
      complete_run-served run owner until end kept.0.0 now counted kept.0.1 early,
    )

-- After another worker has claimed the run, the former holder's completion changes nothing.
pub stale_worker_fenced :
    (run : ℕ) (owner stale : String) (start now : ℕ) (counted : Counts → Counts)
    (rows rows' : List Run) (r : Run) (others : List Call)
    → HasDistinctIds rows
    → claim_candidate run owner start rows ≡ (rows', some r)
    → all (foreign run owner (start + lease_duration)) others ≡ true
    → str_eq owner stale ≡ false
    → let end : List Run = calls others rows' in
      (fence_run run stale now end ≡ false)
      × (complete_run run stale now counted end ≡ (end, false))
stale_worker_fenced run owner stale start now counted rows rows' r others d h f other =
    let end : List Run = calls others rows' in
    let until : ℕ = start + lease_duration in
    let kept =
      calls-Holds run owner until others rows' f (claim-Holds run owner start rows rows' r d h) in
    (
      ground (arith, fence_run-IsLeased run owner until end kept.0.0 now stale kept.0.1),
      complete_run-refused run owner until end kept.0.0 now stale counted kept.0.1
          (ground (arith, other)),
    )
