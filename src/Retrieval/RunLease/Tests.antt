-- ===== src/Retrieval/RunLease/Tests.antt =====
-- shared/procuresignal/retrieval/audit.py on small inputs, and the theorems applied there.
use procuresignal.Prelude.{List, [], arith, false, none, refl, some, true, ℕ, ◌∷◌, ◌≡◌}
use procuresignal.Retrieval.RunLease.{
  Counts, Run, claim_candidate, claim_run, complete_run, fence_run, leased, pending,
}
use procuresignal.Retrieval.RunLease.Exclusive.{lease_is_exclusive}
use procuresignal.Retrieval.RunLease.Held.{Call, any_takes, calls, claim, complete}

abbrev zero_counts : Counts
zero_counts = record {
  fetched = 0;
  accepted = 0;
  inserted = 0;
  duplicate = 0;
  rejected = 0;
  failures = 0;
}

abbrev run_at : ℕ → ℕ → Run
run_at id started = record {
  id = id;
  run_key = "scheduled";
  status = pending;
  lease_owner = none;
  lease_expires_at = none;
  attempted_count = 0;
  counts = zero_counts;
  started_at = started;
  finished_at = none;
}

abbrev waiting : List Run
waiting = run_at 1 50 ∷ run_at 2 40 ∷ []

abbrev taken : List Run
taken = run_at 1 50 ∷ leased "w1" 100 (run_at 2 40) ∷ []

claim_run-waiting :
    claim_run (λ id. false) (λ rows. rows) "w1" 100 waiting
    ≡ (taken, some (leased "w1" 100 (run_at 2 40)))
unfolding claim_run
claim_run-waiting = refl

claim-waiting : claim_candidate 2 "w1" 100 waiting ≡ (taken, some (leased "w1" 100 (run_at 2 40)))
unfolding claim_candidate
claim-waiting = refl

abbrev others : List Call
others = claim 2 "w2" 4000 ∷ claim 1 "w2" 3900 ∷ complete 2 "w2" 3950 (λ c. c) ∷ []

lease_is_exclusive_example :
    let end : List Run = calls others taken in
    (any_takes 2 others taken ≡ false)
    × (fence_run 2 "w1" 4000 end ≡ true)
    × ((complete_run 2 "w1" 4000 (λ c. c) end).1 ≡ true)
lease_is_exclusive_example =
    lease_is_exclusive 2 "w1" 100 4000 (λ c. c) waiting taken (leased "w1" 100 (run_at 2 40)) others
      (refl, (refl, tt)) claim-waiting refl (omega arith)
