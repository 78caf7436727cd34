-- ===== src/Retrieval/Orchestrator/Rows.antt =====
-- shared/procuresignal/retrieval/orchestrator.py: the statements on outcomes keep their counts adding up.
use procuresignal.Prelude.{
  All, All-append, Bool, Bool-cases, List, Option, String, [], arith, inl, inr, is_some, refl, true,
  ℕ, ◌&&◌, ◌+◌, ◌∷◌, ◌≡◌,
}
use procuresignal.Prelude.Table.{find?, update_where}
use procuresignal.Prelude.Keyed.{OnRow}
use procuresignal.Retrieval.Orchestrator.Outcomes.{counted}
use procuresignal.Retrieval.SourceLease.{
  Counts, Key, Outcome, Status, claim_source, complete_source, completed, completed_with, expired,
  fail_source, failed, failed_with, held, insert_outcome, is_running, new_outcome, outcome_of,
  renewable, renewed, running, taken_over, update_source, with_key,
}
use procuresignal.Retrieval.SourceLease.Calls.{
  Claimed, claim_seen-Claimed, insertion, locked_out, renewal, takeover,
}
use procuresignal.Retrieval.SourceLease.Detail.{safe_detail}

-- What was fetched is what was inserted, is a duplicate or failed; a failed outcome has one failure
-- more, that of its source, and a running one none yet.
abbrev pub AddUp : Status → Counts → Type 0
AddUp running c = c.fetched ≡ c.inserted + c.within_run_duplicate + c.database_duplicate
AddUp completed c =
    c.fetched ≡ c.inserted + c.within_run_duplicate + c.database_duplicate + c.failures
AddUp failed c =
    c.fetched + 1 ≡ c.inserted + c.within_run_duplicate + c.database_duplicate + c.failures

abbrev pub IsBalanced : Outcome → Type 0
IsBalanced o = AddUp o.status o.counts

All-update_where :
    (q : Outcome → Bool) (f : Outcome → Outcome) (rows : List Outcome)
    → ((o : Outcome) → q o ≡ true → IsBalanced o → IsBalanced (f o))
    → All IsBalanced rows
    → All IsBalanced (update_where q f rows)
All-update_where q f [] keeps h = tt
All-update_where q f (o ∷ rows) keeps (b, h) = elim (Bool-cases (q o)) [
  | inl met ↦ rw met (keeps o met b, All-update_where q f rows keeps h)
  | inr unmet ↦ rw unmet (b, All-update_where q f rows keeps h)
]

pub All-found :
    (p : Outcome → Bool) (rows : List Outcome)
    → All IsBalanced rows
    → OnRow IsBalanced (find? p rows)
All-found p [] h = tt
All-found p (o ∷ rows) (b, h) = elim (Bool-cases (p o)) [
  | inl met ↦ rw met b
  | inr unmet ↦ rw unmet (All-found p rows h)
]

insert-IsBalanced :
    (k : Key) (owner : String) (now : ℕ) (rows : List Outcome)
    → All IsBalanced rows
    → All IsBalanced (insert_outcome k owner now rows).0
insert-IsBalanced k owner now rows h = elim (Bool-cases (is_some (outcome_of k rows))) [
  | inl there ↦ rw there h
  | inr absent ↦ rw absent (All-append IsBalanced rows (new_outcome k owner now ∷ []) h (refl, tt))
]

claim-IsBalanced :
    (k : Key) (owner : String) (now : ℕ) (rows : List Outcome) {r : List Outcome × Bool}
    → All IsBalanced rows
    → Claimed k owner now rows r
    → All IsBalanced r.0
claim-IsBalanced k owner now rows h (renewal e) =
    rw e
      (All-update_where (λ o. with_key k o && renewable owner o) (renewed now) rows (λ o q b. b) h)
claim-IsBalanced k owner now rows h (locked_out e) = rw e h
claim-IsBalanced k owner now rows h (takeover n e) = rw e (
    All-update_where (λ o. with_key k o && expired now o) (taken_over owner now) rows (λ o q b. b)
      h)
claim-IsBalanced k owner now rows h (insertion e) = rw e (insert-IsBalanced k owner now rows h)

pub claim_source-IsBalanced :
    (locked : Bool) (k : Key) (owner : String) (now : ℕ) (rows : List Outcome)
    → All IsBalanced rows
    → All IsBalanced (claim_source locked k owner now rows).0
unfolding claim_source
claim_source-IsBalanced locked k owner now rows h =
    claim-IsBalanced k owner now rows h
      (claim_seen-Claimed locked (outcome_of k rows) k owner now rows)

pub complete_source-IsBalanced :
    (k : Key) (owner : String) (now : ℕ) (counted : Counts → Counts) (rows : List Outcome)
    → ((c : Counts)
        → (counted c).fetched
          ≡ (counted c).inserted
            + (counted c).within_run_duplicate
            + (counted c).database_duplicate
            + (counted c).failures)
    → All IsBalanced rows
    → All IsBalanced (complete_source k owner now counted rows).0
unfolding complete_source update_source
complete_source-IsBalanced k owner now counted rows even h =
    All-update_where (λ o. with_key k o && held owner now o) (completed_with now counted) rows
      (λ o q b. even o.counts) h

running_adds_up :
    (s : Status) (c : Counts)
    → is_running s ≡ true
    → AddUp s c
    → c.fetched ≡ c.inserted + c.within_run_duplicate + c.database_duplicate
running_adds_up running c r b = b
running_adds_up completed c r b = ground (arith, r)
running_adds_up failed c r b = ground (arith, r)

pub fail_source-IsBalanced :
    (k : Key) (owner code : String) (detail : Option String) (now bytes : ℕ) (rows : List Outcome)
    → All IsBalanced rows
    → All IsBalanced (fail_source k owner code detail now bytes rows).0
unfolding fail_source update_source
fail_source-IsBalanced k owner code detail now bytes rows h =
    All-update_where (λ o. with_key k o && held owner now o)
      (failed_with now code (safe_detail detail) bytes) rows
      (λ o q b. omega (arith, running_adds_up o.status o.counts (ground (arith, q)) b)) h
