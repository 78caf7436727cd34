-- ===== src/Retrieval/Orchestrator/Claim.antt =====
-- retrieval/orchestrator.py, `_claim`: one worker gets the run of a key. The run that it read first,
-- `seen`, may be stale by the time of its update, and a missing one may be there by its insert, which
-- the unique key then refuses. `id` is the key that the database gives a new row.
use procuresignal.Prelude.{
  Bool, List, Option, String, [], false, if◌then◌else◌, ltb, none, some, str_eq, true, ℕ, ◌&&◌,
  ◌++◌, ◌+◌, ◌==◌, ◌∷◌,
}
use procuresignal.Prelude.Table.{find?, not_before, owned_by, rowcount, update_where}
use procuresignal.Retrieval.Circuit.{lease_duration}
use procuresignal.Retrieval.RunLease.{Run, Status, completed, is_running, running, with_id}

-- The run, whether it was acquired, and the status that is reported.
pub record Claim : Type 0 where
  pub run_id : ℕ
  pub acquired : Bool
  pub status : String

abbrev pub is_completed : Status → Bool
is_completed completed = true
is_completed _ = false

abbrev pub new_run : String → String → ℕ → ℕ → Run
new_run key owner now id = record {
  id = id;
  run_key = key;
  status = running;
  lease_owner = some owner;
  lease_expires_at = some (now + lease_duration);
  attempted_count = 1;
  counts = record {
    fetched = 0;
    accepted = 0;
    inserted = 0;
    duplicate = 0;
    rejected = 0;
    failures = 0;
  };
  started_at = now;
  finished_at = none;
}

-- The WHERE and SET clauses of the renewal, and of the takeover.
abbrev pub renewable : String → Run → Bool
renewable owner r = is_running r.status && owned_by r.lease_owner owner

abbrev pub renewed : ℕ → Run → Run
renewed now r = record r {
  lease_expires_at = some (now + lease_duration);
  attempted_count = r.attempted_count + 1;
}

-- lease_expires_at IS NULL OR lease_expires_at < now
abbrev pub is_over : Option ℕ → ℕ → Bool
is_over none now = true
is_over (some t) now = ltb t now

abbrev pub reclaimable : ℕ → Run → Bool
reclaimable now r = is_running r.status && is_over r.lease_expires_at now

abbrev pub taken_over : String → ℕ → Run → Run
taken_over owner now r = record r {
  lease_owner = some owner;
  lease_expires_at = some (now + lease_duration);
  attempted_count = r.attempted_count + 1;
}

-- What the run says after a renewal that matched no row.
abbrev pub refreshed : Option Run → String
refreshed none = "already_running"
refreshed (some r) = if is_completed r.status then "already_completed" else "already_running"

-- An update of the run if it still meets the condition, and the claim by its rowcount.
unfoldable pub update_run : ℕ → (Run → Bool) → (Run → Run) → String → List Run → List Run × Claim
update_run id condition values refused rows = (
  update_where (λ r. with_id id r && condition r) values rows,
  if rowcount (λ r. with_id id r && condition r) rows == 1
      then record { run_id = id; acquired = true; status = "running" }
      else record { run_id = id; acquired = false; status = refused },
)

unfoldable pub claim_found : Run → String → ℕ → List Run → List Run × Claim
unfolding update_run
claim_found run owner now rows =
    if is_completed run.status
    then (rows, record { run_id = run.id; acquired = false; status = "already_completed" })
    else if renewable owner run
    then update_run run.id (renewable owner) (renewed now) (refreshed (find? (with_id run.id) rows))
        rows
    else if is_running run.status && not_before run.lease_expires_at now
    then (rows, record { run_id = run.id; acquired = false; status = "already_running" })
    else update_run run.id (reclaimable now) (taken_over owner now) "already_running" rows

-- The insert, or the run that the unique key has found in its way.
unfoldable pub insert_run : Option Run → String → String → ℕ → ℕ → List Run → List Run × Claim
unfolding claim_found
insert_run none key owner now id rows = (
  rows ++ new_run key owner now id ∷ [],
  record { run_id = id; acquired = true; status = "running" },
)
insert_run (some run) key owner now id rows = claim_found run owner now rows

unfoldable pub claim_run_key : Option Run → String → String → ℕ → ℕ → List Run → List Run × Claim
unfolding claim_found insert_run
claim_run_key (some run) key owner now id rows = claim_found run owner now rows
claim_run_key none key owner now id rows =
    insert_run (find? (λ r. str_eq r.run_key key) rows) key owner now id rows
