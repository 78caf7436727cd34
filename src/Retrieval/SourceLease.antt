-- ===== src/Retrieval/SourceLease.antt =====
-- shared/procuresignal/retrieval/audit.py: the outcome of each source in a run, leased to one worker.
-- `claim_source` reads the row before it updates it, so what it has `seen` may be stale; `locked`
-- tells that SQLite refused the takeover. A row is told by its unique pair of run and source, where
-- the source also uses its primary key. `complete_source` is given counters by its caller: an
-- update of `Counts`. Its `commit` flag, which leaves the commit to the caller, is not modelled.
pub mod Detail
pub mod Laws
pub mod Calls
pub mod Settled
pub mod Held
pub mod Exclusive
mod Tests
use procuresignal.Prelude.{
  Bool, List, Option, String, [], false, if◌then◌else◌, is_some, none, some, str_eq, true, ℕ, ◌&&◌,
  ◌++◌, ◌+◌, ◌==◌, ◌∷◌,
}
use procuresignal.Prelude.Table.{before, find?, not_before, owned_by, rowcount, update_where}
use procuresignal.Retrieval.Circuit.{lease_duration}
use procuresignal.Retrieval.SourceLease.Detail.{safe_detail}

pub data Status : Type 0 where
  running completed failed : Status

pub record Counts : Type 0 where
  pub fetched : ℕ
  pub accepted : ℕ
  pub inserted : ℕ
  pub duplicate : ℕ
  pub within_run_duplicate : ℕ
  pub database_duplicate : ℕ
  pub rejected : ℕ
  pub failures : ℕ
  pub response_bytes : ℕ

abbrev pub no_counts : Counts
no_counts = record {
  fetched = 0;
  accepted = 0;
  inserted = 0;
  duplicate = 0;
  within_run_duplicate = 0;
  database_duplicate = 0;
  rejected = 0;
  failures = 0;
  response_bytes = 0;
}

pub record Outcome : Type 0 where
  pub run_id : ℕ
  pub source_id : String
  pub status : Status
  pub attempted_count : ℕ
  pub counts : Counts
  pub started_at : Option ℕ
  pub finished_at : Option ℕ
  pub failure_code : Option String
  pub outcome_detail : Option String
  pub lease_owner : Option String
  pub lease_expires_at : Option ℕ

abbrev pub Key : Type 0
Key = ℕ × String

abbrev pub same_key : Key → Key → Bool
same_key (a, s) (b, t) = (a == b) && str_eq s t

abbrev pub key_of : Outcome → Key
key_of o = (o.run_id, o.source_id)

abbrev pub with_key : Key → Outcome → Bool
with_key k o = same_key (key_of o) k

abbrev pub outcome_of : Key → List Outcome → Option Outcome
outcome_of k rows = find? (with_key k) rows

abbrev pub is_running : Status → Bool
is_running running = true
is_running _ = false

-- The test of `claim_source` on the row that it has read.
abbrev pub is_mine : String → ℕ → Option Outcome → Bool
is_mine owner now none = false
is_mine owner now (some o) =
    is_running o.status && owned_by o.lease_owner owner && not_before o.lease_expires_at now

-- The WHERE and SET clauses of the renewal, and of the takeover of an expired lease.
abbrev pub renewable : String → Outcome → Bool
renewable owner o = is_running o.status && owned_by o.lease_owner owner

abbrev pub renewed : ℕ → Outcome → Outcome
renewed now o = record o {
  lease_expires_at = some (now + lease_duration);
  attempted_count = o.attempted_count + 1;
}

abbrev pub expired : ℕ → Outcome → Bool
expired now o = is_running o.status && before o.lease_expires_at now

abbrev pub taken_over : String → ℕ → Outcome → Outcome
taken_over owner now o = record o {
  lease_owner = some owner;
  lease_expires_at = some (now + lease_duration);
  started_at = some now;
  attempted_count = o.attempted_count + 1;
}

abbrev pub new_outcome : Key → String → ℕ → Outcome
new_outcome (run, source) owner now = record {
  run_id = run;
  source_id = source;
  status = running;
  attempted_count = 1;
  counts = no_counts;
  started_at = some now;
  finished_at = none;
  failure_code = none;
  outcome_detail = none;
  lease_owner = some owner;
  lease_expires_at = some (now + lease_duration);
}

-- The insert, which the unique constraint may refuse.
abbrev pub insert_outcome : Key → String → ℕ → List Outcome → List Outcome × Bool
insert_outcome k owner now rows =
    if is_some (outcome_of k rows)
    then (rows, false)
    else (rows ++ new_outcome k owner now ∷ [], true)

unfoldable pub claim_seen :
    Bool → Option Outcome → Key → String → ℕ → List Outcome → List Outcome × Bool
claim_seen locked seen k owner now rows =
    if is_mine owner now seen
    then (
      update_where (λ o. with_key k o && renewable owner o) (renewed now) rows,
      rowcount (λ o. with_key k o && renewable owner o) rows == 1,
    )
    else if locked
    then (rows, false)
    else if rowcount (λ o. with_key k o && expired now o) rows == 1
    then (update_where (λ o. with_key k o && expired now o) (taken_over owner now) rows, true)
    else insert_outcome k owner now rows

unfoldable pub claim_source : Bool → Key → String → ℕ → List Outcome → List Outcome × Bool
unfolding claim_seen
claim_source locked k owner now rows = claim_seen locked (outcome_of k rows) k owner now rows

-- The WHERE clause of `_update_source`
abbrev pub held : String → ℕ → Outcome → Bool
held owner now o =
    is_running o.status && owned_by o.lease_owner owner && not_before o.lease_expires_at now

unfoldable pub update_source :
    Key → String → ℕ → (Outcome → Outcome) → List Outcome → List Outcome × Bool
update_source k owner now values rows = (
  update_where (λ o. with_key k o && held owner now o) values rows,
  rowcount (λ o. with_key k o && held owner now o) rows == 1,
)

abbrev pub completed_with : ℕ → (Counts → Counts) → Outcome → Outcome
completed_with now counted o = record o {
  status = completed;
  finished_at = some now;
  lease_owner = none;
  lease_expires_at = none;
  counts = counted o.counts;
}

unfoldable pub complete_source :
    Key → String → ℕ → (Counts → Counts) → List Outcome → List Outcome × Bool
unfolding update_source
complete_source k owner now counted rows =
    update_source k owner now (completed_with now counted) rows

abbrev pub failed_with : ℕ → String → Option String → ℕ → Outcome → Outcome
failed_with now code detail bytes o = record o {
  status = failed;
  counts = record o.counts { failures = 1; response_bytes = bytes };
  failure_code = some code;
  outcome_detail = detail;
  finished_at = some now;
  lease_owner = none;
  lease_expires_at = none;
}

unfoldable pub fail_source :
    Key → String → String → Option String → ℕ → ℕ → List Outcome → List Outcome × Bool
unfolding update_source
fail_source k owner code detail now bytes rows =
    update_source k owner now (failed_with now code (safe_detail detail) bytes) rows
