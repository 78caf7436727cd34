-- ===== src/Retrieval/RunLease.antt =====
-- shared/procuresignal/retrieval/audit.py: retrieval runs, each leased to one worker at a time.
-- The table is the list of its rows. `claim_run` reads a candidate and then updates it by a
-- statement that repeats the conditions, so the table may change in between: `claim_candidate` is
-- that statement, at any candidate. A time is a number of seconds. `complete_run` is given column
-- values by its caller; of these the counters are modelled, as an update of `Counts`.
pub mod Laws
pub mod Held
pub mod Exclusive
pub mod Oldest
mod Tests
use procuresignal.Prelude.{
  Bool, List, Option, String, [], false, if◌then◌else◌, ltb, none, not, some, true, ℕ, ◌&&◌, ◌+◌,
  ◌==◌, ◌||◌, ◌∷◌,
}
use procuresignal.Prelude.Table.{before, find?, not_before, owned_by, rowcount, update_where}
use procuresignal.Retrieval.Circuit.{lease_duration}

pub data Status : Type 0 where
  pending running completed failed : Status

pub record Counts : Type 0 where
  pub fetched : ℕ
  pub accepted : ℕ
  pub inserted : ℕ
  pub duplicate : ℕ
  pub rejected : ℕ
  pub failures : ℕ

pub record Run : Type 0 where
  pub id : ℕ
  pub run_key : String
  pub status : Status
  pub lease_owner : Option String
  pub lease_expires_at : Option ℕ
  pub attempted_count : ℕ
  pub counts : Counts
  pub started_at : ℕ
  pub finished_at : Option ℕ

abbrev pub is_pending : Status → Bool
is_pending pending = true
is_pending _ = false

abbrev pub is_running : Status → Bool
is_running running = true
is_running _ = false

-- The WHERE clause of `run_candidate_statement`
abbrev pub claimable : ℕ → Run → Bool
claimable now r = is_pending r.status || (is_running r.status && before r.lease_expires_at now)

-- ORDER BY started_at, id
abbrev pub comes_before : Run → Run → Bool
comes_before a b = ltb a.started_at b.started_at || (a.started_at == b.started_at && ltb a.id b.id)

abbrev pub better_of : Run → Option Run → Run
better_of r none = r
better_of r (some b) = if comes_before r b then r else b

-- LIMIT 1 of the ordered candidates. `skip` tells the rows that another transaction has locked,
-- none of them without SKIP LOCKED.
unfoldable pub first_candidate : (ℕ → Bool) → ℕ → Option Run → List Run → Option Run
first_candidate skip now best [] = best
first_candidate skip now best (r ∷ rows) =
    first_candidate skip now
      (if claimable now r && not (skip r.id) then some (better_of r best) else best) rows

abbrev pub with_id : ℕ → Run → Bool
with_id run r = r.id == run

-- The SET clause of `claim_run`
abbrev pub leased : String → ℕ → Run → Run
leased owner now r = record r {
  status = running;
  lease_owner = some owner;
  lease_expires_at = some (now + lease_duration);
  attempted_count = r.attempted_count + 1;
}

-- The update of `claim_run`: the table, and the run if one row matched.
unfoldable pub claim_candidate : ℕ → String → ℕ → List Run → List Run × Option Run
claim_candidate run owner now rows =
    let rows' = update_where (λ r. with_id run r && claimable now r) (leased owner now) rows in
    if rowcount (λ r. with_id run r && claimable now r) rows == 1
    then (rows', find? (with_id run) rows')
    else (rows, none)

-- `claim_run`: `skip` are the rows that SKIP LOCKED passes over, and `between` is what other workers
-- do to the table between the select and the update.
unfoldable pub claim_run :
    (ℕ → Bool) → (List Run → List Run) → String → ℕ → List Run → List Run × Option Run
unfolding first_candidate claim_candidate
claim_run skip between owner now rows = elim (first_candidate skip now none rows) [
  | none ↦ (between rows, none)
  | some r ↦ claim_candidate r.id owner now (between rows)
]

-- The WHERE clause of `fence_run` and of `complete_run`
abbrev pub held : ℕ → String → ℕ → Run → Bool
held run owner now r =
    with_id run r
    && (is_running r.status && owned_by r.lease_owner owner && not_before r.lease_expires_at now)

unfoldable pub fence_run : ℕ → String → ℕ → List Run → Bool
fence_run run owner now rows = rowcount (held run owner now) rows == 1

abbrev pub finished : ℕ → (Counts → Counts) → Run → Run
finished now counted r = record r {
  status = completed;
  finished_at = some now;
  lease_owner = none;
  lease_expires_at = none;
  counts = counted r.counts;
}

unfoldable pub complete_run : ℕ → String → ℕ → (Counts → Counts) → List Run → List Run × Bool
complete_run run owner now counted rows = (
  update_where (held run owner now) (finished now counted) rows,
  rowcount (held run owner now) rows == 1,
)
