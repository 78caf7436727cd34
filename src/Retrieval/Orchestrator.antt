-- ===== src/Retrieval/Orchestrator.antt =====
-- shared/procuresignal/retrieval/orchestrator.py: a run of all enabled sources.
-- A `World` is the database that the workers share. `_source` is a sequence of statements, and what
-- other workers and the other sources of the run do in between is a function of the model's caller:
-- `during_fetch` until the answer is there, and `after_commit`. From the fence to the commit the
-- worker holds the run's row, so that part is one step, undone as a whole by a rollback. What a
-- provider fetches is `Fetched`; times are seconds, and latency is not modelled.
pub mod Outcomes
pub mod Claim
pub mod Granted
pub mod Claimed
pub mod Sources
pub mod Rows
pub mod Balance
pub mod Totals
pub mod Stale
mod Tests
use procuresignal.Prelude.{
  Bool, List, Option, String, [], any, false, if◌then◌else◌, is_empty, is_some, length, map, none,
  some, str_eq, true, ℕ, ◌&&◌, ◌+◌, ◌*◌, ◌-◌, ◌∷◌, min,
}
use procuresignal.Prelude.Table.{rowcount}
use procuresignal.Retrieval.Circuit.{
  Circuit, CircuitState, circuit_state, closed, record_circuit_failure, record_circuit_success,
}
use procuresignal.Retrieval.Dedup.{Library, RawArticle, deduplicate_within_run, or_text}
use procuresignal.Retrieval.Persistence.{NewsArticleRaw, Saved, save_articles}
use procuresignal.Retrieval.RunLease.{Run, complete_run, fence_run}
use procuresignal.Retrieval.RunLease.{Counts as RunCounts}
use procuresignal.Retrieval.SourceLease.{
  Counts, Key, Outcome, claim_source, complete_source, fail_source, outcome_of,
}
use procuresignal.Retrieval.SourceLease.{Status, completed, failed, running}
use procuresignal.Retrieval.Orchestrator.Outcomes.{
  World, Fetched, SourceRetrievalResult, blank_result, lost_result, stamped, failure_code_of, Job,
  job_key, next_poll, already, counted, answered, fetch_error, connection_error, other_error,
}

module _ (lib : Library String) (raises : RawArticle String → Bool) (job : Job) where
  open job use {definition, fence, owner, run_id, settle, start, stop, version}

  abbrev pub source : String
  source = definition.source_id

  -- From the fence to the commit: the world that is committed and what was saved, or none for a
  -- rollback.
  unfoldable pub store_articles : List (RawArticle String) → ℕ → World → Option (World × Saved)
  store_articles articles bytes w =
      let deduped = deduplicate_within_run lib articles in
      let (rows, saved) = save_articles lib.sha256 raises settle deduped.0 w.articles in
      let (outcomes, done) =
        complete_source (job_key job) owner settle
          (counted (length articles) (length deduped.0) deduped.1 saved bytes) w.outcomes in
      if fence_run run_id owner fence w.runs && done
      then some (record w { articles = rows; outcomes = outcomes }, saved)
      else none

  abbrev pub completed_result :
      List (RawArticle String) → ℕ → Saved → List Circuit → SourceRetrievalResult
  completed_result articles bytes saved circuits = record {
    source_id = source;
    status = "completed";
    fetched = length articles;
    inserted = saved.inserted;
    within_run_duplicates = (deduplicate_within_run lib articles).1;
    database_duplicates = saved.duplicates;
    errors = saved.errors;
    failure_code = none;
    response_bytes = bytes;
    circuit_state = circuit_state source stop circuits;
    next_poll_at = next_poll job;
  }

  -- After the commit, the circuit is told of the success.
  unfoldable pub finish :
      (World → World)
      → List (RawArticle String)
      → ℕ
      → World
      → Option (World × Saved)
      → World × SourceRetrievalResult
  finish after_commit articles bytes w none = (w, lost_result source)
  finish after_commit articles bytes w (some (stored, saved)) =
      let later = after_commit stored in
      let circuits = (record_circuit_success source owner later.circuits).0 in
      (record later { circuits = circuits }, completed_result articles bytes saved circuits)

  -- The failure path: only a parser's failure counts against the circuit, since the fetcher has
  -- recorded its own.
  unfoldable pub fail_with : String → ℕ → World → World × SourceRetrievalResult
  fail_with code bytes w =
      let circuits =
        if str_eq code "parser_error"
        then record_circuit_failure source settle w.circuits
        else w.circuits in
      (
        record w {
          circuits = circuits;
          outcomes = (fail_source (job_key job) owner code none settle bytes w.outcomes).0;
        },
        record (blank_result source "failed") {
          errors = 1;
          failure_code = some code;
          response_bytes = bytes;
          circuit_state = circuit_state source stop circuits;
          next_poll_at = next_poll job;
        },
      )

  unfoldable pub settle_source : (World → World) → Fetched → World → World × SourceRetrievalResult
  unfolding store_articles finish fail_with
  settle_source after_commit (answered articles bytes) w =
      let ready = map (stamped definition version job.retrieved) articles in
      finish after_commit ready bytes w (store_articles ready bytes w)
  settle_source after_commit (fetch_error code bytes) w = fail_with (failure_code_of code) bytes w
  settle_source after_commit connection_error w = fail_with "network_error" 0 w
  settle_source after_commit other_error w = fail_with "parser_error" 0 w

  unfoldable pub retrieve_source :
      (World → World) → (World → World) → Fetched → World → World × SourceRetrievalResult
  unfolding settle_source
  retrieve_source during_fetch after_commit answer w =
      let (outcomes, claimed) = claim_source job.locked (job_key job) owner start w.outcomes in
      let seen = record w { outcomes = outcomes } in
      if claimed
      then settle_source after_commit answer (during_fetch seen)
      else (seen, already job (outcome_of (job_key job) outcomes))
