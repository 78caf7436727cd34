-- ===== src/Retrieval/Orchestrator/Outcomes.antt =====
-- shared/procuresignal/retrieval/orchestrator.py: the results of sources, and what makes them.
use procuresignal.Prelude.{
  Bool, List, Option, String, if◌then◌else◌, none, some, str_eq, ℕ, ◌+◌, ◌*◌,
}
use procuresignal.Retrieval.Circuit.{Circuit, CircuitState, closed}
use procuresignal.Retrieval.Dedup.{RawArticle}
use procuresignal.Retrieval.Persistence.{NewsArticleRaw, Saved}
use procuresignal.Retrieval.RunLease.{Run}
use procuresignal.Retrieval.SourceLease.{Counts, Key, Outcome}
use procuresignal.Retrieval.SourceLease.{Status, completed, failed, running}

pub record World : Type 0 where
  pub runs : List Run
  pub outcomes : List Outcome
  pub circuits : List Circuit
  pub articles : List NewsArticleRaw

pub record SourceDefinition : Type 0 where
  pub source_id : String
  pub source_class : String
  pub domains : String
  pub countries : String
  pub poll_minutes : ℕ

-- The articles of a provider and the bytes it read, or the exception it raised: a
-- RetrievalFetchError with its result, a TimeoutError or ConnectionError, or another.
pub data Fetched : Type 0 where
  answered : (articles : List (RawArticle String)) (bytes : ℕ) → Fetched
  fetch_error : (code : Option String) (bytes : ℕ) → Fetched
  connection_error : Fetched
  other_error : Fetched

pub record SourceRetrievalResult : Type 0 where
  pub source_id : String
  pub status : String
  pub fetched : ℕ
  pub inserted : ℕ
  pub within_run_duplicates : ℕ
  pub database_duplicates : ℕ
  pub errors : ℕ
  pub failure_code : Option String
  pub response_bytes : ℕ
  pub circuit_state : CircuitState
  pub next_poll_at : Option ℕ

-- The dataclass's defaults
abbrev pub blank_result : String → String → SourceRetrievalResult
blank_result source status = record {
  source_id = source;
  status = status;
  fetched = 0;
  inserted = 0;
  within_run_duplicates = 0;
  database_duplicates = 0;
  errors = 0;
  failure_code = none;
  response_bytes = 0;
  circuit_state = closed;
  next_poll_at = none;
}

abbrev pub lost_result : String → SourceRetrievalResult
lost_result source = record (blank_result source "lease_lost") {
  errors = 1;
  failure_code = some "lease_lost";
}

abbrev pub status_text : Status → String
status_text running = "running"
status_text completed = "completed"
status_text failed = "failed"

-- a or b, of an optional text
abbrev pub or_some : Option String → String → Option String
or_some none b = some b
or_some (some a) b = if str_eq a "" then some b else some a

abbrev pub or_time : Option String → String → Option String
or_time none b = some b
or_time (some a) b = some a

abbrev pub or_joined : String → String → String
or_joined a b = if str_eq a "" then b else a

-- What an article lacks is taken from its source.
unfoldable pub stamped : SourceDefinition → String → String → RawArticle String → RawArticle String
stamped definition version now a = record a {
  source_id = or_some a.source_id definition.source_id;
  source_class = or_some a.source_class definition.source_class;
  source_domains = or_joined a.source_domains definition.domains;
  source_countries = or_joined a.source_countries definition.countries;
  registry_version = or_some a.registry_version version;
  retrieved_at = or_time a.retrieved_at now;
}

-- The failure code of an exception
abbrev pub failure_code_of : Option String → String
failure_code_of none = "network_error"
failure_code_of (some code) = code

-- What one call of `_source` is given: its run and source, and the times of its statements.
pub record Job : Type 0 where
  pub run_id : ℕ
  pub owner : String
  pub definition : SourceDefinition
  pub version : String
  pub locked : Bool
  pub start : ℕ
  pub retrieved : String
  pub fence : ℕ
  pub settle : ℕ
  pub stop : ℕ

abbrev pub job_key : Job → Key
job_key job = (job.run_id, job.definition.source_id)

abbrev pub next_poll : Job → Option ℕ
next_poll job = some (job.start + job.definition.poll_minutes * 60)

-- The answer for a source that another claim has: its outcome, if that is settled.
unfoldable pub settled_result : Job → Status → Outcome → SourceRetrievalResult
settled_result job running o = blank_result job.definition.source_id "already_claimed"
settled_result job status o = record {
  source_id = job.definition.source_id;
  status = status_text status;
  fetched = o.counts.fetched;
  inserted = o.counts.inserted;
  within_run_duplicates = o.counts.within_run_duplicate;
  database_duplicates = o.counts.database_duplicate;
  errors = o.counts.failures;
  failure_code = o.failure_code;
  response_bytes = o.counts.response_bytes;
  circuit_state = closed;
  next_poll_at = next_poll job;
}

unfoldable pub already : Job → Option Outcome → SourceRetrievalResult
unfolding settled_result
already job none = blank_result job.definition.source_id "already_claimed"
already job (some o) = settled_result job o.status o

-- The counters that `complete_source` is given.
abbrev pub counted : ℕ → ℕ → ℕ → Saved → ℕ → Counts → Counts
counted fetched retained duplicates saved bytes c = record c {
  fetched = fetched;
  accepted = retained;
  inserted = saved.inserted;
  duplicate = saved.duplicates + duplicates;
  within_run_duplicate = duplicates;
  database_duplicate = saved.duplicates;
  response_bytes = bytes;
  failures = saved.errors;
}
