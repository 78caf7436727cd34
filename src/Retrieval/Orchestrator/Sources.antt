-- ===== src/Retrieval/Orchestrator/Sources.antt =====
-- retrieval/orchestrator.py, `run`: the sources of a claimed run, and the totals that complete it. The
-- sources are taken one after another, each with what the others do while it fetches.
use procuresignal.Prelude.{
  Bool, List, Option, String, [], any, if◌then◌else◌, min, none, some, str_eq, ℕ, ◌+◌, ◌-◌, ◌∷◌,
}
use procuresignal.Retrieval.Dedup.{Library, RawArticle}
use procuresignal.Retrieval.Orchestrator.{retrieve_source}
use procuresignal.Retrieval.Orchestrator.Outcomes.{Fetched, Job, SourceRetrievalResult, World}
use procuresignal.Retrieval.Orchestrator.Claim.{Claim, claim_run_key}
use procuresignal.Retrieval.RunLease.{Run, Counts, complete_run}

-- A source of the run with what happens to it.
pub record Step : Type 0 where
  pub job : Job
  pub answer : Fetched
  pub during_fetch : World → World
  pub after_commit : World → World

pub record RunResult : Type 0 where
  pub status : String
  pub run_id : ℕ
  pub source_results : List SourceRetrievalResult
  pub articles_fetched : ℕ
  pub articles_inserted : ℕ
  pub duplicates : ℕ
  pub errors : ℕ
  pub within_run_duplicates : ℕ
  pub database_duplicates : ℕ
  pub rejection_reasons : List (String × ℕ)
  pub response_bytes : ℕ
  pub next_poll_at : Option ℕ

-- sum(f(item) for item in results)
abbrev pub total : (SourceRetrievalResult → ℕ) → List SourceRetrievalResult → ℕ
total f [] = 0
total f (r ∷ results) = f r + total f results

abbrev pub has_status : String → SourceRetrievalResult → Bool
has_status status r = str_eq r.status status

abbrev pub sources_succeeded : RunResult → ℕ
sources_succeeded r = total (λ item. if has_status "completed" item then 1 else 0) r.source_results

abbrev pub sources_failed : RunResult → ℕ
sources_failed r = total (λ item. if has_status "failed" item then 1 else 0) r.source_results

-- reasons[code] = reasons.get(code, 0) + 1
abbrev pub add_reason : String → List (String × ℕ) → List (String × ℕ)
add_reason code [] = (code, 1) ∷ []
add_reason code ((c, n) ∷ reasons) =
    if str_eq c code then (c, n + 1) ∷ reasons else (c, n) ∷ add_reason code reasons

abbrev pub add_failure : Option String → List (String × ℕ) → List (String × ℕ)
add_failure none reasons = reasons
add_failure (some code) reasons = if str_eq code "" then reasons else add_reason code reasons

unfoldable pub reasons_of : List (String × ℕ) → List SourceRetrievalResult → List (String × ℕ)
reasons_of reasons [] = reasons
reasons_of reasons (r ∷ results) = reasons_of (add_failure r.failure_code reasons) results

-- {**reasons, key: value}
abbrev pub set_reason : String → ℕ → List (String × ℕ) → List (String × ℕ)
set_reason code n [] = (code, n) ∷ []
set_reason code n ((c, m) ∷ reasons) =
    if str_eq c code then (c, n) ∷ reasons else (c, m) ∷ set_reason code n reasons

abbrev pub earlier_of : Option ℕ → Option ℕ → Option ℕ
earlier_of none b = b
earlier_of (some a) none = some a
earlier_of (some a) (some b) = some (min a b)

-- min(…, default=None)
unfoldable pub earliest : List SourceRetrievalResult → Option ℕ
earliest [] = none
earliest (r ∷ results) = earlier_of r.next_poll_at (earliest results)

module _ (lib : Library String) (raises : RawArticle String → Bool) where
  unfoldable pub gather : ℕ → String → List Step → World → World × List SourceRetrievalResult
  gather id owner [] w = (w, [])
  gather id owner (s ∷ steps) w =
      let (w', r) =
        retrieve_source lib raises (record s.job { run_id = id; owner = owner }) s.during_fetch
          s.after_commit s.answer w in
      let (w'', results) = gather id owner steps w' in (w'', r ∷ results)

abbrev pub totals : String → ℕ → List SourceRetrievalResult → RunResult
totals status id results = record {
  status = status;
  run_id = id;
  source_results = results;
  articles_fetched = total (λ r. r.fetched) results;
  articles_inserted = total (λ r. r.inserted) results;
  duplicates =
      total (λ r. r.within_run_duplicates) results + total (λ r. r.database_duplicates) results;
  errors = total (λ r. r.errors) results;
  within_run_duplicates = total (λ r. r.within_run_duplicates) results;
  database_duplicates = total (λ r. r.database_duplicates) results;
  rejection_reasons = reasons_of [] results;
  response_bytes = 0;
  next_poll_at = none;
}

-- The counters that `complete_run` is given.
abbrev pub run_counted : RunResult → Counts → Counts
run_counted r c = record c {
  fetched = r.articles_fetched;
  accepted = r.articles_fetched - r.within_run_duplicates;
  inserted = r.articles_inserted;
  duplicate = r.duplicates;
  failures = r.errors;
}

-- `run` once it has gathered its results: a lost lease of a source loses the run, and the run's own
-- lease may be over.
unfoldable pub finish_run : ℕ → String → ℕ → List SourceRetrievalResult → World → World × RunResult
finish_run id owner now results w =
    let lost = totals "lease_lost" id results in
    let done = totals "completed" id results in
    let (runs, completed) = complete_run id owner now (run_counted done) w.runs in
    if any (has_status "lease_lost") results
    then (w, lost)
    else if completed
    then (
      record w { runs = runs },
      record done {
        response_bytes = total (λ r. r.response_bytes) results;
        next_poll_at = earliest results;
      },
    )
    else (
      record w { runs = runs },
      record lost {
        errors = lost.errors + 1;
        rejection_reasons = set_reason "lease_lost" 1 lost.rejection_reasons;
      },
    )

-- The result of a run that was not acquired.
abbrev pub refused : Claim → RunResult
refused claim = record (totals claim.status claim.run_id []) { rejection_reasons = [] }

-- `run` of a key. The claim's arguments are those of `claim_run_key`, and `finish` is the time of
-- the completion.
unfoldable pub run :
    Library String
    → (RawArticle String → Bool)
    → Option Run
    → String
    → String
    → ℕ
    → ℕ
    → ℕ
    → List Step
    → World
    → World × RunResult
unfolding gather finish_run claim_run_key
run lib raises seen key owner now id finish steps w =
    let (runs, claim) = claim_run_key seen key owner now id w.runs in
    let claimed = record w { runs = runs } in
    let (w', results) = gather lib raises claim.run_id owner steps claimed in
    if claim.acquired
    then finish_run claim.run_id owner finish results w'
    else (claimed, refused claim)
