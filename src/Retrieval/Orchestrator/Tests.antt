-- ===== src/Retrieval/Orchestrator/Tests.antt =====
-- A run of two sources: one with a reprint among its articles, and one that fails.
use procuresignal.Prelude.{
  List, String, [], arith, eq_iff, false, none, refl, some, ℕ, ◌+◌, ◌∷◌, ◌≡◌,
}
use procuresignal.Retrieval.Circuit.{lease_duration}
use procuresignal.Retrieval.Dedup.{article_fingerprint, deduplicate_within_run}
use procuresignal.Retrieval.Dedup.Samples.{official, plain, reprint}
use procuresignal.Retrieval.Orchestrator.{retrieve_source}
use procuresignal.Retrieval.Orchestrator.Outcomes.{
  Fetched, Job, SourceDefinition, World, answered, fetch_error, stamped,
}
use procuresignal.Retrieval.Orchestrator.Claim.{claim_run_key, new_run}
use procuresignal.Retrieval.Orchestrator.Claimed.{claims_exclude}
use procuresignal.Retrieval.Orchestrator.Sources.{RunResult, Step, run, sources_failed}
use procuresignal.Retrieval.Orchestrator.Stale.{stale_worker_stores_nothing}
use procuresignal.Retrieval.Orchestrator.Totals.{run-Conserves}
use procuresignal.Retrieval.Persistence.{save_articles}
use procuresignal.Retrieval.RunLease.{Run, complete_run, fence_run}
use procuresignal.Retrieval.RunLease.Laws.{IsLeased, run_of}
use procuresignal.Retrieval.SourceLease.{claim_source, complete_source}

abbrev empty : World
empty = record { runs = []; outcomes = []; circuits = []; articles = [] }

abbrev defined : String → SourceDefinition
defined source = record {
  source_id = source;
  source_class = "official";
  domains = "regulation";
  countries = "eu";
  poll_minutes = 60;
}

abbrev job : String → ℕ → Job
job source start = record {
  run_id = 7;
  owner = "w1";
  definition = defined source;
  version = "v1";
  locked = false;
  start = start;
  retrieved = "2025-01-02T00:00:00";
  fence = start + 5;
  settle = start + 6;
  stop = start + 7;
}

abbrev step : String → Fetched → Step
step source answer = record {
  job = job source 10;
  answer = answer;
  during_fetch = λ w. w;
  after_commit = λ w. w;
}

abbrev steps : List Step
steps =
    step "ted" (answered (reprint ∷ official ∷ []) 900)
    ∷ step "ecb" (fetch_error (some "http_status") 0)
    ∷ []

abbrev done : RunResult
unfolding run
done = (run plain (λ a. false) none "daily" "w1" 5 7 90 steps empty).1

done_totals :
    (done.status ≡ "completed")
    × (done.articles_fetched ≡ 2)
    × (done.articles_inserted ≡ 1)
    × (done.duplicates ≡ 1)
    × (done.errors ≡ 1)
    × (sources_failed done ≡ 1)
unfolding done run retrieve_source claim_source fence_run complete_source complete_run save_articles
    deduplicate_within_run article_fingerprint stamped
done_totals = (refl, refl, refl, refl, refl, refl)

run-Conserves_example :
    done.articles_fetched + sources_failed done
    ≡ done.articles_inserted + done.duplicates + done.errors
unfolding done run retrieve_source claim_source fence_run complete_source complete_run save_articles
    deduplicate_within_run article_fingerprint stamped
run-Conserves_example =
    run-Conserves plain (λ a. false) none "daily" "w1" 5 7 90 steps empty
      (((λ v h. h), (λ v h. h)), (((λ v h. h), (λ v h. h)), tt)) tt refl

abbrev claimed : List Run
claimed = new_run "daily" "w1" 5 7 ∷ []

claims_exclude_example :
    IsLeased "w1" (5 + lease_duration) (run_of 7 claimed)
    × ((claim_run_key none "daily" "w2" 100 8 claimed).1.acquired ≡ false)
    × ((claim_run_key none "daily" "w2" 100 8 claimed).0 ≡ claimed)
unfolding claim_run_key
claims_exclude_example =
    claims_exclude "w1" "w2" 5 100 [] claimed none none "daily" "daily" "running" 7 8 7 tt refl refl
      refl (λ e. ground (arith, eq_iff "w1" "w2", e)) (omega arith) refl

abbrev stolen : World → World
stolen w = record w { runs = new_run "daily" "w2" 20 7 ∷ [] }

stale_worker_stores_nothing_example :
    (retrieve_source plain
      (λ a. false)
      (job "ted" 10)
      stolen
      (λ w. w)
      (answered (official ∷ []) 9)
      empty).0.articles
    ≡ []
unfolding claim_source
stale_worker_stores_nothing_example =
    stale_worker_stores_nothing plain (λ a. false) (job "ted" 10) stolen (λ w. w)
      (answered (official ∷ []) 9) empty "w2" (20 + lease_duration) (refl, tt) (refl, refl, refl)
      (λ e. ground (arith, eq_iff "w2" "w1", e))
