-- ===== src/Retrieval/Orchestrator/Stale.antt =====
-- retrieval/orchestrator.py: a worker that has lost the run stores no article.
use procuresignal.Prelude.{
  ◌≢◌, arith, eq_iff, if◌then◌else◌, String, Bool, List, false, map, none, refl, ℕ, ◌≡◌,
}
use procuresignal.Retrieval.RunLease.Laws.{HasDistinctIds, IsLeased, run_of, fence_run-IsLeased}
use procuresignal.Retrieval.SourceLease.{claim_source}
use procuresignal.Retrieval.Dedup.{Library, RawArticle}
use procuresignal.Retrieval.Orchestrator.{
  retrieve_source, fail_with, finish, settle_source, store_articles,
}
use procuresignal.Retrieval.Orchestrator.Outcomes.{
  job_key, Fetched, Job, World, answered, connection_error, fetch_error, other_error, stamped,
}
use procuresignal.Retrieval.RunLease.{fence_run}

module _ (lib : Library String) (raises : RawArticle String → Bool) (job : Job) where
  unfenced :
      (articles : List (RawArticle String)) (bytes : ℕ) (w : World)
      → fence_run job.run_id job.owner job.fence w.runs ≡ false
      → store_articles lib raises job articles bytes w ≡ none
  unfolding store_articles
  unfenced articles bytes w e = rw e refl

  settle-unfenced :
      (after_commit : World → World) (answer : Fetched) (w : World)
      → fence_run job.run_id job.owner job.fence w.runs ≡ false
      → (settle_source lib raises job after_commit answer w).0.articles ≡ w.articles
  unfolding settle_source fail_with
  settle-unfenced after_commit (answered articles bytes) w e =
      let ready = map (stamped job.definition job.version job.retrieved) articles in
      unfold finish in rw (unfenced ready bytes w e) refl
  settle-unfenced after_commit (fetch_error code bytes) w e = refl
  settle-unfenced after_commit connection_error w e = refl
  settle-unfenced after_commit other_error w e = refl

-- A worker whose run another worker holds, when its fetch is back, stores no article: the table is
-- what the others have left in it, whatever was fetched.
pub stale_worker_stores_nothing :
    (lib : Library String) (raises : RawArticle String → Bool) (job : Job)
    (during_fetch after_commit : World → World) (answer : Fetched) (w : World) (other : String)
    (until : ℕ)
    → let claim = claim_source job.locked (job_key job) job.owner job.start w.outcomes in
      let left : World = during_fetch (record w { outcomes = claim.0 }) in
      HasDistinctIds left.runs
      → IsLeased other until (run_of job.run_id left.runs)
      → other ≢ job.owner
      → (retrieve_source lib raises job during_fetch after_commit answer w).0.articles
        ≡ (if claim.1 then left.articles else w.articles)
unfolding retrieve_source
stale_worker_stores_nothing lib raises job during_fetch after_commit answer w other until d h
      differ =
    let claim = claim_source job.locked (job_key job) job.owner job.start w.outcomes in
    let left : World = during_fetch (record w { outcomes = claim.0 }) in
    ground (
      arith,
      settle-unfenced lib raises job after_commit answer left (
          ground (
            arith,
            fence_run-IsLeased job.run_id other until left.runs d job.fence job.owner h,
            eq_iff other job.owner,
            differ,
          )),
    )
