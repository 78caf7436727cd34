-- ===== src/Retrieval/Orchestrator/Balance.antt =====
-- retrieval/orchestrator.py: what is fetched is accounted for, in each outcome, each result and the
-- totals of a run.
use procuresignal.Prelude.{
  map, All, Bool, List, Option, String, arith, false, if◌then◌else◌, length, none, refl, some, true,
  ℕ, ◌+◌, ◌||◌, ◌≡◌,
}
use procuresignal.Prelude.Keyed.{OnRow}
use procuresignal.Retrieval.Persistence.{NewsArticleRaw, Saved, save_articles}
use procuresignal.Retrieval.Persistence.Laws.{save_articles-count_of}
use procuresignal.Retrieval.Dedup.Counts.{deduplicate-counts}
use procuresignal.Retrieval.Dedup.{Library, RawArticle, deduplicate_within_run}
use procuresignal.Retrieval.Orchestrator.{
  fail_with, finish, retrieve_source, settle_source, store_articles,
}
use procuresignal.Retrieval.Orchestrator.Outcomes.{
  Fetched, Job, SourceRetrievalResult, World, already, answered, connection_error, counted,
  failure_code_of, fetch_error, job_key, other_error, settled_result, stamped,
}
use procuresignal.Retrieval.Orchestrator.Sources.{has_status}
use procuresignal.Retrieval.SourceLease.{
  Outcome, Status, claim_source, completed, failed, outcome_of, running, with_key,
}
use procuresignal.Retrieval.Orchestrator.Rows.{
  AddUp, IsBalanced, All-found, claim_source-IsBalanced, complete_source-IsBalanced,
  fail_source-IsBalanced,
}

-- A result has the same balance: a source that failed or lost its lease has one error for that.
abbrev pub IsEven : SourceRetrievalResult → Type 0
IsEven r =
    r.fetched + (if has_status "failed" r || has_status "lease_lost" r then 1 else 0)
    ≡ r.inserted + r.within_run_duplicates + r.database_duplicates + r.errors

settled-IsEven :
    (job : Job) (s : Status) (o : Outcome) → AddUp s o.counts → IsEven (settled_result job s o)
unfolding settled_result
settled-IsEven job running o b = refl
settled-IsEven job completed o b = omega (arith, b)
settled-IsEven job failed o b = omega (arith, b)

already-IsEven : (job : Job) (o : Option Outcome) → OnRow IsBalanced o → IsEven (already job o)
unfolding already
already-IsEven job none b = refl
already-IsEven job (some o) b = settled-IsEven job o.status o b

OnRow-if {ℓ} :
    {A : Type ℓ} (P : A → Type 0) (b : Bool) (x : A) → P x → OnRow P (if b then some x else none)
OnRow-if P true x h = h
OnRow-if P false x h = tt

module _ (lib : Library String) (raises : RawArticle String → Bool) (job : Job) where
  -- What one batch saved, with its duplicates, is what was fetched.
  abbrev Accounted : List (RawArticle String) → Saved → Type 0
  Accounted articles saved =
      length articles
      ≡ saved.inserted + (deduplicate_within_run lib articles).1 + saved.duplicates + saved.errors

  batch-Accounted :
      (articles : List (RawArticle String)) (rows : List NewsArticleRaw)
      → Accounted articles
          (save_articles lib.sha256 raises job.settle
            (deduplicate_within_run lib articles).0
            rows).1
  batch-Accounted articles rows = omega (
    arith,
    deduplicate-counts lib articles,
    save_articles-count_of lib.sha256 raises job.settle (deduplicate_within_run lib articles).0
        rows,
  )

  abbrev Stored : List (RawArticle String) → World × Saved → Type 0
  Stored articles r = All IsBalanced r.0.outcomes × Accounted articles r.1

  store-Stored :
      (articles : List (RawArticle String)) (bytes : ℕ) (w : World)
      → All IsBalanced w.outcomes
      → OnRow (Stored articles) (store_articles lib raises job articles bytes w)
  unfolding store_articles
  store-Stored articles bytes w h =
      let deduped = deduplicate_within_run lib articles in
      let saved = (save_articles lib.sha256 raises job.settle deduped.0 w.articles).1 in
      let even = batch-Accounted articles w.articles in
      OnRow-if (Stored articles) _ _ (
        complete_source-IsBalanced (job_key job) job.owner job.settle
            (counted (length articles) (length deduped.0) deduped.1 saved bytes) w.outcomes
            (λ c. even) h,
        even,
      )

  finish-Even :
      (after_commit : World → World) (articles : List (RawArticle String)) (bytes : ℕ) (w : World)
      (stored : Option (World × Saved))
      → ((v : World) → All IsBalanced v.outcomes → All IsBalanced (after_commit v).outcomes)
      → All IsBalanced w.outcomes
      → OnRow (Stored articles) stored
      → All IsBalanced (finish lib raises job after_commit articles bytes w stored).0.outcomes
        × IsEven (finish lib raises job after_commit articles bytes w stored).1
  unfolding finish
  finish-Even after_commit articles bytes w none keeps h g = (h, refl)
  finish-Even after_commit articles bytes w (some (v, saved)) keeps h g =
      (keeps v g.0, omega (arith, g.1))

  fail-Even :
      (code : String) (bytes : ℕ) (w : World)
      → All IsBalanced w.outcomes
      → All IsBalanced (fail_with lib raises job code bytes w).0.outcomes
        × IsEven (fail_with lib raises job code bytes w).1
  unfolding fail_with
  fail-Even code bytes w h =
      (fail_source-IsBalanced (job_key job) job.owner code none job.settle bytes w.outcomes h, refl)

  settle-Even :
      (after_commit : World → World) (answer : Fetched) (w : World)
      → ((v : World) → All IsBalanced v.outcomes → All IsBalanced (after_commit v).outcomes)
      → All IsBalanced w.outcomes
      → All IsBalanced (settle_source lib raises job after_commit answer w).0.outcomes
        × IsEven (settle_source lib raises job after_commit answer w).1
  unfolding settle_source
  settle-Even after_commit (answered articles bytes) w keeps h =
      let ready = map (stamped job.definition job.version job.retrieved) articles in
      finish-Even after_commit ready bytes w (store_articles lib raises job ready bytes w) keeps h
        (store-Stored ready bytes w h)
  settle-Even after_commit (fetch_error code bytes) w keeps h =
      fail-Even (failure_code_of code) bytes w h
  settle-Even after_commit connection_error w keeps h = fail-Even "network_error" 0 w h
  settle-Even after_commit other_error w keeps h = fail-Even "parser_error" 0 w h

  by_claim :
      (claimed : Bool) (won lost : World × SourceRetrievalResult)
      → All IsBalanced won.0.outcomes × IsEven won.1
      → All IsBalanced lost.0.outcomes × IsEven lost.1
      → let r = if claimed then won else lost in All IsBalanced r.0.outcomes × IsEven r.1
  by_claim true won lost h g = h
  by_claim false won lost h g = g

  pub retrieve_source-Even :
      (during_fetch after_commit : World → World) (answer : Fetched) (w : World)
      → ((v : World) → All IsBalanced v.outcomes → All IsBalanced (during_fetch v).outcomes)
      → ((v : World) → All IsBalanced v.outcomes → All IsBalanced (after_commit v).outcomes)
      → All IsBalanced w.outcomes
      → let r = retrieve_source lib raises job during_fetch after_commit answer w in
        All IsBalanced r.0.outcomes × IsEven r.1
  unfolding retrieve_source
  retrieve_source-Even during_fetch after_commit answer w keeps keeps' h =
      let claim = claim_source job.locked (job_key job) job.owner job.start w.outcomes in
      let seen = record w { outcomes = claim.0 } in
      let begun =
        claim_source-IsBalanced job.locked (job_key job) job.owner job.start w.outcomes h in
      by_claim claim.1 (settle_source lib raises job after_commit answer (during_fetch seen))
        (seen, already job (outcome_of (job_key job) claim.0))
        (settle-Even after_commit answer (during_fetch seen) keeps' (keeps seen begun))
        (
          begun,
          already-IsEven job (outcome_of (job_key job) claim.0)
              (All-found (with_key (job_key job)) claim.0 begun),
        )
