-- ===== src/Retrieval/Orchestrator/Totals.antt =====
-- retrieval/orchestrator.py: the totals of a completed run account for all that was fetched.
use procuresignal.Prelude.{
  true, Option, eq_iff, All, Bool, List, String, [], any, arith, false, if◌then◌else◌, refl, ℕ, ◌+◌,
  ◌∷◌, ◌≡◌,
}
use procuresignal.Retrieval.Orchestrator.Claim.{claim_run_key}
use procuresignal.Retrieval.Dedup.{Library, RawArticle}
use procuresignal.Retrieval.Orchestrator.{Run, retrieve_source}
use procuresignal.Retrieval.Orchestrator.Outcomes.{Job, SourceRetrievalResult, World}
use procuresignal.Retrieval.Orchestrator.Balance.{IsEven, retrieve_source-Even}
use procuresignal.Retrieval.Orchestrator.Rows.{IsBalanced}
use procuresignal.Retrieval.Orchestrator.Sources.{
  refused, run, RunResult, Step, finish_run, gather, has_status, sources_failed, total,
}

-- What others do leaves the outcomes balanced.
abbrev pub KeepsBalance : (World → World) → Type 0
KeepsBalance f = (v : World) → All IsBalanced v.outcomes → All IsBalanced (f v).outcomes

abbrev pub StepKeepsBalance : Step → Type 0
StepKeepsBalance s = KeepsBalance s.during_fetch × KeepsBalance s.after_commit

-- What was fetched, with one for each failed source, was inserted, is a duplicate or is an error.
abbrev pub Conserves : RunResult → Type 0
Conserves r = r.articles_fetched + sources_failed r ≡ r.articles_inserted + r.duplicates + r.errors

sums :
    (results : List SourceRetrievalResult)
    → All IsEven results
    → any (has_status "lease_lost") results ≡ false
    → total (λ r. r.fetched) results + total (λ r. if has_status "failed" r then 1 else 0) results
      ≡ total (λ r. r.inserted) results
        + total (λ r. r.within_run_duplicates) results
        + total (λ r. r.database_duplicates) results
        + total (λ r. r.errors) results
sums [] h kept = refl
sums (r ∷ results) (e, h) kept = ground (arith, e, sums results h, kept)

module _ (lib : Library String) (raises : RawArticle String → Bool) where
  gather-Even :
      (id : ℕ) (owner : String) (steps : List Step) (w : World)
      → All StepKeepsBalance steps
      → All IsBalanced w.outcomes
      → All IsEven (gather lib raises id owner steps w).1
  unfolding gather
  gather-Even id owner [] w keeps h = tt
  gather-Even id owner (s ∷ steps) w (keep, keeps) h =
      let job : Job = record s.job { run_id = id; owner = owner } in
      let r = retrieve_source lib raises job s.during_fetch s.after_commit s.answer w in
      let even =
        retrieve_source-Even lib raises job s.during_fetch s.after_commit s.answer w keep.0 keep.1
          h in
      (even.1, gather-Even id owner steps r.0 keeps even.0)

finish-Conserves :
    (id : ℕ) (owner : String) (now : ℕ) (results : List SourceRetrievalResult) (w : World)
    → All IsEven results
    → (finish_run id owner now results w).1.status ≡ "completed"
    → Conserves (finish_run id owner now results w).1
unfolding finish_run
finish-Conserves id owner now results w h c =
    ground (arith, sums results h, c, eq_iff "lease_lost" "completed")

by_acquired :
    (acquired : Bool) (held refused : World × RunResult)
    → (held.1.status ≡ "completed" → Conserves held.1)
    → Conserves refused.1
    → (if acquired then held else refused).1.status ≡ "completed"
    → Conserves (if acquired then held else refused).1
by_acquired true held refused h g c = h c
by_acquired false held refused h g c = g

-- If all stored outcomes add up, and what others do meanwhile leaves them so, then a run that reports
-- "completed" accounts for all that it fetched: with one for each failed source it is what was
-- inserted, was a duplicate within the run or in the database, or was an error. That holds also of
-- sources that an earlier attempt at the run had settled.
pub run-Conserves :
    (lib : Library String) (raises : RawArticle String → Bool) (seen : Option Run)
    (key owner : String) (now id finish : ℕ) (steps : List Step) (w : World)
    → All StepKeepsBalance steps
    → All IsBalanced w.outcomes
    → (run lib raises seen key owner now id finish steps w).1.status ≡ "completed"
    → Conserves (run lib raises seen key owner now id finish steps w).1
unfolding run
run-Conserves lib raises seen key owner now id finish steps w keeps h c =
    let (runs, claim) = claim_run_key seen key owner now id w.runs in
    let claimed = record w { runs = runs } in
    let (w', results) = gather lib raises claim.run_id owner steps claimed in
    by_acquired claim.acquired (finish_run claim.run_id owner finish results w')
      (claimed, refused claim)
      (finish-Conserves claim.run_id owner finish results w'
        (gather-Even lib raises claim.run_id owner steps claimed keeps h))
      refl c
