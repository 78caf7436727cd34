-- ===== src/Enrichment/Pipeline/Whole.antt =====
-- enrichment/pipeline.py: `process_raw_articles` returns, and accounts for its whole batch.
use procuresignal.Prelude.{
  Bool, List, Option, [], any, arith, false, length, none, refl, some, true, ℕ, ◌&&◌, ◌+◌, ◌==◌,
  ◌||◌, ◌∷◌, ◌≡◌, ◌≤◌,
}
use procuresignal.Enrichment.Cache.{Codec}
use procuresignal.Enrichment.Pipeline.{Models, RawRow, Setting, State}
use procuresignal.Enrichment.Pipeline.Cascade.{process_all}
use procuresignal.Enrichment.Pipeline.Batch.{AllHaveScores, process_all-IsCounted}
use procuresignal.Enrichment.Pipeline.Counts.{Gives, Gives->>=, IsCounted, counted_in, with_output}
use procuresignal.Enrichment.Pipeline.Filter.{
  Tables, begun, is_unavailable, process_raw_articles, processed_ids, select,
}
use procuresignal.Enrichment.Policy.{Limits, RunBudget, accepted, new_budget}

length-select :
    (unavailable : ℕ → Bool) (seen : List ℕ) (raws : List RawRow)
    → length (select unavailable seen raws).0 + (select unavailable seen raws).1 ≡ length raws
unfolding select
length-select unavailable seen [] = refl
length-select unavailable seen (raw ∷ raws) =
    ground
      (arith, length-select unavailable seen raws, length-select unavailable (raw.id ∷ seen) raws)

-- The run's budget of an accepted policy.
abbrev IsFresh : Limits → RunBudget → Type 0
IsFresh policy b = (b.calls_reserved ≡ 0) × (b.max_calls ≡ policy.max_llm_calls)

IsFresh-new_budget :
    (policy : Limits)
    → accepted policy ≡ true
    → Gives (IsFresh policy) (new_budget policy.max_llm_calls policy.max_llm_tokens)
unfolding accepted new_budget
IsFresh-new_budget policy h =
    let positive : (policy.max_llm_calls == 0 || policy.max_llm_tokens == 0) ≡ false =
      ground (arith, h) in
    rw positive (refl, refl)

Gives-some : {A : Type 0} (P : A → Type 0) (o : Option A) → Gives P o → (a : A) × (o ≡ some a) × P a
Gives-some P none h = absurd h
Gives-some P (some a) h = (a, refl, h)

-- With an accepted policy and analyses whose scores are between 0 and 1, a batch returns. Each of its
-- articles, repeated ones included, is counted once: as enriched from the cache, by the analysis or
-- by the model, as skipped, deferred or failed, or as processed already. Those saved are the enriched
-- ones, and the model is called at most as often as the policy allows a run.
pub batch_counted :
    {Output Payload : Type 0} (codec : Codec Output Payload) (models : Models Output)
    (setting : Setting) (candidates : List RawRow) (t : Tables Output Payload)
    → accepted setting.policy ≡ true
    → AllHaveScores codec models setting setting.policy.max_llm_calls
    → (s : State Output Payload) × (process_raw_articles codec models setting candidates t ≡ some s)
      × (counted_in s.metrics + s.already_processed ≡ length candidates)
      × (s.saved ≡ with_output s.metrics)
      × (s.metrics.llm_calls ≤ setting.policy.max_llm_calls)
unfolding process_raw_articles
batch_counted codec models setting candidates t h scored =
    let unavailable : ℕ → Bool =
      λ id. any (λ r. (r.id == id) && is_unavailable setting.now setting.claim_owner r) t.raws in
    let (todo, already) = select unavailable (processed_ids t.processed) candidates in
    let most : ℕ = setting.policy.max_llm_calls in
    let (s, e, c) = Gives-some (IsCounted (already + length todo) most) _ (
      Gives->>= (IsFresh setting.policy) (IsCounted (already + length todo) most)
        (new_budget most setting.policy.max_llm_tokens)
        (λ budget.
          process_all codec models setting todo (begun codec models setting t budget already))
        (IsFresh-new_budget setting.policy h)
        (λ budget f.
          process_all-IsCounted codec models setting most already todo
            (begun codec models setting t budget already) scored
            (omega arith, refl, omega (arith, f.0), omega (arith, f.0), f.1))) in
    (
      s,
      e,
      omega (arith, c.0, length-select unavailable (processed_ids t.processed) candidates),
      c.1,
      omega (arith, c.2, c.3, c.4),
    )
