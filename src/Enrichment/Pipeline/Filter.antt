-- ===== src/Enrichment/Pipeline/Filter.antt =====
-- enrichment/pipeline.py: which articles of a batch are processed, and `process_raw_articles`.
use procuresignal.Prelude.{
  Bool, List, Option, String, [], any, false, if◌then◌else◌, none, not, some, str_eq, ℕ, ◌&&◌, ◌+◌,
  ◌==◌, ◌||◌, ◌∷◌, ◌>>=◌,
}
use procuresignal.Prelude.Table.{after}
use procuresignal.Enrichment.Budget.{Spend}
use procuresignal.Enrichment.Cache.{Codec, Entry}
use procuresignal.Enrichment.Pipeline.{
  Metrics, Models, Processed, RawRow, Setting, State, no_metrics,
}
use procuresignal.Enrichment.Pipeline.Cascade.{process_all}
use procuresignal.Enrichment.Policy.{RunBudget, new_budget}

-- SQL's owner != claim_owner, which is IS NOT NULL without a claim.
abbrev pub other_owner : Option String → Option String → Bool
other_owner none claim = false
other_owner (some owner) none = not false
other_owner (some owner) (some claim) = not (str_eq owner claim)

abbrev pub has_ended : Option String → Bool
has_ended none = false
has_ended (some status) = str_eq status "skipped" || str_eq status "quality_rejected"

abbrev pub is_unavailable : ℕ → Option String → RawRow → Bool
is_unavailable now claim r =
    has_ended r.status
    || after r.next_attempt_at now
    || (after r.lease_expires_at now && other_owner r.lease_owner claim)

abbrev pub has_id : ℕ → ℕ → Bool
has_id id other = other == id

-- The candidates that are processed, and how many are not.
unfoldable pub select : (ℕ → Bool) → List ℕ → List RawRow → List RawRow × ℕ
select unavailable seen [] = ([], 0)
select unavailable seen (raw ∷ raws) =
    let skip = select unavailable seen raws in
    let take = select unavailable (raw.id ∷ seen) raws in
    if any (has_id raw.id) seen || unavailable raw.id
    then (skip.0, skip.1 + 1)
    else (raw ∷ take.0, take.1)

-- The tables that a batch reads and writes.
pub record Tables (Output Payload : Type 0) : Type 0 where
  pub raws : List RawRow
  pub processed : List (Processed Output)
  pub entries : List (Entry Payload)
  pub spend : List Spend

abbrev pub processed_ids : {Output : Type 0} → List (Processed Output) → List ℕ
processed_ids [] = []
processed_ids (p ∷ ps) = p.raw_article_id ∷ processed_ids ps

module _ {Output Payload : Type 0} (codec : Codec Output Payload) (models : Models Output)
    (setting : Setting) where
  abbrev pub begun : Tables Output Payload → RunBudget → ℕ → State Output Payload
  begun t budget already = record {
    raws = t.raws;
    processed = t.processed;
    entries = t.entries;
    spend = t.spend;
    budget = budget;
    metrics = no_metrics;
    saved = 0;
    already_processed = already;
  }

  unfoldable pub process_raw_articles :
      List RawRow → Tables Output Payload → Option (State Output Payload)
  unfolding select
  process_raw_articles candidates t =
      let unavailable : ℕ → Bool =
        λ id. any (λ r. (r.id == id) && is_unavailable setting.now setting.claim_owner r) t.raws in
      let (todo, already) = select unavailable (processed_ids t.processed) candidates in
      new_budget setting.policy.max_llm_calls setting.policy.max_llm_tokens >>= λ budget.
      process_all codec models setting todo (begun t budget already)

-- What a run avoided, counted at its end.
abbrev pub avoided_llm_calls : Metrics → ℕ
avoided_llm_calls m = m.cached + m.deterministic + m.skipped
