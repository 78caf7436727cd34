-- ===== src/Enrichment/Pipeline/Cascade.antt =====
-- enrichment/pipeline.py: the cascade for one article and the loop over a batch.
use procuresignal.Prelude.{
  Bool, List, Option, String, [], any, false, if◌then◌else◌, leb, ltb, none, some, true, ℕ, ◌&&◌,
  ◌+◌, ◌++◌, ◌==◌, ◌||◌, ◌∷◌, ◌>>=◌,
}
use procuresignal.Prelude.Table.{update_where}
use procuresignal.Enrichment.Budget.{Spend, consume, consume_overage, within_budget}
use procuresignal.Enrichment.Cache.{Codec, Entry, Identity, get, put}
use procuresignal.Enrichment.Cache.{CachedEnrichment}
use procuresignal.Enrichment.Policy.{RunBudget, record_usage, reserve}
use procuresignal.Enrichment.Router.{
  EnrichmentRoute, RouteDecision, cached, decide, deferred, deterministic, llm, skipped,
}
use procuresignal.Retrieval.Dedup.{RawArticle}
use procuresignal.Enrichment.Pipeline.{
  Analysis, Answer, Models, Processed, RawRow, Setting, State, counted, enriched, estimated_tokens,
  may_change, method_text, moved, two_hours, unenriched, enriched, unenriched,
}

module _ {Output Payload : Type 0} (codec : Codec Output Payload) (models : Models Output)
    (setting : Setting) where
  open setting use {
    claim_owner, daily_budget, factory_makes, has_client, has_factory, now, policy, tenant, today,
  }

  unfoldable pub transition_raw :
      ℕ → String → Option ℕ → State Output Payload → State Output Payload
  transition_raw id status delay s = record s {
    raws = update_where (may_change claim_owner id) (moved now status delay) s.raws;
  }

  abbrev pub identity_of : RawArticle String → Identity
  identity_of a = record {
    fingerprint = models.content_fingerprint a;
    policy_version = setting.policy_version;
    taxonomy_version = setting.taxonomy_version;
  }

  -- `_add_processed`, which the unique raw article may refuse.
  unfoldable pub add_processed :
      Processed Output → State Output Payload → State Output Payload × Bool
  add_processed p s =
      if any (λ (q : Processed Output). q.raw_article_id == p.raw_article_id) s.processed
      then (s, false)
      else (record s { processed = s.processed ++ p ∷ [] }, true)

  -- The insert and what it counts for; a row that is there already was processed elsewhere.
  unfoldable pub store :
      EnrichmentRoute → Processed Output → State Output Payload → State Output Payload
  unfolding add_processed transition_raw
  store method p s =
      let (s', added) = add_processed p s in
      transition_raw p.raw_article_id "completed" none (
        if added
        then record s' { saved = s'.saved + 1; metrics = counted method s'.metrics }
        else record s' { already_processed = s'.already_processed + 1 })

  abbrev pub recorded_spend : ℕ → List Spend → List Spend
  recorded_spend used spend = elim (consume today daily_budget tenant used 1 none spend) [
    | some rows ↦ rows
    | none ↦ consume_overage today tenant used none spend
  ]

  -- The tokens of a call, against the run's budget and the day's.
  unfoldable pub account : ℕ → State Output Payload → State Output Payload
  account used s = record s {
    budget = record_usage used s.budget;
    metrics = record s.metrics { llm_tokens = s.metrics.llm_tokens + used };
    spend = if used == 0 then s.spend else recorded_spend used s.spend;
  }

  -- What is made of the model's answer.
  unfoldable pub read_answer : Analysis Output → String → Option Output → Answer Output
  read_answer analysis reason (some output) =
      enriched (models.merge output analysis.output) llm reason true
  read_answer analysis reason none =
      if leb policy.min_fallback_confidence analysis.confidence
      then enriched analysis.output deterministic "llm_failure_deterministic_fallback" false
      else unenriched none

  unfoldable pub call_model :
      RawArticle String
      → Analysis Output
      → String
      → State Output Payload
      → State Output Payload × Answer Output
  unfolding account read_answer
  call_model a analysis reason s =
      let (output, used) = models.generate_output s.metrics.llm_calls a in
      let called = record s {
        metrics = record s.metrics { llm_calls = s.metrics.llm_calls + 1 };
      } in
      (account used called, read_answer analysis reason output)

  -- A second decision, without the model.
  unfoldable pub without_model : Analysis Output → Option (Answer Output)
  without_model analysis =
      decide false analysis.relevance analysis.confidence policy false >>= λ decision.
      some (unenriched (some decision.route))

  -- The reservation of a call.
  unfoldable pub reserved :
      RawArticle String
      → Analysis Output
      → String
      → State Output Payload
      → Option (RunBudget × Bool)
      → Option (State Output Payload × Answer Output)
  unfolding call_model without_model
  reserved a analysis reason s none = none
  reserved a analysis reason s (some (b, false)) =
      without_model analysis >>= λ answer. some (record s { budget = b }, answer)
  reserved a analysis reason s (some (b, true)) =
      some (call_model a analysis reason (record s { budget = b }))

  abbrev pub client_ready : Bool
  client_ready = has_client || (has_factory && factory_makes)

  unfoldable pub by_route :
      RawArticle String
      → Analysis Output
      → RouteDecision
      → State Output Payload
      → Option (State Output Payload × Answer Output)
  unfolding reserved
  by_route a analysis decision s = elim decision.route [
    | EnrichmentRoute.deterministic ↦
        some (s, enriched analysis.output deterministic decision.reason false)
    | EnrichmentRoute.llm ↦
        if client_ready
        then reserved a analysis decision.reason s (reserve (estimated_tokens a) s.budget)
        else without_model analysis >>= λ answer. some (s, answer)
    | route ↦ some (s, unenriched (some route))
  ]

  abbrev pub budget_available : RawArticle String → State Output Payload → Bool
  budget_available a s =
      within_budget today daily_budget tenant (estimated_tokens a) none s.spend
      && ltb s.budget.calls_reserved s.budget.max_calls
      && leb (s.budget.tokens_reserved + estimated_tokens a) s.budget.max_tokens
      && (has_client || has_factory)

  -- An article that got no output: it is counted and waits, or is skipped for good.
  unfoldable pub leave : ℕ → Option EnrichmentRoute → State Output Payload → State Output Payload
  unfolding transition_raw
  leave id none s =
      transition_raw id "enrichment_retry" (some two_hours)
        (record s { metrics = record s.metrics { failures = s.metrics.failures + 1 } })
  leave id (some EnrichmentRoute.skipped) s =
      transition_raw id "skipped" none (record s { metrics = counted skipped s.metrics })
  leave id (some EnrichmentRoute.deferred) s =
      transition_raw id "deferred" (some two_hours)
        (record s { metrics = counted deferred s.metrics })
  leave id (some route) s = record s { metrics = counted route s.metrics }

  abbrev pub processed_row :
      RawRow → Output → EnrichmentRoute → String → Option ℕ → Bool → Processed Output
  processed_row raw output method reason confidence llm_used = record {
    raw_article_id = raw.id;
    output = output;
    method = method;
    reason = reason;
    fingerprint = models.content_fingerprint raw.article;
    confidence = confidence;
    llm_used = llm_used;
  }

  -- The end of an article that was not in the cache; `put` may raise.
  unfoldable pub finish :
      RawRow
      → Analysis Output
      → State Output Payload × Answer Output
      → Option (State Output Payload)
  unfolding store leave
  finish raw analysis (s, unenriched route) = some (leave raw.id route s)
  finish raw analysis (s, enriched output method reason llm_used) =
      put codec false (identity_of raw.article) output (method_text method) s.entries >>= λ entries.
      some (
        store method (processed_row raw output method reason (some analysis.confidence) llm_used)
          (record s { entries = entries }))

  -- An article that is not in the cache.
  unfoldable pub enrich : RawRow → State Output Payload → Option (State Output Payload)
  unfolding by_route finish
  enrich raw s =
      let analysis = models.analyze raw.article in
      let missed = record s {
        metrics = record s.metrics { cache_misses = s.metrics.cache_misses + 1 };
      } in
      decide false analysis.relevance analysis.confidence policy (budget_available raw.article s)
      >>= (λ decision. by_route raw.article analysis decision missed)
      >>= finish raw analysis

  unfoldable pub look_up :
      RawRow
      → List (Entry Payload) × Option (CachedEnrichment Output)
      → State Output Payload
      → Option (State Output Payload)
  unfolding enrich store
  look_up raw (entries, none) s = enrich raw (record s { entries = entries })
  look_up raw (entries, some hit) s = some (
      store cached (processed_row raw hit.output cached "compatible_cache_hit" none false)
        (record s { entries = entries }))

  unfoldable pub process_one : RawRow → State Output Payload → Option (State Output Payload)
  unfolding look_up
  process_one raw s = look_up raw (get codec (identity_of raw.article) s.entries) s

  unfoldable pub process_all : List RawRow → State Output Payload → Option (State Output Payload)
  unfolding process_one
  process_all [] s = some s
  process_all (raw ∷ raws) s = process_one raw s >>= process_all raws
