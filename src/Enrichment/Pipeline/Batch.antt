-- ===== src/Enrichment/Pipeline/Batch.antt =====
-- enrichment/pipeline.py: the counts of a whole batch.
use mathlib.Core.Path.{subst}
use procuresignal.Prelude.{
  Bool, List, Option, String, [], arith, false, if◌then◌else◌, length, none, refl, some, true, ℕ,
  ◌+◌, ◌∷◌, ◌≡◌, ◌≤◌, ◌>>=◌,
}
use procuresignal.Retrieval.Dedup.{RawArticle}
use procuresignal.Enrichment.Cache.{is_allowed, Identity, CachedEnrichment, Codec, Entry, get, put}
use procuresignal.Enrichment.Pipeline.{
  Analysis, Answer, Models, RawRow, Setting, State, enriched, estimated_tokens, method_text,
  unenriched,
}
use procuresignal.Enrichment.Pipeline.Cascade.{
  budget_available, by_route, client_ready, enrich, finish, identity_of, look_up, process_all,
  process_one, processed_row, reserved, without_model,
}
use procuresignal.Enrichment.Pipeline.Counts.{
  Gives, Answered, HasMethod, IsCounted, Gives->>=, decide_deferred, gives_no_output, has_output,
  leave-IsCounted, reserved-Answered, store-IsCounted, without_model-HasMethod,
}
use procuresignal.Enrichment.Policy.{whole, reserve}
use procuresignal.Enrichment.Router.{
  EnrichmentRoute, RouteDecision, cached, decide, deferred, deterministic, llm, routed, skipped,
}

allowed_has_output :
    (method : EnrichmentRoute) → is_allowed (method_text method) ≡ true → has_output method ≡ true
allowed_has_output cached h = refl
allowed_has_output deterministic h = refl
allowed_has_output llm h = refl
allowed_has_output skipped h = absurd (ground (arith, h))
allowed_has_output deferred h = absurd (ground (arith, h))

-- The cache takes what a route with an output has made.
put_answers :
    {Output Payload : Type 0} (codec : Codec Output Payload) (k : Identity) (output : Output)
    (method : String) (entries : List (Entry Payload))
    → is_allowed method ≡ true
    → Gives (λ (e : List (Entry Payload)). Unit) (put codec false k output method entries)
unfolding put
put_answers codec k output method entries h = rw h tt

module _ {Output Payload : Type 0} (codec : Codec Output Payload) (models : Models Output)
    (setting : Setting) (most : ℕ) where
  -- A call of the model, if there is a client.
  model_route :
      (ready : Bool) (n : ℕ) (a : RawArticle String) (analysis : Analysis Output) (reason : String)
      (s : State Output Payload)
      → gives_no_output (decide false analysis.relevance analysis.confidence setting.policy false)
        ≡ true
      → IsCounted n most s
      → Gives (Answered n most) (
          if ready
          then reserved codec models setting a analysis reason s
              (reserve (estimated_tokens a) s.budget)
          else without_model codec models setting analysis >>= λ answer. some (s, answer))
  model_route true n a analysis reason s d h =
      reserved-Answered codec models setting most n a analysis reason s
        (reserve (estimated_tokens a) s.budget) refl d h
  model_route false n a analysis reason s d h =
      Gives->>= HasMethod (Answered n most) (without_model codec models setting analysis)
        (λ answer. some (s, answer)) (without_model-HasMethod codec models setting most analysis d)
        (λ answer k. (h, k))

  abbrev pub HasScores : Analysis Output → Type 0
  HasScores analysis = (analysis.relevance ≤ whole) × (analysis.confidence ≤ whole)

  decide_answers :
      (analysis : Analysis Output) (available : Bool)
      → HasScores analysis
      → decide false analysis.relevance analysis.confidence setting.policy available ≡ none
      → ⊥
  unfolding decide
  decide_answers analysis available valid e = ground (arith, valid.0, valid.1, e)

  -- The router never says "cached" where the cache had nothing.
  never_cached :
      (analysis : Analysis Output) (available : Bool) (reason : String) (confidence : ℕ)
      → decide false analysis.relevance analysis.confidence setting.policy available
        ≡ some (routed cached reason confidence)
      → ⊥
  unfolding decide
  never_cached analysis available reason confidence e = ground (arith, e)

  route-Answered :
      (n : ℕ) (a : RawArticle String) (analysis : Analysis Output) (available : Bool)
      (route : EnrichmentRoute) (reason : String) (confidence : ℕ) (s : State Output Payload)
      → decide false analysis.relevance analysis.confidence setting.policy available
        ≡ some (routed route reason confidence)
      → IsCounted n most s
      → Gives
          (Answered n most)
          (by_route codec models setting a analysis (routed route reason confidence) s)
  unfolding by_route
  route-Answered n a analysis available cached reason confidence s e h =
      absurd (never_cached analysis available reason confidence e)
  route-Answered n a analysis available deterministic reason confidence s e h = (h, refl)
  route-Answered n a analysis available llm reason confidence s e h =
      model_route (client_ready codec models setting) n a analysis reason s
        (decide_deferred analysis.relevance analysis.confidence setting.policy available
          (routed llm reason confidence) e refl)
        h
  route-Answered n a analysis available skipped reason confidence s e h = (h, refl)
  route-Answered n a analysis available deferred reason confidence s e h = (h, refl)

  finish-IsCounted :
      (n : ℕ) (raw : RawRow) (analysis : Analysis Output) (s : State Output Payload)
      (answer : Answer Output)
      → Answered n most (s, answer)
      → Gives (IsCounted (n + 1) most) (finish codec models setting raw analysis (s, answer))
  unfolding finish
  finish-IsCounted n raw analysis s (unenriched route) (h, k) =
      leave-IsCounted codec models setting most n raw.id route s k h
  finish-IsCounted n raw analysis s (enriched output method reason llm_used) (h, k) =
      Gives->>= (λ entries. Unit) (IsCounted (n + 1) most)
        (put codec false (identity_of codec models setting raw.article) output (method_text method)
          s.entries)
        _ (put_answers codec _ output (method_text method) s.entries k)
        (λ entries t.
          store-IsCounted codec models setting most n method
            (processed_row codec models setting raw output method reason (some analysis.confidence)
              llm_used)
            (record s { entries = entries }) (allowed_has_output method k) h)

  -- The deterministic analysis gives scores between 0 and 1.
  abbrev pub AllHaveScores : Type 0
  AllHaveScores = (a : RawArticle String) → HasScores (models.analyze a)

  enrich-IsCounted :
      (n : ℕ) (raw : RawRow) (s : State Output Payload)
      → AllHaveScores
      → IsCounted n most s
      → Gives (IsCounted (n + 1) most) (enrich codec models setting raw s)
  unfolding enrich
  enrich-IsCounted n raw s scored h =
      let analysis = models.analyze raw.article in
      let missed : State Output Payload = record s {
        metrics = record s.metrics { cache_misses = s.metrics.cache_misses + 1 };
      } in
      let available : Bool = budget_available codec models setting raw.article s in
      Gives->>= (Answered n most) (IsCounted (n + 1) most)
        (decide false analysis.relevance analysis.confidence setting.policy available >>= λ d.
          by_route codec models setting raw.article analysis d missed)
        (finish codec models setting raw analysis)
        (by_decision analysis available missed (scored raw.article) h
          (decide false analysis.relevance analysis.confidence setting.policy available) refl)
        (λ r k. finish-IsCounted n raw analysis r.0 r.1 k)
    where
      by_decision :
          (analysis : Analysis Output) (available : Bool) (missed : State Output Payload)
          → HasScores analysis
          → IsCounted n most missed
          → (o : Option RouteDecision)
          → decide false analysis.relevance analysis.confidence setting.policy available ≡ o
          → Gives
              (Answered n most)
              (o >>= λ d. by_route codec models setting raw.article analysis d missed)
      by_decision analysis available missed valid h none e =
          absurd (decide_answers analysis available valid e)
      by_decision analysis available missed valid h (some d) e =
          route-Answered n raw.article analysis available d.route d.reason d.confidence missed e h

  look_up-IsCounted :
      (n : ℕ) (raw : RawRow) (s : State Output Payload)
      (found : List (Entry Payload) × Option (CachedEnrichment Output))
      → AllHaveScores
      → IsCounted n most s
      → Gives (IsCounted (n + 1) most) (look_up codec models setting raw found s)
  unfolding look_up
  look_up-IsCounted n raw s (entries, none) scored h =
      enrich-IsCounted n raw (record s { entries = entries }) scored h
  look_up-IsCounted n raw s (entries, some hit) scored h =
      store-IsCounted codec models setting most n cached
        (processed_row codec models setting raw hit.output cached "compatible_cache_hit" none false)
        (record s { entries = entries }) refl h

  pub process_all-IsCounted :
      (n : ℕ) (raws : List RawRow) (s : State Output Payload)
      → AllHaveScores
      → IsCounted n most s
      → Gives (IsCounted (n + length raws) most) (process_all codec models setting raws s)
  unfolding process_all process_one
  process_all-IsCounted n [] s scored h = (omega (arith, h.0), h.1, h.2, h.3, h.4)
  process_all-IsCounted n (raw ∷ raws) s scored h =
      Gives->>= (IsCounted (n + 1) most) (IsCounted (n + length (raw ∷ raws)) most)
        (look_up codec models setting raw
          (get codec (identity_of codec models setting raw.article) s.entries) s)
        (process_all codec models setting raws)
        (look_up-IsCounted n raw s
          (get codec (identity_of codec models setting raw.article) s.entries) scored h)
        (λ s' k.
          subst (λ (m : ℕ). Gives (IsCounted m most) (process_all codec models setting raws s'))
            (omega arith) (process_all-IsCounted (n + 1) raws s' scored k))
