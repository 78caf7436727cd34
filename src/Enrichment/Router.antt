-- ===== src/Enrichment/Router.antt =====
-- shared/procuresignal/enrichment/router.py: the route of an article. Scores are millionths, as the
-- thresholds of the policy; a ValueError is `none`.
use procuresignal.Prelude.{Bool, Option, String, if◌then◌else◌, leb, ltb, none, some, ℕ, ◌||◌}
use procuresignal.Enrichment.Policy.{Limits, whole}

pub data EnrichmentRoute : Type 0 where
  cached deterministic llm skipped deferred : EnrichmentRoute

pub record RouteDecision : Type 0 where
  pub route : EnrichmentRoute
  pub reason : String
  pub confidence : ℕ

abbrev pub routed : EnrichmentRoute → String → ℕ → RouteDecision
routed route reason confidence = record { route = route; reason = reason; confidence = confidence }

unfoldable pub decide : Bool → ℕ → ℕ → Limits → Bool → Option RouteDecision
decide cache_hit relevance confidence policy budget_available =
    if ltb whole relevance || ltb whole confidence
    then none
    else some (
        if cache_hit
        then routed cached "compatible_cache_hit" confidence
        else if ltb relevance policy.min_relevance
        then routed skipped "below_relevance_threshold" confidence
        else if leb policy.min_deterministic_confidence confidence
        then routed deterministic "deterministic_confident" confidence
        else if budget_available
        then routed llm "ambiguous_relevant" confidence
        else routed deferred "llm_budget_exhausted" confidence)
