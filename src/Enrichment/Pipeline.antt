-- ===== src/Enrichment/Pipeline.antt =====
-- shared/procuresignal/enrichment/pipeline.py: the enrichment of a batch of raw articles. The tables
-- are lists of rows, the run's budget is that of Enrichment.Policy and the day's that of
-- Enrichment.Budget, which no other worker uses meanwhile. What the analyses and the model give is
-- the `Models` of the caller. An exception, which rolls the batch back, is `none`. The recording of
-- supplier mentions and the other columns of a processed article are not modelled.
pub mod Cascade
pub mod Filter
pub mod Counts
pub mod Batch
pub mod Whole
mod Tests
use Prim.Native.String.{count}
use procuresignal.Prelude.{
  Bool, List, Option, String, [], any, false, if◌then◌else◌, is_some, leb, ltb, max, none, not,
  some, str_eq, true, ℕ, ◌&&◌, ◌+◌, ◌++◌, ◌*◌, ◌/◌, ◌==◌, ◌||◌, ◌∷◌, ◌>>=◌,
}
use procuresignal.Prelude.Table.{owned_by, update_where}
use procuresignal.Enrichment.Budget.{Spend, consume, consume_overage, within_budget}
use procuresignal.Enrichment.Cache.{Codec, Entry, Identity, get, put}
use procuresignal.Enrichment.Cache.{CachedEnrichment}
use procuresignal.Enrichment.Policy.{Limits, RunBudget, record_usage, reserve}
use procuresignal.Enrichment.Router.{
  EnrichmentRoute, RouteDecision, cached, decide, deferred, deterministic, llm, skipped,
}
use procuresignal.Retrieval.Dedup.{RawArticle, or_text}

pub record RawRow : Type 0 where
  pub id : ℕ
  pub article : RawArticle String
  pub status : Option String
  pub attempt_count : ℕ
  pub next_attempt_at : Option ℕ
  pub lease_owner : Option String
  pub lease_expires_at : Option ℕ

pub record Processed (Output : Type 0) : Type 0 where
  pub raw_article_id : ℕ
  pub output : Output
  pub method : EnrichmentRoute
  pub reason : String
  pub fingerprint : String
  pub confidence : Option ℕ
  pub llm_used : Bool

pub record Metrics : Type 0 where
  pub cached : ℕ
  pub deterministic : ℕ
  pub llm : ℕ
  pub skipped : ℕ
  pub deferred : ℕ
  pub failures : ℕ
  pub cache_misses : ℕ
  pub llm_calls : ℕ
  pub llm_tokens : ℕ

abbrev pub no_metrics : Metrics
no_metrics = record {
  cached = 0;
  deterministic = 0;
  llm = 0;
  skipped = 0;
  deferred = 0;
  failures = 0;
  cache_misses = 0;
  llm_calls = 0;
  llm_tokens = 0;
}

pub record Analysis (Output : Type 0) : Type 0 where
  pub relevance : ℕ
  pub confidence : ℕ
  pub output : Output

-- The deterministic analysis, the fingerprint, the answer of the model with the tokens it used, by
-- the number of calls before it, and the merge of an answer with the analysis.
pub record Models (Output : Type 0) : Type 0 where
  pub analyze : RawArticle String → Analysis Output
  pub content_fingerprint : RawArticle String → String
  pub generate_output : ℕ → RawArticle String → Option Output × ℕ
  pub merge : Output → Output → Output

-- How a batch is run: the policy, the tenant and day with its budget, the time, and the client, which
-- is there, is made by a factory that may refuse, or is missing.
pub record Setting : Type 0 where
  pub policy : Limits
  pub policy_version : String
  pub taxonomy_version : String
  pub tenant : Option String
  pub today : ℕ
  pub daily_budget : ℕ
  pub now : ℕ
  pub claim_owner : Option String
  pub has_client : Bool
  pub has_factory : Bool
  pub factory_makes : Bool

pub record State (Output Payload : Type 0) : Type 0 where
  pub raws : List RawRow
  pub processed : List (Processed Output)
  pub entries : List (Entry Payload)
  pub spend : List Spend
  pub budget : RunBudget
  pub metrics : Metrics
  pub saved : ℕ
  pub already_processed : ℕ

-- getattr(metrics, route) + 1
abbrev pub counted : EnrichmentRoute → Metrics → Metrics
counted EnrichmentRoute.cached m = record m { cached = m.cached + 1 }
counted EnrichmentRoute.deterministic m = record m { deterministic = m.deterministic + 1 }
counted EnrichmentRoute.llm m = record m { llm = m.llm + 1 }
counted EnrichmentRoute.skipped m = record m { skipped = m.skipped + 1 }
counted EnrichmentRoute.deferred m = record m { deferred = m.deferred + 1 }

-- The value of the enumeration
abbrev pub method_text : EnrichmentRoute → String
method_text EnrichmentRoute.cached = "cached"
method_text EnrichmentRoute.deterministic = "deterministic"
method_text EnrichmentRoute.llm = "llm"
method_text EnrichmentRoute.skipped = "skipped"
method_text EnrichmentRoute.deferred = "deferred"

abbrev pub two_hours : ℕ
two_hours = 2 * 60 * 60

-- `_transition_raw`, where the delay is none or the seconds until the next attempt.
abbrev pub may_change : Option String → ℕ → RawRow → Bool
may_change none id r = r.id == id
may_change (some owner) id r = (r.id == id) && owned_by r.lease_owner owner

abbrev pub moved : ℕ → String → Option ℕ → RawRow → RawRow
moved now status none r = record r {
  status = some status;
  next_attempt_at = none;
  lease_owner = none;
  lease_expires_at = none;
}
moved now status (some delay) r = record r {
  status = some status;
  next_attempt_at = some (now + delay);
  lease_owner = none;
  lease_expires_at = none;
  attempt_count = r.attempt_count + 1;
}

-- `_estimated_tokens`
abbrev pub estimated_tokens : RawArticle String → ℕ
estimated_tokens a = max 1 (
    (count a.title + count (or_text a.description "") + count (or_text a.content_snippet "")) / 4
    + 400)

-- What the cascade decides for an article: an output with its method and reason, or a route without
-- one, where none is "failed".
pub data Answer (Output : Type 0) : Type 0 where
  enriched :
      (output : Output) (method : EnrichmentRoute) (reason : String) (llm_used : Bool)
      → Answer Output
  unenriched : (route : Option EnrichmentRoute) → Answer Output
