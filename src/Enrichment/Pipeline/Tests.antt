-- ===== src/Enrichment/Pipeline/Tests.antt =====
-- A batch with a sure article, one for the model, one without interest, a repeated one and a skipped
-- one.
use procuresignal.Prelude.{
  List, Option, String, [], arith, false, none, refl, some, str_eq, true, ℕ, if◌then◌else◌, ◌+◌,
  ◌∷◌, ◌≡◌, ◌≤◌,
}
use procuresignal.Enrichment.Cache.{get, put}
use procuresignal.Enrichment.Router.{decide}
use procuresignal.Enrichment.Budget.{within_budget}
use procuresignal.Enrichment.Policy.{new_budget, reserve}
use procuresignal.Enrichment.Pipeline.Cascade.{process_all}
use procuresignal.Enrichment.Cache.{Codec}
use procuresignal.Enrichment.Pipeline.{Metrics, Models, RawRow, Setting, State}
use procuresignal.Enrichment.Pipeline.Batch.{AllHaveScores}
use procuresignal.Enrichment.Pipeline.Counts.{counted_in, with_output}
use procuresignal.Enrichment.Pipeline.Filter.{Tables, process_raw_articles}
use procuresignal.Enrichment.Pipeline.Whole.{batch_counted}
use procuresignal.Enrichment.Policy.{accepted, default_limits}
use procuresignal.Retrieval.Dedup.Samples.{official}

abbrev codec : Codec String String
codec = record { model_dump = λ s. s; model_validate = λ s. some s }

abbrev confidence_of : String → ℕ
confidence_of title = if str_eq title "sure" then 900000 else 100000

abbrev relevance_of : String → ℕ
relevance_of title = if str_eq title "dull" then 0 else 800000

abbrev models : Models String
models = record {
  analyze = λ a. record {
    relevance = relevance_of a.title;
    confidence = confidence_of a.title;
    output = "local";
  };
  content_fingerprint = λ a. a.title;
  generate_output = λ n a. (some "model", 700);
  merge = λ a b. a;
}

abbrev setting : Setting
setting = record {
  policy = default_limits;
  policy_version = "p1";
  taxonomy_version = "t1";
  tenant = none;
  today = 3;
  daily_budget = 100000;
  now = 50;
  claim_owner = some "w1";
  has_client = true;
  has_factory = false;
  factory_makes = false;
}

abbrev raw : ℕ → String → Option String → RawRow
raw id title status = record {
  id = id;
  article = record official { title = title };
  status = status;
  attempt_count = 0;
  next_attempt_at = none;
  lease_owner = some "w1";
  lease_expires_at = some 90;
}

abbrev batch : List RawRow
batch =
    raw 1 "sure" none
    ∷ raw 2 "unclear" none
    ∷ raw 3 "dull" none
    ∷ raw 2 "unclear" none
    ∷ raw 4 "old" (some "skipped")
    ∷ []

abbrev tables : Tables String String
tables = record { raws = batch; processed = []; entries = []; spend = [] }

abbrev metrics : Metrics
metrics = record {
  cached = 0;
  deterministic = 1;
  llm = 1;
  skipped = 1;
  deferred = 0;
  failures = 0;
  cache_misses = 3;
  llm_calls = 1;
  llm_tokens = 700;
}

scored : AllHaveScores codec models setting 5
scored a = (ground arith, ground arith)

batch_counted_example :
    (s : State String String) × (process_raw_articles codec models setting batch tables ≡ some s)
    × (counted_in s.metrics + s.already_processed ≡ 5)
    × (s.saved ≡ with_output s.metrics)
    × (s.metrics.llm_calls ≤ 5)
unfolding accepted
batch_counted_example = batch_counted codec models setting batch tables refl scored

batch_metrics :
    elim (process_raw_articles codec models setting batch tables) as (λ o. Option Metrics) [
      | none ↦ none
      | some s ↦ some s.metrics
    ]
    ≡ some metrics
unfolding process_raw_articles new_budget process_all get decide put within_budget reserve
batch_metrics = refl
