-- ===== src/Enrichment/Policy.antt =====
-- shared/procuresignal/enrichment/policy.py: `EnrichmentBudget`, the hard budget of one run in one
-- process. The lock makes each method one step. A `ValueError` is `none`; an argument that is no
-- integer raises it too, and is not modelled. Of `EnrichmentPolicy` the validation of the integer
-- limits and of the thresholds is modelled, a threshold being a number of millionths.
pub mod Reserve
mod Tests
use procuresignal.Prelude.{
  Bool, Option, false, if◌then◌else◌, leb, ltb, none, some, true, ℕ, ◌&&◌, ◌+◌, ◌==◌, ◌||◌,
}

pub record RunBudget : Type 0 where
  pub max_calls : ℕ
  pub max_tokens : ℕ
  pub calls_reserved : ℕ
  pub tokens_reserved : ℕ
  pub tokens_used : ℕ

-- `__post_init__` of EnrichmentBudget
unfoldable pub new_budget : ℕ → ℕ → Option RunBudget
new_budget max_calls max_tokens =
    if max_calls == 0 || max_tokens == 0
    then none
    else some (record {
      max_calls = max_calls;
      max_tokens = max_tokens;
      calls_reserved = 0;
      tokens_reserved = 0;
      tokens_used = 0;
    })

unfoldable pub reserve : ℕ → RunBudget → Option (RunBudget × Bool)
reserve estimated_tokens b =
    if estimated_tokens == 0
    then none
    else if leb b.max_calls b.calls_reserved
    then some (b, false)
    else if ltb b.max_tokens (b.tokens_reserved + estimated_tokens)
    then some (b, false)
    else some (
      record b {
        calls_reserved = b.calls_reserved + 1;
        tokens_reserved = b.tokens_reserved + estimated_tokens;
      },
      true,
    )

unfoldable pub record_usage : ℕ → RunBudget → RunBudget
record_usage actual_tokens b = record b { tokens_used = b.tokens_used + actual_tokens }

-- The fields of `EnrichmentPolicy` that `__post_init__` looks at, and a whole in them.
abbrev pub whole : ℕ
whole = 1000000

pub record Limits : Type 0 where
  pub min_relevance : ℕ
  pub min_deterministic_confidence : ℕ
  pub min_fallback_confidence : ℕ
  pub max_llm_calls : ℕ
  pub max_llm_tokens : ℕ
  pub summary_max_chars : ℕ

abbrev pub default_limits : Limits
default_limits = record {
  min_relevance = 350000;
  min_deterministic_confidence = 720000;
  min_fallback_confidence = 500000;
  max_llm_calls = 5;
  max_llm_tokens = 6000;
  summary_max_chars = 420;
}

-- `__post_init__`: whether the policy is accepted.
unfoldable pub accepted : Limits → Bool
accepted p =
    leb p.min_relevance whole
    && leb p.min_deterministic_confidence whole
    && leb p.min_fallback_confidence whole
    && leb p.min_fallback_confidence p.min_deterministic_confidence
    && ltb 0 p.max_llm_calls
    && ltb 0 p.max_llm_tokens
    && ltb 0 p.summary_max_chars
