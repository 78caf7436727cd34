-- ===== src/Enrichment/Policy/Tests.antt =====
-- shared/procuresignal/enrichment/policy.py on small inputs, and the theorem applied there.
use procuresignal.Prelude.{List, Option, [], none, refl, some, ℕ, ◌∷◌, ◌≡◌, ◌≤◌}
use procuresignal.Enrichment.Policy.{
  Limits, RunBudget, accepted, default_limits, new_budget, record_usage, reserve,
}
use procuresignal.Enrichment.Policy.Reserve.{
  Use, granted_within_caps, reserving, start, uses, using,
}

abbrev tight : Limits
tight = record default_limits { max_llm_calls = 2; max_llm_tokens = 100 }

abbrev attempts : List Use
attempts = reserving 60 ∷ using 75 ∷ reserving 60 ∷ reserving 40 ∷ reserving 1 ∷ reserving 0 ∷ []

budget_of : Option RunBudget → ℕ → ℕ → RunBudget
budget_of none calls tokens = record {
  max_calls = calls;
  max_tokens = tokens;
  calls_reserved = 0;
  tokens_reserved = 0;
  tokens_used = 0;
}
budget_of (some b) calls tokens = b

-- The second request has no room for its tokens, and the fourth none for its call.
uses-attempts : (uses attempts (start (budget_of (new_budget 2 100) 2 100))).granted_tokens ≡ 100
unfolding uses new_budget reserve record_usage budget_of
uses-attempts = refl

granted_within_caps_example :
    (b : RunBudget) × (new_budget 2 100 ≡ some b)
    × ((uses attempts (start b)).granted ≤ 2)
    × ((uses attempts (start b)).granted_tokens ≤ 100)
granted_within_caps_example = granted_within_caps tight attempts (unfold accepted in refl)
