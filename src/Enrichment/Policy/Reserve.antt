-- ===== src/Enrichment/Policy/Reserve.antt =====
-- shared/procuresignal/enrichment/policy.py: reservations stay within both caps.
use procuresignal.Prelude.{
  Bool, List, Option, [], arith, false, none, refl, some, true, ℕ, ◌+◌, ◌∷◌, ◌≡◌, ◌≤◌,
}
use procuresignal.Enrichment.Policy.{Limits, RunBudget, accepted, new_budget, record_usage, reserve}

pub record IsWithin (b : RunBudget) : Type 0 where
  pub calls : b.calls_reserved ≤ b.max_calls
  pub tokens : b.tokens_reserved ≤ b.max_tokens

-- A use of the budget, in the order in which the lock is taken.
pub data Use : Type 0 where
  reserving : ℕ → Use
  using : ℕ → Use

-- What a run of uses leaves: the budget, the number of granted reservations and their tokens. An
-- argument that raises changes nothing.
pub record Tally : Type 0 where
  pub budget : RunBudget
  pub granted : ℕ
  pub granted_tokens : ℕ

after_reserve : ℕ → Tally → Option (RunBudget × Bool) → Tally
after_reserve n t none = t
after_reserve n t (some (b, false)) = record t { budget = b }
after_reserve n t (some (b, true)) = record {
  budget = b;
  granted = t.granted + 1;
  granted_tokens = t.granted_tokens + n;
}

unfoldable pub uses : List Use → Tally → Tally
unfolding after_reserve
uses [] t = t
uses (reserving n ∷ us) t = uses us (after_reserve n t (reserve n t.budget))
uses (using n ∷ us) t = uses us (record t { budget = record_usage n t.budget })

pub record IsCounted (t : Tally) : Type 0 where
  pub within : IsWithin t.budget
  pub calls : t.granted ≡ t.budget.calls_reserved
  pub tokens : t.granted_tokens ≡ t.budget.tokens_reserved

after_reserve-IsCounted :
    (n : ℕ) (t : Tally) → IsCounted t → IsCounted (after_reserve n t (reserve n t.budget))
unfolding after_reserve reserve
after_reserve-IsCounted n t c = ground arith

uses-IsCounted : (us : List Use) (t : Tally) → IsCounted t → IsCounted (uses us t)
unfolding uses
uses-IsCounted [] t c = c
uses-IsCounted (reserving n ∷ us) t c = uses-IsCounted us _ (after_reserve-IsCounted n t c)
uses-IsCounted (using n ∷ us) t c = uses-IsCounted us _ (
    unfold record_usage in
    record {
      within = record { calls = c.within.calls; tokens = c.within.tokens };
      calls = c.calls;
      tokens = c.tokens;
    })

uses-caps :
    (us : List Use) (t : Tally)
    → ((uses us t).budget.max_calls ≡ t.budget.max_calls)
      × ((uses us t).budget.max_tokens ≡ t.budget.max_tokens)
unfolding uses after_reserve reserve record_usage
uses-caps [] t = (refl, refl)
uses-caps (reserving n ∷ us) t =
    ground (arith, uses-caps us (after_reserve n t (reserve n t.budget)))
uses-caps (using n ∷ us) t = uses-caps us (record t { budget = record_usage n t.budget })

abbrev pub start : RunBudget → Tally
start b = record { budget = b; granted = 0; granted_tokens = 0 }

-- The budget of an accepted policy can be built, and in every order of reservations and uses it
-- grants at most `max_llm_calls` reservations and at most `max_llm_tokens` tokens in all.
pub granted_within_caps :
    (p : Limits) (us : List Use)
    → accepted p ≡ true
    → (b : RunBudget) × (new_budget p.max_llm_calls p.max_llm_tokens ≡ some b)
      × ((uses us (start b)).granted ≤ p.max_llm_calls)
      × ((uses us (start b)).granted_tokens ≤ p.max_llm_tokens)
unfolding new_budget accepted
granted_within_caps p us h = (fresh, ground arith, bound.0, bound.1)
  where
    fresh : RunBudget
    fresh = record {
      max_calls = p.max_llm_calls;
      max_tokens = p.max_llm_tokens;
      calls_reserved = 0;
      tokens_reserved = 0;
      tokens_used = 0;
    }

    counted : IsCounted (uses us (start fresh))
    counted =
        uses-IsCounted us (start fresh)
          (record { within = omega arith; calls = refl; tokens = refl })

    bound :
        ((uses us (start fresh)).granted ≤ p.max_llm_calls)
        × ((uses us (start fresh)).granted_tokens ≤ p.max_llm_tokens)
    bound = omega (arith, counted.calls, counted.tokens, counted.within, uses-caps us (start fresh))
