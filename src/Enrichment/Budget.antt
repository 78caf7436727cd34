-- ===== src/Enrichment/Budget.antt =====
-- shared/procuresignal/enrichment/budget.py: the durable daily cap on tokens for each tenant.
-- The table `LlmSpend` is the list of its rows. A day is its ordinal, `today` is what
-- `date.today()` gives, and `budget` is DAILY_TOKEN_BUDGET.
pub mod Laws
pub mod Race
mod Tests
use procuresignal.Prelude.{
  Bool, List, Option, String, [], if◌then◌else◌, leb, none, some, str_eq, ℕ, ◌&&◌, ◌+◌, ◌-◌, ◌==◌,
  ◌∷◌,
}
use procuresignal.Prelude.Table.{find?}

abbrev pub global_bucket : String
global_bucket = "__global__"

pub record Spend : Type 0 where
  pub tenant : String
  pub spend_date : ℕ
  pub tokens_used : ℕ
  pub calls_made : ℕ

-- `tenant or GLOBAL_BUCKET`: the empty name falls through too.
abbrev pub bucket : Option String → String
bucket none = global_bucket
bucket (some tenant) = if str_eq tenant "" then global_bucket else tenant

-- `on or date.today()`
abbrev pub day : ℕ → Option ℕ → ℕ
day today none = today
day today (some on) = on

-- The condition of `_row`, and the index that the upsert conflicts on.
abbrev pub at : String → ℕ → Spend → Bool
at tenant date row = str_eq row.tenant tenant && row.spend_date == date

abbrev pub add_usage : ℕ → ℕ → Spend → Spend
add_usage tokens calls row = record row {
  tokens_used = row.tokens_used + tokens;
  calls_made = row.calls_made + calls;
}

-- INSERT … ON CONFLICT (tenant, spend_date) DO UPDATE
unfoldable pub upsert : String → ℕ → ℕ → ℕ → List Spend → List Spend
upsert tenant date tokens calls [] =
    record { tenant = tenant; spend_date = date; tokens_used = tokens; calls_made = calls } ∷ []
upsert tenant date tokens calls (row ∷ rows) =
    if at tenant date row
    then add_usage tokens calls row ∷ rows
    else row ∷ upsert tenant date tokens calls rows

-- row.tokens_used if row else 0
abbrev pub used_of : Option Spend → ℕ
used_of none = 0
used_of (some row) = row.tokens_used

module _ (today : ℕ) where
  unfoldable pub increment : Option String → ℕ → ℕ → Option ℕ → List Spend → List Spend
  unfolding upsert
  increment tenant tokens calls on = upsert (bucket tenant) (day today on) tokens calls

  -- `_row`
  unfoldable pub row_of : Option String → Option ℕ → List Spend → Option Spend
  row_of tenant on = find? (at (bucket tenant) (day today on))

  module _ (budget : ℕ) where
    -- max(0, DAILY_TOKEN_BUDGET - used)
    unfoldable pub remaining_tokens : Option String → Option ℕ → List Spend → ℕ
    unfolding row_of
    remaining_tokens tenant on rows = budget - used_of (row_of tenant on rows)

    unfoldable pub within_budget : Option String → ℕ → Option ℕ → List Spend → Bool
    unfolding remaining_tokens
    within_budget tenant tokens on rows = leb tokens (remaining_tokens tenant on rows)

    -- `none` is BudgetExceededError.
    unfoldable pub consume : Option String → ℕ → ℕ → Option ℕ → List Spend → Option (List Spend)
    unfolding within_budget increment
    consume tenant tokens calls on rows =
        if within_budget tenant tokens on rows
        then some (increment tenant tokens calls on rows)
        else none

  unfoldable pub consume_overage : Option String → ℕ → Option ℕ → List Spend → List Spend
  unfolding increment
  consume_overage tenant tokens on = increment tenant tokens 1 on
