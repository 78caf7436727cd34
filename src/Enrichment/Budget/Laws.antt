-- ===== src/Enrichment/Budget/Laws.antt =====
-- shared/procuresignal/enrichment/budget.py: what the operations do to the totals.
use procuresignal.Prelude.{
  List, Option, String, [], arith, eq_iff, eq_refl, if◌then◌else◌, leb, none, refl, some, str_eq, ℕ,
  ◌&&◌, ◌+◌, ◌-◌, ◌<◌, ◌==◌, ◌↔◌, ◌∷◌, ◌≡◌, ◌≤◌,
}
use procuresignal.Enrichment.Budget.{
  Spend, at, bucket, consume, consume_overage, day, upsert, used_of, within_budget,
}
use procuresignal.Prelude.Table.{find?}

-- What `bucket` has spent on a day.
unfoldable pub spent : String → ℕ → List Spend → ℕ
spent tenant date [] = 0
spent tenant date (row ∷ rows) =
    if at tenant date row then row.tokens_used else spent tenant date rows

used_of-find? :
    (tenant : String) (date : ℕ) (rows : List Spend)
    → used_of (find? (at tenant date) rows) ≡ spent tenant date rows
unfolding spent
used_of-find? tenant date [] = refl
used_of-find? tenant date (row ∷ rows) = ground (arith, used_of-find? tenant date rows)

-- An upsert adds to one bucket on one day, and to no other.
pub spent-upsert :
    (tenant : String) (date tokens calls : ℕ) (rows : List Spend) (other : String) (then_day : ℕ)
    → spent other then_day (upsert tenant date tokens calls rows)
      ≡ (if str_eq tenant other && date == then_day then tokens else 0) + spent other then_day rows
unfolding spent upsert
spent-upsert tenant date tokens calls [] other then_day = ground arith
spent-upsert tenant date tokens calls (row ∷ rows) other then_day = ground (
  arith,
  spent-upsert tenant date tokens calls rows other then_day,
  eq_iff row.tenant tenant,
  eq_iff row.tenant other,
  eq_iff tenant other,
)

module _ (today budget : ℕ) where
  pub within_budget_lem :
      (tenant : Option String) (tokens : ℕ) (on : Option ℕ) (rows : List Spend)
      → within_budget today budget tenant tokens on rows
        ≡ leb tokens (budget - spent (bucket tenant) (day today on) rows)
  unfolding within_budget
  within_budget_lem tenant tokens on rows =
      ground (arith, used_of-find? (bucket tenant) (day today on) rows)

  -- `consume` refuses exactly the requests that would pass the budget.
  pub consume-none_iff :
      (tenant : Option String) (tokens calls : ℕ) (on : Option ℕ) (rows : List Spend)
      → 0 < tokens
      → (consume today budget tenant tokens calls on rows ≡ none)
        ↔ (budget < spent (bucket tenant) (day today on) rows + tokens)
  unfolding consume
  consume-none_iff tenant tokens calls on rows h = (
    (λ e. ground (arith, within_budget_lem tenant tokens on rows)),
    (λ l. ground (arith, within_budget_lem tenant tokens on rows)),
  )

-- A call to the module by one of the workers, one after the other.
pub data Request : Type 0 where
  consumed : (tenant : Option String) (tokens calls : ℕ) (on : Option ℕ) → Request
  overrun : (tenant : Option String) (tokens : ℕ) (on : Option ℕ) → Request

-- A refused request changes nothing.
abbrev pub or_unchanged : List Spend → Option (List Spend) → List Spend
or_unchanged rows none = rows
or_unchanged rows (some after) = after

unfoldable pub serve : ℕ → ℕ → List Request → List Spend → List Spend
serve today budget [] rows = rows
serve today budget (consumed tenant tokens calls on ∷ requests) rows =
    serve today budget requests
      (or_unchanged rows (consume today budget tenant tokens calls on rows))
serve today budget (overrun tenant tokens on ∷ requests) rows =
    serve today budget requests (consume_overage today tenant tokens on rows)

-- The tokens that were recorded by `consume_overage` alone.
unfoldable pub overruns : ℕ → String → ℕ → List Request → ℕ
overruns today tenant date [] = 0
overruns today tenant date (consumed t tokens calls on ∷ requests) =
    overruns today tenant date requests
overruns today tenant date (overrun t tokens on ∷ requests) =
    (if str_eq (bucket t) tenant && day today on == date then tokens else 0)
    + overruns today tenant date requests

pub spent-consume_overage :
    (today : ℕ) (t : Option String) (tokens : ℕ) (on : Option ℕ) (rows : List Spend)
    (tenant : String) (date : ℕ)
    → spent tenant date (consume_overage today t tokens on rows)
      ≡ (if str_eq (bucket t) tenant && day today on == date then tokens else 0)
        + spent tenant date rows
unfolding consume_overage
spent-consume_overage today t tokens on rows tenant date =
    spent-upsert (bucket t) (day today on) tokens 1 rows tenant date

-- A served `consume` adds its tokens to its own bucket and day, which stay within the budget.
pub spent-consume :
    (today budget : ℕ) (t : Option String) (tokens calls : ℕ) (on : Option ℕ)
    (rows after : List Spend)
    → consume today budget t tokens calls on rows ≡ some after
    → ((tenant : String) (date : ℕ)
        → spent tenant date after
          ≡ (if str_eq (bucket t) tenant && day today on == date then tokens else 0)
            + spent tenant date rows)
      × (0 < tokens → spent (bucket t) (day today on) after ≤ budget)
unfolding consume
spent-consume today budget t tokens calls on rows after h = (
  (λ tenant date.
      ground (arith, spent-upsert (bucket t) (day today on) tokens calls rows tenant date)),
  (λ pos. ground (
    arith,
    within_budget_lem today budget t tokens on rows,
    eq_refl (bucket t),
    spent-upsert (bucket t) (day today on) tokens calls rows (bucket t) (day today on),
  )),
)

spent-step-le :
    (today budget : ℕ) (t : Option String) (tokens calls : ℕ) (on : Option ℕ) (rows : List Spend)
    (tenant : String) (date extra : ℕ)
    → spent tenant date rows ≤ budget + extra
    → spent tenant date (or_unchanged rows (consume today budget t tokens calls on rows))
      ≤ budget + extra
unfolding consume
spent-step-le today budget t tokens calls on rows tenant date extra h = ground (
  arith,
  within_budget_lem today budget t tokens on rows,
  spent-upsert (bucket t) (day today on) tokens calls rows tenant date,
  eq_iff (bucket t) tenant,
)

-- Whatever the requests, served one after the other, a bucket's day passes the budget by no more
-- than what was recorded as overage.
pub spent-serve-le :
    (today budget : ℕ) (requests : List Request) (rows : List Spend) (tenant : String)
    (date extra : ℕ)
    → spent tenant date rows ≤ budget + extra
    → spent tenant date (serve today budget requests rows)
      ≤ budget + (extra + overruns today tenant date requests)
unfolding serve overruns
spent-serve-le today budget [] rows tenant date extra h = omega arith
spent-serve-le today budget (consumed t tokens calls on ∷ requests) rows tenant date extra h =
    spent-serve-le today budget requests
      (or_unchanged rows (consume today budget t tokens calls on rows)) tenant date extra
      (spent-step-le today budget t tokens calls on rows tenant date extra h)
spent-serve-le today budget (overrun t tokens on ∷ requests) rows tenant date extra h = omega (
  arith,
  spent-serve-le today budget requests (consume_overage today t tokens on rows) tenant date
      (extra + (if str_eq (bucket t) tenant && day today on == date then tokens else 0))
      (omega (arith, spent-consume_overage today t tokens on rows tenant date)),
)
