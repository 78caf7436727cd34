-- ===== src/Enrichment/Budget/Tests.antt =====
-- shared/procuresignal/enrichment/budget.py on small inputs, and the theorems applied there.
use procuresignal.Prelude.{List, [], arith, max, none, refl, some, ◌*◌, ◌+◌, ◌-◌, ◌∷◌, ◌≡◌, ◌≤◌}
use procuresignal.Enrichment.Budget.{Spend, consume, consume_overage}
use procuresignal.Enrichment.Budget.Laws.{overruns, serve, spent}
use procuresignal.Enrichment.Budget.Race.{Reach, World, idle, race_passes_budget, spent-race-le}

abbrev ledger : List Spend
ledger = record { tenant = "__global__"; spend_date = 7; tokens_used = 90; calls_made = 2 } ∷ []

program : Unit {0}
unfolding consume consume_overage spent serve overruns
program = tt

consume-ledger :
    consume 7 100 none 10 1 none ledger
    ≡ some
        (record { tenant = "__global__"; spend_date = 7; tokens_used = 100; calls_made = 3 } ∷ [])
unfolding program
consume-ledger = refl

consume-empty_name : consume 7 100 (some "") 11 1 (some 7) ledger ≡ none
unfolding program
consume-empty_name = refl

-- Two workers check and then write, and the day ends past the budget by less than one request.
abbrev raced :
    (u : World) × Reach 7 100 2 (max 6 6) (idle ledger) u
    × (spent "__global__" 7 u.rows ≡ spent "__global__" 7 ledger + 6 + 6)
unfolding spent
raced = race_passes_budget 7 100 6 6 ledger (omega arith) (omega arith) (omega arith)

spent-race-le_example : spent "__global__" 7 raced.0.rows ≤ 100 + (2 - 1) * max 6 6
unfolding spent
spent-race-le_example =
    spent-race-le 7 100 2 (max 6 6) ledger raced.0 "__global__" 7 (omega arith) raced.1

race_passes_budget_example :
    (u : World) × Reach 7 100 2 (max 6 6) (idle ledger) u
    × (spent "__global__" 7 u.rows ≡ spent "__global__" 7 ledger + 6 + 6)
unfolding spent
race_passes_budget_example =
    race_passes_budget 7 100 6 6 ledger (omega arith) (omega arith) (omega arith)
