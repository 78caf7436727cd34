-- ===== src/Agents/Loop/Spending.antt =====
-- shared/procuresignal/agents/loop.py: what the loop spends.
use procuresignal.Prelude.{
  Bool-cases, List, Option, String, [], arith, inl, inr, none, refl, some, true, ℕ, ◌+◌, ◌∷◌, ◌≡◌,
  ◌≤◌, ◌⊎◌,
}
use procuresignal.Agents.Loop.{
  AgentTurn, Item, Session, ToolCall, World, ask, charge, estimated_tokens_per_turn, finish,
  is_known, pay, round, run_call, run_loop, take_turn, user,
}
use procuresignal.Agents.Loop.Laws.{RoundKeeps, round-keeps, run_calls-keeps, run_rounds-keeps}
use procuresignal.Enrichment.Budget.{Spend, consume, consume_overage, global_bucket, within_budget}
use procuresignal.Enrichment.Budget.Laws.{
  spent, spent-consume, spent-consume_overage, within_budget_lem,
}

module _ {A R : Type 0} (w : World A R) where
  -- The tokens of the day, for all tenants together: the bucket that the loop is charged to.
  abbrev pub spent_today : Session A R → ℕ
  spent_today s = spent global_bucket w.today s.spend

  abbrev pub tokens_of : Session A R → ℕ
  tokens_of s = s.prompt_tokens + s.completion_tokens

  spent-pay :
      (tokens : ℕ) (rows : List Spend)
      → spent global_bucket w.today (pay w.today w.budget tokens rows)
        ≡ tokens + spent global_bucket w.today rows
  unfolding pay
  spent-pay tokens rows = paid (consume w.today w.budget none tokens 1 none rows) refl
    where
      paid :
          (o : Option (List Spend))
          → consume w.today w.budget none tokens 1 none rows ≡ o
          → spent global_bucket w.today (elim o [
            | none ↦ consume_overage w.today none tokens none rows
            | some paid_rows ↦ paid_rows
          ])
            ≡ tokens + spent global_bucket w.today rows
      paid none e =
          ground (arith, spent-consume_overage w.today none tokens none rows global_bucket w.today)
      paid (some paid_rows) e = ground (
        arith,
        (spent-consume w.today w.budget none tokens 1 none rows paid_rows e).0 global_bucket
            w.today,
      )

  charge-spent_today :
      (turn : AgentTurn A) (s : Session A R)
      → (spent_today (charge w turn s)
          ≡ turn.prompt_tokens + turn.completion_tokens + spent_today s)
        × (tokens_of (charge w turn s) ≡ turn.prompt_tokens + turn.completion_tokens + tokens_of s)
  unfolding charge
  charge-spent_today turn s =
      (ground (arith, spent-pay (turn.prompt_tokens + turn.completion_tokens) s.spend), omega arith)

  run_call-spent_today :
      (c : ToolCall A) (n : ℕ) (s : Session A R)
      → (spent_today (run_call w c n s).1 ≡ spent_today s)
        × (tokens_of (run_call w c n s).1 ≡ tokens_of s)
  unfolding run_call
  run_call-spent_today c n s = elim (Bool-cases (is_known w c)) [
    | inl known ↦ rw known (refl, refl)
    | inr strange ↦ rw strange (refl, refl)
  ]

  -- No turn uses more than `most` tokens.
  abbrev pub AtMost : ℕ → Type 0
  AtMost most =
      (conversation : List (Item A R)) (turn : AgentTurn A)
      → w.respond conversation ≡ some turn
      → turn.prompt_tokens + turn.completion_tokens ≤ most

  abbrev Accounted : ℕ → Session A R → Session A R → Type 0
  Accounted most s0 s =
      (spent_today s + tokens_of s0 ≡ spent_today s0 + tokens_of s)
      × ((spent_today s ≤ spent_today s0)
          ⊎ (spent_today s + estimated_tokens_per_turn ≤ w.budget + most))

  charge-Accounted :
      (most : ℕ) (s0 s : Session A R) (turn : AgentTurn A)
      → within_budget w.today w.budget none estimated_tokens_per_turn none s.spend ≡ true
      → turn.prompt_tokens + turn.completion_tokens ≤ most
      → Accounted most s0 s
      → Accounted most s0 (charge w turn s)
  charge-Accounted most s0 s turn rich le h = (
    ground (arith, charge-spent_today turn s, h.0),
    inr (
        ground (
          arith,
          charge-spent_today turn s,
          within_budget_lem w.today w.budget none estimated_tokens_per_turn none s.spend,
          rich,
          le,
        )),
  )

  run_call-Accounted :
      (most : ℕ) (s0 : Session A R) (c : ToolCall A) (n : ℕ) (s : Session A R)
      → Accounted most s0 s
      → Accounted most s0 (run_call w c n s).1
  run_call-Accounted most s0 c n s h = ground (arith, run_call-spent_today c n s, h)

  turn-Accounted :
      (most : ℕ) (s0 : Session A R) (ordinal : ℕ) (conversation : List (Item A R))
      (turn : AgentTurn A) (cs : List (ToolCall A)) (s : Session A R)
      → Accounted most s0 (charge w turn s)
      → RoundKeeps w
          (λ n. Accounted most s0)
          (λ outcome. Accounted most s0)
          (take_turn w turn cs ordinal conversation s)
  unfolding take_turn
  turn-Accounted most s0 ordinal conversation turn [] s h = h
  turn-Accounted most s0 ordinal conversation turn (c ∷ cs) s h =
      run_calls-keeps w (λ n. Accounted most s0) (λ outcome. Accounted most s0)
        (run_call-Accounted most s0) (c ∷ cs) ordinal conversation (charge w turn s) h

  round-Accounted :
      (most : ℕ) (s0 : Session A R)
      → AtMost most
      → (ordinal : ℕ) (conversation : List (Item A R)) (s : Session A R) → Accounted most s0 s
      → RoundKeeps w
          (λ n. Accounted most s0)
          (λ outcome. Accounted most s0)
          (round w ordinal conversation s)
  unfolding finish
  round-Accounted most s0 le ordinal conversation s h =
      round-keeps w (λ n. Accounted most s0) (λ outcome. Accounted most s0) ordinal conversation s
        (λ poor. h) (λ rich. h)
        (λ turn rich e.
          turn-Accounted most s0 ordinal conversation turn turn.tool_calls (ask conversation s)
            (charge-Accounted most s0 (ask conversation s) turn rich (le conversation turn e) h))

  -- If no turn of the model uses more than `most` tokens, run_loop adds to the tokens of the day
  -- exactly what it adds to the tokens of the run, and it leaves the tokens of the day as they were
  -- or, with the estimate of one turn, at most `most` past the budget.
  pub loop_spends :
      (most : ℕ)
      → AtMost most
      → (opening : String) (rounds : ℕ) (s : Session A R)
      → (spent_today (run_loop w opening rounds s).1 + tokens_of s
          ≡ spent_today s + tokens_of (run_loop w opening rounds s).1)
        × ((spent_today (run_loop w opening rounds s).1 ≤ spent_today s)
            ⊎ (spent_today (run_loop w opening rounds s).1 + estimated_tokens_per_turn
                ≤ w.budget + most))
  unfolding run_loop finish
  loop_spends most le opening rounds s =
      run_rounds-keeps w (λ left n. Accounted most s) (λ outcome. Accounted most s)
        (λ left. round-Accounted most s le) (λ ordinal s' h. h) rounds 0 (user opening ∷ []) s
        (refl, inl (omega arith))
