-- ===== src/Agents/Loop/Laws.antt =====
-- shared/procuresignal/agents/loop.py: a proof rule for the outer loop, and for the inner one.
use procuresignal.Prelude.{
  Bool-cases, List, Option, [], false, inl, inr, none, refl, some, suc, true, zero, ℕ, ◌+◌, ◌∷◌,
  ◌≡◌,
}
use procuresignal.Agents.Loop.{
  AgentTurn, Item, Outcome, Round, Session, ToolCall, World, answered, ask, budget_exhausted,
  estimated_tokens_per_turn, failed, finish, go_on, over, raised, round, run_call, run_calls,
  run_rounds, step_ceiling, take_turn,
}
use procuresignal.Enrichment.Budget.{within_budget}

module _ {A R : Type 0} (w : World A R) where
  -- What a round has to leave: the postcondition, or the invariant at the next ordinal.
  abbrev pub RoundKeeps :
      (ℕ → Session A R → Type 0) → (Outcome → Session A R → Type 0) → Round A R → Type 0
  RoundKeeps I Q (over outcome s) = Q outcome s
  RoundKeeps I Q (go_on ordinal conversation s) = I ordinal s

  pub run_rounds-over :
      (left ordinal : ℕ) (conversation : List (Item A R)) (s : Session A R) (outcome : Outcome)
      (s' : Session A R)
      → round w ordinal conversation s ≡ over outcome s'
      → run_rounds w (suc left) ordinal conversation s ≡ (outcome, s')
  unfolding run_rounds
  run_rounds-over left ordinal conversation s outcome s' e = rw (e, run_rounds)

  pub run_rounds-go_on :
      (left ordinal : ℕ) (conversation : List (Item A R)) (s : Session A R) (n : ℕ)
      (c : List (Item A R)) (s' : Session A R)
      → round w ordinal conversation s ≡ go_on n c s'
      → run_rounds w (suc left) ordinal conversation s ≡ run_rounds w left n c s'
  unfolding run_rounds
  run_rounds-go_on left ordinal conversation s n c s' e = rw (e, run_rounds)

  pub run_rounds-keeps :
      (I : ℕ → ℕ → Session A R → Type 0) (Q : Outcome → Session A R → Type 0)
      → ((left ordinal : ℕ) (conversation : List (Item A R)) (s : Session A R)
          → I (suc left) ordinal s
          → RoundKeeps (I left) Q (round w ordinal conversation s))
      → ((ordinal : ℕ) (s : Session A R)
          → I 0 ordinal s
          → Q (answered "") (finish failed (some step_ceiling) s))
      → (left ordinal : ℕ) (conversation : List (Item A R)) (s : Session A R) → I left ordinal s
      → Q (run_rounds w left ordinal conversation s).0 (run_rounds w left ordinal conversation s).1
  run_rounds-keeps I Q step out zero ordinal conversation s h = unfold run_rounds in out ordinal s h
  run_rounds-keeps I Q step out (suc left) ordinal conversation s h =
      next (round w ordinal conversation s) refl (step left ordinal conversation s h)
        (run_rounds-keeps I Q step out left)
    where
      next :
          (r : Round A R)
          → round w ordinal conversation s ≡ r
          → RoundKeeps (I left) Q r
          → ((n : ℕ) (c : List (Item A R)) (s' : Session A R)
              → I left n s'
              → Q (run_rounds w left n c s').0 (run_rounds w left n c s').1)
          → Q
              (run_rounds w (suc left) ordinal conversation s).0
              (run_rounds w (suc left) ordinal conversation s).1
      next (over outcome s') e k rec =
          rw (run_rounds-over left ordinal conversation s outcome s' e) k
      next (go_on n c s') e k rec =
          rw (run_rounds-go_on left ordinal conversation s n c s' e) (rec n c s' k)

  pub run_calls-keeps :
      (I : ℕ → Session A R → Type 0) (Q : Outcome → Session A R → Type 0)
      → ((c : ToolCall A) (ordinal : ℕ) (s : Session A R)
          → I ordinal s
          → I (ordinal + 2) (run_call w c ordinal s).1)
      → (cs : List (ToolCall A)) (ordinal : ℕ) (conversation : List (Item A R)) (s : Session A R)
      → I ordinal s
      → RoundKeeps I Q (run_calls w cs ordinal conversation s)
  unfolding run_calls
  run_calls-keeps I Q step [] ordinal conversation s h = h
  run_calls-keeps I Q step (c ∷ cs) ordinal conversation s h =
      run_calls-keeps I Q step cs (ordinal + 2) _ (run_call w c ordinal s).1 (step c ordinal s h)

  -- The ways through the body of the outer loop.
  pub round-keeps :
      (I : ℕ → Session A R → Type 0) (Q : Outcome → Session A R → Type 0) (ordinal : ℕ)
      (conversation : List (Item A R)) (s : Session A R)
      → (within_budget w.today w.budget none estimated_tokens_per_turn none s.spend ≡ false
          → Q (answered "") (finish failed (some budget_exhausted) s))
      → (within_budget w.today w.budget none estimated_tokens_per_turn none s.spend ≡ true
          → Q raised (ask conversation s))
      → ((turn : AgentTurn A)
          → within_budget w.today w.budget none estimated_tokens_per_turn none s.spend ≡ true
          → w.respond conversation ≡ some turn
          → RoundKeeps I Q
              (take_turn w turn turn.tool_calls ordinal conversation (ask conversation s)))
      → RoundKeeps I Q (round w ordinal conversation s)
  unfolding round
  round-keeps I Q ordinal conversation s dry crash go =
      elim (Bool-cases
        (within_budget w.today w.budget none estimated_tokens_per_turn none s.spend)) [
          | inr poor ↦ rw (poor, round) (dry poor)
          | inl rich ↦ rw (rich, round) (reply (w.respond conversation) refl rich)
        ]
    where
      reply :
          (o : Option (AgentTurn A))
          → w.respond conversation ≡ o
          → within_budget w.today w.budget none estimated_tokens_per_turn none s.spend ≡ true
          → RoundKeeps I Q (elim (w.respond conversation) as (λ _. Round A R) [
            | none ↦ over raised (ask conversation s)
            | some turn ↦ take_turn w turn turn.tool_calls ordinal conversation (ask conversation s)
          ])
      reply none e rich = rw e (crash rich)
      reply (some turn) e rich = rw e (go turn rich e)
