-- ===== src/Agents/Loop/Tests.antt =====
-- shared/procuresignal/agents/loop.py: examples.
use mathlib.Core.Path.{subst}
use procuresignal.Prelude.{
  List, Option, [], arith, length, none, refl, some, ℕ, ◌+◌, ◌∷◌, ◌≡◌, ◌≤◌, ◌⊎◌,
}
use procuresignal.Agents.Loop.{
  AgentTurn, Item, Session, ToolCall, World, answered, estimated_tokens_per_turn, max_steps, pay,
  run_loop, running, step_ceiling,
}
use procuresignal.Agents.Loop.Ends.{IsEnded, KnownOnly, loop_ends}
use procuresignal.Agents.Loop.Spending.{AtMost, loop_spends, spent_today, tokens_of}
use procuresignal.Agents.Loop.Transcript.{IsRecorded, loop_transcript}
use procuresignal.Enrichment.Budget.{consume, within_budget}

abbrev lookup : ToolCall ℕ
lookup = record { call_id = "call-1"; name = "supplier_events"; arguments = 7 }

abbrev forbidden : ToolCall ℕ
forbidden = record { call_id = "call-2"; name = "delete_supplier"; arguments = 7 }

abbrev tool_turn : AgentTurn ℕ
tool_turn = record {
  text = none;
  tool_calls = lookup ∷ forbidden ∷ [];
  prompt_tokens = 900;
  completion_tokens = 100;
}

abbrev last_turn : AgentTurn ℕ
last_turn = record {
  text = some "switch suppliers";
  tool_calls = [];
  prompt_tokens = 1500;
  completion_tokens = 200;
}

-- It answers as soon as it has seen the result of a tool.
abbrev respond : List (Item ℕ ℕ) → Option (AgentTurn ℕ)
respond [] = some tool_turn
respond (opening ∷ []) = some tool_turn
respond (opening ∷ item ∷ items) = some last_turn

abbrev model_and_tools : World ℕ ℕ
model_and_tools = record {
  respond = respond;
  dispatch = λ earlier c. some (c.arguments + 1);
  tools = "supplier_events" ∷ [];
  today = 20;
  budget = 10000;
}

abbrev new_session : Session ℕ ℕ
new_session = record {
  status = running;
  failure_reason = none;
  step_count = 0;
  prompt_tokens = 0;
  completion_tokens = 0;
  steps = [];
  spend = [];
  asked = [];
  dispatched = [];
}

abbrev final : Session ℕ ℕ
final = (run_loop model_and_tools "analyse supplier 7" max_steps new_session).1

answers :
    (run_loop model_and_tools "analyse supplier 7" max_steps new_session).0
    ≡ answered "switch suppliers"
unfolding run_loop within_budget pay consume
answers = refl

only_lookup_dispatched : final.dispatched ≡ lookup ∷ []
unfolding run_loop within_budget pay consume
only_lookup_dispatched = refl

totals : (final.step_count ≡ 5) × (final.prompt_tokens ≡ 2400) × (length final.asked ≡ 2)
unfolding run_loop within_budget pay consume
totals = (refl, refl, refl)

ceiling_met :
    (run_loop model_and_tools "analyse supplier 7" 1 new_session).1.failure_reason
    ≡ some step_ceiling
unfolding run_loop within_budget pay consume
ceiling_met = refl

loop_ends_example :
    IsEnded model_and_tools running
      (run_loop model_and_tools "analyse supplier 7" max_steps new_session).0
      final
    × (length final.asked ≤ max_steps)
    × KnownOnly model_and_tools final.dispatched
loop_ends_example = loop_ends model_and_tools "analyse supplier 7" max_steps new_session refl refl

loop_transcript_example :
    IsRecorded model_and_tools
      (run_loop model_and_tools "analyse supplier 7" max_steps new_session).0
      final
loop_transcript_example =
    loop_transcript model_and_tools "analyse supplier 7" max_steps new_session refl refl refl

some-injective : {A : Type 0} (x y : A) → some x ≡ some y → x ≡ y
some-injective x y e = ground (arith, e)

turns-AtMost : AtMost model_and_tools 2000
turns-AtMost [] turn e =
    subst (λ (t : AgentTurn ℕ). t.prompt_tokens + t.completion_tokens ≤ 2000)
      (some-injective tool_turn turn e) (omega arith)
turns-AtMost (opening ∷ []) turn e =
    subst (λ (t : AgentTurn ℕ). t.prompt_tokens + t.completion_tokens ≤ 2000)
      (some-injective tool_turn turn e) (omega arith)
turns-AtMost (opening ∷ item ∷ items) turn e =
    subst (λ (t : AgentTurn ℕ). t.prompt_tokens + t.completion_tokens ≤ 2000)
      (some-injective last_turn turn e) (omega arith)

loop_spends_example :
    (spent_today model_and_tools final + 0
      ≡ spent_today model_and_tools new_session + tokens_of model_and_tools final)
    × ((spent_today model_and_tools final ≤ spent_today model_and_tools new_session)
        ⊎ (spent_today model_and_tools final + estimated_tokens_per_turn ≤ 12000))
loop_spends_example =
    loop_spends model_and_tools 2000 turns-AtMost "analyse supplier 7" max_steps new_session
