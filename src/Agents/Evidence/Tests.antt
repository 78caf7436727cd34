-- ===== src/Agents/Evidence/Tests.antt =====
-- shared/procuresignal/agents/analysis.py: examples.
use procuresignal.Prelude.{
  List, Option, String, [], contains, none, refl, some, true, ℕ, ◌↔◌, ◌∷◌, ◌≡◌,
}
use procuresignal.Agents.Evidence.{
  Json, Proposal, analyse, array, event_keys_in, get, item, member, no_items, no_members, object,
  scalar, text,
}
use procuresignal.Agents.Evidence.Grounded.{IsSupported, recommendations_grounded}
use procuresignal.Agents.Evidence.Keys.{Cites, event_keys_in_iff}
use procuresignal.Agents.Loop.{AgentTurn, Item, Session, ToolCall, World, pay, running}
use procuresignal.Enrichment.Budget.{consume, within_budget}

abbrev impact : Json
impact = object (
    member "drivers"
      (array (
        item (object (member "event_key" (text "ev-1") (member "note" scalar no_members)))
          (item (object (member "event_key" (text "") no_members)) no_items)))
      no_members)

abbrev query : ToolCall ℕ
query = record { call_id = "c1"; name = "get_supplier_impact"; arguments = 3 }

abbrev tool_turn : AgentTurn ℕ
tool_turn = record {
  text = none;
  tool_calls = query ∷ [];
  prompt_tokens = 100;
  completion_tokens = 10;
}

abbrev last_turn : AgentTurn ℕ
last_turn = record {
  text = some "reply";
  tool_calls = [];
  prompt_tokens = 100;
  completion_tokens = 10;
}

abbrev respond : List (Item ℕ Json) → Option (AgentTurn ℕ)
respond [] = some tool_turn
respond (opening ∷ []) = some tool_turn
respond (opening ∷ entry ∷ entries) = some last_turn

abbrev analyst : World ℕ Json
analyst = record {
  respond = respond;
  dispatch = λ earlier c. some impact;
  tools = "get_supplier_impact" ∷ [];
  today = 20;
  budget = 100000;
}

abbrev parsed : String → Option (List (Option Proposal))
parsed answer = some (
    some (record { title = "Second source"; rationale = ""; cited = "ev-1" ∷ "ev-9" ∷ [] })
    ∷ none
    ∷ some (record { title = "Invented"; rationale = ""; cited = "ev-9" ∷ [] })
    ∷ [])

abbrev new_run : Session ℕ Json
new_run = record {
  status = running;
  failure_reason = none;
  step_count = 0;
  prompt_tokens = 0;
  completion_tokens = 0;
  steps = [];
  spend = [];
  asked = [];
  dispatched = [];
}

one_supported :
    (analyse analyst parsed "assess" new_run).1
    ≡ record {
      ordinal = 0;
      title = "Second source";
      rationale = "";
      evidence_event_keys = "ev-1" ∷ [];
    }
      ∷ []
unfolding analyse within_budget pay consume get
one_supported = refl

recommendations_grounded_example : IsSupported (analyse analyst parsed "assess" new_run)
recommendations_grounded_example = recommendations_grounded analyst parsed "assess" new_run

event_keys_in_iff_example : (contains "ev-1" (event_keys_in impact) ≡ true) ↔ Cites "ev-1" impact
event_keys_in_iff_example = event_keys_in_iff "ev-1" impact
