-- ===== src/Agents/Loop.antt =====
-- shared/procuresignal/agents/loop.py: the bounded loop.
-- The model client and the tool dispatcher are not part of the loop: they are the functions
-- `respond` and `dispatch` of a `World`, which may fail (`none`: they raise). `asked` and
-- `dispatched` log the calls that are made to them, and a dispatch may depend on the earlier ones.
-- The arguments and the results of tools are of any types. A message to the model about a tool is
-- told by its case (`Reply`), and its text is not modelled, nor is `finished_at`. Spend is the table
-- of Enrichment.Budget; no other worker writes it during the loop.
pub mod Laws
pub mod Ends
pub mod Transcript
pub mod Spending
mod Tests
use procuresignal.Prelude.{
  Bool, List, Option, String, [], any, if◌then◌else◌, none, some, str_eq, suc, zero, ℕ, ◌++◌, ◌+◌,
  ◌==◌, ◌∷◌,
}
use procuresignal.Enrichment.Budget.{Spend, consume, consume_overage, within_budget}

-- MAX_STEPS and ESTIMATED_TOKENS_PER_TURN
abbrev pub max_steps : ℕ
max_steps = 8

abbrev pub estimated_tokens_per_turn : ℕ
estimated_tokens_per_turn = 4000

pub record ToolCall (A : Type 0) : Type 0 where
  pub call_id : String
  pub name : String
  pub arguments : A

pub record AgentTurn (A : Type 0) : Type 0 where
  pub text : Option String
  pub tool_calls : List (ToolCall A)
  pub prompt_tokens : ℕ
  pub completion_tokens : ℕ

-- What `_run_tool` stores and tells the model.
pub data Reply (R : Type 0) : Type 0 where
  unknown_tool : String → Reply R
  tool_failed : String → Reply R
  tool_result : R → Reply R

-- An entry of the conversation.
pub data Item (A R : Type 0) : Type 0 where
  user : String → Item A R
  function_call : ToolCall A → Item A R
  function_call_output : (call_id : String) → Reply R → Item A R

-- The payload of an AgentStep; its constructor is the kind.
pub data Payload (A R : Type 0) : Type 0 where
  model_message : String → Payload A R
  called : ToolCall A → Payload A R
  returned : Reply R → Payload A R
  evidence_check : (verified dropped : List String) → Payload A R

pub record AgentStep (A R : Type 0) : Type 0 where
  pub ordinal : ℕ
  pub tool_name : Option String
  pub payload : Payload A R

pub data Status : Type 0 where
  running completed failed : Status

pub data Reason : Type 0 where
  budget_exhausted step_ceiling unparseable_output : Reason

-- The run with its steps, the spend table, and the calls made to the outside.
pub record Session (A R : Type 0) : Type 0 where
  pub status : Status
  pub failure_reason : Option Reason
  pub step_count : ℕ
  pub prompt_tokens : ℕ
  pub completion_tokens : ℕ
  pub steps : List (AgentStep A R)
  pub spend : List Spend
  pub asked : List (List (Item A R))
  pub dispatched : List (ToolCall A)

-- How a loop ends: with its text, or by an exception of the client.
pub data Outcome : Type 0 where
  answered : String → Outcome
  raised : Outcome

pub record World (A R : Type 0) : Type 0 where
  pub respond : List (Item A R) → Option (AgentTurn A)
  pub dispatch : (earlier : List (ToolCall A)) → ToolCall A → Option R
  pub tools : List String
  pub today : ℕ
  pub budget : ℕ

-- What one round of the outer loop comes to: the loop ends, or it goes on.
pub data Round (A R : Type 0) : Type 0 where
  over : Outcome → Session A R → Round A R
  go_on : (ordinal : ℕ) → List (Item A R) → Session A R → Round A R

-- `consume`, and `consume_overage` where it refuses.
unfoldable pub pay : ℕ → ℕ → ℕ → List Spend → List Spend
pay today budget tokens rows = elim (consume today budget none tokens 1 none rows) [
  | none ↦ consume_overage today none tokens none rows
  | some paid ↦ paid
]

abbrev pub result_of : {R : Type 0} → String → Option R → Reply R
result_of name none = tool_failed name
result_of name (some r) = tool_result r

abbrev pub text_of : Option String → String
text_of none = ""
text_of (some text) = text

module _ {A R : Type 0} where
  unfoldable pub record_step : ℕ → Payload A R → Option String → Session A R → Session A R
  record_step ordinal payload tool_name s = record s {
    steps = s.steps ++ record { ordinal = ordinal; tool_name = tool_name; payload = payload } ∷ [];
    step_count = ordinal + 1;
  }

  unfoldable pub finish : Status → Option Reason → Session A R → Session A R
  finish status reason s = record s { status = status; failure_reason = reason }

  unfoldable pub charge : World A R → AgentTurn A → Session A R → Session A R
  charge w turn s = record s {
    prompt_tokens = s.prompt_tokens + turn.prompt_tokens;
    completion_tokens = s.completion_tokens + turn.completion_tokens;
    spend =
        if turn.prompt_tokens + turn.completion_tokens == 0
        then s.spend
        else pay w.today w.budget (turn.prompt_tokens + turn.completion_tokens) s.spend;
  }

  abbrev pub is_known : World A R → ToolCall A → Bool
  is_known w c = any (λ name. str_eq name c.name) w.tools

  -- `_run_tool`: the reply, and the session with the dispatch that was made.
  unfoldable pub run_tool : World A R → ToolCall A → Session A R → Reply R × Session A R
  run_tool w c s =
      if is_known w c
      then (
        result_of c.name (w.dispatch s.dispatched c),
        record s { dispatched = s.dispatched ++ c ∷ [] },
      )
      else (unknown_tool c.name, s)

  -- The body of the inner loop: what the session has after the call.
  unfoldable pub run_call : World A R → ToolCall A → ℕ → Session A R → Reply R × Session A R
  unfolding record_step run_tool
  run_call w c ordinal s =
      let (reply, s1) = run_tool w c (record_step ordinal (called c) (some c.name) s) in
      (reply, record_step (ordinal + 1) (returned reply) (some c.name) s1)

  -- The inner loop, over the calls of a turn.
  unfoldable pub run_calls :
      World A R → List (ToolCall A) → ℕ → List (Item A R) → Session A R → Round A R
  unfolding run_call
  run_calls w [] ordinal conversation s = go_on ordinal conversation s
  run_calls w (c ∷ cs) ordinal conversation s =
      let (reply, s1) = run_call w c ordinal s in
      run_calls w cs (ordinal + 2)
        (conversation ++ function_call c ∷ function_call_output c.call_id reply ∷ []) s1

  -- What the body of the outer loop does with the model's turn.
  unfoldable pub take_turn :
      World A R → AgentTurn A → List (ToolCall A) → ℕ → List (Item A R) → Session A R → Round A R
  unfolding charge run_calls finish record_step
  take_turn w turn [] ordinal conversation s = over (answered (text_of turn.text)) (
      finish completed none
        (record_step ordinal (model_message (text_of turn.text)) none (charge w turn s)))
  take_turn w turn (c ∷ cs) ordinal conversation s =
      run_calls w (c ∷ cs) ordinal conversation (charge w turn s)

  abbrev pub ask : List (Item A R) → Session A R → Session A R
  ask conversation s = record s { asked = s.asked ++ conversation ∷ [] }

  -- The body of the outer loop.
  unfoldable pub round : World A R → ℕ → List (Item A R) → Session A R → Round A R
  unfolding take_turn finish
  round w ordinal conversation s =
      if within_budget w.today w.budget none estimated_tokens_per_turn none s.spend
      then elim (w.respond conversation) [
        | none ↦ over raised (ask conversation s)
        | some turn ↦ take_turn w turn turn.tool_calls ordinal conversation (ask conversation s)
      ]
      else over (answered "") (finish failed (some budget_exhausted) s)

  -- The outer loop, by recursion on the rounds that are left.
  unfoldable pub run_rounds :
      World A R → ℕ → ℕ → List (Item A R) → Session A R → Outcome × Session A R
  unfolding round finish
  run_rounds w zero ordinal conversation s = (answered "", finish failed (some step_ceiling) s)
  run_rounds w (suc left) ordinal conversation s = elim (round w ordinal conversation s) [
    | over outcome s' ↦ (outcome, s')
    | go_on ordinal' conversation' s' ↦ run_rounds w left ordinal' conversation' s'
  ]

  unfoldable pub run_loop : World A R → String → ℕ → Session A R → Outcome × Session A R
  unfolding run_rounds
  run_loop w opening rounds s = run_rounds w rounds 0 (user opening ∷ []) s
