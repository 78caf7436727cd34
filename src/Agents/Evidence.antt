-- ===== src/Agents/Evidence.antt =====
-- shared/procuresignal/agents/analysis.py: which evidence a recommendation may cite.
-- A result of a tool is JSON. What `_store_recommendations` reads of an item is a `Proposal`: its
-- title and rationale as stripped texts, and the strings among the keys that it cites; an item that
-- is no object is `none`. The parsing of the model's text, the cut of the title, and the findings are
-- not modelled. A set of keys is a list.
pub mod Keys
pub mod Grounded
mod Tests
use procuresignal.Prelude.{
  Bool, List, Option, String, [], contains, false, if◌then◌else◌, keep, none, not, some, str_eq,
  true, ℕ, ◌++◌, ◌+◌, ◌∷◌,
}
use procuresignal.Agents.Loop.{
  AgentStep, Payload, Session, Status, World, answered, completed, evidence_check, failed, finish,
  max_steps, raised, record_step, returned, run_loop, tool_result, unparseable_output,
}

mutual
  pub data Json : Type 0 where
    scalar : Json
    text : String → Json
    array : Items → Json
    object : Members → Json

  pub data Items : Type 0 where
    no_items : Items
    item : Json → Items → Items

  pub data Members : Type 0 where
    no_members : Members
    member : String → Json → Members → Members

-- `payload.get`
unfoldable pub get : String → Members → Option Json
get key no_members = none
get key (member k value ms) = if str_eq k key then some value else get key ms

-- The key of an object, if it is a text that is not empty.
abbrev pub own_key : Option Json → List String
own_key (some (text key)) = if str_eq key "" then [] else key ∷ []
own_key _ = []

unfoldable mutual
  pub event_keys_in : Json → List String
  event_keys_in scalar = []
  event_keys_in (text t) = []
  event_keys_in (array items) = keys_of_items items
  event_keys_in (object ms) = own_key (get "event_key" ms) ++ keys_of_members ms

  pub keys_of_items : Items → List String
  keys_of_items no_items = []
  keys_of_items (item j items) = event_keys_in j ++ keys_of_items items

  pub keys_of_members : Members → List String
  keys_of_members no_members = []
  keys_of_members (member k value ms) = event_keys_in value ++ keys_of_members ms

pub record Proposal : Type 0 where
  pub title : String
  pub rationale : String
  pub cited : List String

pub record Recommendation : Type 0 where
  pub ordinal : ℕ
  pub title : String
  pub rationale : String
  pub evidence_event_keys : List String

abbrev pub kept_of : List String → Proposal → List String
kept_of verified p = keep (λ key. contains key verified) p.cited

abbrev pub dropped_of : List String → Proposal → List String
dropped_of verified p = keep (λ key. not (contains key verified)) p.cited

-- `_store_recommendations`: the rows that are added, from this ordinal on, and the citations dropped.
unfoldable pub store_recommendations :
    List String → List (Option Proposal) → ℕ → List Recommendation × List String
store_recommendations verified [] ordinal = ([], [])
store_recommendations verified (none ∷ ps) ordinal = store_recommendations verified ps ordinal
store_recommendations verified (some p ∷ ps) ordinal =
    let skipped = store_recommendations verified ps ordinal in
    let rest = store_recommendations verified ps (ordinal + 1) in
    if str_eq p.title "" then skipped else elim (kept_of verified p) [
      | [] ↦ (skipped.0, dropped_of verified p ++ skipped.1)
      | key ∷ keys ↦ (
        record {
          ordinal = ordinal;
          title = p.title;
          rationale = p.rationale;
          evidence_event_keys = key ∷ keys;
        }
            ∷ rest.0,
        dropped_of verified p ++ rest.1,
      )
    ]

abbrev pub is_completed : Status → Bool
is_completed completed = true
is_completed _ = false

module _ {A : Type 0} where
  abbrev pub keys_of_payload : Payload A Json → List String
  keys_of_payload (returned (tool_result r)) = event_keys_in r
  keys_of_payload _ = []

  -- What `bound_dispatch` has collected: the keys of every result that a tool returned.
  unfoldable pub verified_in : List (AgentStep A Json) → List String
  unfolding event_keys_in
  verified_in [] = []
  verified_in (s ∷ steps) = keys_of_payload s.payload ++ verified_in steps

  -- `analyse_supplier` after the loop; `parse` is `parse_analysis` with the items of its result.
  unfoldable pub conclude :
      (String → Option (List (Option Proposal)))
      → String
      → Session A Json
      → Session A Json × List Recommendation
  unfolding store_recommendations verified_in finish record_step
  conclude parse answer s =
      if is_completed s.status
      then elim (parse answer) [
        | none ↦ (finish failed (some unparseable_output) s, [])
        | some proposed ↦
            let verified = verified_in s.steps in
            let (stored, dropped) = store_recommendations verified proposed 0 in
            (record_step s.step_count (evidence_check verified dropped) none s, stored)
      ]
      else (s, [])

  -- `analyse_supplier` from the run on; a raised error leaves nothing stored.
  unfoldable pub analyse :
      World A Json
      → (String → Option (List (Option Proposal)))
      → String
      → Session A Json
      → Session A Json × List Recommendation
  unfolding conclude run_loop
  analyse w parse opening s =
      let (outcome, s') = run_loop w opening max_steps s in
      elim outcome [ raised ↦ (s', []) | answered answer ↦ conclude parse answer s' ]
