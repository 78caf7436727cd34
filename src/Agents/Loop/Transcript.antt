-- ===== src/Agents/Loop/Transcript.antt =====
-- shared/procuresignal/agents/loop.py: what the loop records of its calls.
-- A transcript, described by itself: the tools called one after the other, each with its reply, and
-- the calls among them that were dispatched. `told` is what becomes of one call, after those that were sent.
use mathlib.Core.Path.{subst}
use procuresignal.Prelude.{
  Bool-cases, List, Option, String, [], arith, if◌then◌else◌, inl, inr, none, refl, some, sym, ℕ,
  ◌++◌, ◌+◌, ◌∷◌, ◌≡◌, ◌⊎◌,
}
use procuresignal.Agents.Loop.{
  AgentStep, AgentTurn, Item, Outcome, Payload, Reply, Session, ToolCall, World, answered, ask,
  called, charge, failed, finish, is_known, model_message, raised, result_of, returned, round,
  run_call, run_loop, take_turn, unknown_tool, user,
}
use procuresignal.Agents.Loop.Laws.{RoundKeeps, round-keeps, run_calls-keeps, run_rounds-keeps}

module _ {A R : Type 0} (w : World A R) where
  abbrev pub told : List (ToolCall A) → ToolCall A → Reply R
  told sent c = if is_known w c then result_of c.name (w.dispatch sent c) else unknown_tool c.name

  abbrev pub step_of : ℕ → Option String → Payload A R → AgentStep A R
  step_of n tool_name payload = record { ordinal = n; tool_name = tool_name; payload = payload }

  pub data IsTranscript : ℕ → List (AgentStep A R) → List (ToolCall A) → Type 0 where
    nothing_yet : IsTranscript 0 [] []
    then_tool :
        (c : ToolCall A) (n : ℕ) (steps : List (AgentStep A R)) (sent : List (ToolCall A))
        → IsTranscript n steps sent
        → IsTranscript
            (n + 2)
            ((steps ++ step_of n (some c.name) (called c) ∷ [])
              ++ step_of (n + 1) (some c.name) (returned (told sent c)) ∷ [])
            (if is_known w c then sent ++ c ∷ [] else sent)

  abbrev IsKept : ℕ → Session A R → Type 0
  IsKept n s = IsTranscript n s.steps s.dispatched × (s.step_count ≡ n)

  -- The transcript of a completed run ends with the message that is the answer.
  abbrev pub IsRecorded : Outcome → Session A R → Type 0
  IsRecorded raised s = IsKept s.step_count s
  IsRecorded (answered text) s =
      ((s.status ≡ failed) × IsKept s.step_count s)
      ⊎ ((n : ℕ) × (steps : List (AgentStep A R)) × IsTranscript n steps s.dispatched
          × (s.steps ≡ steps ++ step_of n none (model_message text) ∷ [])
          × (s.step_count ≡ n + 1))

  kept : (n : ℕ) (s : Session A R) → IsKept n s → IsKept s.step_count s
  kept n s h = (subst (λ (k : ℕ). IsTranscript k s.steps s.dispatched) (sym h.1) h.0, refl)

  run_call-steps :
      (c : ToolCall A) (n : ℕ) (s : Session A R)
      → ((run_call w c n s).1.steps
          ≡ (s.steps ++ step_of n (some c.name) (called c) ∷ [])
            ++ step_of (n + 1) (some c.name) (returned (told s.dispatched c)) ∷ [])
        × ((run_call w c n s).1.dispatched
            ≡ (if is_known w c then s.dispatched ++ c ∷ [] else s.dispatched))
        × ((run_call w c n s).1.step_count ≡ n + 2)
  unfolding run_call
  run_call-steps c n s = elim (Bool-cases (is_known w c)) [
    | inl known ↦ rw known (refl, refl, omega arith)
    | inr strange ↦ rw strange (refl, refl, omega arith)
  ]

  same-IsTranscript :
      (n : ℕ) (xs ys : List (AgentStep A R)) (ds es : List (ToolCall A))
      → xs ≡ ys
      → ds ≡ es
      → IsTranscript n xs ds
      → IsTranscript n ys es
  same-IsTranscript n xs ys ds es e f t =
      subst (λ (sent : List (ToolCall A)). IsTranscript n ys sent) f
        (subst (λ (zs : List (AgentStep A R)). IsTranscript n zs ds) e t)

  run_call-IsKept :
      (c : ToolCall A) (n : ℕ) (s : Session A R) → IsKept n s → IsKept (n + 2) (run_call w c n s).1
  run_call-IsKept c n s h =
      let (e, f, g) = run_call-steps c n s in
      (
        same-IsTranscript (n + 2) _ _ _ _ (sym e) (sym f) (then_tool c n s.steps s.dispatched h.0),
        g,
      )

  turn-IsRecorded :
      (ordinal : ℕ) (conversation : List (Item A R)) (turn : AgentTurn A) (cs : List (ToolCall A))
      (s : Session A R)
      → IsKept ordinal s
      → RoundKeeps w IsKept IsRecorded (take_turn w turn cs ordinal conversation s)
  unfolding take_turn
  turn-IsRecorded ordinal conversation turn [] s h = inr (ordinal, s.steps, h.0, refl, refl)
  turn-IsRecorded ordinal conversation turn (c ∷ cs) s h =
      run_calls-keeps w IsKept IsRecorded run_call-IsKept (c ∷ cs) ordinal conversation
        (charge w turn s) h

  round-IsRecorded :
      (ordinal : ℕ) (conversation : List (Item A R)) (s : Session A R)
      → IsKept ordinal s
      → RoundKeeps w IsKept IsRecorded (round w ordinal conversation s)
  unfolding finish
  round-IsRecorded ordinal conversation s h =
      round-keeps w IsKept IsRecorded ordinal conversation s (λ poor. inl (refl, kept ordinal s h))
        (λ rich. kept ordinal s h)
        (λ turn rich e.
          turn-IsRecorded ordinal conversation turn turn.tool_calls (ask conversation s) h)

  -- However run_loop ends, the steps that it has recorded are a transcript: numbered from 0 without
  -- a gap, each tool call followed by its result, which is what the dispatcher returned, or that it
  -- failed, or that the tool is unknown; the known ones, in that order, are the calls that were
  -- dispatched, and step_count is the number of the last step plus one. If the loop ends with a text
  -- and the run has not failed, one last step records that text as the message of the model.
  pub loop_transcript :
      (opening : String) (rounds : ℕ) (s : Session A R)
      → s.steps ≡ []
      → s.dispatched ≡ []
      → s.step_count ≡ 0
      → IsRecorded (run_loop w opening rounds s).0 (run_loop w opening rounds s).1
  unfolding run_loop finish
  loop_transcript opening rounds s e f g =
      run_rounds-keeps w (λ left. IsKept) IsRecorded (λ left. round-IsRecorded)
        (λ ordinal s' h. inl (refl, kept ordinal s' h)) rounds 0 (user opening ∷ []) s
        (same-IsTranscript 0 _ _ _ _ (sym e) (sym f) nothing_yet, g)
