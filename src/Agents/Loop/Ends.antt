-- ===== src/Agents/Loop/Ends.antt =====
-- shared/procuresignal/agents/loop.py: how the loop ends, and what it asks of the outside.
use mathlib.Core.Path.{subst}
use procuresignal.Prelude.{
  All, All-append, Bool-cases, List, String, [], arith, inl, inr, length, length-append, none, refl,
  some, suc, sym, true, ℕ, ◌+◌, ◌∙◌, ◌∷◌, ◌≡◌, ◌≤◌, ◌⊎◌,
}
use procuresignal.Agents.Loop.{
  AgentTurn, Item, Outcome, Session, Status, ToolCall, World, answered, ask, budget_exhausted,
  charge, completed, failed, finish, is_known, raised, round, run_call, run_loop, step_ceiling,
  take_turn, user,
}
use procuresignal.Agents.Loop.Laws.{RoundKeeps, round-keeps, run_calls-keeps, run_rounds-keeps}

module _ {A R : Type 0} (w : World A R) where
  -- A raised error leaves the run as it was; otherwise it is completed, or failed for a reason
  -- and without an answer.
  abbrev pub IsEnded : Status → Outcome → Session A R → Type 0
  IsEnded was raised s = s.status ≡ was
  IsEnded was (answered text) s =
      ((s.status ≡ completed) × (s.failure_reason ≡ none))
      ⊎ ((text ≡ "")
          × (s.status ≡ failed)
          × ((s.failure_reason ≡ some budget_exhausted) ⊎ (s.failure_reason ≡ some step_ceiling)))

  abbrev pub KnownOnly : List (ToolCall A) → Type 0
  KnownOnly cs = All (λ c. is_known w c ≡ true) cs

  run_call-KnownOnly :
      (c : ToolCall A) (ordinal : ℕ) (s : Session A R)
      → KnownOnly s.dispatched
      → KnownOnly (run_call w c ordinal s).1.dispatched
  unfolding run_call
  run_call-KnownOnly c ordinal s h = elim (Bool-cases (is_known w c)) [
    | inl known ↦
        rw known (All-append (λ c. is_known w c ≡ true) s.dispatched (c ∷ []) h (known, tt))
    | inr strange ↦ rw strange h
  ]

  run_call-KnownOnly-length :
      (c : ToolCall A) (ordinal : ℕ) (s : Session A R)
      → ((run_call w c ordinal s).1.status ≡ s.status)
        × (length (run_call w c ordinal s).1.asked ≡ length s.asked)
  unfolding run_call
  run_call-KnownOnly-length c ordinal s = ground arith

  abbrev Running : Status → ℕ → ℕ → ℕ → Session A R → Type 0
  Running was limit left ordinal s =
      (s.status ≡ was) × (length s.asked + left ≤ limit) × KnownOnly s.dispatched

  abbrev Over : Status → ℕ → Outcome → Session A R → Type 0
  Over was limit outcome s =
      IsEnded was outcome s × (length s.asked ≤ limit) × KnownOnly s.dispatched

  run_call-Running :
      (was : Status) (limit left : ℕ) (c : ToolCall A) (ordinal : ℕ) (s : Session A R)
      → Running was limit left ordinal s
      → Running was limit left (ordinal + 2) (run_call w c ordinal s).1
  run_call-Running was limit left c ordinal s h = (
    (run_call-KnownOnly-length c ordinal s).0 ∙ h.0,
    ground (arith, run_call-KnownOnly-length c ordinal s, h),
    run_call-KnownOnly c ordinal s h.2,
  )

  turn-Running :
      (was : Status) (limit left ordinal : ℕ) (conversation : List (Item A R)) (turn : AgentTurn A)
      (cs : List (ToolCall A)) (s : Session A R)
      → Running was limit left ordinal s
      → RoundKeeps w
          (Running was limit left)
          (Over was limit)
          (take_turn w turn cs ordinal conversation s)
  unfolding take_turn
  turn-Running was limit left ordinal conversation turn [] s h =
      (inl (refl, refl), ground (arith, h), h.2)
  turn-Running was limit left ordinal conversation turn (c ∷ cs) s h =
      run_calls-keeps w (Running was limit left) (Over was limit) (run_call-Running was limit left)
        (c ∷ cs) ordinal conversation (charge w turn s) h

  round-Running :
      (was : Status) (limit left ordinal : ℕ) (conversation : List (Item A R)) (s : Session A R)
      → Running was limit (suc left) ordinal s
      → RoundKeeps w (Running was limit left) (Over was limit) (round w ordinal conversation s)
  unfolding finish
  round-Running was limit left ordinal conversation s h =
      round-keeps w (Running was limit left) (Over was limit) ordinal conversation s
        (λ poor. (inr (refl, refl, inl refl), ground (arith, h), h.2))
        (λ rich. (h.0, ground (arith, h, length-append s.asked (conversation ∷ [])), h.2))
        (λ turn rich e.
          turn-Running was limit left ordinal conversation turn turn.tool_calls (ask conversation s)
            (h.0, ground (arith, h, length-append s.asked (conversation ∷ [])), h.2))

  -- From its was, run_loop ends in one of three ways: the error of the client is raised and the
  -- run keeps its status; or the run is completed without a failure reason; or the text is empty and
  -- the run has failed, because the budget was exhausted or the step ceiling was met. It asks the
  -- model at most max_steps times, and every tool call that it dispatches names a known tool.
  pub loop_ends :
      (opening : String) (rounds : ℕ) (s : Session A R)
      → s.asked ≡ []
      → s.dispatched ≡ []
      → IsEnded s.status (run_loop w opening rounds s).0 (run_loop w opening rounds s).1
        × (length (run_loop w opening rounds s).1.asked ≤ rounds)
        × KnownOnly (run_loop w opening rounds s).1.dispatched
  unfolding run_loop finish
  loop_ends opening rounds s e f =
      run_rounds-keeps w (Running s.status rounds) (Over s.status rounds)
        (round-Running s.status rounds)
        (λ ordinal s' h. (inr (refl, refl, inr refl), ground (arith, h), h.2)) rounds 0
        (user opening ∷ []) s (refl, rw e (omega arith), subst KnownOnly (sym f) tt)
