-- ===== src/Agents/Evidence/Grounded.antt =====
-- shared/procuresignal/agents/analysis.py: the evidence of what is stored.
use procuresignal.Prelude.{
  All, Bool, List, Option, String, [], arith, contains, contains-append, false, if◌then◌else◌, inl,
  inr, is_empty, keep, none, refl, some, str_eq, sym, true, ℕ, ◌++◌, ◌+◌, ◌∙◌, ◌∷◌, ◌≡◌, ◌⊎◌,
}
use procuresignal.Agents.Evidence.{
  Json, Proposal, Recommendation, analyse, conclude, dropped_of, is_completed, kept_of,
  keys_of_payload, store_recommendations, verified_in,
}
use procuresignal.Agents.Evidence.Keys.{Cites, either, event_keys_in-Cites}
use procuresignal.Agents.Loop.{
  AgentStep, Outcome, Payload, Session, Status, World, answered, called, completed, evidence_check,
  failed, finish, max_steps, model_message, raised, record_step, returned, run_loop, running,
  tool_failed, tool_result, unknown_tool, unparseable_output,
}

abbrev pub IsNumbered : ℕ → List Recommendation → Type 0
IsNumbered n [] = Unit
IsNumbered n (r ∷ rs) = (r.ordinal ≡ n) × IsNumbered (n + 1) rs

abbrev AreVerified : List String → Recommendation → Type 0
AreVerified verified r =
    (is_empty r.evidence_event_keys ≡ false)
    × All (λ key. contains key verified ≡ true) r.evidence_event_keys

All-keep : (p : String → Bool) (xs : List String) → All (λ x. p x ≡ true) (keep p xs)
All-keep p [] = tt
All-keep p (x ∷ xs) = with_head (p x) refl (All-keep p xs)
  where
    with_head :
        (b : Bool)
        → p x ≡ b
        → All (λ y. p y ≡ true) (keep p xs)
        → All (λ y. p y ≡ true) (if b then x ∷ keep p xs else keep p xs)
    with_head true e rest = (e, rest)
    with_head false e rest = rest

store_recommendations-AreVerified :
    (verified : List String) (ps : List (Option Proposal)) (n : ℕ)
    → All (AreVerified verified) (store_recommendations verified ps n).0
      × IsNumbered n (store_recommendations verified ps n).0
unfolding store_recommendations
store_recommendations-AreVerified verified [] n = (tt, tt)
store_recommendations-AreVerified verified (none ∷ ps) n =
    store_recommendations-AreVerified verified ps n
store_recommendations-AreVerified verified (some p ∷ ps) n =
    by_title (str_eq p.title "") (kept_of verified p)
      (All-keep (λ key. contains key verified) p.cited)
      (store_recommendations-AreVerified verified ps n)
      (store_recommendations-AreVerified verified ps (n + 1))
  where
    Stored : List Recommendation × List String → Type 0
    Stored r = All (AreVerified verified) r.0 × IsNumbered n r.0

    by_title :
        (untitled : Bool) (kept : List String)
        → All (λ key. contains key verified ≡ true) kept
        → All (AreVerified verified) (store_recommendations verified ps n).0
          × IsNumbered n (store_recommendations verified ps n).0
        → All (AreVerified verified) (store_recommendations verified ps (n + 1)).0
          × IsNumbered (n + 1) (store_recommendations verified ps (n + 1)).0
        → Stored (
            if untitled then store_recommendations verified ps n else elim kept [
              | [] ↦ (
                (store_recommendations verified ps n).0,
                dropped_of verified p ++ (store_recommendations verified ps n).1,
              )
              | key ∷ keys ↦ (
                record {
                  ordinal = n;
                  title = p.title;
                  rationale = p.rationale;
                  evidence_event_keys = key ∷ keys;
                }
                    ∷ (store_recommendations verified ps (n + 1)).0,
                dropped_of verified p ++ (store_recommendations verified ps (n + 1)).1,
              )
            ])
    by_title true kept k same next_one = same
    by_title false [] k same next_one = same
    by_title false (key ∷ keys) k same next_one = (((refl, k), next_one.0), (refl, next_one.1))

module _ {A : Type 0} where
  -- A result that a tool returned cites the key.
  abbrev pub IsCitedBy : String → Payload A Json → Type 0
  IsCitedBy key (returned (tool_result r)) = Cites key r
  IsCitedBy key _ = ⊥

  abbrev pub FromTools : String → List (AgentStep A Json) → Type 0
  FromTools key [] = ⊥
  FromTools key (s ∷ steps) = IsCitedBy key s.payload ⊎ FromTools key steps

  -- The recommendation cites something, and only keys that a tool returned in these steps.
  abbrev pub IsGrounded : List (AgentStep A Json) → Recommendation → Type 0
  IsGrounded steps r =
      (is_empty r.evidence_event_keys ≡ false)
      × All (λ key. FromTools key steps) r.evidence_event_keys

  keys_of_payload-IsCitedBy :
      (key : String) (p : Payload A Json)
      → contains key (keys_of_payload p) ≡ true
      → IsCitedBy key p
  keys_of_payload-IsCitedBy key (returned (tool_result r)) h = event_keys_in-Cites key r h
  keys_of_payload-IsCitedBy key (returned (unknown_tool n)) h = ground (arith, h)
  keys_of_payload-IsCitedBy key (returned (tool_failed n)) h = ground (arith, h)
  keys_of_payload-IsCitedBy key (model_message m) h = ground (arith, h)
  keys_of_payload-IsCitedBy key (called c) h = ground (arith, h)
  keys_of_payload-IsCitedBy key (evidence_check v d) h = ground (arith, h)

  verified_in-FromTools :
      (key : String) (steps more : List (AgentStep A Json))
      → contains key (verified_in steps) ≡ true
      → FromTools key (steps ++ more)
  unfolding verified_in
  verified_in-FromTools key [] more h = ground (arith, h)
  verified_in-FromTools key (s ∷ steps) more h =
      elim (either _ _
        (sym (contains-append key (keys_of_payload s.payload) (verified_in steps)) ∙ h)) [
          | inl now ↦ inl (keys_of_payload-IsCitedBy key s.payload now)
          | inr later ↦ inr (verified_in-FromTools key steps more later)
        ]

  All-FromTools :
      (steps more : List (AgentStep A Json)) (keys : List String)
      → All (λ key. contains key (verified_in steps) ≡ true) keys
      → All (λ key. FromTools key (steps ++ more)) keys
  All-FromTools steps more [] h = tt
  All-FromTools steps more (key ∷ keys) (h, hs) =
      (verified_in-FromTools key steps more h, All-FromTools steps more keys hs)

  All-IsGrounded :
      (steps more : List (AgentStep A Json)) (rs : List Recommendation)
      → All (AreVerified (verified_in steps)) rs
      → All (IsGrounded (steps ++ more)) rs
  All-IsGrounded steps more [] h = tt
  All-IsGrounded steps more (r ∷ rs) (h, hs) =
      ((h.0, All-FromTools steps more r.evidence_event_keys h.1), All-IsGrounded steps more rs hs)

  abbrev pub IsSupported : Session A Json × List Recommendation → Type 0
  IsSupported (s, rs) =
      All (IsGrounded s.steps) rs
      × IsNumbered 0 rs
      × ((is_empty rs ≡ true) ⊎ (s.status ≡ completed))

  conclude-IsSupported :
      (parse : String → Option (List (Option Proposal))) (answer : String) (s : Session A Json)
      → IsSupported (conclude parse answer s)
  unfolding conclude
  conclude-IsSupported parse answer s = by_status s.status refl (parse answer)
    where
      by_status :
          (status : Status)
          → s.status ≡ status
          → (o : Option (List (Option Proposal)))
          → IsSupported (
              if is_completed status
              then elim o [
                | none ↦ (finish failed (some unparseable_output) s, [])
                | some proposed ↦ (
                  record_step s.step_count
                      (evidence_check
                        (verified_in s.steps)
                        (store_recommendations (verified_in s.steps) proposed 0).1)
                      none
                      s,
                  (store_recommendations (verified_in s.steps) proposed 0).0,
                )
              ]
              else (s, []))
      by_status running e o = (tt, tt, inl refl)
      by_status failed e o = (tt, tt, inl refl)
      by_status completed e none = (tt, tt, inl refl)
      by_status completed e (some proposed) =
          let (verified, numbered) =
            store_recommendations-AreVerified (verified_in s.steps) proposed 0 in
          (All-IsGrounded s.steps _ _ verified, numbered, inr e)

  -- Whatever the model and the tools answer and however its text is parsed, every recommendation
  -- that analyse_supplier stores cites at least one key, and each key that it cites is the event_key
  -- of an object in a result that a tool returned, which stands in the transcript of the run. The
  -- recommendations are numbered from 0 without a gap, and only a completed run has any.
  pub recommendations_grounded :
      (w : World A Json) (parse : String → Option (List (Option Proposal))) (opening : String)
      (s : Session A Json)
      → IsSupported (analyse w parse opening s)
  unfolding analyse
  recommendations_grounded w parse opening s =
      by_outcome (run_loop w opening max_steps s).0 (run_loop w opening max_steps s).1
    where
      by_outcome :
          (outcome : Outcome) (s' : Session A Json)
          → IsSupported
              (elim outcome [ raised ↦ (s', []) | answered answer ↦ conclude parse answer s' ])
      by_outcome raised s' = (tt, tt, inl refl)
      by_outcome (answered answer) s' = conclude-IsSupported parse answer s'
