-- ===== src/Enrichment/Pipeline/Counts.antt =====
-- enrichment/pipeline.py: every article of a batch is counted once, and the model is called within the
-- run's budget.
use procuresignal.Prelude.{
  Bool, Option, String, arith, false, if◌then◌else◌, none, refl, not, some, true, ℕ, ◌+◌, ◌≡◌, ◌≤◌,
  ◌<◌, ◌>>=◌,
}
use procuresignal.Enrichment.Cache.{is_allowed, Codec}
use procuresignal.Enrichment.Pipeline.{
  Analysis, Answer, Metrics, Models, Processed, Setting, State, enriched, estimated_tokens,
  method_text, unenriched,
}
use procuresignal.Enrichment.Pipeline.Cascade.{
  account, add_processed, call_model, leave, read_answer, reserved, store, transition_raw,
  without_model,
}
use procuresignal.Enrichment.Policy.{Limits, RunBudget, record_usage, reserve}
use procuresignal.Retrieval.Dedup.{RawArticle}
use procuresignal.Enrichment.Router.{
  EnrichmentRoute, RouteDecision, cached, decide, deferred, deterministic, llm, skipped,
}

-- What a step gives, which must not raise.
abbrev pub Gives : {A : Type 0} → (A → Type 0) → Option A → Type 0
Gives P none = ⊥
Gives P (some a) = P a

pub Gives->>= :
    {A B : Type 0} (P : A → Type 0) (Q : B → Type 0) (m : Option A) (f : A → Option B)
    → Gives P m
    → ((a : A) → P a → Gives Q (f a))
    → Gives Q (m >>= f)
Gives->>= P Q none f h k = absurd h
Gives->>= P Q (some a) f h k = k a h

-- The articles that got an output, and all that are counted.
abbrev pub with_output : Metrics → ℕ
with_output m = m.cached + m.deterministic + m.llm

abbrev pub counted_in : Metrics → ℕ
counted_in m = with_output m + m.skipped + m.deferred + m.failures

abbrev pub has_output : EnrichmentRoute → Bool
has_output EnrichmentRoute.skipped = false
has_output EnrichmentRoute.deferred = false
has_output _ = true

-- A route without an output, or "failed".
abbrev pub lacks_output : Option EnrichmentRoute → Bool
lacks_output none = true
lacks_output (some route) = not (has_output route)

abbrev pub HasMethod : {Output : Type 0} → Answer Output → Type 0
HasMethod (enriched output method reason llm_used) = is_allowed (method_text method) ≡ true
HasMethod (unenriched route) = lacks_output route ≡ true

abbrev pub gives_no_output : Option RouteDecision → Bool
gives_no_output none = false
gives_no_output (some d) = not (has_output d.route)

-- An article that was for the model is deferred without it.
pub decide_deferred :
    (relevance confidence : ℕ) (policy : Limits) (available : Bool) (d : RouteDecision)
    → decide false relevance confidence policy available ≡ some d
    → d.route ≡ llm
    → gives_no_output (decide false relevance confidence policy false) ≡ true
unfolding decide
decide_deferred relevance confidence policy available d e r = ground (arith, e, r)

without_output : (Output : Type 0) → RouteDecision → Option (Answer Output)
without_output Output d = some (unenriched (some d.route))

to_answer :
    (Output : Type 0) (o : Option RouteDecision)
    → gives_no_output o ≡ true
    → Gives HasMethod (o >>= without_output Output)
unfolding without_output
to_answer Output none h = absurd (ground (arith, h))
to_answer Output (some d) h = h

module _ {Output Payload : Type 0} where
  -- After so many articles: each is counted, those saved have an output, and the reservations of the
  -- calls that were made are within the run's caps.
  abbrev pub IsCounted : ℕ → ℕ → State Output Payload → Type 0
  IsCounted n most s =
      (counted_in s.metrics + s.already_processed ≡ n)
      × (s.saved ≡ with_output s.metrics)
      × (s.metrics.llm_calls ≡ s.budget.calls_reserved)
      × (s.budget.calls_reserved ≤ s.budget.max_calls)
      × (s.budget.max_calls ≡ most)

  abbrev pub Answered : ℕ → ℕ → State Output Payload × Answer Output → Type 0
  Answered n most r = IsCounted n most r.0 × HasMethod r.1

-- A reservation that is granted is one more call, within the cap; a refused one changes nothing.
reserve_granted :
    (n : ℕ) (before_it b : RunBudget)
    → reserve n before_it ≡ some (b, true)
    → (b.calls_reserved ≡ before_it.calls_reserved + 1)
      × (b.max_calls ≡ before_it.max_calls)
      × (b.calls_reserved ≤ b.max_calls)
unfolding reserve
reserve_granted n before_it b e = (ground (arith, e), ground (arith, e), ground (arith, e))

reserve_answers : (n : ℕ) (before_it : RunBudget) → 0 < n → reserve n before_it ≡ none → ⊥
unfolding reserve
reserve_answers n before_it positive e = ground (arith, positive, e)

reserve_refused :
    (n : ℕ) (before_it b : RunBudget) → reserve n before_it ≡ some (b, false) → b ≡ before_it
unfolding reserve
reserve_refused n before_it b e = ground (arith, e)

module _ {Output Payload : Type 0} (codec : Codec Output Payload) (models : Models Output)
    (setting : Setting) (most : ℕ) where
  pub store-IsCounted :
      (n : ℕ) (method : EnrichmentRoute) (p : Processed Output) (s : State Output Payload)
      → has_output method ≡ true
      → IsCounted n most s
      → IsCounted (n + 1) most (store codec models setting method p s)
  unfolding store add_processed transition_raw
  store-IsCounted n cached p s o (c, v, l, w, m) = (
    ground (arith, c),
    ground (arith, v),
    ground (arith, l),
    ground (arith, w),
    ground (arith, m),
  )
  store-IsCounted n deterministic p s o (c, v, l, w, m) = (
    ground (arith, c),
    ground (arith, v),
    ground (arith, l),
    ground (arith, w),
    ground (arith, m),
  )
  store-IsCounted n llm p s o (c, v, l, w, m) = (
    ground (arith, c),
    ground (arith, v),
    ground (arith, l),
    ground (arith, w),
    ground (arith, m),
  )
  store-IsCounted n skipped p s o h = absurd (ground (arith, o))
  store-IsCounted n deferred p s o h = absurd (ground (arith, o))

  pub leave-IsCounted :
      (n id : ℕ) (route : Option EnrichmentRoute) (s : State Output Payload)
      → lacks_output route ≡ true
      → IsCounted n most s
      → IsCounted (n + 1) most (leave codec models setting id route s)
  unfolding leave transition_raw
  leave-IsCounted n id none s o h = (omega (arith, h.0), h.1, h.2, h.3, h.4)
  leave-IsCounted n id (some skipped) s o h = (omega (arith, h.0), h.1, h.2, h.3, h.4)
  leave-IsCounted n id (some deferred) s o h = (omega (arith, h.0), h.1, h.2, h.3, h.4)
  leave-IsCounted n id (some cached) s o h = absurd (ground (arith, o))
  leave-IsCounted n id (some deterministic) s o h = absurd (ground (arith, o))
  leave-IsCounted n id (some llm) s o h = absurd (ground (arith, o))

  -- The model is left out, as it was not to be had.
  pub without_model-HasMethod :
      (analysis : Analysis Output)
      → gives_no_output (decide false analysis.relevance analysis.confidence setting.policy false)
        ≡ true
      → Gives HasMethod (without_model codec models setting analysis)
  unfolding without_model without_output
  without_model-HasMethod analysis h =
      to_answer Output (decide false analysis.relevance analysis.confidence setting.policy false) h

  read_answer-HasMethod :
      (analysis : Analysis Output) (reason : String) (o : Option Output)
      → HasMethod (read_answer codec models setting analysis reason o)
  unfolding read_answer
  read_answer-HasMethod analysis reason (some output) = refl
  read_answer-HasMethod analysis reason none = by_confidence _
    where
      by_confidence :
          (b : Bool)
          → HasMethod (
              if b
              then enriched analysis.output deterministic "llm_failure_deterministic_fallback" false
              else unenriched none)
      by_confidence true = refl
      by_confidence false = refl

  call_model-Answered :
      (n : ℕ) (a : RawArticle String) (analysis : Analysis Output) (reason : String)
      (s : State Output Payload) (b : RunBudget)
      → IsCounted n most s
      → b.calls_reserved ≡ s.budget.calls_reserved + 1
      → b.max_calls ≡ s.budget.max_calls
      → b.calls_reserved ≤ b.max_calls
      → Answered n most
          (call_model codec models setting a analysis reason (record s { budget = b }))
  unfolding call_model account record_usage
  call_model-Answered n a analysis reason s b (c, v, l, w, m) one same within = (
    (c, v, omega (arith, l, one), within, omega (arith, m, same)),
    read_answer-HasMethod analysis reason _,
  )

  pub reserved-Answered :
      (n : ℕ) (a : RawArticle String) (analysis : Analysis Output) (reason : String)
      (s : State Output Payload) (granted : Option (RunBudget × Bool))
      → reserve (estimated_tokens a) s.budget ≡ granted
      → gives_no_output (decide false analysis.relevance analysis.confidence setting.policy false)
        ≡ true
      → IsCounted n most s
      → Gives (Answered n most) (reserved codec models setting a analysis reason s granted)
  unfolding reserved
  reserved-Answered n a analysis reason s none e d h =
      absurd (reserve_answers (estimated_tokens a) s.budget (ground arith) e)
  reserved-Answered n a analysis reason s (some (b, false)) e d h =
      let same = reserve_refused (estimated_tokens a) s.budget b e in
      Gives->>= HasMethod (Answered n most) (without_model codec models setting analysis)
        (λ answer. some (record s { budget = b }, answer)) (without_model-HasMethod analysis d)
        (λ answer k. (ground (arith, same, h), k))
  reserved-Answered n a analysis reason s (some (b, true)) e d h =
      let granted = reserve_granted (estimated_tokens a) s.budget b e in
      call_model-Answered n a analysis reason s b h granted.0 granted.1 granted.2
