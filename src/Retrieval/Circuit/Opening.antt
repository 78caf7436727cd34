-- ===== src/Retrieval/Circuit/Opening.antt =====
-- shared/procuresignal/retrieval/audit.py: when a circuit opens.
use mathlib.Core.Path.{subst}
use procuresignal.Prelude.{
  Bool, Bool-cases, List, Option, String, [], all, arith, eq_iff, eq_refl, false, if◌then◌else◌,
  inl, inr, last?, length, none, not, refl, some, str_eq, suc, sym, true, ℕ, ◌+◌, ◌<◌, ◌∷◌, ◌≡◌,
  ◌≤◌,
}
use procuresignal.Prelude.Table.{updated}
use procuresignal.Retrieval.Circuit.{
  Circuit, allow_circuit_request, circuit_cooldown, circuit_of, circuit_state, circuit_threshold,
  claimable, closable, failed_once, of_source, open_, probed_by, record_circuit_failure,
  record_circuit_success, reset,
}
use procuresignal.Retrieval.Circuit.Laws.{
  circuit_of-claim_circuit_probe, circuit_of-record_circuit_failure,
  circuit_of-record_circuit_success, of_source-circuit_of, or_fresh,
}
use procuresignal.Retrieval.Circuit.Probe.{
  Call, allow_circuit_request-0, call, calls, failure, request, success,
}

-- When a source failed, in a list of the calls of all workers.
abbrev pub failure_times : String → List Call → List ℕ
failure_times source [] = []
failure_times source (failure s now ∷ cs) =
    let rest = failure_times source cs in if str_eq s source then now ∷ rest else rest
failure_times source (request s o now ∷ cs) = failure_times source cs
failure_times source (success s o ∷ cs) = failure_times source cs

-- Whether a call reports no success of the source.
abbrev pub is_no_success : String → Call → Bool
is_no_success source (success s o) = not (str_eq s source)
is_no_success source (request s o now) = true
is_no_success source (failure s now) = true

-- What the row holds after `n` failures, the last of them at `t`.
abbrev Failed : ℕ → ℕ → Option Circuit → Type 0
Failed n t none = ⊥
Failed n t (some c) =
    (n ≤ c.failure_count)
    × (circuit_threshold ≤ c.failure_count → c.open_until ≡ some (t + circuit_cooldown))

once :
    (source : String) (n t now : ℕ) (rows : List Circuit)
    → Failed n t (circuit_of source rows)
    → Failed (n + 1) now (circuit_of source (record_circuit_failure source now rows))
once source n t now rows h =
    rw (circuit_of-record_circuit_failure source source now rows)
      (rw (eq_refl source) (go (circuit_of source rows) h))
  where
    go :
        (o : Option Circuit)
        → Failed n t o
        → Failed (n + 1) now (some (failed_once now (or_fresh source o)))
    go none h = absurd h
    go (some c) h = ground (arith, h.0)

first :
    (source : String) (now : ℕ) (rows : List Circuit)
    → Failed 1 now (circuit_of source (record_circuit_failure source now rows))
first source now rows =
    rw (circuit_of-record_circuit_failure source source now rows)
      (rw (eq_refl source) (go (or_fresh source (circuit_of source rows))))
  where
    go : (c : Circuit) → Failed 1 now (some (failed_once now c))
    go c = ground arith

opened :
    (source : String) (n last now : ℕ) (owner : String) (rows : List Circuit)
    → circuit_threshold ≤ n
    → now < last + circuit_cooldown
    → Failed n last (circuit_of source rows)
    → (circuit_state source now rows ≡ open_)
      × (allow_circuit_request source owner now rows ≡ (rows, false))
unfolding circuit_state allow_circuit_request
opened source n last now owner rows many early h = go (circuit_of source rows) refl h
  where
    go :
        (o : Option Circuit)
        → circuit_of source rows ≡ o
        → Failed n last o
        → (circuit_state source now rows ≡ open_)
          × (allow_circuit_request source owner now rows ≡ (rows, false))
    go none e h = absurd h
    go (some c) e h = ground (arith, h.0, h.1)

probed_Failed :
    (source s o : String) (n t now : ℕ) (c : Option Circuit)
    → Failed n t c
    → Failed n t (updated (claimable s now) (probed_by o now) c)
probed_Failed source s o n t now none h = h
probed_Failed source s o n t now (some c) h = ground (arith, h.0, h.1)

request-Failed :
    (source s o : String) (n t now : ℕ) (rows : List Circuit)
    → Failed n t (circuit_of source rows)
    → Failed n t (circuit_of source (allow_circuit_request s o now rows).0)
request-Failed source s o n t now rows h = elim (allow_circuit_request-0 s o now rows) [
  | inl same ↦ rw same h
  | inr claimed ↦
      rw (claimed, circuit_of-claim_circuit_probe s o source now rows)
        (probed_Failed source s o n t now (circuit_of source rows) h)
]

closed_Failed :
    (source s o : String) (n t : ℕ) (c : Option Circuit)
    → elim c [ none ↦ true | some d ↦ of_source source d ] ≡ true
    → str_eq s source ≡ false
    → Failed n t c
    → Failed n t (updated (closable s o) reset c)
closed_Failed source s o n t none e d h = h
closed_Failed source s o n t (some c) e d h =
    ground (arith, h.0, h.1, eq_iff c.source_id source, eq_iff c.source_id s, eq_iff s source)

success-Failed :
    (source s o : String) (n t : ℕ) (rows : List Circuit)
    → str_eq s source ≡ false
    → Failed n t (circuit_of source rows)
    → Failed n t (circuit_of source (record_circuit_success s o rows).0)
success-Failed source s o n t rows d h =
    rw (circuit_of-record_circuit_success s o source rows)
      (closed_Failed source s o n t (circuit_of source rows) (of_source-circuit_of source rows) d h)

other_failure :
    (source s : String) (n t now : ℕ) (rows : List Circuit)
    → str_eq s source ≡ false
    → Failed n t (circuit_of source rows)
    → Failed n t (circuit_of source (record_circuit_failure s now rows))
other_failure source s n t now rows d h =
    rw (circuit_of-record_circuit_failure s source now rows, d) h

calls-Failed :
    (source : String) (n t last : ℕ) (cs : List Call) (rows : List Circuit)
    → all (is_no_success source) cs ≡ true
    → Failed n t (circuit_of source rows)
    → last? (t ∷ failure_times source cs) ≡ some last
    → Failed (n + length (failure_times source cs)) last (circuit_of source (calls cs rows))
unfolding calls call
calls-Failed source n t last [] rows ok h e = ground (arith, h)
calls-Failed source n t last (request s o now ∷ cs) rows ok h e =
    calls-Failed source n t last cs (allow_circuit_request s o now rows).0 ok
      (request-Failed source s o n t now rows h) e
calls-Failed source n t last (success s o ∷ cs) rows ok h e = elim (Bool-cases (str_eq s source)) [
  | inl own ↦ cc (rw own at ok)
  | inr d ↦
      calls-Failed source n t last cs (record_circuit_success s o rows).0 (rw d at ok)
        (success-Failed source s o n t rows d h) e
]
calls-Failed source n t last (failure s now ∷ cs) rows ok h e =
    elim (Bool-cases (str_eq s source)) [
      | inl own ↦ rw own (
          subst
            (λ k.
              Failed (n + suc (length (failure_times source cs))) last
                (circuit_of source (calls cs (record_circuit_failure k now rows))))
            (sym ((eq_iff s source).0 own))
            (ground (
              arith,
              calls-Failed source (n + 1) now last cs (record_circuit_failure source now rows) ok
                  (once source n t now rows h) (rw own at e),
            )))
      | inr d ↦ rw d (
          calls-Failed source n t last cs (record_circuit_failure s now rows) ok
            (other_failure source s n t now rows d h) (rw d at e))
    ]

first_of_calls :
    (source : String) (last : ℕ) (cs : List Call) (rows : List Circuit)
    → all (is_no_success source) cs ≡ true
    → last? (failure_times source cs) ≡ some last
    → Failed (length (failure_times source cs)) last (circuit_of source (calls cs rows))
unfolding calls call
first_of_calls source last [] rows ok e = cc
first_of_calls source last (request s o now ∷ cs) rows ok e =
    first_of_calls source last cs (allow_circuit_request s o now rows).0 ok e
first_of_calls source last (success s o ∷ cs) rows ok e = elim (Bool-cases (str_eq s source)) [
  | inl own ↦ cc (rw own at ok)
  | inr d ↦ first_of_calls source last cs (record_circuit_success s o rows).0 (rw d at ok) e
]
first_of_calls source last (failure s now ∷ cs) rows ok e = elim (Bool-cases (str_eq s source)) [
  | inl own ↦ rw own (
      subst
        (λ k.
          Failed (suc (length (failure_times source cs))) last
            (circuit_of source (calls cs (record_circuit_failure k now rows))))
        (sym ((eq_iff s source).0 own))
        (ground (
          arith,
          calls-Failed source 1 now last cs (record_circuit_failure source now rows) ok
              (first source now rows) (rw own at e),
        )))
  | inr d ↦ rw d (first_of_calls source last cs (record_circuit_failure s now rows) ok (rw d at e))
]

-- Whatever came before and whatever requests, probes and reports about other sources come between,
-- five or more failures of a source, with no report of its success between them or after, open its
-- circuit for the cooldown after the last one: no worker's request is let through, and asking
-- changes nothing.
pub five_failures_open :
    (source : String) (cs : List Call) (last now : ℕ) (owner : String) (rows : List Circuit)
    → all (is_no_success source) cs ≡ true
    → circuit_threshold ≤ length (failure_times source cs)
    → last? (failure_times source cs) ≡ some last
    → now < last + circuit_cooldown
    → (circuit_state source now (calls cs rows) ≡ open_)
      × (allow_circuit_request source owner now (calls cs rows) ≡ (calls cs rows, false))
five_failures_open source cs last now owner rows ok many e early =
    opened source (length (failure_times source cs)) last now owner (calls cs rows) many early
      (first_of_calls source last cs rows ok e)
