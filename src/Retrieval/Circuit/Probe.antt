-- ===== src/Retrieval/Circuit/Probe.antt =====
-- shared/procuresignal/retrieval/audit.py: the probe of an open circuit is held by one worker.
use procuresignal.Prelude.{
  Bool, Bool-cases, List, Option, String, [], all, arith, eq_iff, false, inl, inr, leb, none, not,
  refl, some, str_eq, true, ℕ, ◌&&◌, ◌||◌, ◌∷◌, ◌≡◌, ◌≤◌, ◌⊎◌,
}
use procuresignal.Prelude.Table.{updated}
use procuresignal.Retrieval.Circuit.{
  Circuit, allow_circuit_request, circuit_of, circuit_threshold, claim_circuit_probe, claimable,
  closable, of_source, probed_by, record_circuit_failure, record_circuit_success, reset,
}
use procuresignal.Retrieval.Circuit.Laws.{
  HasDistinctSources, circuit_of-claim_circuit_probe, circuit_of-record_circuit_failure,
  circuit_of-record_circuit_success, failure-HasDistinctSources, of_source-circuit_of,
  request-HasDistinctSources, rowcount-claimable, success-HasDistinctSources,
}

-- An operation of some worker on the table.
pub data Call : Type 0 where
  request : (source owner : String) (now : ℕ) → Call
  success : (source owner : String) → Call
  failure : (source : String) (now : ℕ) → Call

unfoldable pub call : Call → List Circuit → List Circuit
call (request source owner now) rows = (allow_circuit_request source owner now rows).0
call (success source owner) rows = (record_circuit_success source owner rows).0
call (failure source now) rows = record_circuit_failure source now rows

unfoldable pub calls : List Call → List Circuit → List Circuit
calls [] rows = rows
calls (c ∷ cs) rows = calls cs (call c rows)

-- Whether the operation is a request for `source` that is let through.
let_through : String → Call → List Circuit → Bool
let_through source (request s owner now) rows =
    str_eq s source && (allow_circuit_request s owner now rows).1
let_through source (success s owner) rows = false
let_through source (failure s now) rows = false

unfoldable pub any_let_through : String → List Call → List Circuit → Bool
unfolding let_through
any_let_through source [] rows = false
any_let_through source (c ∷ cs) rows =
    let_through source c rows || any_let_through source cs (call c rows)

-- Operations on other sources, and those of other workers on `source`, until `until`: all but a
-- report that `source` failed again.
abbrev pub foreign : String → String → ℕ → Call → Bool
foreign source owner until (request s o now) =
    not (str_eq s source) || (not (str_eq o owner) && leb now until)
foreign source owner until (success s o) = not (str_eq s source) || not (str_eq o owner)
foreign source owner until (failure s now) = not (str_eq s source)

abbrev pub HasProbe : String → ℕ → Option Circuit → Type 0
HasProbe owner until none = ⊥
HasProbe owner until (some c) =
    (circuit_threshold ≤ c.failure_count)
    × (c.probe_owner ≡ some owner)
    × (c.probe_expires_at ≡ some until)

pub allow_circuit_request-0 :
    (source owner : String) (now : ℕ) (rows : List Circuit)
    → ((allow_circuit_request source owner now rows).0 ≡ rows)
      ⊎ ((allow_circuit_request source owner now rows).0
          ≡ (claim_circuit_probe source owner now rows).0)
unfolding allow_circuit_request
allow_circuit_request-0 source owner now rows = ground arith

module _ (source owner : String) (until : ℕ) where
  abbrev pub IsProbing : List Circuit → Type 0
  IsProbing rows = HasDistinctSources rows × HasProbe owner until (circuit_of source rows)

  kept_by_claim :
      (s o : String) (now : ℕ) (c : Option Circuit)
      → elim c [ none ↦ true | some d ↦ of_source source d ] ≡ true
      → foreign source owner until (request s o now) ≡ true
      → HasProbe owner until c
      → HasProbe owner until (updated (claimable s now) (probed_by o now) c)
  kept_by_claim s o now none e f h = h
  kept_by_claim s o now (some c) e f h =
      ground
        (arith, h.0, h.1, h.2, eq_iff c.source_id source, eq_iff c.source_id s, eq_iff s source)

  kept_by_success :
      (s o : String) (c : Option Circuit)
      → elim c [ none ↦ true | some d ↦ of_source source d ] ≡ true
      → foreign source owner until (success s o) ≡ true
      → HasProbe owner until c
      → HasProbe owner until (updated (closable s o) reset c)
  kept_by_success s o none e f h = h
  kept_by_success s o (some c) e f h = ground (
    arith,
    h.0,
    h.1,
    h.2,
    eq_iff c.source_id source,
    eq_iff c.source_id s,
    eq_iff s source,
    eq_iff owner o,
    eq_iff o owner,
  )

  request-IsProbing :
      (s o : String) (now : ℕ) (rows : List Circuit)
      → foreign source owner until (request s o now) ≡ true
      → IsProbing rows
      → IsProbing (allow_circuit_request s o now rows).0
  request-IsProbing s o now rows f h = (
    request-HasDistinctSources s o now rows h.0,
    elim (allow_circuit_request-0 s o now rows) [
      | inl same ↦ rw same h.1
      | inr claim ↦ rw claim (
          rw (circuit_of-claim_circuit_probe s o source now rows) (
            kept_by_claim s o now (circuit_of source rows) (of_source-circuit_of source rows) f
              h.1))
    ],
  )

  denied_row :
      (o : String) (now : ℕ) (rows : List Circuit) (c : Option Circuit)
      → circuit_of source rows ≡ c
      → str_eq o owner ≡ false
      → now ≤ until
      → HasDistinctSources rows
      → HasProbe owner until c
      → (allow_circuit_request source o now rows).1 ≡ false
  unfolding allow_circuit_request
  denied_row o now rows none e n l d h = absurd h
  denied_row o now rows (some c) e n l d h =
      ground
        (arith, h.0, h.1, h.2, rowcount-claimable source now rows d, eq_iff o owner, eq_iff owner o)

  request_denied :
      (s o : String) (now : ℕ) (rows : List Circuit)
      → foreign source owner until (request s o now) ≡ true
      → IsProbing rows
      → (str_eq s source && (allow_circuit_request s o now rows).1) ≡ false
  request_denied s o now rows f h = elim (Bool-cases (str_eq s source)) [
    | inl own ↦ rw (own) (
        rw ((eq_iff s source).0 own) (
          denied_row o now rows (circuit_of source rows) refl (ground arith) (ground arith) h.0
            h.1))
    | inr other ↦ rw other
  ]

  call-IsProbing :
      (c : Call) (rows : List Circuit)
      → foreign source owner until c ≡ true
      → IsProbing rows
      → IsProbing (call c rows) × (let_through source c rows ≡ false)
  unfolding call let_through
  call-IsProbing (request s o now) rows f h =
      (request-IsProbing s o now rows f h, request_denied s o now rows f h)
  call-IsProbing (success s o) rows f h = (
    (
      success-HasDistinctSources s o rows h.0,
      rw (circuit_of-record_circuit_success s o source rows)
          (kept_by_success s o (circuit_of source rows) (of_source-circuit_of source rows) f h.1),
    ),
    refl,
  )
  call-IsProbing (failure s now) rows f h = (
    (
      failure-HasDistinctSources s now rows h.0,
      rw (circuit_of-record_circuit_failure s source now rows) (ground (arith, h.1)),
    ),
    refl,
  )

  pub calls-IsProbing :
      (cs : List Call) (rows : List Circuit)
      → all (foreign source owner until) cs ≡ true
      → IsProbing rows
      → IsProbing (calls cs rows) × (any_let_through source cs rows ≡ false)
  unfolding calls any_let_through
  calls-IsProbing [] rows f h = (h, refl)
  calls-IsProbing (c ∷ cs) rows f h =
      let kept = call-IsProbing c rows (ground arith) h in
      let rest = calls-IsProbing cs (call c rows) (ground arith) kept.0 in
      (rest.0, rw (kept.1, rest.1))
