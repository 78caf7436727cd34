-- ===== src/Retrieval/Circuit/Exclusive.antt =====
-- shared/procuresignal/retrieval/audit.py: what a claimed probe promises its worker.
use mathlib.Core.Path.{subst}
use procuresignal.Prelude.{
  Bool, List, Option, String, all, ap, arith, eq_refl, false, none, refl, some, true, ℕ, ◌+◌, ◌≡◌,
}
use procuresignal.Prelude.Table.{updated}
use procuresignal.Retrieval.Circuit.{
  Circuit, circuit_of, circuit_state, claim_circuit_probe, claimable, closed, lease_duration,
  of_source, probed_by, record_circuit_success,
}
use procuresignal.Retrieval.Circuit.Laws.{
  HasDistinctSources, circuit_of-claim_circuit_probe, circuit_of-record_circuit_success,
  claim-HasDistinctSources, of_source-circuit_of, rowcount-claimable, rowcount-closable,
}
use procuresignal.Retrieval.Circuit.Probe.{
  Call, HasProbe, IsProbing, any_let_through, calls, calls-IsProbing, foreign,
}

module _ (source owner : String) where
  claimed_row :
      (now : ℕ) (rows : List Circuit) (c : Option Circuit)
      → circuit_of source rows ≡ c
      → elim c [ none ↦ true | some d ↦ of_source source d ] ≡ true
      → HasDistinctSources rows
      → (claim_circuit_probe source owner now rows).1 ≡ true
      → HasProbe owner
          (now + lease_duration)
          (updated (claimable source now) (probed_by owner now) c)
  unfolding claim_circuit_probe
  claimed_row now rows none e s d h = ground (arith, rowcount-claimable source now rows d)
  claimed_row now rows (some c) e s d h = ground (arith, rowcount-claimable source now rows d)

  claim-IsProbing :
      (now : ℕ) (rows : List Circuit)
      → HasDistinctSources rows
      → (claim_circuit_probe source owner now rows).1 ≡ true
      → IsProbing source owner (now + lease_duration) (claim_circuit_probe source owner now rows).0
  claim-IsProbing now rows d h = (
    claim-HasDistinctSources source owner now rows d,
    rw (circuit_of-claim_circuit_probe source owner source now rows)
        (claimed_row now rows (circuit_of source rows) refl (of_source-circuit_of source rows) d h),
  )

  closed_row :
      (until now : ℕ) (rows : List Circuit) (c : Option Circuit)
      → circuit_of source rows ≡ c
      → elim c [ none ↦ true | some d ↦ of_source source d ] ≡ true
      → HasDistinctSources rows
      → HasProbe owner until c
      → ((record_circuit_success source owner rows).1 ≡ true)
        × (circuit_state source now (record_circuit_success source owner rows).0 ≡ closed)
  unfolding record_circuit_success circuit_state
  closed_row until now rows none e s d h = absurd h
  closed_row until now rows (some c) e s d h = ground (
    arith,
    h.0,
    h.1,
    h.2,
    rowcount-closable source owner rows d,
    circuit_of-record_circuit_success source owner source rows,
    eq_refl owner,
  )

  -- From a successful claim until the end of its lease, whatever the other workers do but report
  -- one more failure of the source, no other request for it is let through, and the report of
  -- success by the worker that holds the probe closes the circuit.
  pub probe_is_exclusive :
      (now later : ℕ) (rows probing : List Circuit) (others : List Call)
      → HasDistinctSources rows
      → claim_circuit_probe source owner now rows ≡ (probing, true)
      → all (foreign source owner (now + lease_duration)) others ≡ true
      → let end : List Circuit = calls others probing in
        (any_let_through source others probing ≡ false)
        × ((record_circuit_success source owner end).1 ≡ true)
        × (circuit_state source later (record_circuit_success source owner end).0 ≡ closed)
  probe_is_exclusive now later rows probing others d h f =
      let start : IsProbing source owner (now + lease_duration) probing =
        subst (IsProbing source owner (now + lease_duration))
          (ap (λ (p : List Circuit × Bool). p.0) h)
          (claim-IsProbing now rows d (ap (λ (p : List Circuit × Bool). p.1) h)) in
      let kept = calls-IsProbing source owner (now + lease_duration) others probing f start in
      let done =
        closed_row (now + lease_duration) later (calls others probing)
          (circuit_of source (calls others probing)) refl
          (of_source-circuit_of source (calls others probing)) kept.0.0 kept.0.1 in
      (kept.1, done.0, done.1)
