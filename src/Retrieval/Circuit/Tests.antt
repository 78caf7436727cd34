-- ===== src/Retrieval/Circuit/Tests.antt =====
-- shared/procuresignal/retrieval/audit.py on small inputs, and the theorems applied there.
use procuresignal.Prelude.{List, [], arith, false, none, refl, some, true, ◌+◌, ◌∷◌, ◌≡◌}
use procuresignal.Retrieval.Circuit.{
  Circuit, allow_circuit_request, circuit_of, circuit_state, claim_circuit_probe, closed, open_,
  record_circuit_failure, record_circuit_success,
}
use procuresignal.Retrieval.Circuit.Exclusive.{probe_is_exclusive}
use procuresignal.Retrieval.Circuit.Opening.{five_failures_open}
use procuresignal.Retrieval.Circuit.Probe.{
  Call, any_let_through, call, calls, failure, request, success,
}

program : Unit {0}
unfolding circuit_of record_circuit_failure claim_circuit_probe allow_circuit_request
    record_circuit_success circuit_state calls call
program = tt

abbrev down : Circuit
down = record {
  source_id = "fda";
  failure_count = 5;
  open_until = some 2000;
  probe_owner = none;
  probe_expires_at = none;
}

abbrev probed : List Circuit
probed = record down { probe_owner = some "w1"; probe_expires_at = some (2500 + 3900) } ∷ []

claim-down : claim_circuit_probe "fda" "w1" 2500 (down ∷ []) ≡ (probed, true)
unfolding program
claim-down = refl

request-other_worker : (allow_circuit_request "fda" "w2" 3000 probed).1 ≡ false
unfolding program
request-other_worker = refl

request-same_worker : (allow_circuit_request "fda" "w1" 3000 probed).1 ≡ true
unfolding program
request-same_worker = refl

state-early : circuit_state "fda" 1999 (down ∷ []) ≡ open_
unfolding program
state-early = refl

abbrev failing : List Call
failing =
    failure "fda" 10
    ∷ request "fda" "w2" 15
    ∷ failure "fda" 20
    ∷ failure "ecb" 25
    ∷ failure "fda" 30
    ∷ success "ecb" "w3"
    ∷ failure "fda" 40
    ∷ failure "fda" 50
    ∷ request "fda" "w2" 60
    ∷ []

five_failures_open_example :
    (circuit_state "fda" 1849 (calls failing []) ≡ open_)
    × (allow_circuit_request "fda" "w1" 1849 (calls failing []) ≡ (calls failing [], false))
five_failures_open_example =
    five_failures_open "fda" failing 50 1849 "w1" [] refl (omega arith) refl (omega arith)

probe_is_exclusive_example :
    let others : List Call =
      request "fda" "w2" 3000 ∷ failure "ecb" 3100 ∷ success "fda" "w2" ∷ [] in
    let end : List Circuit = calls others probed in
    (any_let_through "fda" others probed ≡ false)
    × ((record_circuit_success "fda" "w1" end).1 ≡ true)
    × (circuit_state "fda" 3200 (record_circuit_success "fda" "w1" end).0 ≡ closed)
probe_is_exclusive_example =
    probe_is_exclusive "fda" "w1" 2500 3200 (down ∷ []) probed
      (request "fda" "w2" 3000 ∷ failure "ecb" 3100 ∷ success "fda" "w2" ∷ [])
      (unfold circuit_of in (refl, tt)) claim-down refl
