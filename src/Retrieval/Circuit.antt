-- ===== src/Retrieval/Circuit.antt =====
-- shared/procuresignal/retrieval/audit.py: the durable circuit of each source.
-- The table is the list of its rows; each operation is one statement, or a read and one statement
-- that repeats the conditions it depends on. A time is a number of seconds.
pub mod Laws
pub mod Probe
pub mod Exclusive
pub mod Opening
mod Tests
use procuresignal.Prelude.{
  Bool, List, Option, String, [], false, if◌then◌else◌, leb, ltb, none, some, str_eq, true, ℕ, ◌&&◌,
  ◌*◌, ◌++◌, ◌+◌, ◌==◌, ◌||◌, ◌∷◌,
}
use procuresignal.Prelude.Table.{
  after, before, find?, is_none, not_after, not_before, owned_by, rowcount, update_where,
}

-- CIRCUIT_COOLDOWN, CIRCUIT_THRESHOLD and LEASE_DURATION
abbrev pub circuit_cooldown : ℕ
circuit_cooldown = 30 * 60

abbrev pub circuit_threshold : ℕ
circuit_threshold = 5

abbrev pub lease_duration : ℕ
lease_duration = 65 * 60

pub record Circuit : Type 0 where
  pub source_id : String
  pub failure_count : ℕ
  pub open_until : Option ℕ
  pub probe_owner : Option String
  pub probe_expires_at : Option ℕ

pub data CircuitState : Type 0 where
  closed open_ half_open : CircuitState

abbrev pub of_source : String → Circuit → Bool
of_source source c = str_eq c.source_id source

-- select(…).where(source_id == source)
unfoldable pub circuit_of : String → List Circuit → Option Circuit
circuit_of source rows = find? (of_source source) rows

abbrev pub fresh_circuit : String → Circuit
fresh_circuit source = record {
  source_id = source;
  failure_count = 0;
  open_until = none;
  probe_owner = none;
  probe_expires_at = none;
}

-- The insert of a missing row; the one that a concurrent worker has made is kept.
abbrev pub with_circuit : String → List Circuit → List Circuit
with_circuit source rows =
    if is_none (circuit_of source rows) then rows ++ fresh_circuit source ∷ [] else rows

-- The SET clause of `record_circuit_failure`
abbrev pub failed_once : ℕ → Circuit → Circuit
failed_once now c = record c {
  failure_count = c.failure_count + 1;
  open_until =
      if leb circuit_threshold (c.failure_count + 1)
      then some (now + circuit_cooldown)
      else c.open_until;
  probe_owner = none;
  probe_expires_at = none;
}

unfoldable pub record_circuit_failure : String → ℕ → List Circuit → List Circuit
record_circuit_failure source now rows =
    update_where (of_source source) (failed_once now) (with_circuit source rows)

-- The WHERE clause of `claim_circuit_probe`
abbrev pub claimable : String → ℕ → Circuit → Bool
claimable source now c =
    of_source source c
    && (leb circuit_threshold c.failure_count
        && not_after c.open_until now
        && (is_none c.probe_owner || before c.probe_expires_at now))

abbrev pub probed_by : String → ℕ → Circuit → Circuit
probed_by owner now c = record c {
  probe_owner = some owner;
  probe_expires_at = some (now + lease_duration);
}

unfoldable pub claim_circuit_probe : String → String → ℕ → List Circuit → List Circuit × Bool
claim_circuit_probe source owner now rows = (
  update_where (claimable source now) (probed_by owner now) rows,
  rowcount (claimable source now) rows == 1,
)

-- What `allow_circuit_request` decides from the row that it reads; `none` is to claim the probe.
unfoldable pub decide_request : String → ℕ → Option Circuit → Option Bool
decide_request owner now none = some true
decide_request owner now (some c) =
    if ltb c.failure_count circuit_threshold
    then some true
    else if after c.open_until now
    then some false
    else if owned_by c.probe_owner owner && not_before c.probe_expires_at now
    then some true
    else none

unfoldable pub allow_circuit_request : String → String → ℕ → List Circuit → List Circuit × Bool
unfolding decide_request claim_circuit_probe
allow_circuit_request source owner now rows =
    elim (decide_request owner now (circuit_of source rows)) [
      | some answer ↦ (rows, answer)
      | none ↦ claim_circuit_probe source owner now rows
    ]

-- The WHERE clause of `record_circuit_success`
abbrev pub closable : String → String → Circuit → Bool
closable source owner c =
    of_source source c && (owned_by c.probe_owner owner || ltb c.failure_count 5)

abbrev pub reset : Circuit → Circuit
reset c = record c {
  failure_count = 0;
  open_until = none;
  probe_owner = none;
  probe_expires_at = none;
}

unfoldable pub record_circuit_success : String → String → List Circuit → List Circuit × Bool
record_circuit_success source owner rows =
    (update_where (closable source owner) reset rows, rowcount (closable source owner) rows == 1)

unfoldable pub state_of : ℕ → Option Circuit → CircuitState
state_of now none = closed
state_of now (some c) =
    if ltb c.failure_count circuit_threshold
    then closed
    else if after c.open_until now
    then open_
    else half_open

unfoldable pub circuit_state : String → ℕ → List Circuit → CircuitState
unfolding state_of
circuit_state source now rows = state_of now (circuit_of source rows)
