-- ===== src/Retrieval/Circuit/Laws.antt =====
-- shared/procuresignal/retrieval/audit.py: what each operation does to the row of each source.
use procuresignal.Prelude.{
  Bool, List, Option, String, [], arith, eq_iff, eq_refl, false, if◌then◌else◌, leb, ltb, none,
  refl, some, str_eq, true, ℕ, ◌&&◌, ◌++◌, ◌||◌, ◌∷◌, ◌≡◌,
}
use procuresignal.Prelude.Keyed.{
  IsDistinct, IsDistinct-update_where, row_of-has_key, row_of-update_where, rowcount_of,
}
use procuresignal.Prelude.Table.{
  before, find?-append, is_none, not_after, owned_by, rowcount, update_where, updated,
}
use procuresignal.Retrieval.Circuit.{
  Circuit, allow_circuit_request, circuit_of, circuit_threshold, claim_circuit_probe, claimable,
  closable, failed_once, fresh_circuit, of_source, probed_by, record_circuit_failure,
  record_circuit_success, reset, with_circuit,
}

abbrev pub or_fresh : String → Option Circuit → Circuit
or_fresh source none = fresh_circuit source
or_fresh source (some c) = c

-- The unique constraint on `source_id`.
abbrev source_of : Circuit → String
source_of c = c.source_id

abbrev pub HasDistinctSources : List Circuit → Type 0
HasDistinctSources rows = IsDistinct str_eq source_of rows

pub circuit_of-update_where :
    (other : String) (q : Circuit → Bool) (f : Circuit → Circuit) (rows : List Circuit)
    → ((c : Circuit) → (f c).source_id ≡ c.source_id)
    → circuit_of other (update_where q f rows) ≡ updated q f (circuit_of other rows)
unfolding circuit_of
circuit_of-update_where other q f rows h = row_of-update_where str_eq source_of other q f rows h

circuit_of-append :
    (other : String) (rows : List Circuit) (c : Circuit)
    → circuit_of other rows ≡ none
    → str_eq c.source_id other ≡ false
    → circuit_of other (rows ++ c ∷ []) ≡ none
unfolding circuit_of
circuit_of-append other [] c h n = ground arith
circuit_of-append other (r ∷ rows) c h n = ground (arith, circuit_of-append other rows c)

HasDistinctSources-append :
    (rows : List Circuit) (c : Circuit)
    → circuit_of c.source_id rows ≡ none
    → HasDistinctSources rows
    → HasDistinctSources (rows ++ c ∷ [])
unfolding circuit_of
HasDistinctSources-append [] c n d = (refl, tt)
HasDistinctSources-append (r ∷ rows) c n d = ground (
  arith,
  HasDistinctSources-append rows c,
  circuit_of-append r.source_id rows c d.0,
  eq_iff c.source_id r.source_id,
  eq_iff r.source_id c.source_id,
  d.1,
)

with_circuit-HasDistinctSources :
    (source : String) (rows : List Circuit)
    → HasDistinctSources rows
    → HasDistinctSources (with_circuit source rows)
with_circuit-HasDistinctSources source rows d =
    ground (arith, HasDistinctSources-append rows (fresh_circuit source))

circuit_of-with_circuit :
    (source other : String) (rows : List Circuit)
    → circuit_of other (with_circuit source rows) ≡ (
        if str_eq source other
        then some (or_fresh source (circuit_of source rows))
        else circuit_of other rows)
unfolding circuit_of
circuit_of-with_circuit source other rows =
    ground (arith, find?-append (of_source other) rows (fresh_circuit source), eq_iff source other)

-- At most one row of a source matches, since there is at most one.
pub rowcount-of_source :
    (source : String) (g : Circuit → Bool) (rows : List Circuit)
    → HasDistinctSources rows
    → rowcount (λ c. of_source source c && g c) rows
      ≡ elim (circuit_of source rows) [ none ↦ 0 | some c ↦ if g c then 1 else 0 ]
unfolding circuit_of
rowcount-of_source source g rows d = rowcount_of str_eq source_of eq_iff source g rows d

pub of_source-circuit_of :
    (source : String) (rows : List Circuit)
    → elim (circuit_of source rows) [ none ↦ true | some c ↦ of_source source c ] ≡ true
unfolding circuit_of
of_source-circuit_of source rows = row_of-has_key str_eq source_of source rows

failed_row :
    (source other : String) (now : ℕ) (own its : Option Circuit)
    → elim own [ none ↦ true | some c ↦ of_source source c ] ≡ true
    → elim its [ none ↦ true | some c ↦ of_source other c ] ≡ true
    → updated
        (of_source source)
        (failed_once now)
        (if str_eq source other then some (or_fresh source own) else its)
      ≡ (if str_eq source other then some (failed_once now (or_fresh source own)) else its)
failed_row source other now none none a b = ground (arith, eq_refl source)
failed_row source other now none (some d) a b = ground (
  arith,
  eq_refl source,
  eq_iff d.source_id source,
  eq_iff d.source_id other,
  eq_iff source other,
)
failed_row source other now (some c) none a b = ground arith
failed_row source other now (some c) (some d) a b =
    ground (arith, eq_iff d.source_id source, eq_iff d.source_id other, eq_iff source other)

-- A failure counts at its own source, and at no other.
pub circuit_of-record_circuit_failure :
    (source other : String) (now : ℕ) (rows : List Circuit)
    → circuit_of other (record_circuit_failure source now rows) ≡ (
        if str_eq source other
        then some (failed_once now (or_fresh source (circuit_of source rows)))
        else circuit_of other rows)
unfolding record_circuit_failure
circuit_of-record_circuit_failure source other now rows =
    rw
      (circuit_of-update_where other (of_source source) (failed_once now) (with_circuit source rows)
        (λ c. refl))
      (rw (circuit_of-with_circuit source other rows) (
        failed_row source other now (circuit_of source rows) (circuit_of other rows)
          (of_source-circuit_of source rows) (of_source-circuit_of other rows)))

-- A claim of the probe touches the row of its source alone.
pub circuit_of-claim_circuit_probe :
    (source owner other : String) (now : ℕ) (rows : List Circuit)
    → circuit_of other (claim_circuit_probe source owner now rows).0
      ≡ updated (claimable source now) (probed_by owner now) (circuit_of other rows)
unfolding claim_circuit_probe
circuit_of-claim_circuit_probe source owner other now rows =
    circuit_of-update_where other (claimable source now) (probed_by owner now) rows (λ c. refl)

pub circuit_of-record_circuit_success :
    (source owner other : String) (rows : List Circuit)
    → circuit_of other (record_circuit_success source owner rows).0
      ≡ updated (closable source owner) reset (circuit_of other rows)
unfolding record_circuit_success
circuit_of-record_circuit_success source owner other rows =
    circuit_of-update_where other (closable source owner) reset rows (λ c. refl)

-- Every operation keeps the rows distinct.
pub failure-HasDistinctSources :
    (source : String) (now : ℕ) (rows : List Circuit)
    → HasDistinctSources rows
    → HasDistinctSources (record_circuit_failure source now rows)
unfolding record_circuit_failure
failure-HasDistinctSources source now rows d =
    IsDistinct-update_where str_eq source_of (of_source source) (failed_once now)
      (with_circuit source rows) (λ c. refl) (with_circuit-HasDistinctSources source rows d)

pub success-HasDistinctSources :
    (source owner : String) (rows : List Circuit)
    → HasDistinctSources rows
    → HasDistinctSources (record_circuit_success source owner rows).0
unfolding record_circuit_success
success-HasDistinctSources source owner rows d =
    IsDistinct-update_where str_eq source_of (closable source owner) reset rows (λ c. refl) d

pub request-HasDistinctSources :
    (source owner : String) (now : ℕ) (rows : List Circuit)
    → HasDistinctSources rows
    → HasDistinctSources (allow_circuit_request source owner now rows).0
unfolding allow_circuit_request
request-HasDistinctSources source owner now rows d = ground (
  arith,
  IsDistinct-update_where str_eq source_of (claimable source now) (probed_by owner now) rows
      (λ c. refl) d,
)

pub claim-HasDistinctSources :
    (source owner : String) (now : ℕ) (rows : List Circuit)
    → HasDistinctSources rows
    → HasDistinctSources (claim_circuit_probe source owner now rows).0
unfolding claim_circuit_probe
claim-HasDistinctSources source owner now rows d =
    IsDistinct-update_where str_eq source_of (claimable source now) (probed_by owner now) rows
      (λ c. refl) d

-- At most one row can be claimed, or closed.
pub rowcount-claimable :
    (source : String) (now : ℕ) (rows : List Circuit)
    → HasDistinctSources rows
    → rowcount (claimable source now) rows ≡ elim (circuit_of source rows) [
      | none ↦ 0
      | some c ↦
          if leb circuit_threshold c.failure_count
            && not_after c.open_until now
            && (is_none c.probe_owner || before c.probe_expires_at now)
          then 1
          else 0
    ]
rowcount-claimable source now rows d =
    rowcount-of_source source
      (λ c.
        leb circuit_threshold c.failure_count
        && not_after c.open_until now
        && (is_none c.probe_owner || before c.probe_expires_at now))
      rows d

pub rowcount-closable :
    (source owner : String) (rows : List Circuit)
    → HasDistinctSources rows
    → rowcount (closable source owner) rows ≡ elim (circuit_of source rows) [
      | none ↦ 0
      | some c ↦ if owned_by c.probe_owner owner || ltb c.failure_count 5 then 1 else 0
    ]
rowcount-closable source owner rows d =
    rowcount-of_source source (λ c. owned_by c.probe_owner owner || ltb c.failure_count 5) rows d
