-- ===== src/Retrieval/RunLease/Laws.antt =====
-- shared/procuresignal/retrieval/audit.py: what the statements on runs do to one run.
use procuresignal.Prelude.{
  ==_iff, Bool, List, Option, String, arith, eq_refl, false, if◌then◌else◌, leb, none, refl, some,
  str_eq, true, ℕ, ◌&&◌, ◌==◌, ◌≡◌, ◌≤◌,
}
use procuresignal.Prelude.Keyed.{
  IsDistinct, IsDistinct-update_where, row_of, row_of-has_key, row_of-update_where, rowcount_of,
}
use procuresignal.Prelude.Table.{
  not_before, owned_by, rowcount, update_where, update_where-eq_self, updated,
}
use procuresignal.Retrieval.RunLease.{
  Counts, Run, claim_candidate, claimable, complete_run, fence_run, finished, held, is_running,
  leased, running, with_id,
}

abbrev pub run_of : ℕ → List Run → Option Run
run_of run rows = row_of ◌==◌ (λ (r : Run). r.id) run rows

abbrev pub HasDistinctIds : List Run → Type 0
HasDistinctIds rows = IsDistinct ◌==◌ (λ (r : Run). r.id) rows

module _ (run : ℕ) (rows : List Run) (d : HasDistinctIds rows) where
  pub rowcount_of_run :
      (g : Run → Bool)
      → rowcount (λ r. with_id run r && g r) rows
        ≡ elim (run_of run rows) [ none ↦ 0 | some r ↦ if g r then 1 else 0 ]
  rowcount_of_run g = rowcount_of ◌==◌ (λ (r : Run). r.id) ==_iff run g rows d

-- The row of a run after a statement on some run.
pub run_of-update_where :
    (run : ℕ) (q : Run → Bool) (f : Run → Run) (rows : List Run)
    → ((r : Run) → (f r).id ≡ r.id)
    → run_of run (update_where q f rows) ≡ updated q f (run_of run rows)
run_of-update_where run q f rows h = row_of-update_where ◌==◌ (λ (r : Run). r.id) run q f rows h

pub run_of-has_id :
    (run : ℕ) (rows : List Run)
    → elim (run_of run rows) [ none ↦ true | some r ↦ with_id run r ] ≡ true
run_of-has_id run rows = row_of-has_key ◌==◌ (λ (r : Run). r.id) run rows

pub claim_candidate-HasDistinctIds :
    (run : ℕ) (owner : String) (now : ℕ) (rows : List Run)
    → HasDistinctIds rows
    → HasDistinctIds (claim_candidate run owner now rows).0
unfolding claim_candidate
claim_candidate-HasDistinctIds run owner now rows d = ground (
  arith,
  IsDistinct-update_where ◌==◌ (λ (r : Run). r.id) (λ r. with_id run r && claimable now r)
      (leased owner now) rows (λ r. refl) d,
)

pub complete_run-HasDistinctIds :
    (run : ℕ) (owner : String) (now : ℕ) (counted : Counts → Counts) (rows : List Run)
    → HasDistinctIds rows
    → HasDistinctIds (complete_run run owner now counted rows).0
unfolding complete_run
complete_run-HasDistinctIds run owner now counted rows d =
    IsDistinct-update_where ◌==◌ (λ (r : Run). r.id) (held run owner now) (finished now counted)
      rows (λ r. refl) d

-- What a worker holds: the run is running in its name until `until`.
abbrev pub IsLeased : String → ℕ → Option Run → Type 0
IsLeased owner until none = ⊥
IsLeased owner until (some r) =
    (r.status ≡ running) × (r.lease_owner ≡ some owner) × (r.lease_expires_at ≡ some until)

module _ (run : ℕ) (owner : String) (until : ℕ) (rows : List Run) (d : HasDistinctIds rows) where
  rowcount-held :
      (now : ℕ) (who : String) (o : Option Run)
      → run_of run rows ≡ o
      → IsLeased owner until o
      → rowcount (held run who now) rows ≡ (if str_eq owner who && leb now until then 1 else 0)
  rowcount-held now who none e h = absurd h
  rowcount-held now who (some r) e h = ground (
    arith,
    h.0,
    h.1,
    h.2,
    rowcount_of_run run rows d (λ r.
        is_running r.status && owned_by r.lease_owner who && not_before r.lease_expires_at now),
  )

  -- The fence answers for the holder of the lease alone, until it ends.
  pub fence_run-IsLeased :
      (now : ℕ) (who : String)
      → IsLeased owner until (run_of run rows)
      → fence_run run who now rows ≡ (str_eq owner who && leb now until)
  unfolding fence_run
  fence_run-IsLeased now who h = ground (arith, rowcount-held now who (run_of run rows) refl h)

  -- A worker that is not the holder, or is late, completes nothing.
  pub complete_run-refused :
      (now : ℕ) (who : String) (counted : Counts → Counts)
      → IsLeased owner until (run_of run rows)
      → (str_eq owner who && leb now until) ≡ false
      → complete_run run who now counted rows ≡ (rows, false)
  unfolding complete_run
  complete_run-refused now who counted h late = ground (
    arith,
    rowcount-held now who (run_of run rows) refl h,
    update_where-eq_self (held run who now) (finished now counted) rows,
  )

  pub complete_run-served :
      (now : ℕ) (counted : Counts → Counts)
      → IsLeased owner until (run_of run rows)
      → now ≤ until
      → (complete_run run owner now counted rows).1 ≡ true
  unfolding complete_run
  complete_run-served now counted h early =
      ground (arith, rowcount-held now owner (run_of run rows) refl h, eq_refl owner)
