-- ===== src/Retrieval/RunLease/Held.antt =====
-- shared/procuresignal/retrieval/audit.py: the statements of other workers leave a held run held.
use mathlib.Core.Path.{subst}
use procuresignal.Prelude.{
  ==_iff, Bool, Bool-cases, List, Option, String, [], all, ap, arith, false, inl, inr, is_some, leb,
  none, not, refl, some, str_eq, sym, true, ℕ, ◌&&◌, ◌+◌, ◌==◌, ◌||◌, ◌∷◌, ◌≡◌, ◌≢◌, ◌≤◌, ◌⊎◌,
}
use procuresignal.Prelude.Table.{update_where, updated}
use procuresignal.Retrieval.Circuit.{lease_duration}
use procuresignal.Retrieval.RunLease.{
  Counts, Run, claim_candidate, claimable, complete_run, finished, held, leased, with_id,
}
use procuresignal.Retrieval.RunLease.Laws.{
  HasDistinctIds, IsLeased, claim_candidate-HasDistinctIds, complete_run-HasDistinctIds,
  complete_run-refused, rowcount_of_run, run_of, run_of-has_id, run_of-update_where,
}

-- A statement of some worker on the table.
pub data Call : Type 0 where
  claim : (run : ℕ) (owner : String) (now : ℕ) → Call
  complete : (run : ℕ) (owner : String) (now : ℕ) (counted : Counts → Counts) → Call

unfoldable pub call : Call → List Run → List Run
call (claim run owner now) rows = (claim_candidate run owner now rows).0
call (complete run owner now counted) rows = (complete_run run owner now counted rows).0

unfoldable pub calls : List Call → List Run → List Run
calls [] rows = rows
calls (c ∷ cs) rows = calls cs (call c rows)

-- Whether the statement gets hold of `run`, or completes it.
takes : ℕ → Call → List Run → Bool
takes run (claim id owner now) rows = (id == run) && is_some (claim_candidate id owner now rows).1
takes run (complete id owner now counted) rows =
    (id == run) && (complete_run id owner now counted rows).1

unfoldable pub any_takes : ℕ → List Call → List Run → Bool
unfolding takes
any_takes run [] rows = false
any_takes run (c ∷ cs) rows = takes run c rows || any_takes run cs (call c rows)

-- Statements before the end of the lease, but a completion by its holder.
abbrev pub foreign : ℕ → String → ℕ → Call → Bool
foreign run owner until (claim id o now) = not (id == run) || leb now until
foreign run owner until (complete id o now counted) = not (id == run) || not (str_eq owner o)

pub claim_candidate-changed :
    (run : ℕ) (owner : String) (now : ℕ) (rows : List Run)
    → (claim_candidate run owner now rows).1 ≢ none
    → (claim_candidate run owner now rows).0
      ≡ update_where (λ x. with_id run x && claimable now x) (leased owner now) rows
unfolding claim_candidate
claim_candidate-changed run owner now rows h = ground (arith, h)

module _ (run : ℕ) (owner : String) (until : ℕ) where
  abbrev pub Holds : List Run → Type 0
  Holds rows = HasDistinctIds rows × IsLeased owner until (run_of run rows)

  claim_refused :
      (o : String) (now : ℕ) (rows : List Run) (r : Option Run)
      → run_of run rows ≡ r
      → HasDistinctIds rows
      → now ≤ until
      → IsLeased owner until r
      → claim_candidate run o now rows ≡ (rows, none)
  unfolding claim_candidate
  claim_refused o now rows none e d l h = absurd h
  claim_refused o now rows (some r) e d l h =
      ground (arith, h.0, h.1, h.2, rowcount_of_run run rows d (claimable now))

  claim_elsewhere :
      (id : ℕ) (o : String) (now : ℕ) (r : Option Run)
      → elim r [ none ↦ true | some x ↦ with_id run x ] ≡ true
      → (id == run) ≡ false
      → IsLeased owner until r
      → IsLeased owner until (updated (λ x. with_id id x && claimable now x) (leased o now) r)
  claim_elsewhere id o now none e n h = h
  claim_elsewhere id o now (some r) e n h = ground (arith, h.0, h.1, h.2)

  complete_elsewhere :
      (id : ℕ) (o : String) (now : ℕ) (counted : Counts → Counts) (r : Option Run)
      → elim r [ none ↦ true | some x ↦ with_id run x ] ≡ true
      → (id == run) ≡ false
      → IsLeased owner until r
      → IsLeased owner until (updated (held id o now) (finished now counted) r)
  complete_elsewhere id o now counted none e n h = h
  complete_elsewhere id o now counted (some r) e n h = ground (arith, h.0, h.1, h.2)

  claim_candidate-0 :
      (id : ℕ) (o : String) (now : ℕ) (rows : List Run)
      → ((claim_candidate id o now rows).0 ≡ rows)
        ⊎ ((claim_candidate id o now rows).0
            ≡ update_where (λ x. with_id id x && claimable now x) (leased o now) rows)
  unfolding claim_candidate
  claim_candidate-0 id o now rows = ground arith

  call-Holds :
      (c : Call) (rows : List Run)
      → foreign run owner until c ≡ true
      → Holds rows
      → Holds (call c rows) × (takes run c rows ≡ false)
  unfolding call takes
  call-Holds (claim id o now) rows f h = elim (Bool-cases (id == run)) [
    | inl same ↦
        let own : id ≡ run = (==_iff id run).0 same in
        let early : now ≤ until = ground arith in
        rw own (
          let refused = claim_refused o now rows (run_of run rows) refl h.0 early h.1 in
          (
            subst (λ (p : List Run × Option Run). Holds p.0) (sym refused) h,
            ground (arith, ap (λ (p : List Run × Option Run). p.1) refused),
          ))
    | inr other ↦ (
      (
        claim_candidate-HasDistinctIds id o now rows h.0,
        elim (claim_candidate-0 id o now rows) [
          | inl unchanged ↦ rw unchanged h.1
          | inr changed ↦ rw changed (
              rw (run_of-update_where run _ (leased o now) rows (λ r. refl))
                (claim_elsewhere id o now (run_of run rows) (run_of-has_id run rows) other h.1))
        ],
      ),
      rw other,
    )
  ]
  call-Holds (complete id o now counted) rows f h = elim (Bool-cases (id == run)) [
    | inl same ↦
        let own : id ≡ run = (==_iff id run).0 same in
        let stranger : (str_eq owner o && leb now until) ≡ false = ground arith in
        rw own (
          let refused = complete_run-refused run owner until rows h.0 now o counted h.1 stranger in
          (
            subst (λ (p : List Run × Bool). Holds p.0) (sym refused) h,
            ground (arith, ap (λ (p : List Run × Bool). p.1) refused),
          ))
    | inr other ↦ (
      (
        complete_run-HasDistinctIds id o now counted rows h.0,
        unfold complete_run in
            rw (run_of-update_where run (held id o now) (finished now counted) rows (λ r. refl)) (
              complete_elsewhere id o now counted (run_of run rows) (run_of-has_id run rows) other
                h.1),
      ),
      rw other,
    )
  ]

  pub calls-Holds :
      (cs : List Call) (rows : List Run)
      → all (foreign run owner until) cs ≡ true
      → Holds rows
      → Holds (calls cs rows) × (any_takes run cs rows ≡ false)
  unfolding calls any_takes
  calls-Holds [] rows f h = (h, refl)
  calls-Holds (c ∷ cs) rows f h =
      let kept = call-Holds c rows (ground arith) h in
      let rest = calls-Holds cs (call c rows) (ground arith) kept.0 in (rest.0, rw (kept.1, rest.1))

  pub claimed_row :
      (now : ℕ) (rows : List Run) (r : Option Run)
      → run_of run rows ≡ r
      → elim r [ none ↦ true | some x ↦ with_id run x ] ≡ true
      → HasDistinctIds rows
      → (claim_candidate run owner now rows).1 ≢ none
      → IsLeased owner
          (now + lease_duration)
          (updated (λ x. with_id run x && claimable now x) (leased owner now) r)
  unfolding claim_candidate
  claimed_row now rows none e s d h = ground (arith, rowcount_of_run run rows d (claimable now))
  claimed_row now rows (some r) e s d h = ground (arith, rowcount_of_run run rows d (claimable now))
