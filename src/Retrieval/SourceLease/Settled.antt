-- ===== src/Retrieval/SourceLease/Settled.antt =====
-- shared/procuresignal/retrieval/audit.py: an outcome is settled once, and stays so.
use mathlib.Core.Path.{subst}
use procuresignal.Prelude.{
  Bool, Bool-cases, List, Option, String, [], ap, arith, false, inl, inr, none, refl, some, true, ℕ,
  ◌&&◌, ◌==◌, ◌∷◌, ◌≡◌, ◌⊎◌,
}
use procuresignal.Prelude.Table.{find?-append, rowcount, update_where, updated}
use procuresignal.Retrieval.SourceLease.{
  Counts, Key, Outcome, complete_source, completed_with, expired, fail_source, failed_with, held,
  insert_outcome, is_running, key_of, new_outcome, outcome_of, renewable, renewed, same_key,
  taken_over, update_source, with_key,
}
use procuresignal.Retrieval.SourceLease.Calls.{
  Call, Claimed, any_succeeds, call, call_key, claim, claim_seen-Claimed, complete, fail, insertion,
  locked_out, renewal, takeover,
}
use procuresignal.Retrieval.SourceLease.Detail.{safe_detail}
use procuresignal.Retrieval.SourceLease.Laws.{
  HasDistinctKeys, insert-HasDistinctKeys, outcome_of-update_where, outcome_of-with_key,
  rowcount-outcome, same_key_iff, update-HasDistinctKeys,
}

abbrev pub HasSettled : Option Outcome → Type 0
HasSettled none = ⊥
HasSettled (some o) = is_running o.status ≡ false

module _ (k : Key) where
  abbrev pub IsSettled : List Outcome → Type 0
  IsSettled rows = HasDistinctKeys rows × HasSettled (outcome_of k rows)

  -- A statement that asks for a running row leaves a settled one alone.
  settled_row :
      (j : Key) (g : Outcome → Bool) (f : Outcome → Outcome) (r : Option Outcome)
      → ((o : Outcome) → g o ≡ true → is_running o.status ≡ true)
      → HasSettled r
      → updated (λ o. with_key j o && g o) f r ≡ r
  settled_row j g f none only h = absurd h
  settled_row j g f (some o) only h = ground (arith, only o)

  IsSettled-update_where :
      (j : Key) (g : Outcome → Bool) (f : Outcome → Outcome) (rows : List Outcome)
      → ((o : Outcome) → key_of (f o) ≡ key_of o)
      → ((o : Outcome) → g o ≡ true → is_running o.status ≡ true)
      → IsSettled rows
      → IsSettled (update_where (λ o. with_key j o && g o) f rows)
  IsSettled-update_where j g f rows keeps only h = (
    update-HasDistinctKeys (λ o. with_key j o && g o) f rows keeps h.0,
    rw (outcome_of-update_where k (λ o. with_key j o && g o) f rows keeps)
        (rw (settled_row j g f (outcome_of k rows) only h.1) h.1),
  )

  settled_count :
      (g : Outcome → Bool) (rows : List Outcome) (r : Option Outcome)
      → outcome_of k rows ≡ r
      → ((o : Outcome) → g o ≡ true → is_running o.status ≡ true)
      → HasDistinctKeys rows
      → HasSettled r
      → rowcount (λ o. with_key k o && g o) rows ≡ 0
  settled_count g rows none e only d h = absurd h
  settled_count g rows (some o) e only d h = ground (arith, rowcount-outcome k g rows d, only o)

module _ (k : Key) where
  insert-IsSettled :
      (j : Key) (owner : String) (now : ℕ) (rows : List Outcome) (r : Option Outcome)
      → outcome_of k rows ≡ r
      → HasDistinctKeys rows
      → HasSettled r
      → IsSettled k (insert_outcome j owner now rows).0
        × ((same_key j k && (insert_outcome j owner now rows).1) ≡ false)
  insert-IsSettled j owner now rows none e d h = absurd h
  insert-IsSettled j owner now rows (some o) e d h = (
    (
      insert-HasDistinctKeys j owner now rows d,
      ground (arith, find?-append (with_key k) rows (new_outcome j owner now)),
    ),
    ground (arith, same_key_iff j k),
  )

  settled_flag :
      (j : Key) (g : Outcome → Bool) (rows : List Outcome)
      → ((o : Outcome) → g o ≡ true → is_running o.status ≡ true)
      → IsSettled k rows
      → (same_key j k && (rowcount (λ o. with_key j o && g o) rows == 1)) ≡ false
  settled_flag j g rows only h = elim (Bool-cases (same_key j k)) [
    | inl same ↦ rw same (
        rw ((same_key_iff j k).0 same)
          (rw (settled_count k g rows (outcome_of k rows) refl only h.0 h.1)))
    | inr other ↦ rw other
  ]

  claim-IsSettled :
      (j : Key) (owner : String) (now : ℕ) (rows : List Outcome) {r : List Outcome × Bool}
      → IsSettled k rows
      → Claimed j owner now rows r
      → IsSettled k r.0 × ((same_key j k && r.1) ≡ false)
  claim-IsSettled j owner now rows h (renewal e) = rw e (
    IsSettled-update_where k j (renewable owner) (renewed now) rows (λ o. refl)
        (λ o g. ground arith) h,
    settled_flag j (renewable owner) rows (λ o g. ground arith) h,
  )
  claim-IsSettled j owner now rows h (locked_out e) = rw e (h, ground arith)
  claim-IsSettled j owner now rows h (takeover n e) = rw e (
    IsSettled-update_where k j (expired now) (taken_over owner now) rows (λ o. refl)
        (λ o g. ground arith) h,
    ground (arith, settled_flag j (expired now) rows (λ o g. ground arith) h, n),
  )
  claim-IsSettled j owner now rows h (insertion e) =
      rw e (insert-IsSettled j owner now rows (outcome_of k rows) refl h.0 h.1)

  update-IsSettled :
      (j : Key) (owner : String) (now : ℕ) (f : Outcome → Outcome) (rows : List Outcome)
      → ((o : Outcome) → key_of (f o) ≡ key_of o)
      → IsSettled k rows
      → IsSettled k (update_source j owner now f rows).0
        × ((same_key j k && (update_source j owner now f rows).1) ≡ false)
  unfolding update_source
  update-IsSettled j owner now f rows keeps h = (
    IsSettled-update_where k j (held owner now) f rows keeps (λ o g. ground arith) h,
    settled_flag j (held owner now) rows (λ o g. ground arith) h,
  )

  call-IsSettled :
      (c : Call) (rows : List Outcome)
      → IsSettled k rows
      → IsSettled k (call c rows).0 × ((same_key (call_key c) k && (call c rows).1) ≡ false)
  unfolding call
  call-IsSettled (claim locked seen j owner now) rows h =
      claim-IsSettled j owner now rows h (claim_seen-Claimed locked seen j owner now rows)
  call-IsSettled (complete j owner now counted) rows h =
      unfold complete_source in
      update-IsSettled j owner now (completed_with now counted) rows (λ o. refl) h
  call-IsSettled (fail j owner code detail now bytes) rows h =
      unfold fail_source in
      update-IsSettled j owner now (failed_with now code (safe_detail detail) bytes) rows
        (λ o. refl) h

  settled-never-succeeds :
      (cs : List Call) (rows : List Outcome) → IsSettled k rows → any_succeeds k cs rows ≡ false
  unfolding any_succeeds
  settled-never-succeeds [] rows h = refl
  settled-never-succeeds (c ∷ cs) rows h =
      let kept = call-IsSettled c rows h in
      rw (kept.1, settled-never-succeeds cs (call c rows).0 kept.0)

  update_settles :
      (owner : String) (now : ℕ) (f : Outcome → Outcome) (rows : List Outcome) (r : Option Outcome)
      → outcome_of k rows ≡ r
      → elim r [ none ↦ true | some o ↦ with_key k o ] ≡ true
      → HasDistinctKeys rows
      → ((o : Outcome) → key_of (f o) ≡ key_of o)
      → ((o : Outcome) → is_running (f o).status ≡ false)
      → (update_source k owner now f rows).1 ≡ true
      → HasSettled (updated (λ o. with_key k o && held owner now o) f r)
  unfolding update_source
  update_settles owner now f rows none e s d keeps stops h =
      ground (arith, rowcount-outcome k (held owner now) rows d, h)
  update_settles owner now f rows (some o) e s d keeps stops h =
      ground (arith, rowcount-outcome k (held owner now) rows d, h, stops o)

module _ (k : Key) (owner : String) (now : ℕ) (rows rows' : List Outcome)
    (d : HasDistinctKeys rows) where
  update-settles-later :
      (f : Outcome → Outcome) (later : List Call)
      → ((o : Outcome) → key_of (f o) ≡ key_of o)
      → ((o : Outcome) → is_running (f o).status ≡ false)
      → update_source k owner now f rows ≡ (rows', true)
      → any_succeeds k later rows' ≡ false
  update-settles-later f later keeps stops h =
      let done =
        update_settles k owner now f rows (outcome_of k rows) refl (outcome_of-with_key k rows) d
          keeps stops (ap (λ (p : List Outcome × Bool). p.1) h) in
      settled-never-succeeds k later rows' (
        subst (IsSettled k) (ap (λ (p : List Outcome × Bool). p.0) h) (
          unfold update_source in
          (
            update-HasDistinctKeys (λ o. with_key k o && held owner now o) f rows keeps d,
            rw (outcome_of-update_where k (λ o. with_key k o && held owner now o) f rows keeps)
                done,
          )))

  -- Once a worker's completion or failure of a source in a run is accepted, no later claim,
  -- completion or failure of it by any worker succeeds: each source is settled once in a run.
  pub settled_is_final :
      (code : String) (detail : Option String) (bytes : ℕ) (counted : Counts → Counts)
      (later : List Call)
      → (complete_source k owner now counted rows ≡ (rows', true))
        ⊎ (fail_source k owner code detail now bytes rows ≡ (rows', true))
      → any_succeeds k later rows' ≡ false
  unfolding complete_source fail_source
  settled_is_final code detail bytes counted later (inl h) =
      update-settles-later (completed_with now counted) later (λ o. refl) (λ o. refl) h
  settled_is_final code detail bytes counted later (inr h) =
      update-settles-later (failed_with now code (safe_detail detail) bytes) later (λ o. refl)
        (λ o. refl) h
