-- ===== src/Retrieval/SourceLease/Held.antt =====
-- shared/procuresignal/retrieval/audit.py: the statements of other workers leave a held source held.
use procuresignal.Prelude.{
  Bool, Bool-cases, List, Option, String, [], all, arith, false, inl, inr, leb, none, not, refl,
  some, str_eq, true, ℕ, ◌&&◌, ◌==◌, ◌||◌, ◌∷◌, ◌≡◌, ◌≤◌,
}
use procuresignal.Prelude.Table.{find?-append, rowcount, update_where, updated}
use procuresignal.Retrieval.SourceLease.{
  Key, Outcome, complete_source, completed_with, expired, fail_source, failed_with, held,
  insert_outcome, key_of, new_outcome, outcome_of, renewable, renewed, running, same_key,
  taken_over, update_source, with_key,
}
use procuresignal.Retrieval.SourceLease.Calls.{
  Call, Claimed, any_succeeds, call, call_key, calls, claim, claim_seen-Claimed, complete, fail,
  insertion, locked_out, renewal, takeover,
}
use procuresignal.Retrieval.SourceLease.Detail.{safe_detail}
use procuresignal.Retrieval.SourceLease.Laws.{
  HasDistinctKeys, insert-HasDistinctKeys, other_key, outcome_of-update_where, outcome_of-with_key,
  rowcount-outcome, same_key_iff, update-HasDistinctKeys,
}

abbrev pub IsLeased : String → ℕ → Option Outcome → Type 0
IsLeased owner until none = ⊥
IsLeased owner until (some o) =
    (o.status ≡ running) × (o.lease_owner ≡ some owner) × (o.lease_expires_at ≡ some until)

-- Calls on other outcomes, and those of other workers before the lease ends.
abbrev pub foreign : Key → String → ℕ → Call → Bool
foreign k owner until (claim locked seen j o now) =
    not (same_key j k) || (not (str_eq owner o) && leb now until)
foreign k owner until (complete j o now counted) = not (same_key j k) || not (str_eq owner o)
foreign k owner until (fail j o code detail now bytes) = not (same_key j k) || not (str_eq owner o)

module _ (k : Key) (owner : String) (until : ℕ) where
  abbrev pub Holds : List Outcome → Type 0
  Holds rows = HasDistinctKeys rows × IsLeased owner until (outcome_of k rows)

  -- A statement whose condition the leased row does not meet leaves it alone, and counts no row.
  abbrev Misses : (Outcome → Bool) → Type 0
  Misses g =
      (o : Outcome)
      → o.status ≡ running
      → o.lease_owner ≡ some owner
      → o.lease_expires_at ≡ some until
      → g o ≡ false

  missed_row :
      (j : Key) (g : Outcome → Bool) (f : Outcome → Outcome) (r : Option Outcome)
      → elim r [ none ↦ true | some o ↦ with_key k o ] ≡ true
      → (same_key k j ≡ true → Misses g)
      → IsLeased owner until r
      → updated (λ o. with_key j o && g o) f r ≡ r
  missed_row j g f none e only h = absurd h
  missed_row j g f (some o) e only h = elim (Bool-cases (same_key k j)) [
    | inl same ↦ ground (arith, only same o h.0 h.1 h.2)
    | inr other ↦ ground (arith, other_key j k o e, same_key_iff j k, same_key_iff k j, other)
  ]

  missed_count :
      (g : Outcome → Bool) (rows : List Outcome) (r : Option Outcome)
      → outcome_of k rows ≡ r
      → HasDistinctKeys rows
      → Misses g
      → IsLeased owner until r
      → rowcount (λ o. with_key k o && g o) rows ≡ 0
  missed_count g rows none e d only h = absurd h
  missed_count g rows (some o) e d only h =
      ground (arith, rowcount-outcome k g rows d, only o h.0 h.1 h.2)

  missed-Holds :
      (j : Key) (g : Outcome → Bool) (f : Outcome → Outcome) (rows : List Outcome)
      → ((o : Outcome) → key_of (f o) ≡ key_of o)
      → (same_key k j ≡ true → Misses g)
      → Holds rows
      → Holds (update_where (λ o. with_key j o && g o) f rows)
        × ((same_key j k && (rowcount (λ o. with_key j o && g o) rows == 1)) ≡ false)
  missed-Holds j g f rows keeps only h = (
    (
      update-HasDistinctKeys (λ o. with_key j o && g o) f rows keeps h.0,
      rw (outcome_of-update_where k (λ o. with_key j o && g o) f rows keeps)
          (rw (missed_row j g f (outcome_of k rows) (outcome_of-with_key k rows) only h.1) h.1),
    ),
    elim (Bool-cases (same_key j k)) [
      | inl same ↦ rw same (
          rw ((same_key_iff j k).0 same) (
            rw (
              missed_count g rows (outcome_of k rows) refl h.0
                (only (ground (arith, same_key_iff j k, same_key_iff k j, same))) h.1)))
      | inr other ↦ rw other
    ],
  )

  inserted-Holds :
      (j : Key) (o : String) (now : ℕ) (rows : List Outcome) (r : Option Outcome)
      → outcome_of k rows ≡ r
      → HasDistinctKeys rows
      → IsLeased owner until r
      → Holds (insert_outcome j o now rows).0
        × ((same_key j k && (insert_outcome j o now rows).1) ≡ false)
  inserted-Holds j o now rows none e d h = absurd h
  inserted-Holds j o now rows (some x) e d h = (
    (
      insert-HasDistinctKeys j o now rows d,
      ground (arith, h.0, h.1, h.2, find?-append (with_key k) rows (new_outcome j o now)),
    ),
    ground (arith, same_key_iff j k),
  )

  foreign_claim-Holds :
      (j : Key) (o : String) (now : ℕ) (rows : List Outcome) {r : List Outcome × Bool}
      → (same_key k j ≡ true → (str_eq owner o ≡ false) × (now ≤ until))
      → Holds rows
      → Claimed j o now rows r
      → Holds r.0 × ((same_key j k && r.1) ≡ false)
  foreign_claim-Holds j o now rows strange h (renewal e) = rw e (
      missed-Holds j (renewable o) (renewed now) rows (λ x. refl)
        (λ same x a b c. ground (arith, a, b, c, strange same)) h)
  foreign_claim-Holds j o now rows strange h (locked_out e) = rw e (h, ground arith)
  foreign_claim-Holds j o now rows strange h (takeover n e) =
      let missed =
        missed-Holds j (expired now) (taken_over o now) rows (λ x. refl)
          (λ same x a b c. ground (arith, a, b, c, strange same)) h in
      rw e (missed.0, ground (arith, missed.1, n))
  foreign_claim-Holds j o now rows strange h (insertion e) =
      rw e (inserted-Holds j o now rows (outcome_of k rows) refl h.0 h.1)

  updated-Holds :
      (j : Key) (o : String) (now : ℕ) (f : Outcome → Outcome) (rows : List Outcome)
      → ((x : Outcome) → key_of (f x) ≡ key_of x)
      → (same_key k j ≡ true → str_eq owner o ≡ false)
      → Holds rows
      → Holds (update_source j o now f rows).0
        × ((same_key j k && (update_source j o now f rows).1) ≡ false)
  unfolding update_source
  updated-Holds j o now f rows keeps strange h =
      missed-Holds j (held o now) f rows keeps
        (λ same x a b c. ground (arith, a, b, c, strange same)) h

  call-Holds :
      (c : Call) (rows : List Outcome)
      → foreign k owner until c ≡ true
      → Holds rows
      → Holds (call c rows).0 × ((same_key (call_key c) k && (call c rows).1) ≡ false)
  unfolding call
  call-Holds (claim locked seen j o now) rows f h =
      foreign_claim-Holds j o now rows
        (λ same. ground (arith, f, same_key_iff j k, same_key_iff k j, same)) h
        (claim_seen-Claimed locked seen j o now rows)
  call-Holds (complete j o now counted) rows f h =
      unfold complete_source in
      updated-Holds j o now (completed_with now counted) rows (λ x. refl)
        (λ same. ground (arith, f, same_key_iff j k, same_key_iff k j, same)) h
  call-Holds (fail j o code detail now bytes) rows f h =
      unfold fail_source in
      updated-Holds j o now (failed_with now code (safe_detail detail) bytes) rows (λ x. refl)
        (λ same. ground (arith, f, same_key_iff j k, same_key_iff k j, same)) h

  pub calls-Holds :
      (cs : List Call) (rows : List Outcome)
      → all (foreign k owner until) cs ≡ true
      → Holds rows
      → Holds (calls cs rows) × (any_succeeds k cs rows ≡ false)
  unfolding calls any_succeeds
  calls-Holds [] rows f h = (h, refl)
  calls-Holds (c ∷ cs) rows f h =
      let kept = call-Holds c rows (ground arith) h in
      let rest = calls-Holds cs (call c rows).0 (ground arith) kept.0 in
      (rest.0, rw (kept.1, rest.1))
