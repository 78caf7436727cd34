-- ===== src/Retrieval/SourceLease/Calls.antt =====
-- shared/procuresignal/retrieval/audit.py: calls of several workers on the outcomes.
use procuresignal.Prelude.{
  Bool, Bool-cases, List, Option, String, [], arith, false, inl, inr, true, ℕ, ◌&&◌, ◌==◌, ◌||◌,
  ◌∷◌, ◌≡◌,
}
use procuresignal.Prelude.Table.{rowcount, update_where}
use procuresignal.Retrieval.SourceLease.{
  Counts, Key, Outcome, claim_seen, complete_source, expired, fail_source, insert_outcome, is_mine,
  renewable, renewed, same_key, taken_over, with_key,
}

-- A call of some worker. What a claim has read may be stale.
pub data Call : Type 0 where
  claim : (locked : Bool) (seen : Option Outcome) (k : Key) (owner : String) (now : ℕ) → Call
  complete : (k : Key) (owner : String) (now : ℕ) (counted : Counts → Counts) → Call
  fail : (k : Key) (owner code : String) (detail : Option String) (now bytes : ℕ) → Call

unfoldable pub call : Call → List Outcome → List Outcome × Bool
call (claim locked seen k owner now) rows = claim_seen locked seen k owner now rows
call (complete k owner now counted) rows = complete_source k owner now counted rows
call (fail k owner code detail now bytes) rows = fail_source k owner code detail now bytes rows

abbrev pub call_key : Call → Key
call_key (claim locked seen k owner now) = k
call_key (complete k owner now counted) = k
call_key (fail k owner code detail now bytes) = k

-- Whether some call on the key of `k` answers that it succeeded.
unfoldable pub any_succeeds : Key → List Call → List Outcome → Bool
any_succeeds k [] rows = false
any_succeeds k (c ∷ cs) rows =
    (same_key (call_key c) k && (call c rows).1) || any_succeeds k cs (call c rows).0

-- The four ends of a claim.
pub data Claimed (k : Key) (owner : String) (now : ℕ) (rows : List Outcome)
    (r : List Outcome × Bool) : Type 0 where
  renewal :
      r ≡ (
        update_where (λ o. with_key k o && renewable owner o) (renewed now) rows,
        rowcount (λ o. with_key k o && renewable owner o) rows == 1,
      )
      → Claimed k owner now rows r
  locked_out : r ≡ (rows, false) → Claimed k owner now rows r
  takeover :
      rowcount (λ o. with_key k o && expired now o) rows ≡ 1
      → r ≡ (update_where (λ o. with_key k o && expired now o) (taken_over owner now) rows, true)
      → Claimed k owner now rows r
  insertion : r ≡ insert_outcome k owner now rows → Claimed k owner now rows r

pub claim_seen-Claimed :
    (locked : Bool) (seen : Option Outcome) (k : Key) (owner : String) (now : ℕ)
    (rows : List Outcome)
    → Claimed k owner now rows (claim_seen locked seen k owner now rows)
unfolding claim_seen
claim_seen-Claimed locked seen k owner now rows = elim (Bool-cases (is_mine owner now seen)) [
  | inl mine ↦ renewal (rw mine)
  | inr strange ↦ elim (Bool-cases locked) [
    | inl shut ↦ locked_out (rw (strange, shut))
    | inr open_to ↦ elim (Bool-cases (rowcount (λ o. with_key k o && expired now o) rows == 1)) [
      | inl late ↦ takeover (ground (arith, late)) (rw (strange, open_to, late))
      | inr early ↦ insertion (rw (strange, open_to, early))
    ]
  ]
]

unfoldable pub calls : List Call → List Outcome → List Outcome
calls [] rows = rows
calls (c ∷ cs) rows = calls cs (call c rows).0
