-- ===== src/Retrieval/SourceLease/Laws.antt =====
-- shared/procuresignal/retrieval/audit.py: what the statements on outcomes do to one of them.
use procuresignal.Prelude.{
  Bool, List, String, arith, eq_iff, false, if◌then◌else◌, none, some, true, ℕ, ◌&&◌, ◌↔◌, ◌≡◌,
}
use procuresignal.Prelude.Keyed.{
  IsDistinct, IsDistinct-append, IsDistinct-update_where, row_of-has_key, row_of-update_where,
  rowcount_of,
}
use procuresignal.Prelude.Table.{rowcount, update_where, updated}
use procuresignal.Retrieval.SourceLease.{
  Key, Outcome, insert_outcome, key_of, new_outcome, outcome_of, same_key, with_key,
}

abbrev pub HasDistinctKeys : List Outcome → Type 0
HasDistinctKeys rows = IsDistinct same_key key_of rows

pub same_key_iff : (a b : Key) → (same_key a b ≡ true) ↔ (a ≡ b)
same_key_iff (a, s) (b, t) = ground (arith, eq_iff s t)

-- At most one outcome of a key matches.
pub rowcount-outcome :
    (k : Key) (g : Outcome → Bool) (rows : List Outcome)
    → HasDistinctKeys rows
    → rowcount (λ o. with_key k o && g o) rows
      ≡ elim (outcome_of k rows) [ none ↦ 0 | some o ↦ if g o then 1 else 0 ]
rowcount-outcome k g rows d = rowcount_of same_key key_of same_key_iff k g rows d

pub outcome_of-update_where :
    (k : Key) (q : Outcome → Bool) (f : Outcome → Outcome) (rows : List Outcome)
    → ((o : Outcome) → key_of (f o) ≡ key_of o)
    → outcome_of k (update_where q f rows) ≡ updated q f (outcome_of k rows)
outcome_of-update_where k q f rows h = row_of-update_where same_key key_of k q f rows h

pub outcome_of-with_key :
    (k : Key) (rows : List Outcome)
    → elim (outcome_of k rows) [ none ↦ true | some o ↦ with_key k o ] ≡ true
outcome_of-with_key k rows = row_of-has_key same_key key_of k rows

pub update-HasDistinctKeys :
    (q : Outcome → Bool) (f : Outcome → Outcome) (rows : List Outcome)
    → ((o : Outcome) → key_of (f o) ≡ key_of o)
    → HasDistinctKeys rows
    → HasDistinctKeys (update_where q f rows)
update-HasDistinctKeys q f rows h d = IsDistinct-update_where same_key key_of q f rows h d

pub insert-HasDistinctKeys :
    (k : Key) (owner : String) (now : ℕ) (rows : List Outcome)
    → HasDistinctKeys rows
    → HasDistinctKeys (insert_outcome k owner now rows).0
insert-HasDistinctKeys k owner now rows d =
    ground (arith, IsDistinct-append same_key key_of same_key_iff rows (new_outcome k owner now), d)

-- The row that another key finds is not the row of this key.
pub other_key :
    (k j : Key) (o : Outcome) → with_key j o ≡ true → same_key k j ≡ false → with_key k o ≡ false
other_key (a, s) (b, t) o h n =
    ground (arith, eq_iff s t, eq_iff o.source_id t, eq_iff o.source_id s, h, n)
