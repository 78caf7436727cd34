-- ===== src/Enrichment/Budget/Race.antt =====
-- shared/procuresignal/enrichment/budget.py: `consume` awaits its check before it awaits its
-- upsert, so several workers can be between the two. The check and the upsert are each one
-- statement.
use procuresignal.Prelude.{
  All, List, Option, String, [], ap, arith, eq_iff, eq_refl, if◌then◌else◌, length, length-append,
  max, none, refl, str_eq, true, ℕ, ◌&&◌, ◌*◌, ◌++◌, ◌+◌, ◌-◌, ◌<◌, ◌==◌, ◌∷◌, ◌≡◌, ◌≤◌,
}
use procuresignal.Enrichment.Budget.{Spend, bucket, day, global_bucket, increment, within_budget}
use procuresignal.Enrichment.Budget.Laws.{spent, spent-upsert, within_budget_lem}

-- A `consume` whose check has passed and whose upsert is still to come.
pub record Ticket : Type 0 where
  pub tenant : Option String
  pub tokens : ℕ
  pub calls : ℕ
  pub on : Option ℕ

pub record World : Type 0 where
  pub rows : List Spend
  pub flight : List Ticket

unfoldable pub in_flight : ℕ → String → ℕ → List Ticket → ℕ
in_flight today tenant date [] = 0
in_flight today tenant date (t ∷ ts) =
    (if str_eq (bucket t.tenant) tenant && day today t.on == date then t.tokens else 0)
    + in_flight today tenant date ts

in_flight-append :
    (today : ℕ) (tenant : String) (date : ℕ) (xs ys : List Ticket)
    → in_flight today tenant date (xs ++ ys)
      ≡ in_flight today tenant date xs + in_flight today tenant date ys
unfolding in_flight
in_flight-append today tenant date [] ys = omega arith
in_flight-append today tenant date (x ∷ xs) ys =
    omega (arith, in_flight-append today tenant date xs ys)

-- At most `workers` are in flight, each with at most `most` tokens.
pub data Step (today budget workers most : ℕ) (w : World) (u : World) : Type 0 where
  admit :
      (t : Ticket)
      → t.tokens ≤ most
      → length w.flight < workers
      → within_budget today budget t.tenant t.tokens t.on w.rows ≡ true
      → u ≡ record w { flight = t ∷ w.flight }
      → Step today budget workers most w u
  write :
      (xs : List Ticket) (t : Ticket) (ys : List Ticket)
      → w.flight ≡ xs ++ t ∷ ys
      → u
        ≡ record { rows = increment today t.tenant t.tokens t.calls t.on w.rows; flight = xs ++ ys }
      → Step today budget workers most w u

pub data Reach (today budget workers most : ℕ) (w : World) : World → Type 0 where
  here : Reach today budget workers most w w
  next :
      {u v : World}
      → Reach today budget workers most w u
      → Step today budget workers most u v
      → Reach today budget workers most w v

module _ (today budget workers most : ℕ) (tenant : String) (date : ℕ) where
  -- What is spent and what is about to be stays within the budget and one ticket for each of
  -- the other workers.
  pub record IsBounded (w : World) : Type 0 where
    pub few : length w.flight ≤ workers
    pub each : All (λ t. t.tokens ≤ most) w.flight
    pub total :
        spent tenant date w.rows + in_flight today tenant date w.flight
        ≤ budget + (workers - 1) * most

  others_le : (n : ℕ) → n < workers → n * most ≤ (workers - 1) * most
  others_le n h = grind arith

  in_flight-le :
      (ts : List Ticket)
      → All (λ t. t.tokens ≤ most) ts
      → in_flight today tenant date ts ≤ length ts * most
  unfolding in_flight
  in_flight-le [] h = omega arith
  in_flight-le (t ∷ ts) h = ground (arith, in_flight-le ts h.1, h.0)

  All-remove :
      (xs : List Ticket) (t : Ticket) (ys : List Ticket)
      → All (λ t. t.tokens ≤ most) (xs ++ t ∷ ys)
      → All (λ t. t.tokens ≤ most) (xs ++ ys)
  All-remove [] t ys h = h.1
  All-remove (x ∷ xs) t ys h = (h.0, All-remove xs t ys h.1)

  admit_total :
      (t : Ticket) (w : World)
      → length w.flight < workers
      → within_budget today budget t.tenant t.tokens t.on w.rows ≡ true
      → IsBounded w
      → spent tenant date w.rows + in_flight today tenant date (t ∷ w.flight)
        ≤ budget + (workers - 1) * most
  unfolding in_flight
  admit_total t w room ok h = ground (
    arith,
    within_budget_lem today budget t.tenant t.tokens t.on w.rows,
    others_le (length w.flight) room,
    in_flight-le w.flight h.each,
    h.total,
    eq_iff (bucket t.tenant) tenant,
  )

  write_total :
      (xs : List Ticket) (t : Ticket) (ys : List Ticket) (rows : List Spend)
      → spent tenant date (increment today t.tenant t.tokens t.calls t.on rows)
          + in_flight today tenant date (xs ++ ys)
        ≡ spent tenant date rows + in_flight today tenant date (xs ++ t ∷ ys)
  unfolding in_flight increment
  write_total xs t ys rows = omega (
    arith,
    in_flight-append today tenant date xs ys,
    in_flight-append today tenant date xs (t ∷ ys),
    spent-upsert (bucket t.tenant) (day today t.on) t.tokens t.calls rows tenant date,
  )

  Step-IsBounded : {w u : World} → Step today budget workers most w u → IsBounded w → IsBounded u
  Step-IsBounded {w} (admit t cheap room ok e) h =
      rw e (record { few = room; each = (cheap, h.each); total = admit_total t w room ok h })
  Step-IsBounded {w} (write xs t ys at_hand e) h = rw e (record {
    few = omega (
      arith,
      h.few,
      ap (λ (l : List Ticket). length l) at_hand,
      length-append xs ys,
      length-append xs (t ∷ ys),
    );
    each = All-remove xs t ys (rw at_hand at h.each);
    total = rw (write_total xs t ys w.rows) (rw (← at_hand) h.total);
  })

  Reach-IsBounded : {w u : World} → Reach today budget workers most w u → IsBounded w → IsBounded u
  Reach-IsBounded here h = h
  Reach-IsBounded (next r st) h = Step-IsBounded st (Reach-IsBounded r h)

abbrev pub idle : List Spend → World
idle rows = record { rows = rows; flight = [] }

-- However `workers` interleave checks and upserts of at most `most` tokens each, on whatever buckets
-- and days, the day of a bucket that starts within the budget passes it by at most one request for
-- each of the other workers.
pub spent-race-le :
    (today budget workers most : ℕ) (rows : List Spend) (u : World) (tenant : String) (date : ℕ)
    → spent tenant date rows ≤ budget
    → Reach today budget workers most (idle rows) u
    → spent tenant date u.rows ≤ budget + (workers - 1) * most
unfolding in_flight
spent-race-le today budget workers most rows u tenant date h r =
    omega (arith, (Reach-IsBounded today budget workers most tenant date r start).total)
  where
    start : IsBounded today budget workers most tenant date (idle rows)
    start = record { few = omega arith; each = tt; total = omega (arith, h) }

abbrev unassigned : ℕ → Ticket
unassigned tokens = record { tenant = none; tokens = tokens; calls = 1; on = none }

admitted :
    (today budget a : ℕ) (rows : List Spend)
    → spent global_bucket today rows + a ≤ budget
    → within_budget today budget none a none rows ≡ true
admitted today budget a rows h = ground (arith, within_budget_lem today budget none a none rows)

-- The bound is met: two requests that fit alone and not together are both recorded if both
-- checks come first, and the day ends past the budget.
pub race_passes_budget :
    (today budget a b : ℕ) (rows : List Spend)
    → spent global_bucket today rows + a ≤ budget
    → spent global_bucket today rows + b ≤ budget
    → budget < spent global_bucket today rows + a + b
    → (u : World) × Reach today budget 2 (max a b) (idle rows) u
      × (spent global_bucket today u.rows ≡ spent global_bucket today rows + a + b)
unfolding increment
race_passes_budget today budget a b rows ha hb over = (
  idle after,
  next
      (next
        (next
          (next here (
            admit (unassigned a) (omega arith) (omega arith) (admitted today budget a rows ha)
              refl))
          (admit (unassigned b) (omega arith) (omega arith) (admitted today budget b rows hb) refl))
        (write (unassigned b ∷ []) (unassigned a) [] refl refl))
      (write [] (unassigned b) [] refl refl),
  ground (
    arith,
    spent-upsert global_bucket today b 1 (increment today none a 1 none rows) global_bucket today,
    spent-upsert global_bucket today a 1 rows global_bucket today,
    eq_refl global_bucket,
  ),
)
  where
    after : List Spend
    after = increment today none b 1 none (increment today none a 1 none rows)
