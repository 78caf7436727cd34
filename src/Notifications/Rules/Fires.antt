-- ===== src/Notifications/Rules/Fires.antt =====
-- shared/procuresignal/notifications/rules.py: when an alert fires.
use procuresignal.Prelude.{
  Bool, Bool-cases, List, String, [], any, arith, contains, eq_iff, false, if◌then◌else◌, inl, inr,
  is_empty, keep, not, refl, str_eq, sym, true, ℕ, ◌&&◌, ◌++◌, ◌+◌, ◌||◌, ◌∙◌, ◌∷◌, ◌≡◌,
}
use procuresignal.Notifications.Outbox.{RuleMatch}
use procuresignal.Notifications.Rules.{
  AlertRule, RiskEvent, affected_by, evaluate_rules, hits_of, insert_sorted, match_of, matches_all,
  matches_of, meets_severity, sorted,
}
use procuresignal.Prelude.Table.{rowcount}

abbrev pub total : {A : Type 0} → (A → ℕ) → List A → ℕ
total f [] = 0
total f (x ∷ xs) = f x + total f xs

-- An enabled rule of the type, at or below the severity, whose organization watches a supplier that
-- the event affects.
abbrev pub fires : (ℕ → List String) → RiskEvent → AlertRule → Bool
fires watched event rule =
    rule.is_enabled
    && (is_empty rule.risk_types || contains event.risk_type rule.risk_types)
    && meets_severity event.severity rule.min_severity
    && any (λ s. contains s (watched rule.organization_id)) (affected_by event)

is_empty-keep : (p : String → Bool) (xs : List String) → is_empty (keep p xs) ≡ not (any p xs)
is_empty-keep p [] = refl
is_empty-keep p (x ∷ xs) = ground (arith, is_empty-keep p xs)

any-is_empty : (p : String → Bool) (xs : List String) → is_empty xs ≡ true → any p xs ≡ false
any-is_empty p [] h = refl
any-is_empty p (x ∷ xs) h = ground (arith, h)

rowcount-++ :
    (p : RuleMatch → Bool) (xs ys : List RuleMatch)
    → rowcount p (xs ++ ys) ≡ rowcount p xs + rowcount p ys
rowcount-++ p [] ys = omega arith
rowcount-++ p (x ∷ xs) ys = ground (arith, rowcount-++ p xs ys)

contains-insert_sorted :
    (s x : String) (xs : List String)
    → contains s (insert_sorted x xs) ≡ (str_eq x s || contains s xs)
unfolding insert_sorted
contains-insert_sorted s x [] = ground arith
contains-insert_sorted s x (y ∷ xs) =
    ground (arith, contains-insert_sorted s x xs, eq_iff y x, eq_iff x s, eq_iff y s)

pub contains-sorted : (s : String) (xs : List String) → contains s (sorted xs) ≡ contains s xs
unfolding sorted
contains-sorted s [] = refl
contains-sorted s (x ∷ xs) =
    ground (arith, contains-insert_sorted s x (sorted xs), contains-sorted s xs)

contains-keep :
    (s : String) (p : String → Bool) (xs : List String)
    → contains s (keep p xs) ≡ (p s && contains s xs)
contains-keep s p [] = ground arith
contains-keep s p (x ∷ xs) = ground (arith, contains-keep s p xs, same_answer)
  where
    same_answer : str_eq x s ≡ true → p x ≡ p s
    same_answer e = ground (arith, eq_iff x s, e)

module _ (watched : ℕ → List String) where
  guarded :
      (p : RuleMatch → Bool) (any_type has_type severe hit : Bool) (m : RuleMatch)
      (rest : List RuleMatch)
      → rowcount p (
          if not any_type && not has_type
          then rest
          else if not severe
          then rest
          else if not hit
          then rest
          else m ∷ rest)
        ≡ (if ((any_type || has_type) && severe && hit) && p m then 1 else 0) + rowcount p rest
  guarded p any_type has_type severe hit m rest = ground arith

  matches_of-cons :
      (p : RuleMatch → Bool) (event : RiskEvent) (rule : AlertRule) (rules : List AlertRule)
      → rule.is_enabled ≡ true
      → rowcount p (matches_of watched event (rule ∷ rules))
        ≡ (if fires watched event rule && p (match_of watched event rule) then 1 else 0)
          + rowcount p (matches_of watched event rules)
  unfolding matches_of
  matches_of-cons p event rule rules on =
      rw (is_empty-keep (λ s. contains s (watched rule.organization_id)) (affected_by event), on)
        (guarded p (is_empty rule.risk_types) (contains event.risk_type rule.risk_types)
          (meets_severity event.severity rule.min_severity)
          (any (λ s. contains s (watched rule.organization_id)) (affected_by event))
          (match_of watched event rule) (matches_of watched event rules))

  rowcount-matches_of :
      (p : RuleMatch → Bool) (event : RiskEvent) (rules : List AlertRule)
      → rowcount p (matches_of watched event (keep (λ rule. rule.is_enabled) rules))
        ≡ total
            (λ rule. if fires watched event rule && p (match_of watched event rule) then 1 else 0)
            rules
  rowcount-matches_of p event [] = unfold matches_of in refl
  rowcount-matches_of p event (rule ∷ rules) =
      let enabled = keep (λ (r : AlertRule). r.is_enabled) rules in
      elim (Bool-cases rule.is_enabled) [
        | inl on ↦ simp on (
            ground
              (arith, matches_of-cons p event rule enabled on, rowcount-matches_of p event rules))
        | inr off ↦ simp off (ground (arith, rowcount-matches_of p event rules))
      ]

  -- An event that affects no supplier satisfies no rule.
  total-unaffected :
      (p : RuleMatch → Bool) (event : RiskEvent) (rules : List AlertRule)
      → is_empty (affected_by event) ≡ true
      → total
          (λ rule. if fires watched event rule && p (match_of watched event rule) then 1 else 0)
          rules
        ≡ 0
  total-unaffected p event [] h = refl
  total-unaffected p event (rule ∷ rules) h = ground (
    arith,
    any-is_empty (λ s. contains s (watched rule.organization_id)) (affected_by event) h,
    total-unaffected p event rules h,
  )

  rowcount-matches_all :
      (p : RuleMatch → Bool) (events : List RiskEvent) (rules : List AlertRule)
      → rowcount p (matches_all watched events (keep (λ rule. rule.is_enabled) rules))
        ≡ total
            (λ event.
              total
                (λ rule.
                  if fires watched event rule && p (match_of watched event rule) then 1 else 0)
                rules)
            events
  unfolding matches_all
  rowcount-matches_all p [] rules = refl
  rowcount-matches_all p (event ∷ events) rules =
      let enabled = keep (λ (r : AlertRule). r.is_enabled) rules in
      elim (Bool-cases (is_empty (affected_by event))) [
        | inl none_affected ↦
            rw (none_affected, total-unaffected p event rules none_affected)
              (ground (arith, rowcount-matches_all p events rules))
        | inr some_affected ↦
            rw
              (
                some_affected,
                rowcount-++ p (matches_of watched event enabled)
                    (matches_all watched events enabled),
                rowcount-matches_of p event rules,
                rowcount-matches_all p events rules,
              )
              refl
      ]

  matches_all-no_rules : (events : List RiskEvent) → matches_all watched events [] ≡ []
  unfolding matches_all matches_of
  matches_all-no_rules [] = refl
  matches_all-no_rules (event ∷ events) = ground (arith, matches_all-no_rules events)

  evaluate_rules-matches_all :
      (events : List RiskEvent) (rules : List AlertRule)
      → evaluate_rules watched events rules
        ≡ matches_all watched events (keep (λ rule. rule.is_enabled) rules)
  unfolding evaluate_rules
  evaluate_rules-matches_all [] rules = unfold matches_all in refl
  evaluate_rules-matches_all (event ∷ events) rules =
      by_rules (keep (λ rule. rule.is_enabled) rules)
    where
      by_rules :
          (enabled : List AlertRule)
          → (if is_empty (event ∷ events) || is_empty enabled
              then []
              else matches_all watched (event ∷ events) enabled)
            ≡ matches_all watched (event ∷ events) enabled
      by_rules [] = sym (matches_all-no_rules (event ∷ events))
      by_rules (rule ∷ enabled) = refl

  -- The matches of evaluate_rules, counted by any test: each event and each rule that it fires give
  -- their one match, and nothing else does. A rule fires for an event if it is enabled, has no types
  -- or the type of the event, a minimum not above the severity of the event, and its organization
  -- watches a supplier that the event affects.
  pub rowcount-evaluate_rules :
      (p : RuleMatch → Bool) (events : List RiskEvent) (rules : List AlertRule)
      → rowcount p (evaluate_rules watched events rules)
        ≡ total
            (λ event.
              total
                (λ rule.
                  if fires watched event rule && p (match_of watched event rule) then 1 else 0)
                rules)
            events
  rowcount-evaluate_rules p events rules =
      rw (evaluate_rules-matches_all events rules) (rowcount-matches_all p events rules)

  -- The suppliers of a match are those that the event affects and the organization of the rule
  -- watches.
  pub contains-match_of :
      (s : String) (event : RiskEvent) (rule : AlertRule)
      → contains s (match_of watched event rule).supplier_public_ids
        ≡ (contains s (watched rule.organization_id) && contains s (affected_by event))
  contains-match_of s event rule =
      contains-sorted s (hits_of watched event rule)
      ∙ contains-keep s (λ x. contains x (watched rule.organization_id)) (affected_by event)
