-- ===== src/Notifications/Rules/Create.antt =====
-- shared/procuresignal/notifications/rules.py: the creation of alert rules, and what a new rule adds
-- to an evaluation. `normalize` is that of suppliers/normalization.py; names are kept in its form.
use procuresignal.Prelude.{
  inr, inl, Bool-cases, Bool, List, Option, String, [], arith, contains, false, if◌then◌else◌, any,
  is_empty, is_some, none, not, refl, some, str_eq, true, ℕ, ◌&&◌, ◌++◌, ◌+◌, ◌==◌, ◌||◌, ◌∷◌, ◌≡◌,
}
use procuresignal.Notifications.Rules.{
  AlertRule, RiskEvent, affected_by, evaluate_rules, insert_sorted, match_of, meets_severity,
  severity_order, sorted, rank_from,
}
use procuresignal.Notifications.Outbox.{RuleMatch}
use procuresignal.Notifications.Rules.Fires.{contains-sorted, fires, rowcount-evaluate_rules, total}
use procuresignal.Prelude.Table.{find?, rowcount}

pub data Created : Type 0 where
  created : (rule : AlertRule) (rules : List AlertRule) → Created
  needs_name unknown_severity duplicate_alert_rule : Created

abbrev pub named : ℕ → String → AlertRule → Bool
named organization_id name rule =
    rule.organization_id == organization_id && str_eq rule.normalized_name name

abbrev pub types_asked : Option (List String) → List String
types_asked none = []
types_asked (some types) = types

module _ (normalize : String → String) where
  unfoldable pub create_alert_rule :
      ℕ → String → String → Option (List String) → (id : ℕ) → List AlertRule → Created
  create_alert_rule organization_id name min_severity risk_types id rules =
      let rule : AlertRule = record {
        id = id;
        organization_id = organization_id;
        normalized_name = normalize name;
        min_severity = min_severity;
        risk_types = sorted (types_asked risk_types);
        is_enabled = true;
      } in
      if str_eq (normalize name) ""
      then needs_name
      else if not (contains min_severity severity_order)
      then unknown_severity
      else if is_some (find? (named organization_id (normalize name)) rules)
      then duplicate_alert_rule
      else created rule (rules ++ rule ∷ [])

-- What a request for a rule asks for: its types, its floor and the suppliers its organization watches.
abbrev pub wanted : (ℕ → List String) → ℕ → String → Option (List String) → RiskEvent → Bool
wanted watched organization_id min_severity risk_types event =
    (is_empty (types_asked risk_types) || contains event.risk_type (types_asked risk_types))
    && meets_severity event.severity min_severity
    && any (λ s. contains s (watched organization_id)) (affected_by event)

is_empty-insert_sorted : (s : String) (xs : List String) → is_empty (insert_sorted s xs) ≡ false
unfolding insert_sorted
is_empty-insert_sorted s [] = refl
is_empty-insert_sorted s (x ∷ xs) = ground arith

is_empty-sorted : (xs : List String) → is_empty (sorted xs) ≡ is_empty xs
unfolding sorted
is_empty-sorted [] = refl
is_empty-sorted (x ∷ xs) = is_empty-insert_sorted x (sorted xs)

total-append :
    (f : AlertRule → ℕ) (rules : List AlertRule) (rule : AlertRule)
    → total f (rules ++ rule ∷ []) ≡ total f rules + f rule
total-append f [] rule = omega arith
total-append f (r ∷ rules) rule = omega (arith, total-append f rules rule)

total-add :
    (f g h : RiskEvent → ℕ) (events : List RiskEvent)
    → ((event : RiskEvent) → f event ≡ g event + h event)
    → total f events ≡ total g events + total h events
total-add f g h [] k = refl
total-add f g h (event ∷ events) k = omega (arith, k event, total-add f g h events k)

module _ (watched : ℕ → List String) where
  -- A rule that asks for a sorted list of types fires as asked.
  fires-wanted :
      (event : RiskEvent) (id organization_id : ℕ) (name min_severity : String)
      (risk_types : Option (List String))
      → fires watched event (record {
        id = id;
        organization_id = organization_id;
        normalized_name = name;
        min_severity = min_severity;
        risk_types = sorted (types_asked risk_types);
        is_enabled = true;
      })
        ≡ wanted watched organization_id min_severity risk_types event
  fires-wanted event id organization_id name min_severity risk_types =
      rw
        (
          is_empty-sorted (types_asked risk_types),
          contains-sorted event.risk_type (types_asked risk_types),
        )
        refl

  appended_adds :
      (p : RuleMatch → Bool) (events : List RiskEvent) (rules : List AlertRule) (rule : AlertRule)
      → rowcount p (evaluate_rules watched events (rules ++ rule ∷ []))
        ≡ rowcount p (evaluate_rules watched events rules)
          + total
              (λ event.
                if fires watched event rule && p (match_of watched event rule) then 1 else 0)
              events
  appended_adds p events rules rule =
      let fired : RiskEvent → AlertRule → ℕ =
        λ event r. if fires watched event r && p (match_of watched event r) then 1 else 0 in
      omega (
        arith,
        rowcount-evaluate_rules watched p events (rules ++ rule ∷ []),
        rowcount-evaluate_rules watched p events rules,
        total-add (λ event. total (fired event) (rules ++ rule ∷ []))
            (λ event. total (fired event) rules) (λ event. fired event rule) events
            (λ event. total-append (fired event) rules rule),
      )

  -- What a creation does to the evaluation of any events, counted by any test of matches
  abbrev pub Adds :
      (RuleMatch → Bool)
      → List RiskEvent
      → List AlertRule
      → ℕ
      → String
      → Option (List String)
      → Created
      → Type 0
  Adds p events rules organization_id min_severity risk_types (created rule rules') =
      rowcount p (evaluate_rules watched events rules')
      ≡ rowcount p (evaluate_rules watched events rules)
        + total
            (λ event.
              if wanted watched organization_id min_severity risk_types event
                && p (match_of watched event rule)
              then 1
              else 0)
            events
  Adds p events rules organization_id min_severity risk_types needs_name = Unit
  Adds p events rules organization_id min_severity risk_types unknown_severity =
      (event : RiskEvent) → meets_severity event.severity min_severity ≡ true
  Adds p events rules organization_id min_severity risk_types duplicate_alert_rule = Unit

  total-equal :
      (f g : RiskEvent → ℕ) (events : List RiskEvent)
      → ((event : RiskEvent) → f event ≡ g event)
      → total f events ≡ total g events
  total-equal f g [] k = refl
  total-equal f g (event ∷ events) k = omega (arith, k event, total-equal f g events k)

rank_from-unknown :
    (index : ℕ) (names : List String) (severity : String)
    → contains severity names ≡ false
    → rank_from index names severity ≡ 0
unfolding rank_from
rank_from-unknown index [] severity h = refl
rank_from-unknown index (name ∷ names) severity h =
    ground (arith, h, rank_from-unknown (index + 1) names severity)

any_severity :
    (min_severity : String) (event : RiskEvent)
    → contains min_severity severity_order ≡ false
    → meets_severity event.severity min_severity ≡ true
unfolding meets_severity
any_severity min_severity event h =
    rw (rank_from-unknown 0 severity_order min_severity h) (ground arith)

module _ (normalize : String → String) (watched : ℕ → List String) where
  -- A rule that is created adds to every later evaluation one match for each event of one of the
  -- types that were asked for, or of any if none was, at or above the floor that was asked for, which
  -- affects a supplier that the organization watches; it changes no other match. A floor that is
  -- refused as unknown would have let events of every severity pass.
  pub create_alert_rule-Adds :
      (p : RuleMatch → Bool) (events : List RiskEvent) (organization_id : ℕ)
      (name min_severity : String) (risk_types : Option (List String)) (id : ℕ)
      (rules : List AlertRule)
      → Adds watched p events rules organization_id min_severity risk_types
          (create_alert_rule normalize organization_id name min_severity risk_types id rules)
  unfolding create_alert_rule
  create_alert_rule-Adds p events organization_id name min_severity risk_types id rules =
      elim (Bool-cases (str_eq (normalize name) "")) [
        | inl e ↦ rw e tt
        | inr e ↦ elim (Bool-cases (contains min_severity severity_order)) [
          | inr s ↦ rw (e, s) (λ event. any_severity min_severity event s)
          | inl s ↦
              elim (Bool-cases (is_some (find? (named organization_id (normalize name)) rules))) [
                | inl d ↦ rw (e, s, d) tt
                | inr d ↦
                    rw (e, s, d)
                      (omega (
                        arith,
                        appended_adds watched p events rules rule,
                        total-equal watched
                            (λ event.
                              if fires watched event rule && p (match_of watched event rule)
                              then 1
                              else 0)
                            (λ event.
                              if wanted watched organization_id min_severity risk_types event
                                && p (match_of watched event rule)
                              then 1
                              else 0)
                            events
                            (λ event.
                              rw
                                (fires-wanted watched event id organization_id (normalize name)
                                  min_severity risk_types)
                                refl),
                      ))
              ]
        ]
      ]
    where
      rule : AlertRule
      rule = record {
        id = id;
        organization_id = organization_id;
        normalized_name = normalize name;
        min_severity = min_severity;
        risk_types = sorted (types_asked risk_types);
        is_enabled = true;
      }
