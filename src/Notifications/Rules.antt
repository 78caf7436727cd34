-- ===== src/Notifications/Rules.antt =====
-- shared/procuresignal/notifications/rules.py: which alert rules a batch of risk events satisfies.
-- `watched` is what `watched_supplier_ids` answers for an organization during the evaluation. A set
-- of suppliers is a list, and `sorted` of it has each supplier once, in the order of code points.
pub mod Fires
pub mod Create
mod Tests
use Prim.Native.Char.{code}
use procuresignal.Prelude.{
  Bool, List, Option, String, [], contains, false, if◌then◌else◌, is_empty, keep, leb, ltb, none,
  not, some, str_eq, true, ℕ, ◌&&◌, ◌++◌, ◌+◌, ◌==◌, ◌||◌, ◌∷◌,
}
use procuresignal.Notifications.Outbox.{RuleMatch}

abbrev pub severity_order : List String
severity_order = "low" ∷ "medium" ∷ "high" ∷ "critical" ∷ []

-- `_RANK.get(severity, 0)`, from the position of the first name.
unfoldable pub rank_from : ℕ → List String → String → ℕ
rank_from index [] severity = 0
rank_from index (name ∷ names) severity =
    if str_eq name severity then index else rank_from (index + 1) names severity

unfoldable pub meets_severity : String → String → Bool
unfolding rank_from
meets_severity event_severity minimum =
    leb (rank_from 0 severity_order minimum) (rank_from 0 severity_order event_severity)

pub record AlertRule : Type 0 where
  pub id : ℕ
  pub organization_id : ℕ
  pub normalized_name : String
  pub min_severity : String
  pub risk_types : List String
  pub is_enabled : Bool

pub record RiskEvent : Type 0 where
  pub id : ℕ
  pub risk_type : String
  pub severity : String
  pub affected_supplier_ids : Option (List String)

unfoldable pub str_before : String → String → Bool
str_before String.[] String.[] = false
str_before String.[] (String.◌∷◌ d t) = true
str_before (String.◌∷◌ c s) String.[] = false
str_before (String.◌∷◌ c s) (String.◌∷◌ d t) =
    ltb (code c) (code d) || ((code c == code d) && str_before s t)

unfoldable pub insert_sorted : String → List String → List String
unfolding str_before
insert_sorted s [] = s ∷ []
insert_sorted s (x ∷ xs) =
    let rest = insert_sorted s xs in
    if str_eq x s then x ∷ xs else if str_before s x then s ∷ x ∷ xs else x ∷ rest

unfoldable pub sorted : List String → List String
unfolding insert_sorted
sorted [] = []
sorted (s ∷ xs) = insert_sorted s (sorted xs)

-- `event.affected_supplier_ids or []`
abbrev pub affected_by : RiskEvent → List String
affected_by event = elim event.affected_supplier_ids [ none ↦ [] | some ids ↦ ids ]

-- `affected & watched.get(rule.organization_id, set())`
abbrev pub hits_of : (ℕ → List String) → RiskEvent → AlertRule → List String
hits_of watched event rule =
    keep (λ s. contains s (watched rule.organization_id)) (affected_by event)

abbrev pub match_of : (ℕ → List String) → RiskEvent → AlertRule → RuleMatch
match_of watched event rule = record {
  rule_id = rule.id;
  organization_id = rule.organization_id;
  event_id = event.id;
  supplier_public_ids = sorted (hits_of watched event rule);
}

module _ (watched : ℕ → List String) where
  -- The loop over the rules.
  unfoldable pub matches_of : RiskEvent → List AlertRule → List RuleMatch
  unfolding meets_severity sorted
  matches_of event [] = []
  matches_of event (rule ∷ rules) =
      let rest = matches_of event rules in
      if not (is_empty rule.risk_types) && not (contains event.risk_type rule.risk_types)
      then rest
      else if not (meets_severity event.severity rule.min_severity)
      then rest
      else if is_empty (hits_of watched event rule)
      then rest
      else match_of watched event rule ∷ rest

  -- The loop over the events.
  unfoldable pub matches_all : List RiskEvent → List AlertRule → List RuleMatch
  unfolding matches_of
  matches_all [] rules = []
  matches_all (event ∷ events) rules =
      let rest = matches_all events rules in
      if is_empty (affected_by event) then rest else matches_of event rules ++ rest

  unfoldable pub evaluate_rules : List RiskEvent → List AlertRule → List RuleMatch
  unfolding matches_all
  evaluate_rules events rules =
      if is_empty events || is_empty (keep (λ rule. rule.is_enabled) rules)
      then []
      else matches_all events (keep (λ rule. rule.is_enabled) rules)
