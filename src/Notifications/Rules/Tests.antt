-- ===== src/Notifications/Rules/Tests.antt =====
-- shared/procuresignal/notifications/rules.py: examples.
use procuresignal.Prelude.{
  List, String, [], false, if◌then◌else◌, refl, some, true, ℕ, ◌&&◌, ◌==◌, ◌∷◌, ◌≡◌,
}
use procuresignal.Notifications.Outbox.{RuleMatch}
use procuresignal.Notifications.Rules.{sorted, AlertRule, RiskEvent, evaluate_rules, meets_severity}
use procuresignal.Notifications.Rules.Create.{
  Adds, create_alert_rule, create_alert_rule-Adds, created,
}
use procuresignal.Notifications.Rules.Fires.{fires, rowcount-evaluate_rules, total}
use procuresignal.Prelude.Table.{rowcount}

abbrev watched_by : ℕ → List String
watched_by organization = if organization == 7 then "s2" ∷ "s1" ∷ [] else []

abbrev strike : RiskEvent
strike = record {
  id = 9;
  risk_type = "labour";
  severity = "high";
  affected_supplier_ids = some ("s3" ∷ "s2" ∷ "s1" ∷ "s2" ∷ []);
}

abbrev high_rule : AlertRule
high_rule = record {
  id = 4;
  organization_id = 7;
  normalized_name = "strikes";
  min_severity = "medium";
  risk_types = [];
  is_enabled = true;
}

abbrev off_rule : AlertRule
off_rule = record high_rule { id = 5; is_enabled = false }

abbrev strike_match : RuleMatch
strike_match = record {
  rule_id = 4;
  organization_id = 7;
  event_id = 9;
  supplier_public_ids = "s1" ∷ "s2" ∷ [];
}

evaluated : evaluate_rules watched_by (strike ∷ []) (off_rule ∷ high_rule ∷ []) ≡ strike_match ∷ []
unfolding evaluate_rules
evaluated = refl

unknown_severity_is_low : meets_severity "catastrophic" "medium" ≡ false
unfolding meets_severity
unknown_severity_is_low = refl

rowcount-evaluate_rules_example :
    rowcount
      (λ m. m.rule_id == 4)
      (evaluate_rules watched_by (strike ∷ []) (off_rule ∷ high_rule ∷ []))
    ≡ total
        (λ event.
          total
            (λ rule. if fires watched_by event rule && (rule.id == 4) then 1 else 0)
            (off_rule ∷ high_rule ∷ []))
        (strike ∷ [])
rowcount-evaluate_rules_example =
    rowcount-evaluate_rules watched_by (λ m. m.rule_id == 4) (strike ∷ [])
      (off_rule ∷ high_rule ∷ [])

abbrev same : String → String
same s = s

new_rule_created :
    create_alert_rule same 7 "ports" "high" (some ("labour" ∷ [])) 6 (high_rule ∷ [])
    ≡ created
        (record high_rule {
          id = 6;
          normalized_name = "ports";
          min_severity = "high";
          risk_types = "labour" ∷ [];
        })
        (high_rule
          ∷ record high_rule {
            id = 6;
            normalized_name = "ports";
            min_severity = "high";
            risk_types = "labour" ∷ [];
          }
          ∷ [])
unfolding create_alert_rule sorted
new_rule_created = refl

create_alert_rule-Adds_example :
    Adds watched_by
      (λ m. m.rule_id == 6)
      (strike ∷ [])
      (high_rule ∷ [])
      7
      "high"
      (some ("labour" ∷ []))
      (create_alert_rule same 7 "ports" "high" (some ("labour" ∷ [])) 6 (high_rule ∷ []))
create_alert_rule-Adds_example =
    create_alert_rule-Adds same watched_by (λ m. m.rule_id == 6) (strike ∷ []) 7 "ports" "high"
      (some ("labour" ∷ [])) 6 (high_rule ∷ [])
