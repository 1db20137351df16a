-- ===== src/Remediation/Tests.antt =====
-- The remediation theorems at the engine with the default rules.
use gpuopt.Base.{◌≡◌, ◌≤◌, ◌+◌, ◌*◌, refl, true, Option, none, some, [], ◌∷◌, codes_eq}
use gpuopt.Base.Text.{codes}
use gpuopt.Base.Dict.{lookup, values}
use gpuopt.Remediation.{
  AlertSeverity, AlertRecord, RemediationRule, RemediationRun, RemediationEngine, policy, Services,
  seeded, evaluate_alert, execute_rule, run_key, template, send_notification, run_first,
  first_matching, alert_matches, AlertSeverity-discrete, alert_severity_eq,
}
use gpuopt.Remediation.Matching.{Among, Answers, evaluate_alert_sound, runs_are_spaced}

abbrev services : Services
services = record {
  latest_recommendations = λ cluster. some (some (record { id = codes "r"; score = 7 } ∷ []));
  actuate = λ cluster rec dry_run. some true;
  analyze_power = λ cluster. none;
}

abbrev engine : RemediationEngine
engine = seeded (codes "a") (codes "b") (codes "c")

abbrev hot : AlertRecord
hot = record {
  id = codes "alert";
  cluster_id = codes "east";
  severity = AlertSeverity.critical;
  condition_type = "gpu_temperature";
  status = "firing";
}

abbrev rule : RemediationRule
rule = record {
  id = codes "r1";
  name = "notify";
  trigger_alert_severity = [];
  trigger_condition_types = [];
  trigger_policy_severity = [];
  actions = template send_notification "admin" true ∷ [];
  cooldown_minutes = 1;
  enabled = true;
}

abbrev first_time : Option RemediationRun × RemediationEngine
first_time = evaluate_alert services (codes "run1") 100 hot engine

abbrev second_time : Option RemediationRun × RemediationEngine
second_time = evaluate_alert services (codes "run2") 7300 hot first_time.1

abbrev run_of : Option RemediationRun → RemediationRun
run_of (some r) = r
run_of none = (execute_rule services [] 0 rule policy [] [] engine).0

ran_first : first_time.0 ≡ some (run_of first_time.0)
unfolding evaluate_alert seeded run_first first_matching alert_matches execute_rule
    AlertSeverity-discrete
ran_first = refl

ran_second : second_time.0 ≡ some (run_of second_time.0)
unfolding evaluate_alert seeded run_first first_matching alert_matches execute_rule
    AlertSeverity-discrete
ran_second = refl

same_rule : (run_of first_time.0).rule_id ≡ (run_of second_time.0).rule_id
unfolding evaluate_alert seeded run_first first_matching alert_matches execute_rule
    AlertSeverity-discrete
same_rule = refl

evaluate_alert_sound_example :
    (found : RemediationRule) × Among found (values engine.rules)
    × (hot.status ≡ "firing")
    × Answers hot 100 engine.last_run found
    × ((run_of first_time.0).rule_id ≡ found.id)
    × ((run_of first_time.0).cluster_id ≡ hot.cluster_id)
    × (lookup (run_key found.id hot.cluster_id) first_time.1.last_run ≡ some 100)
    × (first_time.1.rules ≡ engine.rules)
evaluate_alert_sound_example =
    evaluate_alert_sound services (codes "run1") 100 hot engine (run_of first_time.0) ran_first

runs_are_spaced_example :
    (found : RemediationRule) × Among found (values engine.rules)
    × (found.id ≡ (run_of second_time.0).rule_id)
    × (100 + found.cooldown_minutes * 60 ≤ 7300)
runs_are_spaced_example =
    runs_are_spaced services (codes "run1") (codes "run2") 100 7300 hot hot engine
      (run_of first_time.0) (run_of second_time.0) ran_first ran_second same_rule refl
