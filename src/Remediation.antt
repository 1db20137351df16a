-- ===== src/Remediation.antt =====
-- `RemediationEngine` of src/gpuopt/remediation.py. An identifier that the code joins into a key is
-- a list of code points. What the recommendation store, the actuation and the power services answer
-- is an interface, `Services`. One evaluation reads the clock once. The texts of results, errors
-- and summaries are left out.
pub mod Matching
pub mod Running
mod Tests
use gpuopt.Base.{
  ℕ, ◌+◌, ◌*◌, ◌-◌, String, Bool, true, false, ◌&&◌, ◌||◌, not, Option, none, some, List, [], ◌∷◌,
  ◌++◌, map, any, count, ◌==◌, string_eq, codes_eq, Eq, dec_beq, dec_beq_iff, if◌then◌else◌, ltb,
  leb, nat_eq,
}
use gpuopt.Base.Dict.{Dict, lookup, insert, erase, has_key, values}

abbrev pub Ident : Type 0
Ident = List ℕ

pub data AlertSeverity : Type 0 where
  info warning critical : AlertSeverity

pub data PolicySeverity : Type 0 where
  low medium high critical : PolicySeverity

unfoldable pub AlertSeverity-discrete : Discrete AlertSeverity
AlertSeverity-discrete = hlevel

instance abbrev pub alert_severity_eq : Eq AlertSeverity
alert_severity_eq = record {
  beq = dec_beq AlertSeverity-discrete;
  beq_iff = dec_beq_iff AlertSeverity-discrete;
}

unfoldable pub PolicySeverity-discrete : Discrete PolicySeverity
PolicySeverity-discrete = hlevel

instance abbrev pub policy_severity_eq : Eq PolicySeverity
policy_severity_eq = record {
  beq = dec_beq PolicySeverity-discrete;
  beq_iff = dec_beq_iff PolicySeverity-discrete;
}

pub data ActionType : Type 0 where
  actuate_recommendation scale_cluster restart_service drain_node : ActionType
  adjust_power_cap send_notification create_ticket run_chaos : ActionType

pub data Status : Type 0 where
  pending in_progress completed failed skipped : Status

-- The parameters that the code reads, with its defaults for the missing ones.
pub record RemediationAction : Type 0 where
  pub type : ActionType
  pub target : String
  pub dry_run : Bool
  pub select_best : Bool
  pub status : Status
  pub started_at : Option ℕ
  pub completed_at : Option ℕ

pub record RemediationRule : Type 0 where
  pub id : Ident
  pub name : String
  pub trigger_alert_severity : List AlertSeverity
  pub trigger_condition_types : List String
  pub trigger_policy_severity : List PolicySeverity
  pub actions : List RemediationAction
  pub cooldown_minutes : ℕ
  pub enabled : Bool

pub data TriggerType : Type 0 where
  alert policy : TriggerType

pub record RemediationRun : Type 0 where
  pub id : Ident
  pub rule_id : Ident
  pub trigger_type : TriggerType
  pub trigger_id : Ident
  pub cluster_id : Ident
  pub status : Status
  pub actions : List RemediationAction
  pub started_at : ℕ
  pub completed_at : Option ℕ

pub record RemediationEngine : Type 0 where
  pub rules : Dict Ident RemediationRule
  pub runs : Dict Ident RemediationRun
  pub last_run : Dict Ident ℕ

pub record AlertRecord : Type 0 where
  pub id : Ident
  pub cluster_id : Ident
  pub severity : AlertSeverity
  pub condition_type : String
  pub status : String

pub record Recommendation : Type 0 where
  pub id : Ident
  pub score : ℕ

-- What the other services answer for a cluster; `none` where they raise.
pub record Services : Type 0 where
  pub latest_recommendations : Ident → Option (Option (List Recommendation))
  -- whether the actuation's record is completed
  pub actuate : Ident → Ident → Bool → Option Bool
  -- `total_gpus` of the power analysis, if there is one
  pub analyze_power : Ident → Option (Option ℕ)

-- `max(recommendations, key=lambda r: r.score)`, the first of the highest
unfoldable pub best : Recommendation → List Recommendation → Recommendation
best r [] = r
best r (s ∷ rest) = if ltb r.score s.score then best s rest else best r rest

abbrev pub or_false : Option Bool → Bool
or_false none = false
or_false (some b) = b

unfoldable pub actuate_among :
    Services → Ident → Bool → Bool → Option (Option (List Recommendation)) → Bool
actuate_among services cluster dry_run select_best none = false
actuate_among services cluster dry_run select_best (some none) = false
actuate_among services cluster dry_run select_best (some (some [])) = false
actuate_among services cluster dry_run select_best (some (some (r ∷ rest))) =
    or_false (services.actuate cluster (if select_best then best r rest else r).id dry_run)

abbrev pub has_gpus : Option (Option ℕ) → Bool
has_gpus none = false
has_gpus (some none) = false
has_gpus (some (some n)) = ltb 0 n

-- `_execute_action`: whether the result is a success
unfoldable pub execute_action : Services → Ident → RemediationAction → ActionType → Bool
execute_action services cluster a actuate_recommendation =
    actuate_among services cluster a.dry_run a.select_best (services.latest_recommendations cluster)
execute_action services cluster a adjust_power_cap = has_gpus (services.analyze_power cluster)
execute_action services cluster a send_notification = true
execute_action services cluster a create_ticket = true
execute_action services cluster a _ = false

-- One turn of the loop of `_execute_rule`.
unfoldable pub execute_template : Services → Ident → ℕ → RemediationAction → RemediationAction
execute_template services cluster now template = record template {
  status = if execute_action services cluster template template.type then completed else failed;
  started_at = some now;
  completed_at = some now;
}

abbrev pub is_failed : Status → Bool
is_failed failed = true
is_failed _ = false

-- `f"{rule.id}:{cluster_id}"`
abbrev pub run_key : Ident → Ident → Ident
run_key rule_id cluster = rule_id ++ (58 ∷ cluster)

unfoldable pub execute_rule :
    Services
    → Ident
    → ℕ
    → RemediationRule
    → TriggerType
    → Ident
    → Ident
    → RemediationEngine
    → RemediationRun × RemediationEngine
execute_rule services fresh now rule trigger trigger_id cluster e =
    let done : List RemediationAction = map (execute_template services cluster now) rule.actions in
    let failures = count (λ (a : RemediationAction). is_failed a.status) done in
    let run : RemediationRun = record {
      id = fresh;
      rule_id = rule.id;
      trigger_type = trigger;
      trigger_id = trigger_id;
      cluster_id = cluster;
      status = if failures == 0 then completed else failed;
      actions = done;
      started_at = now;
      completed_at = some now;
    } in
    (
      run,
      record e {
        runs = insert fresh run e.runs;
        last_run = insert (run_key rule.id cluster) now e.last_run;
      },
    )

-- `last and (now - last) < cooldown`
abbrev pub cooling : Option ℕ → ℕ → ℕ → Bool
cooling none now minutes = false
cooling (some last) now minutes = ltb now (last + minutes * 60)

abbrev pub is_empty : {A : Type 0} → List A → Bool
is_empty [] = true
is_empty (x ∷ xs) = false

-- The rule passes the `continue`s of `evaluate_alert`.
unfoldable pub alert_matches : AlertRecord → ℕ → Dict Ident ℕ → RemediationRule → Bool
alert_matches a now last_run rule =
    if not rule.enabled
    then false
    else if not (any (λ s. a.severity == s) rule.trigger_alert_severity)
    then false
    else if not (is_empty rule.trigger_condition_types)
        && not (any (λ t. a.condition_type == t) rule.trigger_condition_types)
    then false
    else not (cooling (lookup (run_key rule.id a.cluster_id) last_run) now rule.cooldown_minutes)

-- The rule passes the `continue`s of `evaluate_policy`.
unfoldable pub policy_matches : PolicySeverity → Ident → ℕ → Dict Ident ℕ → RemediationRule → Bool
policy_matches severity cluster now last_run rule =
    if not rule.enabled
    then false
    else if not (is_empty rule.trigger_policy_severity)
        && not (any (λ s. severity == s) rule.trigger_policy_severity)
    then false
    else not (cooling (lookup (run_key rule.id cluster) last_run) now rule.cooldown_minutes)

unfoldable pub first_matching :
    (RemediationRule → Bool) → List RemediationRule → Option RemediationRule
first_matching p [] = none
first_matching p (rule ∷ rules) =
    let rest = first_matching p rules in if p rule then some rule else rest

-- `return self._execute_rule(...)` for the first rule that passes, or None.
unfoldable pub run_first :
    Services
    → Ident
    → ℕ
    → TriggerType
    → Ident
    → Ident
    → RemediationEngine
    → Option RemediationRule
    → Option RemediationRun × RemediationEngine
run_first services fresh now trigger trigger_id cluster e none = (none, e)
run_first services fresh now trigger trigger_id cluster e (some rule) =
    let (run, e') = execute_rule services fresh now rule trigger trigger_id cluster e in
    (some run, e')

unfoldable pub evaluate_alert :
    Services
    → Ident
    → ℕ
    → AlertRecord
    → RemediationEngine
    → Option RemediationRun × RemediationEngine
evaluate_alert services fresh now a e =
    if a.status == "firing"
    then run_first services fresh now alert a.id a.cluster_id e
        (first_matching (alert_matches a now e.last_run) (values e.rules))
    else (none, e)

unfoldable pub evaluate_policy :
    Services
    → Ident
    → ℕ
    → Ident
    → PolicySeverity
    → Ident
    → RemediationEngine
    → Option RemediationRun × RemediationEngine
evaluate_policy services fresh now policy_id severity cluster e =
    run_first services fresh now policy policy_id cluster e
      (first_matching (policy_matches severity cluster now e.last_run) (values e.rules))

-- Rules are added under their id, a fresh one where it is empty, and deleted by it.
unfoldable pub add_rule :
    Ident → RemediationRule → RemediationEngine → RemediationRule × RemediationEngine
add_rule fresh rule e =
    let rule' : RemediationRule = record rule {
      id = if is_empty rule.id then fresh else rule.id;
    } in
    (rule', record e { rules = insert rule'.id rule' e.rules })

abbrev pub delete_rule : Ident → RemediationEngine → Bool × RemediationEngine
delete_rule rule_id e = (has_key rule_id e.rules, record e { rules = erase rule_id e.rules })

abbrev pub template : ActionType → String → Bool → RemediationAction
template t target dry_run = record {
  type = t;
  target = target;
  dry_run = dry_run;
  select_best = true;
  status = pending;
  started_at = none;
  completed_at = none;
}

-- `__init__` with `_seed_default_rules`: three rules under fresh ids.
unfoldable pub seeded : Ident → Ident → Ident → RemediationEngine
seeded a b c = record {
  rules =
      insert c
        (record {
          id = c;
          name = "Cost Anomaly Notification";
          trigger_alert_severity = critical ∷ [];
          trigger_condition_types = "cost_anomaly" ∷ "budget_alert" ∷ [];
          trigger_policy_severity = [];
          actions =
              template send_notification "finops-team" true
              ∷ template create_ticket "jira" true
              ∷ [];
          cooldown_minutes = 1440;
          enabled = true;
        })
        (insert b
          (record {
            id = b;
            name = "Power Efficiency Auto-Tuning";
            trigger_alert_severity = warning ∷ critical ∷ [];
            trigger_condition_types = "power_efficiency" ∷ [];
            trigger_policy_severity = [];
            actions = template adjust_power_cap "gpu" true ∷ [];
            cooldown_minutes = 60;
            enabled = true;
          })
          ((
            a,
            record {
              id = a;
              name = "Critical GPU Alert Auto-Remediation";
              trigger_alert_severity = critical ∷ [];
              trigger_condition_types =
                  "gpu_utilization" ∷ "memory_utilization" ∷ "gpu_temperature" ∷ [];
              trigger_policy_severity = [];
              actions =
                  template actuate_recommendation "cluster" false
                  ∷ template send_notification "admin" true
                  ∷ [];
              cooldown_minutes = 120;
              enabled = true;
            },
          )
            ∷ []));
  runs = [];
  last_run = [];
}
