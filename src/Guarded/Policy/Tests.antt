-- ===== src/Guarded/Policy/Tests.antt =====
-- Pre-flight checks at concrete inputs.
use gpuopt.Base.Int.{pos}
use gpuopt.Guarded.Policy.Rules.{passes}
use gpuopt.Guarded.Policy.Results.{misdated}
use gpuopt.Base.{
  ℕ, Option, any, ◌&&◌, ◌↔◌, String, true, not, ◌||◌, ◌≡◌, refl, none, some, List, [], ◌∷◌, all,
  string_eq, nat_eq,
}
use gpuopt.Guarded.Policy.{
  PolicyRule, RuleConfig, PreFlightCheckResult, Context, medium, warn, considered, check_pre_flight,
}
use gpuopt.Guarded.Policy.Preflight.{preflight_verdict}

abbrev no_config : RuleConfig
no_config = record {
  allowed_environments = none;
  denied_environments = none;
  start_hour = none;
  end_hour = none;
  allowed_days = none;
  max_gpu_count = none;
  in_maintenance = none;
}

abbrev rule : String → RuleConfig → PolicyRule
rule kind config = record {
  id = kind;
  name = kind;
  scope_type = "global";
  scope_value = "";
  rule_type = kind;
  rule_config = config;
  severity = medium;
  enabled = true;
  fail_action = warn;
}

abbrev window_rule : PolicyRule
window_rule = rule "time_window" (record no_config { start_hour = some 8 })

abbrev prod_rule : PolicyRule
prod_rule =
    rule "environment_restriction" (record no_config { denied_environments = some ("prod" ∷ []) })

abbrev gpu_rule : PolicyRule
gpu_rule = rule "resource_limit" (record no_config { max_gpu_count = some 1 })

abbrev rules : List PolicyRule
rules = window_rule ∷ prod_rule ∷ gpu_rule ∷ []

abbrev at_night : Context
at_night = record {
  cluster_id = "c1";
  rec_id = "rec";
  environment = "dev";
  hour = 23;
  weekday = 2;
  recommendations =
      some (record { id = "rec"; affected_resources = "GPU-0" ∷ "gpu-1" ∷ "disk" ∷ [] } ∷ []);
}

-- At 23 o'clock the open-ended window is shut, and two GPUs are over the limit.
abbrev counts : Option PreFlightCheckResult → Option (ℕ × ℕ)
counts none = none
counts (some r) = some (r.blocked_count, r.passed_count)

check-rules : counts (check_pre_flight rules at_night) ≡ some (2, 1)
unfolding check_pre_flight
check-rules = refl

-- Wednesday is not allowed, and there is no eighth day of the week.
abbrev odd_days : PolicyRule
odd_days = rule "time_window" (record no_config { allowed_days = some (pos 0 ∷ pos 7 ∷ []) })

preflight_verdict_example :
    ((check_pre_flight (prod_rule ∷ odd_days ∷ []) at_night ≡ none) ↔ (
      any (λ p. considered at_night p && misdated at_night p) (prod_rule ∷ odd_days ∷ []) ≡ true))
    × ((r : PreFlightCheckResult)
        → check_pre_flight (prod_rule ∷ odd_days ∷ []) at_night ≡ some r
        → (r.overall_passed
            ≡ all
                (λ p. not (considered at_night p) || passes p at_night)
                (prod_rule ∷ odd_days ∷ []))
          × (r.requires_approval ≡ not r.overall_passed))
preflight_verdict_example = preflight_verdict (prod_rule ∷ odd_days ∷ []) at_night
