-- ===== src/Guarded/Policy/Results.antt =====
-- What the evaluation of one policy can answer, and when it raises.
use gpuopt.Base.{
  Bool, true, false, ◌&&◌, not, ◌≡◌, refl, ap, subst, Option, none, some, any, arith, ◌==◌,
  string_eq, nat_eq, if◌then◌else◌, Bool-cases, Option-cases, inl, inr, is_none, eq_iff,
}
use gpuopt.Guarded.Policy.{
  PolicyRule, Context, PolicyEvaluationResult, block, allow, evaluate_policy, evaluate_environment,
  evaluate_time_window, evaluate_resource_limit, evaluate_maintenance, day_in, get_default,
  every_day, is_unnamed, allowed_by, blocked_by, unknown_rule, approval_needed,
}

-- A result blocks exactly when it did not pass, and never warns.
abbrev pub IsHonest : PolicyEvaluationResult → Type 0
IsHonest r = r.action ≡ (if r.passed then allow else block)

abbrev IsHonestIfAny : Option PolicyEvaluationResult → Type 0
IsHonestIfAny none = Unit
IsHonestIfAny (some r) = IsHonest r

environment-IsHonest : (p : PolicyRule) (ctx : Context) → IsHonest (evaluate_environment p ctx)
unfolding evaluate_environment
environment-IsHonest p ctx = ground arith

resource_limit-IsHonest :
    (p : PolicyRule) (ctx : Context) → IsHonest (evaluate_resource_limit p ctx)
unfolding evaluate_resource_limit
resource_limit-IsHonest p ctx = ground arith

maintenance-IsHonest : (p : PolicyRule) (ctx : Context) → IsHonest (evaluate_maintenance p ctx)
unfolding evaluate_maintenance
maintenance-IsHonest p ctx = ground arith

time_window-IsHonest :
    (p : PolicyRule) (ctx : Context) (r : PolicyEvaluationResult)
    → evaluate_time_window p ctx ≡ some r
    → IsHonest r
unfolding evaluate_time_window
time_window-IsHonest p ctx r h = ground arith

time_window-IsHonestIfAny :
    (p : PolicyRule) (ctx : Context) → IsHonestIfAny (evaluate_time_window p ctx)
time_window-IsHonestIfAny p ctx = elim (Option-cases (evaluate_time_window p ctx)) [
  | inl bad ↦ rw (bad) tt
  | inr (r, good) ↦ rw (good) (time_window-IsHonest p ctx r good)
]

honest_if :
    (b : Bool) (x y : Option PolicyEvaluationResult)
    → IsHonestIfAny x
    → IsHonestIfAny y
    → IsHonestIfAny (if b then x else y)
honest_if true x y h k = h
honest_if false x y h k = k

evaluate_policy-IsHonestIfAny :
    (p : PolicyRule) (ctx : Context) → IsHonestIfAny (evaluate_policy p ctx)
unfolding evaluate_policy
evaluate_policy-IsHonestIfAny p ctx =
    let unknown = some (allowed_by p (unknown_rule p.rule_type)) in
    let maintenance =
      if p.rule_type == "maintenance_window" then some (evaluate_maintenance p ctx) else unknown in
    let limit =
      if p.rule_type == "resource_limit"
      then some (evaluate_resource_limit p ctx)
      else maintenance in
    let approval =
      if p.rule_type == "approval_required" then some (blocked_by p approval_needed) else limit in
    let window = if p.rule_type == "time_window" then evaluate_time_window p ctx else approval in
    honest_if (p.rule_type == "environment_restriction") (some (evaluate_environment p ctx)) window
      (environment-IsHonest p ctx)
      (honest_if (p.rule_type == "time_window") (evaluate_time_window p ctx) approval
        (time_window-IsHonestIfAny p ctx)
        (honest_if (p.rule_type == "approval_required") (some (blocked_by p approval_needed)) limit
          refl
          (honest_if (p.rule_type == "resource_limit") (some (evaluate_resource_limit p ctx))
            maintenance (resource_limit-IsHonest p ctx)
            (honest_if (p.rule_type == "maintenance_window") (some (evaluate_maintenance p ctx))
              unknown (maintenance-IsHonest p ctx) refl))))

pub evaluate_policy-IsHonest :
    (p : PolicyRule) (ctx : Context) (r : PolicyEvaluationResult)
    → evaluate_policy p ctx ≡ some r
    → IsHonest r
evaluate_policy-IsHonest p ctx r h = subst IsHonestIfAny h (evaluate_policy-IsHonestIfAny p ctx)

-- The rule looks up a day without a name.
abbrev pub misdated : Context → PolicyRule → Bool
misdated ctx p =
    (p.rule_type == "time_window")
    && (not (day_in ctx.weekday (get_default every_day p.rule_config.allowed_days))
        && any is_unnamed (get_default every_day p.rule_config.allowed_days))

pub evaluate_policy-misdated :
    (p : PolicyRule) (ctx : Context) → is_none (evaluate_policy p ctx) ≡ misdated ctx p
unfolding evaluate_policy
evaluate_policy-misdated p ctx = elim (Bool-cases (p.rule_type == "environment_restriction")) [
  | inl e ↦
      let is : p.rule_type ≡ "environment_restriction" =
        (eq_iff p.rule_type "environment_restriction").0 e in
      let e2 : (p.rule_type == "time_window") ≡ false = ap (λ t. t == "time_window") is in
      ground arith
  | inr e ↦ ground arith
]
