-- ===== src/Guarded/Policy/Rules.antt =====
-- What each kind of rule lets through.
use gpuopt.Base.{
  ℕ, ◌≤◌, ◌<◌, Bool, true, false, ◌&&◌, ◌||◌, not, ◌≡◌, ◌↔◌, refl, ap, none, some, List, [], ◌∷◌,
  all, arith, leb, ◌==◌, string_eq, nat_eq,
}
use gpuopt.Guarded.Policy.{
  Uuid, PolicyRule, Context, Recommendation, evaluate_policy, first_exceeding, gpu_involved,
  get_default, is_empty, text_in, day_in, every_day,
}

abbrev pub passes : PolicyRule → Context → Bool
passes p ctx = elim (evaluate_policy p ctx) [ none ↦ false | some r ↦ r.passed ]

-- A `time_window` rule passes exactly on an allowed day and at an hour of the window, whose end is
-- outside it. Without an `end_hour` the window ends before 23 o'clock.
pub time_window_exact :
    (p : PolicyRule) (ctx : Context)
    → p.rule_type ≡ "time_window"
    → (passes p ctx ≡ true) ↔ (
        (day_in ctx.weekday (get_default every_day p.rule_config.allowed_days) ≡ true)
        × (get_default 0 p.rule_config.start_hour ≤ ctx.hour)
        × (ctx.hour < get_default 23 p.rule_config.end_hour))
unfolding evaluate_policy
time_window_exact p ctx h =
    let e1 : (p.rule_type == "environment_restriction") ≡ false =
      ap (λ t. t == "environment_restriction") h in
    let e2 : (p.rule_type == "time_window") ≡ true = ap (λ t. t == "time_window") h in ground arith

-- An `environment_restriction` rule passes exactly where the environment is not denied and, if
-- some are listed as allowed, is one of those.
pub environment_exact :
    (p : PolicyRule) (ctx : Context)
    → p.rule_type ≡ "environment_restriction"
    → passes p ctx ≡ (
        not (text_in ctx.environment (get_default [] p.rule_config.denied_environments))
        && (is_empty (get_default [] p.rule_config.allowed_environments)
            || text_in ctx.environment (get_default [] p.rule_config.allowed_environments)))
unfolding evaluate_policy
environment_exact p ctx h =
    let e1 : (p.rule_type == "environment_restriction") ≡ true =
      ap (λ t. t == "environment_restriction") h in
    ground arith

pub within_limit : ℕ → Uuid → Recommendation → Bool
within_limit limit rec_id r = not (r.id == rec_id) || leb (gpu_involved r) limit

none_exceeding :
    (limit : ℕ) (rec_id : Uuid) (rs : List Recommendation)
    → (elim (first_exceeding limit rec_id rs) [ none ↦ true | some n ↦ false ])
      ≡ all (within_limit limit rec_id) rs
unfolding first_exceeding within_limit
none_exceeding limit rec_id [] = refl
none_exceeding limit rec_id (r ∷ rs) = ground (arith, none_exceeding limit rec_id rs)

-- A `resource_limit` rule with a positive limit passes exactly where no recommendation under the
-- actuation's id involves more GPUs than the limit.
pub resource_limit_exact :
    (p : PolicyRule) (ctx : Context)
    → p.rule_type ≡ "resource_limit"
    → 0 < get_default 0 p.rule_config.max_gpu_count
    → passes p ctx
      ≡ all
          (within_limit (get_default 0 p.rule_config.max_gpu_count) ctx.rec_id)
          (get_default [] ctx.recommendations)
unfolding evaluate_policy
resource_limit_exact p ctx h pos =
    let e1 : (p.rule_type == "environment_restriction") ≡ false =
      ap (λ t. t == "environment_restriction") h in
    let e2 : (p.rule_type == "time_window") ≡ false = ap (λ t. t == "time_window") h in
    let e3 : (p.rule_type == "approval_required") ≡ false = ap (λ t. t == "approval_required") h in
    let e4 : (p.rule_type == "resource_limit") ≡ true = ap (λ t. t == "resource_limit") h in
    ground (
      arith,
      none_exceeding (get_default 0 p.rule_config.max_gpu_count) ctx.rec_id
          (get_default [] ctx.recommendations),
    )
