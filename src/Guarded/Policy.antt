-- ===== src/Guarded/Policy.antt =====
-- `PolicyEngine.check_pre_flight` of src/gpuopt/guarded_automation.py, with the policy schemas of
-- src/gpuopt/schemas.py. A policy's `rule_config` is a dict from JSON; the model has an optional
-- field for each key that the engine reads to decide, with the values of the type that it expects
-- there; an hour or a limit below 0 has the effect of 0. Human-readable texts are constructors of
-- `Message`; the list `details` is left out, but for the IndexError that building it may raise,
-- which is `none`.
pub mod Preflight
pub mod Rules
pub mod Results
mod Tests
use gpuopt.Base.{
  ℕ, suc, ◌<◌, String, Bool, true, false, ◌&&◌, ◌||◌, not, Option, none, some, List, [], ◌∷◌, ◌++◌,
  any, count, length, ltb, leb, ◌==◌, string_eq, nat_eq, if◌then◌else◌,
}
use gpuopt.Base.Int.{ℤ, pos, negsuc}
use gpuopt.Base.Text.{lower_contains}

abbrev pub Uuid : Type 0
Uuid = String

pub data PolicySeverity : Type 0 where
  low medium high critical : PolicySeverity

pub data Action : Type 0 where
  block warn allow : Action

pub record RuleConfig : Type 0 where
  pub allowed_environments : Option (List String)
  pub denied_environments : Option (List String)
  pub start_hour : Option ℕ
  pub end_hour : Option ℕ
  pub allowed_days : Option (List ℤ)
  pub max_gpu_count : Option ℕ
  pub in_maintenance : Option Bool

pub record PolicyRule : Type 0 where
  pub id : Uuid
  pub name : String
  pub scope_type : String
  pub scope_value : String
  pub rule_type : String
  pub rule_config : RuleConfig
  pub severity : PolicySeverity
  pub enabled : Bool
  pub fail_action : Action

pub data Message : Type 0 where
  environment_restricted environment_not_allowed environment_permitted : String → Message
  day_not_allowed : ℕ → Message
  outside_window : ℕ → ℕ → Message
  within_window approval_needed : Message
  exceeds_max_gpus : ℕ → ℕ → Message
  within_limits in_maintenance_window no_maintenance : Message
  unknown_rule : String → Message

pub record PolicyEvaluationResult : Type 0 where
  pub policy_id : Uuid
  pub policy_name : String
  pub rule_type : String
  pub severity : PolicySeverity
  pub passed : Bool
  pub action : Action
  pub message : Message

pub record Recommendation : Type 0 where
  pub id : Uuid
  pub affected_resources : List String

-- What a check is made of: the actuation, and what the engine reads from the clock (UTC, Monday is
-- day 0) and from the repository (the latest recommendations of the cluster).
pub record Context : Type 0 where
  pub cluster_id : Uuid
  pub rec_id : Uuid
  pub environment : String
  pub hour : ℕ
  pub weekday : ℕ
  pub recommendations : Option (List Recommendation)

pub record PreFlightCheckResult : Type 0 where
  pub overall_passed : Bool
  pub policy_count : ℕ
  pub passed_count : ℕ
  pub blocked_count : ℕ
  pub warned_count : ℕ
  pub results : List PolicyEvaluationResult
  pub requires_approval : Bool

-- `config.get(key, default)`
abbrev pub get_default {ℓ} : {A : Type ℓ} → A → Option A → A
get_default d none = d
get_default d (some a) = a

abbrev pub is_empty {ℓ} : {A : Type ℓ} → List A → Bool
is_empty [] = true
is_empty (x ∷ xs) = false

-- `x in xs`
abbrev pub text_in : String → List String → Bool
text_in x xs = any (λ y. x == y) xs

abbrev pub is_day : ℕ → ℤ → Bool
is_day x (pos n) = x == n
is_day x (negsuc n) = false

abbrev pub day_in : ℕ → List ℤ → Bool
day_in x days = any (is_day x) days

-- No index of the seven `day_names`; an index from -7 to -1 counts from the end.
abbrev pub is_unnamed : ℤ → Bool
is_unnamed (pos n) = leb 7 n
is_unnamed (negsuc n) = leb 7 n

abbrev pub is_block : Action → Bool
is_block block = true
is_block _ = false

abbrev pub is_warn : Action → Bool
is_warn warn = true
is_warn _ = false

abbrev pub blocked_by : PolicyRule → Message → PolicyEvaluationResult
blocked_by p m = record {
  policy_id = p.id;
  policy_name = p.name;
  rule_type = p.rule_type;
  severity = p.severity;
  passed = false;
  action = block;
  message = m;
}

abbrev pub allowed_by : PolicyRule → Message → PolicyEvaluationResult
allowed_by p m = record {
  policy_id = p.id;
  policy_name = p.name;
  rule_type = p.rule_type;
  severity = p.severity;
  passed = true;
  action = allow;
  message = m;
}

unfoldable pub policy_applies : PolicyRule → Uuid → String → Bool
policy_applies p cluster_id environment =
    if p.scope_type == "global"
    then true
    else if p.scope_type == "cluster"
    then p.scope_value == cluster_id
    else if p.scope_type == "environment"
    then p.scope_value == environment
    else true

pub evaluate_environment : PolicyRule → Context → PolicyEvaluationResult
evaluate_environment p ctx =
    let allowed = get_default [] p.rule_config.allowed_environments in
    let denied = get_default [] p.rule_config.denied_environments in
    if not (is_empty denied) && text_in ctx.environment denied
    then blocked_by p (environment_restricted ctx.environment)
    else if not (is_empty allowed) && not (text_in ctx.environment allowed)
    then blocked_by p (environment_not_allowed ctx.environment)
    else allowed_by p (environment_permitted ctx.environment)

abbrev pub every_day : List ℤ
every_day = pos 0 ∷ pos 1 ∷ pos 2 ∷ pos 3 ∷ pos 4 ∷ pos 5 ∷ pos 6 ∷ []

-- On a day that is not allowed the names of the allowed days are looked up; `none` is the IndexError
-- of a day without a name.
pub evaluate_time_window : PolicyRule → Context → Option PolicyEvaluationResult
evaluate_time_window p ctx =
    let window_start = get_default 0 p.rule_config.start_hour in
    let window_end = get_default 23 p.rule_config.end_hour in
    let allowed_days = get_default every_day p.rule_config.allowed_days in
    if not (day_in ctx.weekday allowed_days)
    then (if any is_unnamed allowed_days
        then none
        else some (blocked_by p (day_not_allowed ctx.weekday)))
    else if ltb ctx.hour window_start || leb window_end ctx.hour
    then some (blocked_by p (outside_window window_start window_end))
    else some (allowed_by p within_window)

gpu_involved : Recommendation → ℕ
unfolding lower_contains
gpu_involved r = count (λ resource. lower_contains "gpu" resource) r.affected_resources

-- The loop over the recommendations: how many GPUs the first one under the id involves that
-- involves more than the limit.
pub first_exceeding : ℕ → Uuid → List Recommendation → Option ℕ
unfolding gpu_involved
first_exceeding limit rec_id [] = none
first_exceeding limit rec_id (r ∷ rest) =
    let later = first_exceeding limit rec_id rest in
    if r.id == rec_id && ltb limit (gpu_involved r) then some (gpu_involved r) else later

pub evaluate_resource_limit : PolicyRule → Context → PolicyEvaluationResult
unfolding first_exceeding
evaluate_resource_limit p ctx =
    let max_gpu = get_default 0 p.rule_config.max_gpu_count in
    if ltb 0 max_gpu
    then elim (first_exceeding max_gpu ctx.rec_id (get_default [] ctx.recommendations)) [
      | none ↦ allowed_by p within_limits
      | some involved ↦ blocked_by p (exceeds_max_gpus involved max_gpu)
    ]
    else allowed_by p within_limits

pub evaluate_maintenance : PolicyRule → Context → PolicyEvaluationResult
evaluate_maintenance p ctx =
    if get_default false p.rule_config.in_maintenance
    then blocked_by p in_maintenance_window
    else allowed_by p no_maintenance

unfoldable pub evaluate_policy : PolicyRule → Context → Option PolicyEvaluationResult
unfolding evaluate_environment evaluate_time_window evaluate_resource_limit evaluate_maintenance
evaluate_policy p ctx =
    if p.rule_type == "environment_restriction"
    then some (evaluate_environment p ctx)
    else if p.rule_type == "time_window"
    then evaluate_time_window p ctx
    else if p.rule_type == "approval_required"
    then some (blocked_by p approval_needed)
    else if p.rule_type == "resource_limit"
    then some (evaluate_resource_limit p ctx)
    else if p.rule_type == "maintenance_window"
    then some (evaluate_maintenance p ctx)
    else some (allowed_by p (unknown_rule p.rule_type))

-- The two `continue`s of the loop.
pub considered : Context → PolicyRule → Bool
unfolding policy_applies
considered ctx p = p.enabled && policy_applies p ctx.cluster_id ctx.environment

abbrev pub blocks : PolicyEvaluationResult → Bool
blocks r = is_block r.action && not r.passed

-- The body of the loop over the policies, on `results` and `requires_approval`.
pub pre_flight_step :
    Context
    → PolicyRule
    → List PolicyEvaluationResult
    → Bool
    → Option (List PolicyEvaluationResult × Bool)
pre_flight_step ctx p results requires =
    if considered ctx p
    then elim (evaluate_policy p ctx) [
      | none ↦ none
      | some r ↦ some (results ++ (r ∷ []), if blocks r then true else requires)
    ]
    else some (results, requires)

pub pre_flight_loop :
    Context
    → List PolicyRule
    → List PolicyEvaluationResult
    → Bool
    → Option (List PolicyEvaluationResult × Bool)
unfolding pre_flight_step
pre_flight_loop ctx [] results requires = some (results, requires)
pre_flight_loop ctx (p ∷ rest) results requires = elim (pre_flight_step ctx p results requires) [
  | none ↦ none
  | some (results', requires') ↦ pre_flight_loop ctx rest results' requires'
]

-- `none` is the exception that the evaluation of a policy raises.
unfoldable pub check_pre_flight : List PolicyRule → Context → Option PreFlightCheckResult
unfolding pre_flight_loop evaluate_policy considered
check_pre_flight policies ctx = elim (pre_flight_loop ctx policies [] false) [
  | none ↦ none
  | some (results, requires) ↦
      let blocked =
        count (λ (r : PolicyEvaluationResult). not r.passed && is_block r.action) results in
      some (record {
        overall_passed = blocked == 0;
        policy_count = length results;
        passed_count = count (λ (r : PolicyEvaluationResult). r.passed) results;
        blocked_count = blocked;
        warned_count =
            count (λ (r : PolicyEvaluationResult). not r.passed && is_warn r.action) results;
        results = results;
        requires_approval = requires;
      })
]
