-- ===== src/Canary.antt =====
-- Canary roll-outs, src/gpuopt/risk_r03_canary.py, with the rollback plans of
-- src/gpuopt/governance_extended.py that they carry out. Rates are in thousandths and latencies in
-- tenths of a millisecond. Names, durations, times and texts of deployments, steps and
-- plans are left out.
mod Progress
mod Completion
mod Tests
use gpuopt.Base.{
  ℕ, zero, suc, ◌+◌, ◌*◌, String, Bool, true, false, ◌&&◌, ◌||◌, not, Option, none, some, List, [],
  ◌∷◌, ◌==◌, string_eq, if◌then◌else◌, length, leb, ltb, map,
}
use gpuopt.Base.Dict.{Dict, lookup, insert}

-- A criterion, by the test that its text stands for: an error rate of at most n thousandths, a p99
-- latency of at most 100 ms times n tenths, no errors, or a metric that must be true.
pub data Criterion : Type 0 where
  error_rate_below : ℕ → Criterion
  latency_p99_below : ℕ → Criterion
  no_errors : Criterion
  flag : String → Criterion

pub data StepStatus : Type 0 where
  pending : StepStatus
  running : StepStatus
  active : StepStatus
  passed : StepStatus
  failed : StepStatus

pub record CanaryStep : Type 0 where
  pub traffic_percent : ℕ
  pub success_criteria : List Criterion
  pub status : StepStatus

pub data DeploymentStatus : Type 0 where
  running : DeploymentStatus
  completed : DeploymentStatus
  rolled_back : DeploymentStatus

pub record CanaryDeployment : Type 0 where
  pub deployment_id : String
  pub action_id : String
  pub action_type : String
  pub steps : List CanaryStep
  pub current_step : ℕ
  pub status : DeploymentStatus
  pub rollback_triggered : Bool

pub record RollbackPlan : Type 0 where
  pub plan_id : String
  pub action_id : String
  pub action_type : String
  pub automated : Bool
  pub requires_approval : Bool

-- `CanaryManager`, with the plans of its `RollbackManager`.
pub record CanaryManager : Type 0 where
  pub deployments : Dict String CanaryDeployment
  pub plans : Dict String RollbackPlan

abbrev pub step_of : ℕ → List Criterion → CanaryStep
step_of traffic criteria = record {
  traffic_percent = traffic;
  success_criteria = criteria;
  status = pending;
}

abbrev pub placement_steps : List CanaryStep
placement_steps =
    step_of 1 (error_rate_below 10 ∷ latency_p99_below 20 ∷ [])
    ∷ step_of 5 (error_rate_below 10 ∷ latency_p99_below 15 ∷ [])
    ∷ step_of 25 (error_rate_below 5 ∷ latency_p99_below 12 ∷ [])
    ∷ step_of 50 (error_rate_below 5 ∷ latency_p99_below 11 ∷ [])
    ∷ step_of 100 (error_rate_below 1 ∷ latency_p99_below 10 ∷ [])
    ∷ []

abbrev pub scale_down_steps : List CanaryStep
scale_down_steps =
    step_of 10 (flag "workloads_migrated" ∷ no_errors ∷ [])
    ∷ step_of 25 (flag "workloads_migrated" ∷ no_errors ∷ flag "capacity_sufficient" ∷ [])
    ∷ step_of 50 (flag "workloads_migrated" ∷ no_errors ∷ [])
    ∷ step_of 100 (flag "target_count_reached" ∷ flag "all_workloads_stable" ∷ [])
    ∷ []

abbrev pub preempt_steps : List CanaryStep
preempt_steps =
    step_of 5 (flag "job_preempted" ∷ flag "checkpoint_saved" ∷ [])
    ∷ step_of 10 (flag "all_preempted_ckpt_saved" ∷ flag "no_crashes" ∷ [])
    ∷ step_of 25 (flag "cluster_stable" ∷ flag "preempted_jobs_requeued" ∷ [])
    ∷ []

-- `CANARY_TEMPLATES.get(action_type, CANARY_TEMPLATES["placement"])`
unfoldable pub template : String → List CanaryStep
template action_type =
    if action_type == "scale_down"
    then scale_down_steps
    else (if action_type == "preempt" then preempt_steps else placement_steps)

-- `create`
unfoldable pub create : String → String → String → CanaryManager → CanaryDeployment × CanaryManager
unfolding template
create fresh action_id action_type m =
    let dep : CanaryDeployment = record {
      deployment_id = fresh;
      action_id = action_id;
      action_type = action_type;
      steps = template action_type;
      current_step = 0;
      status = running;
      rollback_triggered = false;
    } in
    (dep, record { deployments = insert fresh dep m.deployments; plans = m.plans })

-- What a read of each metric gives: the given value, or the number that is drawn in its place.
pub record Metrics : Type 0 where
  pub error_rate : ℕ
  pub latency_p99 : ℕ
  pub error_count : ℕ
  pub is_set : String → Bool

unfoldable pub meets : Metrics → Criterion → Bool
meets metrics (error_rate_below threshold) = leb metrics.error_rate threshold
meets metrics (latency_p99_below mult) = leb metrics.latency_p99 (100 * mult)
meets metrics no_errors = leb metrics.error_count 0
meets metrics (flag name) = metrics.is_set name

-- `_evaluate_step`
unfoldable pub evaluate : Metrics → List Criterion → Bool
unfolding meets
evaluate metrics [] = true
evaluate metrics (c ∷ criteria) = meets metrics c && evaluate metrics criteria

abbrev pub with_status : StepStatus → CanaryStep → CanaryStep
with_status st s = record {
  traffic_percent = s.traffic_percent;
  success_criteria = s.success_criteria;
  status = st;
}

-- The step at an index with a status, where there is one.
unfoldable pub mark : ℕ → StepStatus → List CanaryStep → List CanaryStep
mark i st [] = []
mark zero st (s ∷ steps) = with_status st s ∷ steps
mark (suc i) st (s ∷ steps) = s ∷ mark i st steps

unfoldable pub step_at : ℕ → List CanaryStep → Option CanaryStep
step_at i [] = none
step_at zero (s ∷ steps) = some s
step_at (suc i) (s ∷ steps) = step_at i steps

unfoldable pub pass_step : CanaryDeployment → CanaryDeployment
unfolding mark
pass_step dep =
    let steps = mark dep.current_step passed dep.steps in
    let next = dep.current_step + 1 in
    let finished = leb (length dep.steps) next in
    record {
      deployment_id = dep.deployment_id;
      action_id = dep.action_id;
      action_type = dep.action_type;
      steps = if finished then steps else mark next active steps;
      current_step = next;
      status = if finished then completed else dep.status;
      rollback_triggered = dep.rollback_triggered;
    }

-- The step's failure with the first and last assignments of `_trigger_rollback`.
unfoldable pub fail_step : CanaryDeployment → CanaryDeployment
unfolding mark
fail_step dep = record {
  deployment_id = dep.deployment_id;
  action_id = dep.action_id;
  action_type = dep.action_type;
  steps = mark dep.current_step failed dep.steps;
  current_step = dep.current_step;
  status = rolled_back;
  rollback_triggered = true;
}

-- `RollbackManager.create_plan`; `execute` changes nothing.
unfoldable pub create_plan : String → String → String → RollbackPlan
create_plan fresh action_id action_type =
    let special = action_type == "preempt" || action_type == "consolidate" in
    record {
      plan_id = fresh;
      action_id = action_id;
      action_type = action_type;
      automated = not special;
      requires_approval = special;
    }

-- One step of a deployment, with the plan that a failure carries out; `none` is an IndexError.
unfoldable pub advance :
    String → Metrics → CanaryDeployment → Option (CanaryDeployment × Option RollbackPlan)
unfolding step_at evaluate pass_step fail_step create_plan
advance fresh metrics dep = elim (step_at dep.current_step dep.steps) [
  | none ↦ none
  | some step ↦ some (
      if evaluate metrics step.success_criteria
      then (pass_step dep, none)
      else (fail_step dep, some (create_plan fresh dep.action_id dep.action_type)))
]

-- What is answered: an error, an exception, or the `status` of the answer.
pub data Advanced : Type 0 where
  not_found : Advanced
  index_error : Advanced
  completed : Advanced
  advancing : Advanced
  rolled_back : Advanced

unfoldable pub store :
    String
    → CanaryManager
    → Option (CanaryDeployment × Option RollbackPlan)
    → Advanced × CanaryManager
store deployment_id m none = (index_error, m)
store deployment_id m (some (dep, none)) = (
  (if leb (length dep.steps) dep.current_step then Advanced.completed else advancing),
  record { deployments = insert deployment_id dep m.deployments; plans = m.plans },
)
store deployment_id m (some (dep, some plan)) = (
  Advanced.rolled_back,
  record {
    deployments = insert deployment_id dep m.deployments;
    plans = insert plan.plan_id plan m.plans;
  },
)

-- `advance_step`
unfoldable pub advance_step : String → Metrics → String → CanaryManager → Advanced × CanaryManager
unfolding advance store
advance_step fresh metrics deployment_id m = elim (lookup deployment_id m.deployments) [
  | none ↦ (not_found, m)
  | some dep ↦ store deployment_id m (advance fresh metrics dep)
]
