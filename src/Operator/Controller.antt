-- ===== src/Operator/Controller.antt =====
-- `GPUOptimizationController` of src/gpuopt/k8s_operator/controller.py: the reconciliation of the
-- actions and profiles that the API lists.
use gpuopt.Base.{
  ℕ, ◌+◌, Bool, true, false, String, Option, none, some, List, [], ◌∷◌, ◌++◌, leb, ◌==◌, string_eq,
  if◌then◌else◌,
}
use gpuopt.Operator.Adapter.{
  Name, ActionType, scale_gpu_count, adjust_power_cap, migrate_workload, apply_recommendation,
  request_approval, ActionPhase, pending, approved, running, completed, failed, rolled_back,
  GpuOptimizationAction, Listing, Call, update_action_status, update_profile_status, execute,
}

-- An action as the API gives it: fields that are missing are `none`.
pub record Item : Type 0 where
  pub name : Name
  pub namespace : Name
  pub action_type : String
  pub target_cluster : Name
  pub recommendation_ref : Name
  pub gpu_count : Option ℕ
  pub power_cap_watts : Option ℕ
  pub node_selector : List (Name × Name)
  pub dry_run : Option Bool
  pub approval_required : Option Bool
  pub phase : Option String

abbrev pub or_else {ℓ} : {A : Type ℓ} → A → Option A → A
or_else d none = d
or_else d (some x) = x

-- `ActionPhase(phase_str)`, and PENDING for a text that names no phase
unfoldable pub phase_of : String → ActionPhase
phase_of s =
    if s == "approved"
    then approved
    else if s == "running"
    then running
    else if s == "completed"
    then completed
    else if s == "failed"
    then failed
    else if s == "rolled_back"
    then rolled_back
    else pending

abbrev pub phase_name : ActionPhase → String
phase_name pending = "pending"
phase_name approved = "approved"
phase_name running = "running"
phase_name completed = "completed"
phase_name failed = "failed"
phase_name rolled_back = "rolled_back"

-- `ActionType(action_type) if action_type else APPLY_RECOMMENDATION`; another text raises
unfoldable pub action_type_of : String → Option ActionType
action_type_of s =
    if s == ""
    then some apply_recommendation
    else if s == "scale_gpu_count"
    then some scale_gpu_count
    else if s == "adjust_power_cap"
    then some adjust_power_cap
    else if s == "migrate_workload"
    then some migrate_workload
    else if s == "apply_recommendation"
    then some apply_recommendation
    else if s == "request_approval"
    then some request_approval
    else none

unfoldable pub build_with : Item → ActionType → GpuOptimizationAction
build_with item t = record {
  name = item.name;
  namespace = item.namespace;
  spec = record {
    action_type = t;
    target_cluster = item.target_cluster;
    recommendation_ref = item.recommendation_ref;
    parameters = record {
      gpu_count = or_else 0 item.gpu_count;
      power_cap_watts = or_else 0 item.power_cap_watts;
      node_selector = item.node_selector;
      dry_run = or_else true item.dry_run;
    };
    approval_required = or_else false item.approval_required;
  };
  phase = phase_of (or_else "pending" item.phase);
}

unfoldable pub build_action : Item → Option GpuOptimizationAction
build_action item = elim (action_type_of item.action_type) [
  | none ↦ none
  | some t ↦ some (build_with item t)
]

-- What one reconciliation did: whether the adapter ran, the calls, and the item as stored then.
pub record Outcome : Type 0 where
  pub ran : Bool
  pub calls : List Call
  pub item : Item

abbrev pub idle : Item → Outcome
idle item = record { ran = false; calls = []; item = item }

-- A status update reaches the store when the call succeeds; its failure is not looked at.
abbrev pub store_phase : Bool → ActionPhase → Item → Item
store_phase written p item = if written then record item { phase = some (phase_name p) } else item

-- The part for a running action.
unfoldable pub run_action :
    (Call → Bool) → Listing → GpuOptimizationAction → List Call → Item → Outcome
run_action ok listing a before item =
    let (result, calls) = execute ok listing a in
    let p = if result.success then completed else failed in
    let update = update_action_status a.namespace a.name p in
    record {
      ran = true;
      calls = before ++ calls ++ (update ∷ []);
      item = store_phase (ok update) p item;
    }

unfoldable pub reconcile_built :
    (Call → Bool) → Listing → GpuOptimizationAction → ActionPhase → Item → Outcome
reconcile_built ok listing a completed item = idle item
reconcile_built ok listing a failed item = idle item
reconcile_built ok listing a rolled_back item = idle item
reconcile_built ok listing a approved item = idle item
reconcile_built ok listing a running item = run_action ok listing a [] item
reconcile_built ok listing a pending item =
    let update = update_action_status a.namespace a.name running in
    run_action ok listing (record a { phase = running }) (update ∷ [])
      (store_phase (ok update) running item)

unfoldable pub reconcile_action : (Call → Bool) → Listing → Item → Outcome
reconcile_action ok listing item = elim (build_action item) [
  | none ↦ idle item
  | some a ↦ reconcile_built ok listing a a.phase item
]

-- The items after a pass, and the number of them that the pass counts.
unfoldable pub reconcile_actions : (Call → Bool) → Listing → List Item → ℕ × List Item
reconcile_actions ok listing [] = (0, [])
reconcile_actions ok listing (item ∷ items) =
    let (n, rest) = reconcile_actions ok listing items in
    (n + 1, (reconcile_action ok listing item).item ∷ rest)

pub record Profile : Type 0 where
  pub name : Name
  pub namespace : Name
  pub generation : ℕ
  pub observed_generation : ℕ

unfoldable pub reconcile_profile : (Call → Bool) → Profile → List Call × Profile
reconcile_profile ok p =
    let update = update_profile_status p.namespace p.name p.generation in
    if leb p.generation p.observed_generation
    then ([], p)
    else (update ∷ [], if ok update then record p { observed_generation = p.generation } else p)
