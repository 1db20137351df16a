-- ===== src/Preemption.antt =====
-- `PreemptionEngine` of src/gpuopt/preemption.py: the collisions of workloads by priority and a
-- preemption cycle. The discovered workloads are an argument, and `evicts` says whether the
-- Kubernetes eviction of a workload goes through (always, where there is no client).
-- The texts of reasons and the times of actions are left out.
pub mod Bounds
mod Tests
use gpuopt.Base.{
  ℕ, suc, ◌+◌, String, Bool, true, false, List, [], ◌∷◌, ◌++◌, last, leb, ltb, if◌then◌else◌,
}

pub data PreemptionPolicy : Type 0 where
  never preempt_lower_priority : PreemptionPolicy

pub data PriorityClass : Type 0 where
  batch interactive production critical : PriorityClass

-- `_PRIORITY_SORT`
abbrev pub priority_sort : PriorityClass → ℕ
priority_sort critical = 1000
priority_sort production = 500
priority_sort interactive = 200
priority_sort batch = 100

pub record Workload : Type 0 where
  pub workload_name : String
  pub namespace : String
  pub priority : PriorityClass

pub data ActionStatus : Type 0 where
  executed failed : ActionStatus

pub record PreemptionAction : Type 0 where
  pub workload_name : String
  pub namespace : String
  pub priority : PriorityClass
  pub status : ActionStatus

pub record PreemptionPolicyConfig : Type 0 where
  pub policy : PreemptionPolicy
  pub min_priority_delta : ℕ
  pub max_preemptions_per_cycle : ℕ

-- `sorted(workloads, key=..., reverse=True)`: the highest first, equal ones in their order.
unfoldable pub insert_workload : Workload → List Workload → List Workload
insert_workload w [] = w ∷ []
insert_workload w (v ∷ vs) =
    let rest = insert_workload w vs in
    if leb (priority_sort v.priority) (priority_sort w.priority) then w ∷ v ∷ vs else v ∷ rest

unfoldable pub sort_workloads : List Workload → List Workload
unfolding insert_workload
sort_workloads [] = []
sort_workloads (w ∷ ws) = insert_workload w (sort_workloads ws)

-- `high_score - low_score >= min_priority_delta`
abbrev pub collides : ℕ → Workload → Workload → Bool
collides delta high low = leb (priority_sort low.priority + delta) (priority_sort high.priority)

unfoldable pub below : ℕ → Workload → List Workload → List (Workload × Workload)
below delta high [] = []
below delta high (low ∷ rest) =
    let more = below delta high rest in if collides delta high low then (high, low) ∷ more else more

unfoldable pub pairs : ℕ → List Workload → List (Workload × Workload)
unfolding below
pairs delta [] = []
pairs delta (high ∷ rest) = below delta high rest ++ pairs delta rest

unfoldable pub detect_collisions : ℕ → List Workload → List (Workload × Workload)
unfolding pairs sort_workloads
detect_collisions delta workloads = pairs delta (sort_workloads workloads)

unfoldable pub preempt : (Workload → Bool) → Workload → PreemptionAction
preempt evicts low = record {
  workload_name = low.workload_name;
  namespace = low.namespace;
  priority = low.priority;
  status = if evicts low then executed else failed;
}

-- The loop of `cycle`, with the number of actions so far.
unfoldable pub preempt_pairs :
    (Workload → Bool) → ℕ → ℕ → List (Workload × Workload) → List PreemptionAction
preempt_pairs evicts limit n [] = []
preempt_pairs evicts limit n ((high, low) ∷ rest) =
    let more = preempt_pairs evicts limit (suc n) rest in
    preempt evicts low ∷ (if leb limit (suc n) then [] else more)

-- The actions of a cycle and the history after it.
unfoldable pub cycle :
    PreemptionPolicyConfig
    → (Workload → Bool)
    → List Workload
    → List PreemptionAction
    → List PreemptionAction × List PreemptionAction
cycle config evicts workloads history = elim config.policy [
  | never ↦ ([], history)
  | preempt_lower_priority ↦
      let actions : List PreemptionAction =
        preempt_pairs evicts config.max_preemptions_per_cycle 0
          (detect_collisions config.min_priority_delta workloads) in
      (actions, history ++ actions)
]

-- `self._history[-limit:]`
abbrev pub get_history : ℕ → List PreemptionAction → List PreemptionAction
get_history limit history = last limit history
