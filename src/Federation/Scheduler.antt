-- ===== src/Federation/Scheduler.antt =====
-- The choice of a cluster and the placing of a workload, src/gpuopt/federation/scheduler.py, with the
-- choice of a node of src/gpuopt/scheduler/rl_scheduler.py that it calls. Of the features of a state
-- only the division that can fail is kept; what the scheduler learns from a placement, the reward and
-- the table of q-values, is left out, and a row of the table is an argument. Priorities and counts of
-- GPUs are natural numbers.
use gpuopt.Base.{
  ℕ, zero, suc, ◌+◌, ◌*◌, ◌/◌, String, Bool, ◌&&◌, ◌||◌, not, Option, none, some, List, [], ◌∷◌,
  ◌==◌, string_eq, nat_eq, if◌then◌else◌, any, leb, ltb, filter,
}
use gpuopt.Base.Dict.{Dict, insert, values}
use gpuopt.Base.Sorting.{sorted, first}
use gpuopt.Base.Floats.{Floats, max}
use gpuopt.Federation.{FederatedCluster, Registry, online, draining, health_eq, role_eq}

-- The arguments of `find_best_cluster`; "" stands for no wish.
pub record Wish : Type 0 where
  pub required_gpus : ℕ
  pub gpu_model : String
  pub priority : ℕ
  pub region : String

module _ {F : Type 0} where
  -- The `continue` statements of the loop, all passed.
  unfoldable pub eligible : Wish → FederatedCluster F → Bool
  eligible w c =
      c.health == online
      && (not (c.role == draining)
          && ((w.region == "" || c.region == w.region)
              && (not (ltb c.free_gpus w.required_gpus)
                  && (w.gpu_model == "" || any (λ m. m == w.gpu_model) c.gpu_models))))

  unfoldable pub score : Floats F → Wish → FederatedCluster F → F
  score fl w c =
      let free =
        fl.times (fl.over (fl.of_nat c.free_gpus) (fl.of_nat (max c.total_gpus 1)))
          (fl.literal 6 1) in
      let idle =
        fl.times (fl.minus (fl.of_nat 1) (fl.over c.avg_utilization (fl.literal 1000 1)))
          (fl.literal 3 1) in
      let urgent = fl.times (fl.over (fl.of_nat w.priority) (fl.literal 100 1)) (fl.literal 1 1) in
      fl.plus (fl.plus free idle) urgent

  unfoldable pub candidates : Wish → List (FederatedCluster F) → List (FederatedCluster F)
  unfolding eligible
  candidates w clusters = filter (eligible w) clusters

  -- `key=lambda x: -x[0]`, in ascending order.
  unfoldable pub before : Floats F → Wish → FederatedCluster F → FederatedCluster F → Bool
  unfolding score
  before fl w a b = fl.less (fl.negate (score fl w a)) (fl.negate (score fl w b))

  -- `find_best_cluster`
  unfoldable pub find_best_cluster : Floats F → Wish → Registry F → Option (FederatedCluster F)
  unfolding candidates before
  find_best_cluster fl w d = first (sorted (before fl w) (candidates w (values d)))

-- A job and the nodes that stand for a cluster; memory in whole gigabytes. The id of a node is the
-- cluster's name and a number.
pub record Job : Type 0 where
  pub required_gpus : ℕ
  pub priority : ℕ
  pub memory_gb : ℕ

pub record RlNode : Type 0 where
  pub id : String × ℕ
  pub available_gpus : ℕ
  pub total_gpus : ℕ
  pub free_memory_gb : ℕ
  pub gpu_model : String

-- `_eligible_actions`, from the index i on.
unfoldable pub eligible_actions : Job → ℕ → List RlNode → List ℕ
eligible_actions job i [] = []
eligible_actions job i (n ∷ nodes) =
    let rest = eligible_actions job (i + 1) nodes in
    if leb job.required_gpus n.available_gpus && ltb 0 n.free_memory_gb then i ∷ rest else rest

-- What the random numbers of `choose_action` decide: a draw from the eligible nodes by its place, or
-- the best known one.
pub data Draw : Type 0 where
  explore : ℕ → Draw
  exploit : Draw

unfoldable pub at {ℓ} : {A : Type ℓ} → List A → ℕ → Option A
at [] i = none
at (x ∷ xs) zero = some x
at (x ∷ xs) (suc i) = at xs i

module _ {F : Type 0} where
  -- `max(eligible, key=lambda x: q_values[x])`: the key of each is read, in order, and the first
  -- greatest wins; `none` is an IndexError.
  unfoldable pub greatest : (F → F → Bool) → List F → ℕ × F → List ℕ → Option ℕ
  unfolding at
  greatest less row (i, q) [] = some i
  greatest less row (i, q) (j ∷ js) = elim (at row j) [
    | none ↦ none
    | some p ↦ greatest less row (if less q p then (j, p) else (i, q)) js
  ]

  unfoldable pub choose_action : (F → F → Bool) → List F → Draw → List ℕ → Option ℕ
  unfolding greatest at
  choose_action less row (explore k) actions = at actions k
  choose_action less row exploit [] = none
  choose_action less row exploit (i ∷ actions) = elim (at row i) [
    | none ↦ none
    | some q ↦ greatest less row (i, q) actions
  ]

pub data Placement : Type 0 where
  queued : Placement
  placed : RlNode → Placement
  index_error : Placement
  zero_division : Placement

-- The `max_gpus` of `_get_state_features`, by which it divides.
unfoldable pub most : ℕ → List RlNode → ℕ
most best [] = best
most best (n ∷ nodes) = most (max best n.total_gpus) nodes

unfoldable pub max_gpus : List RlNode → ℕ
unfolding most
max_gpus [] = 1
max_gpus (n ∷ nodes) = most n.total_gpus nodes

module _ {F : Type 0} where
  unfoldable pub place_at : List F → List RlNode → Option ℕ → Placement
  unfolding at
  place_at row nodes none = index_error
  place_at row nodes (some action) = elim (at nodes action) [
    | none ↦ queued
    | some node ↦ elim (at row action) [ none ↦ index_error | some q ↦ placed node ]
  ]

  unfoldable pub place_among : (F → F → Bool) → List F → Draw → List RlNode → List ℕ → Placement
  unfolding choose_action place_at
  place_among less row draw nodes [] = queued
  place_among less row draw nodes (i ∷ actions) =
      place_at row nodes (choose_action less row draw (i ∷ actions))

  -- `RLScheduler.schedule`, where `row` is the state's row of the table of q-values. The features of
  -- the state come first; the later ones, of the state after the placement, divide by the same number.
  unfoldable pub rl_schedule : (F → F → Bool) → List F → Draw → Job → List RlNode → Placement
  unfolding max_gpus eligible_actions place_among
  rl_schedule less row draw job nodes =
      if max_gpus nodes == 0
      then zero_division
      else place_among less row draw nodes (eligible_actions job 0 nodes)

pub data WorkloadState : Type 0 where
  pending : WorkloadState
  queued : WorkloadState
  running : WorkloadState
  completed : WorkloadState
  failed : WorkloadState
  preempted : WorkloadState

pub record FederatedWorkload : Type 0 where
  pub id : String
  pub name : String
  pub required_gpus : ℕ
  pub priority : ℕ
  pub memory_gb : ℕ
  pub state : WorkloadState
  pub assigned_cluster : String
  pub assigned_node : Option (String × ℕ)

pub data Answer : Type 0 where
  no_cluster : Answer
  index_raised : Answer
  division_raised : Answer
  scheduled : String → String × ℕ → String → Answer
  waiting : String → String → Answer

module _ {F : Type 0} where
  -- The nodes from the number i on, each with all the free GPUs of the cluster.
  unfoldable pub cluster_nodes : FederatedCluster F → Wish → ℕ → ℕ → ℕ → List RlNode
  cluster_nodes c w memory i zero = []
  cluster_nodes c w memory i (suc n) =
      record {
        id = (c.name, i);
        available_gpus = c.free_gpus;
        total_gpus = c.total_gpus;
        free_memory_gb = max 64 (memory * 2);
        gpu_model =
            if w.gpu_model == ""
            then (elim c.gpu_models [ [] ↦ "A100" | m ∷ models ↦ m ])
            else w.gpu_model;
      }
      ∷ cluster_nodes c w memory (i + 1) n

-- The workload is stored and the answer tells where it is.
unfoldable pub assign :
    String
    → String
    → Wish
    → ℕ
    → String
    → Dict String FederatedWorkload
    → Placement
    → Answer × Dict String FederatedWorkload
assign fresh name w memory cluster workloads index_error = (index_raised, workloads)
assign fresh name w memory cluster workloads zero_division = (division_raised, workloads)
assign fresh name w memory cluster workloads (placed node) = (
  scheduled cluster node.id fresh,
  insert fresh
      (record {
        id = fresh;
        name = name;
        required_gpus = w.required_gpus;
        priority = w.priority;
        memory_gb = memory;
        state = pending;
        assigned_cluster = cluster;
        assigned_node = some node.id;
      })
      workloads,
)
assign fresh name w memory cluster workloads Placement.queued = (
  waiting cluster fresh,
  insert fresh
      (record {
        id = fresh;
        name = name;
        required_gpus = w.required_gpus;
        priority = w.priority;
        memory_gb = memory;
        state = WorkloadState.queued;
        assigned_cluster = cluster;
        assigned_node = none;
      })
      workloads,
)

module _ {F : Type 0} where
  -- `schedule_across_clusters`
  unfoldable pub schedule_across_clusters :
      Floats F
      → List F
      → Draw
      → String
      → String
      → Wish
      → ℕ
      → Registry F
      → Dict String FederatedWorkload
      → Answer × Dict String FederatedWorkload
  unfolding find_best_cluster cluster_nodes rl_schedule assign
  schedule_across_clusters fl row draw fresh name w memory d workloads =
      elim (find_best_cluster fl w d) [
        | none ↦ (no_cluster, workloads)
        | some best ↦ assign fresh name w memory best.name workloads (
            rl_schedule fl.less row draw
              (record {
                required_gpus = w.required_gpus;
                priority = w.priority;
                memory_gb = memory;
              })
              (cluster_nodes best w memory 0 (max 1 (best.total_gpus / 8))))
      ]
