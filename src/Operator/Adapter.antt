-- ===== src/Operator/Adapter.antt =====
-- `ActionAdapter` of src/gpuopt/k8s_operator/adapters.py, the enums and records of models.py, and
-- the bounds on what an action touches. Names that the code cuts are lists of code points;
-- a count of GPUs below 0, which the code handles like 0, is not represented.
use gpuopt.Base.{
  ℕ, ◌≤◌, Bool, true, false, ◌≡◌, refl, Option, none, some, List, [], ◌∷◌, map, filter, take,
  length, length-take_le, ltb, ◌==◌, nat_eq, if◌then◌else◌, arith, Bool-cases, inl, inr,
}

pub data ActionType : Type 0 where
  scale_gpu_count adjust_power_cap migrate_workload apply_recommendation request_approval :
      ActionType

pub data ActionPhase : Type 0 where
  pending approved running completed failed rolled_back : ActionPhase

abbrev pub Name : Type 0
Name = List ℕ

pub record ActionParameters : Type 0 where
  pub gpu_count : ℕ
  pub power_cap_watts : ℕ
  pub node_selector : List (Name × Name)
  pub dry_run : Bool

pub record ActionSpec : Type 0 where
  pub action_type : ActionType
  pub target_cluster : Name
  pub recommendation_ref : Name
  pub parameters : ActionParameters
  pub approval_required : Bool

pub record GpuOptimizationAction : Type 0 where
  pub name : Name
  pub namespace : Name
  pub spec : ActionSpec
  pub phase : ActionPhase

-- What the listings give: pods with a label, and nodes.
pub record Pod : Type 0 where
  pub name : Name
  pub namespace : Name

pub record Node : Type 0 where
  pub name : Name
  pub gpu_capacity : ℕ

pub record Listing : Type 0 where
  pub managed : Name → List Pod
  pub migratable : Name → List Pod
  pub nodes : List Node

-- The calls that write to the cluster.
pub data Call : Type 0 where
  -- the annotation of the requested GPUs, or its removal
  annotate_deployment : Name → Name → Option ℕ → Call
  -- the node selector, or its removal
  move_deployment : Name → Name → Option (List (Name × Name)) → Call
  label_node : Name → ℕ → Name → Call
  update_action_status : Name → Name → ActionPhase → Call
  update_profile_status : Name → Name → ℕ → Call

abbrev pub dash : ℕ
dash = 45

abbrev has_dash : Name → Bool
has_dash [] = false
has_dash (c ∷ s) = if c == dash then true else has_dash s

-- `s.rsplit("-", 1)[0]`: what stands before the last dash, or all of it.
unfoldable pub before_last_dash : Name → Name
before_last_dash [] = []
before_last_dash (c ∷ s) =
    let rest = before_last_dash s in
    if has_dash s then c ∷ rest else if c == dash then [] else c ∷ rest

-- `success`, and of each call whether it succeeded
pub record Result : Type 0 where
  pub success : Bool
  pub results : List Bool

abbrev pub done : (Call → Bool) → List Call → Result × List Call
done ok calls = (record { success = true; results = map ok calls }, calls)

unfoldable pub scale_call : ℕ → Pod → Call
scale_call n pod =
    annotate_deployment pod.namespace (before_last_dash pod.name) (if ltb 0 n then some n else none)

unfoldable pub power_call : ℕ → Name → Node → Call
power_call watts action_name node = label_node node.name watts action_name

abbrev pub or_none : List (Name × Name) → Option (List (Name × Name))
or_none [] = none
or_none (s ∷ rest) = some (s ∷ rest)

unfoldable pub migrate_call : List (Name × Name) → Pod → Call
migrate_call selector pod =
    move_deployment pod.namespace (before_last_dash pod.name) (or_none selector)

unfoldable pub handle :
    (Call → Bool) → Listing → GpuOptimizationAction → ActionType → Result × List Call
handle ok listing a scale_gpu_count =
    done ok (map (scale_call a.spec.parameters.gpu_count) (take 5 (listing.managed a.namespace)))
handle ok listing a adjust_power_cap = done ok (
    map (power_call a.spec.parameters.power_cap_watts a.name)
      (filter (λ (n : Node). ltb 0 n.gpu_capacity) listing.nodes))
handle ok listing a migrate_workload =
    done ok
      (map (migrate_call a.spec.parameters.node_selector) (take 3 (listing.migratable a.namespace)))
handle ok listing a apply_recommendation = done ok []
handle ok listing a request_approval = done ok []

unfoldable pub execute : (Call → Bool) → Listing → GpuOptimizationAction → Result × List Call
execute ok listing a =
    if a.spec.parameters.dry_run then done ok [] else handle ok listing a a.spec.action_type

-- The number of deployments and nodes that an action of the type may change.
abbrev pub call_bound : Listing → ActionType → ℕ
call_bound listing scale_gpu_count = 5
call_bound listing adjust_power_cap = length listing.nodes
call_bound listing migrate_workload = 3
call_bound listing apply_recommendation = 0
call_bound listing request_approval = 0

length-map : {A B : Type 0} (f : A → B) (xs : List A) → length (map f xs) ≡ length xs
length-map f [] = refl
length-map f (x ∷ xs) = omega (arith, length-map f xs)

length-filter : {A : Type 0} (p : A → Bool) (xs : List A) → length (filter p xs) ≤ length xs
length-filter p [] = omega arith
length-filter p (x ∷ xs) = ground (arith, length-filter p xs)

handle-bounded :
    (ok : Call → Bool) (listing : Listing) (a : GpuOptimizationAction) (t : ActionType)
    → length (handle ok listing a t).1 ≤ call_bound listing t
unfolding handle
handle-bounded ok listing a scale_gpu_count = omega (
  arith,
  length-map (scale_call a.spec.parameters.gpu_count) (take 5 (listing.managed a.namespace)),
  length-take_le 5 (listing.managed a.namespace),
)
handle-bounded ok listing a adjust_power_cap =
    let gpus = filter (λ (n : Node). ltb 0 n.gpu_capacity) listing.nodes in
    omega (
      arith,
      length-map (power_call a.spec.parameters.power_cap_watts a.name) gpus,
      length-filter (λ (n : Node). ltb 0 n.gpu_capacity) listing.nodes,
    )
handle-bounded ok listing a migrate_workload = omega (
  arith,
  length-map (migrate_call a.spec.parameters.node_selector)
      (take 3 (listing.migratable a.namespace)),
  length-take_le 3 (listing.migratable a.namespace),
)
handle-bounded ok listing a apply_recommendation = omega arith
handle-bounded ok listing a request_approval = omega arith

handle-success :
    (ok : Call → Bool) (listing : Listing) (a : GpuOptimizationAction) (t : ActionType)
    → (handle ok listing a t).0.success ≡ true
unfolding handle
handle-success ok listing a scale_gpu_count = refl
handle-success ok listing a adjust_power_cap = refl
handle-success ok listing a migrate_workload = refl
handle-success ok listing a apply_recommendation = refl
handle-success ok listing a request_approval = refl

-- A dry run writes nothing to the cluster, and any other run makes at most as many calls as its
-- type allows: five to scale, three to migrate, one for each node for power, none else.
pub execute_bounded :
    (ok : Call → Bool) (listing : Listing) (a : GpuOptimizationAction)
    → length (execute ok listing a).1
      ≤ (if a.spec.parameters.dry_run then 0 else call_bound listing a.spec.action_type)
unfolding execute handle
execute_bounded ok listing a = elim (Bool-cases a.spec.parameters.dry_run) [
  | inl dry ↦ rw (dry) (omega arith)
  | inr wet ↦ rw (wet) (handle-bounded ok listing a a.spec.action_type)
]

-- The adapter reports success whatever the calls it made answered.
pub execute_reports_success :
    (ok : Call → Bool) (listing : Listing) (a : GpuOptimizationAction)
    → (execute ok listing a).0.success ≡ true
unfolding execute handle
execute_reports_success ok listing a = elim (Bool-cases a.spec.parameters.dry_run) [
  | inl dry ↦ rw (dry) refl
  | inr wet ↦ rw (wet) (handle-success ok listing a a.spec.action_type)
]
