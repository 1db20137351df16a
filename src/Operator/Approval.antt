-- ===== src/Operator/Approval.antt =====
-- The part that approval plays in the controller.
use gpuopt.Base.{
  Bool, true, ◌≡◌, refl, ap, none, some, List, [], ◌∷◌, ◌++◌, if◌then◌else◌, Option-cases, inl, inr,
}
use gpuopt.Operator.Adapter.{
  ActionType, scale_gpu_count, adjust_power_cap, migrate_workload, apply_recommendation,
  request_approval, ActionPhase, pending, approved, running, completed, failed, rolled_back,
  GpuOptimizationAction, Listing, Call, update_action_status, execute, handle,
}
use gpuopt.Operator.Controller.{
  Item, phase_of, action_type_of, build_action, build_with, Outcome, idle, run_action,
  reconcile_built, reconcile_action,
}
use gpuopt.Operator.Lifecycle.{built_phase}

-- The same action with another answer to whether it needs an approval.
asking : Bool → GpuOptimizationAction → GpuOptimizationAction
asking b a = record a { spec = record a.spec { approval_required = b } }

handle-asking :
    (ok : Call → Bool) (listing : Listing) (b : Bool) (a : GpuOptimizationAction) (t : ActionType)
    → handle ok listing (asking b a) t ≡ handle ok listing a t
unfolding handle asking
handle-asking ok listing b a scale_gpu_count = refl
handle-asking ok listing b a adjust_power_cap = refl
handle-asking ok listing b a migrate_workload = refl
handle-asking ok listing b a apply_recommendation = refl
handle-asking ok listing b a request_approval = refl

execute-asking :
    (ok : Call → Bool) (listing : Listing) (b : Bool) (a : GpuOptimizationAction)
    → execute ok listing (asking b a) ≡ execute ok listing a
unfolding execute asking
execute-asking ok listing b a =
    let same = handle-asking ok listing b a a.spec.action_type in
    ap (λ r. if a.spec.parameters.dry_run then (record { success = true; results = [] }, []) else r)
      same

abbrev SameEffect : Outcome → Outcome → Type 0
SameEffect o o' = (o.ran ≡ o'.ran) × (o.calls ≡ o'.calls)

run_action-asking :
    (ok : Call → Bool) (listing : Listing) (b : Bool) (a : GpuOptimizationAction)
    (before : List Call) (i j : Item)
    → SameEffect (run_action ok listing (asking b a) before i) (run_action ok listing a before j)
unfolding run_action asking
run_action-asking ok listing b a before i j =
    let same = execute-asking ok listing b a in
    (
      refl,
      ap
          (λ r.
            before
            ++ r.1
            ++ (update_action_status a.namespace a.name (if r.0.success then completed else failed)
                ∷ []))
          same,
    )

reconcile_built-asking :
    (ok : Call → Bool) (listing : Listing) (b : Bool) (a : GpuOptimizationAction) (p : ActionPhase)
    (i j : Item)
    → SameEffect (reconcile_built ok listing (asking b a) p i) (reconcile_built ok listing a p j)
unfolding reconcile_built asking
reconcile_built-asking ok listing b a pending i j =
    run_action-asking ok listing b (record a { phase = running }) _ _ _
reconcile_built-asking ok listing b a approved i j = (refl, refl)
reconcile_built-asking ok listing b a running i j = run_action-asking ok listing b a [] i j
reconcile_built-asking ok listing b a completed i j = (refl, refl)
reconcile_built-asking ok listing b a failed i j = (refl, refl)
reconcile_built-asking ok listing b a rolled_back i j = (refl, refl)

build_action-none :
    (item : Item) → action_type_of item.action_type ≡ none → build_action item ≡ none
unfolding build_action
build_action-none item e = rw (e, build_action) refl

build_action-some :
    (item : Item) (t : ActionType)
    → action_type_of item.action_type ≡ some t
    → build_action item ≡ some (build_with item t)
unfolding build_action
build_action-some item t e = rw (e, build_action) refl

-- Whether an action asks for an approval changes neither whether the controller runs it nor the
-- calls that it makes.
pub approval_not_asked :
    (ok : Call → Bool) (listing : Listing) (b : Bool) (item : Item)
    → ((reconcile_action ok listing (record item { approval_required = some b })).ran
        ≡ (reconcile_action ok listing item).ran)
      × ((reconcile_action ok listing (record item { approval_required = some b })).calls
          ≡ (reconcile_action ok listing item).calls)
unfolding reconcile_action build_with asking
approval_not_asked ok listing b item =
    let item' : Item = record item { approval_required = some b } in
    elim (Option-cases (action_type_of item.action_type)) [
      | inl e ↦
          rw (build_action-none item e, reconcile_action)
            (rw (build_action-none item' e, reconcile_action) (refl, refl))
      | inr (t, e) ↦
          rw (build_action-some item t e, reconcile_action)
            (rw (build_action-some item' t e, reconcile_action)
              (reconcile_built-asking ok listing b (build_with item t) (build_with item t).phase
                item' item))
    ]

-- An action whose phase is approved is left as it is.
pub approved_waits :
    (ok : Call → Bool) (listing : Listing) (item : Item)
    → item.phase ≡ some "approved"
    → reconcile_action ok listing item ≡ idle item
unfolding reconcile_action reconcile_built phase_of
approved_waits ok listing item e = elim (Option-cases (build_action item)) [
  | inl f ↦ rw (f, reconcile_action) refl
  | inr (a, f) ↦
      let p : a.phase ≡ approved = built_phase item a "approved" e f in
      rw (f, reconcile_action) (rw (p, reconcile_built) refl)
]
