-- ===== src/Operator/Tests.antt =====
-- The operator's theorems at an action that moves two GPUs.
use gpuopt.Base.{◌≡◌, ◌≤◌, refl, Bool, true, false, [], ◌∷◌, none, some, inl, string_eq}
use gpuopt.Base.Text.{codes}
use gpuopt.Operator.Adapter.{
  scale_gpu_count, pending, GpuOptimizationAction, Listing, Call, before_last_dash,
}
use gpuopt.Operator.Controller.{Item, build_with, build_action, action_type_of, phase_of}
use gpuopt.Operator.Lifecycle.{reconcile_many, runs_at_most_once, waiting_runs_once}

abbrev item : Item
item = record {
  name = codes "grow";
  namespace = codes "ml";
  action_type = "scale_gpu_count";
  target_cluster = codes "east";
  recommendation_ref = [];
  gpu_count = some 2;
  power_cap_watts = none;
  node_selector = [];
  dry_run = some false;
  approval_required = some true;
  phase = none;
}

abbrev listing : Listing
listing = record {
  managed = λ ns. record { name = codes "train-7f-abc"; namespace = ns } ∷ [];
  migratable = λ ns. [];
  nodes = [];
}

abbrev all_work : Call → Bool
all_work c = true

abbrev none_work : Call → Bool
none_work c = false

deployment_name : before_last_dash (codes "train-7f-abc") ≡ codes "train-7f"
unfolding before_last_dash
deployment_name = refl

abbrev action : GpuOptimizationAction
action = build_with item scale_gpu_count

built : build_action item ≡ some action
unfolding build_action action_type_of
built = refl

waits : action.phase ≡ pending
unfolding build_with phase_of
waits = refl

runs_at_most_once_example : (reconcile_many (all_work ∷ all_work ∷ []) listing item).0 ≤ 1
runs_at_most_once_example =
    runs_at_most_once (all_work ∷ all_work ∷ []) listing item
      ((λ ns n p. refl), ((λ ns n p. refl), tt))

waiting_runs_once_example :
    ((reconcile_many (all_work ∷ none_work ∷ []) listing item).0 ≡ 1)
    × ((reconcile_many (all_work ∷ none_work ∷ []) listing item).1.phase ≡ some "completed")
waiting_runs_once_example =
    waiting_runs_once all_work (none_work ∷ []) listing item (λ ns n p. refl)
      (action, built, inl waits)
