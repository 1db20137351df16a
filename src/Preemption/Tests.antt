-- ===== src/Preemption/Tests.antt =====
-- The preemption theorems at a batch job under a production one.
use gpuopt.Base.{◌≡◌, ◌≢◌, refl, true, List, [], ◌∷◌, length, All, arith}
use gpuopt.Preemption.{
  preempt_lower_priority, batch, production, critical, Workload, PreemptionAction,
  PreemptionPolicyConfig, cycle, preempt_pairs, detect_collisions, pairs, below, sort_workloads,
  insert_workload,
}
use gpuopt.Preemption.Bounds.{critical_never_preempted}

abbrev config : PreemptionPolicyConfig
config = record {
  policy = preempt_lower_priority;
  min_priority_delta = 100;
  max_preemptions_per_cycle = 5;
}

abbrev workloads : List Workload
workloads =
    record { workload_name = "train"; namespace = "ml"; priority = batch }
    ∷ record { workload_name = "serve"; namespace = "ml"; priority = production }
    ∷ []

critical_never_preempted_example :
    All
      (λ (act : PreemptionAction). act.priority ≢ critical)
      (cycle config (λ w. true) workloads []).0
critical_never_preempted_example =
    critical_never_preempted config (λ w. true) workloads [] (omega arith)

-- A high workload of two may preempt the same low one twice in one cycle.
one_low_twice :
    length
      (cycle config
        (λ w. true)
        (record { workload_name = "serve2"; namespace = "ml"; priority = production } ∷ workloads)
        []).0
    ≡ 2
unfolding cycle preempt_pairs detect_collisions pairs below sort_workloads insert_workload
one_low_twice = refl
