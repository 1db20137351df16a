-- ===== src/Federation/Tests.antt =====
-- Two clusters, one of them online. A float is a number of thousandths.
use gpuopt.Base.{
  ℕ, true, false, ◌+◌, ◌≤◌, ◌<◌, ◌-◌, ◌*◌, ◌/◌, String, none, some, List, [], ◌∷◌, ◌≡◌, ◌↔◌, All,
  refl, arith, ltb, string_eq,
}
use gpuopt.Base.Dict.{values}
use gpuopt.Base.Sorting.{IsOrder, sorted}
use gpuopt.Base.Floats.{Floats, nonnegative}
use gpuopt.Federation.{
  health_discrete, role_discrete, FederatedCluster, Registry, Registration, online, active,
  register, get_by_name,
}
use gpuopt.Federation.ByName.{RegistryOp, register_op, unregister_op, health_op, Named}
use gpuopt.Federation.Refinement.{run, run_by_name, FreshIds, registry_refines}
use gpuopt.Federation.Scheduler.{
  Wish, find_best_cluster, exploit, schedule_across_clusters, index_raised, division_raised, score,
}
use gpuopt.Federation.Choice.{Eligible, Stored, find_best_cluster_exact}
use gpuopt.Federation.Workloads.{Assigned, schedule_across_clusters_exact}

abbrev floats : Floats ℕ
floats = record {
  of_nat = λ n. n * 1000;
  literal = λ n k. n * 1000 / 10;
  plus = λ a b. a + b;
  minus = λ a b. a - b;
  times = λ a b. a * b / 1000;
  over = λ a b. a * 1000 / b;
  negate = λ a. 1000000 - a;
  less = λ a b. ltb a b;
  round = λ k a. a;
  truncate = λ a. nonnegative (a / 1000);
}

ltb-asym : (a b : ℕ) → ltb a b ≡ true → ltb b a ≡ false
ltb-asym a b h = ground (arith, h)

ltb_trans : (a b c : ℕ) → ltb b a ≡ false → ltb c b ≡ false → ltb c a ≡ false
ltb_trans a b c h k = ground (arith, h, k)

floats-IsOrder : IsOrder (floats.less)
floats-IsOrder = record { asym = ltb-asym; trans = ltb_trans }

abbrev east : Registration
east = record {
  name = "east";
  endpoint = "e";
  environment = "prod";
  region = "us";
  labels = none;
  options = none;
}

abbrev west : Registration
west = record {
  name = "west";
  endpoint = "w";
  environment = "prod";
  region = "us";
  labels = none;
  options = none;
}

abbrev ops : List (RegistryOp ℕ)
ops =
    register_op "1" 10 east
    ∷ register_op "2" 11 west
    ∷ register_op "3" 12 east
    ∷ health_op "2" 13 (record {
      health = online;
      total_gpus = 64;
      free_gpus = 16;
      gpu_models = none;
      avg_utilization = 5;
    })
    ∷ unregister_op "1"
    ∷ []

ops-FreshIds : FreshIds 0 ops []
unfolding register
ops-FreshIds = (refl, (refl, (refl, (tt, (tt, tt)))))

registry_refines_example :
    Named (run 0 ops [])
    × ((j : String) → get_by_name j (run 0 ops []) ≡ run_by_name 0 ops (λ i. none) j)
registry_refines_example = registry_refines 0 ops ops-FreshIds

abbrev west_cluster : FederatedCluster ℕ
west_cluster = record {
  id = "2";
  name = "west";
  endpoint = "w";
  environment = "prod";
  health = online;
  role = active;
  total_gpus = 64;
  free_gpus = 16;
  gpu_models = [];
  avg_utilization = 5;
  region = "us";
  labels = [];
  last_seen = 13;
  created_at = 11;
  options = [];
}

abbrev wish : Wish
wish = record { required_gpus = 8; gpu_model = ""; priority = 5; region = "us" }

abbrev registry : Registry ℕ
registry = ("2", west_cluster) ∷ []

west_chosen : find_best_cluster floats wish registry ≡ some west_cluster
unfolding find_best_cluster sorted health_discrete role_discrete
west_chosen = refl

find_best_cluster_exact_example :
    ((find_best_cluster floats wish registry ≡ none)
      ↔ All (λ c. ¬ Eligible wish c) (values registry))
    × ((c : FederatedCluster ℕ)
        → find_best_cluster floats wish registry ≡ some c
        → Stored c (values registry)
          × Eligible wish c
          × All
              (λ b.
                Eligible wish b
                → floats.less
                    (floats.negate (score floats wish b))
                    (floats.negate (score floats wish c))
                  ≡ false)
              (values registry))
find_best_cluster_exact_example = find_best_cluster_exact floats wish registry floats-IsOrder

schedule_across_clusters_exact_example :
    let out =
      schedule_across_clusters floats
        (0 ∷ 0 ∷ 0 ∷ 0 ∷ 0 ∷ [])
        exploit
        "w1"
        "train"
        wish
        8
        registry
        [] in
    (48 ≤ 64 → out ≡ (index_raised, []))
    × (◌≡◌ {A = ℕ} 64 0 → out ≡ (division_raised, []))
    × (0 < 64 → 64 < 48 → Assigned "w1" west_cluster out)
schedule_across_clusters_exact_example =
    schedule_across_clusters_exact floats (0 ∷ 0 ∷ 0 ∷ 0 ∷ 0 ∷ []) "w1" "train" wish 8 registry []
      west_cluster west_chosen refl
