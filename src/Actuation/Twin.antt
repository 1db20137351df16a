-- ===== src/Actuation/Twin.antt =====
-- `_apply_rec_to_twin` and `_build_twin_from_state` of src/gpuopt/actuation.py. `none` is an
-- exception, which a missing or malformed value of the twin's JSON raises.
use gpuopt.Base.Int.{ℤ, pos, negsuc}
use gpuopt.Base.{
  ℕ, zero, suc, ◌-◌, ◌*◌, ◌/◌, String, Bool, false, ◌||◌, Option, none, some, List, [], ◌∷◌,
  if◌then◌else◌, string_eq,
}
use gpuopt.Base.Dict.{Dict, insert}
use gpuopt.Base.Text.{lower_contains}
use gpuopt.Actuation.{
  Quantity, absent, number, decimal, malformed, TwinNode, TwinState, state, Recommendation,
  type_value,
}

pub record Applied : Type 0 where
  pub type : String
  pub target : String
  pub value : String

-- `{n["name"]: n for n in nodes}`
unfoldable pub add_nodes : Dict String TwinNode → List TwinNode → Option (Dict String TwinNode)
add_nodes node_map [] = some node_map
add_nodes node_map (n ∷ nodes) = elim (n.name) [
  | none ↦ none
  | some name ↦ add_nodes (insert name n node_map) nodes
]

abbrev pub power_of_ten : ℕ → ℕ
power_of_ten zero = 1
power_of_ten (suc k) = 10 * power_of_ten k

abbrev pub minus : ℕ → ℤ
minus zero = pos 0
minus (suc n) = negsuc n

-- A number over n, towards 0.
abbrev pub over : ℤ → ℕ → ℤ
over (pos m) n = pos (m / n)
over (negsuc m) n = minus (suc m / n)

abbrev pub nine_times : ℤ → ℤ
nine_times (pos m) = pos (m * 9)
nine_times (negsuc m) = minus (suc m * 9)

-- `str(int(float(str(node.get(key, "0"))) * 0.9))`, without the rounding of floats.
unfoldable pub reduced_memory : Quantity → Option Quantity
reduced_memory absent = some (number (pos 0))
reduced_memory (number m) = some (number (over (nine_times m) 10))
reduced_memory (decimal m k) = some (number (over (nine_times m) (power_of_ten (suc (suc k)))))
reduced_memory malformed = none

-- `max(n - 1, 0)`
abbrev pub one_less : ℤ → ℤ
one_less (pos n) = pos (n - 1)
one_less (negsuc n) = pos 0

-- `max(int(str(node.get("pod_count", "0"))) - 1, 0)`; `int` of the text of a decimal raises.
unfoldable pub fewer_pods : Quantity → Option Quantity
fewer_pods absent = some (number (pos 0))
fewer_pods (number n) = some (number (one_less n))
fewer_pods (decimal m k) = none
fewer_pods malformed = none

unfoldable pub with_memory : TwinNode → Option Quantity → Option TwinNode
with_memory n none = none
with_memory n (some q) =
    some (record { name = n.name; allocatable_gpu_memory = q; pod_count = n.pod_count })

unfoldable pub with_pods : TwinNode → Option Quantity → Option TwinNode
with_pods n none = none
with_pods n (some q) =
    some
      (record { name = n.name; allocatable_gpu_memory = n.allocatable_gpu_memory; pod_count = q })

unfoldable pub replace_first :
    String → Dict String TwinNode → Option TwinNode → Option (Dict String TwinNode)
replace_first k d none = none
replace_first k d (some n) = some ((k, n) ∷ d)

unfoldable pub reduce_first : Dict String TwinNode → Option (Dict String TwinNode)
unfolding replace_first with_memory reduced_memory
reduce_first [] = some []
reduce_first ((k, n) ∷ d) =
    replace_first k d (with_memory n (reduced_memory n.allocatable_gpu_memory))

unfoldable pub remove_pods : Dict String TwinNode → Option (Dict String TwinNode)
unfolding replace_first with_pods fewer_pods
remove_pods [] = some []
remove_pods ((k, n) ∷ d) = elim (remove_pods d) [
  | none ↦ none
  | some d' ↦ replace_first k d' (with_pods n (fewer_pods n.pod_count))
]

unfoldable pub first_name : Dict String TwinNode → String
first_name [] = "unknown"
first_name ((k, n) ∷ d) = k

unfoldable pub reported :
    Applied → Option (Dict String TwinNode) → Option (Applied × Dict String TwinNode)
reported a none = none
reported a (some node_map) = some (a, node_map)

-- `word in rec_type.lower() or word in title.lower()`
unfoldable pub mentions : String → Recommendation → Bool
unfolding lower_contains
mentions word rec = lower_contains word (type_value rec.type) || lower_contains word rec.title

unfoldable pub apply_rec_to_twin :
    Recommendation → Dict String TwinNode → Option (Applied × Dict String TwinNode)
unfolding mentions reported reduce_first remove_pods first_name
apply_rec_to_twin rec node_map =
    if mentions "gpu" rec
    then reported
        (record {
          type = "resource_adjustment";
          target = first_name node_map;
          value = "gpu_memory_reduced_10pct";
        })
        (reduce_first node_map)
    else (if mentions "node" rec
        then reported
            (record {
              type = "node_recommendation";
              target = "cluster";
              value = "node_count_adjusted";
            })
            (some node_map)
        else (if mentions "pod" rec
            then reported
                (record { type = "pod_consolidation"; target = "cluster"; value = "pods_reduced" })
                (remove_pods node_map)
            else reported
                (record {
                  type = "general_adjustment";
                  target = "cluster";
                  value = "config_updated";
                })
                (some node_map)))

-- The code builds a twin without nodes, whatever the cluster's last state is.
unfoldable pub build_twin_from_state : String → String → String → Option TwinState
build_twin_from_state cluster_id cluster_name environment = some (record {
  cluster_id = cluster_id;
  cluster_name = cluster_name;
  environment = environment;
  state_json = state [] none;
  has_diverged = false;
})
