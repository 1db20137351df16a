-- ===== src/Actuation.antt =====
-- The actuation service's data and tables: the classes of src/gpuopt/schemas.py and the queries of
-- src/gpuopt/repository.py that src/gpuopt/actuation.py uses. Message texts are left out, and so are
-- the twin's own id, its counts of nodes and GPUs, its time of collection and the reason of a
-- divergence, and a record's texts and `rolled_back_by`, which is never set. A UUID is its text.
mod Twin
mod Service
mod Bounds
mod Effects
mod Errors
mod Rollback
mod Summary
mod Tests
use gpuopt.Base.{
  ℕ, String, Bool, ◌&&◌, Option, none, some, List, [], ◌∷◌, Eq, ◌==◌, string_eq, if◌then◌else◌,
  filter, take, ltb, dec_beq, dec_beq_iff,
}
use gpuopt.Base.Int.{ℤ}
use gpuopt.Base.Dict.{Dict, lookup, insert, values}
use gpuopt.Base.Sorting.{sorted}

pub data ActuationStatus : Type 0 where
  pending : ActuationStatus
  in_progress : ActuationStatus
  completed : ActuationStatus
  failed : ActuationStatus
  rolled_back : ActuationStatus

unfoldable pub status_discrete : Discrete ActuationStatus
status_discrete = hlevel

instance abbrev pub status_eq : Eq ActuationStatus
status_eq = record { beq = dec_beq status_discrete; beq_iff = dec_beq_iff status_discrete }

pub record ActuationAction : Type 0 where
  pub action_type : String
  pub target : String
  pub value : String
  pub status : String

pub record ActuationRecord : Type 0 where
  pub id : String
  pub cluster_id : String
  pub cluster_name : String
  pub environment : String
  pub rec_id : String
  pub rec_title : String
  pub rec_type : String
  pub status : ActuationStatus
  pub dry_run : Bool
  pub started_at : ℕ
  pub completed_at : Option ℕ
  pub actions : List ActuationAction
  pub rollback_of : Option String

pub data RecommendationType : Type 0 where
  placement : RecommendationType
  right_sizing : RecommendationType
  scaling : RecommendationType
  risk_mitigation : RecommendationType
  efficiency : RecommendationType

abbrev pub type_value : RecommendationType → String
type_value placement = "placement"
type_value right_sizing = "right_sizing"
type_value scaling = "scaling"
type_value risk_mitigation = "risk_mitigation"
type_value efficiency = "efficiency"

pub record Recommendation : Type 0 where
  pub id : String
  pub title : String
  pub type : RecommendationType

pub record ClusterRecord : Type 0 where
  pub name : String
  pub environment : String

-- A value of a node in the twin's JSON: no such key, a whole number, a decimal, which is the number
-- over 10 to the power k + 1, or a text that is neither. A text of a number stands for the number.
pub data Quantity : Type 0 where
  absent : Quantity
  number : ℤ → Quantity
  decimal : ℤ → ℕ → Quantity
  malformed : Quantity

-- A node in the twin's JSON, perhaps without a name.
pub record TwinNode : Type 0 where
  pub name : Option String
  pub allocatable_gpu_memory : Quantity
  pub pod_count : Quantity

-- The text `state_json`: empty, no JSON, or an object with its nodes and perhaps `diverged`.
pub data StateJson : Type 0 where
  empty : StateJson
  not_json : StateJson
  state : List TwinNode → Option Bool → StateJson

pub record TwinState : Type 0 where
  pub cluster_id : String
  pub cluster_name : String
  pub environment : String
  pub state_json : StateJson
  pub has_diverged : Bool

-- The tables, each by its primary or unique key; of the recommendations the latest set.
pub record Repository : Type 0 where
  pub clusters : Dict String ClusterRecord
  pub recommendations : Dict String (List Recommendation)
  pub twins : Dict String TwinState
  pub actuations : Dict String ActuationRecord

abbrev pub get_twin : String → Repository → Option TwinState
get_twin cluster_id r = lookup cluster_id r.twins

unfoldable pub save_twin : TwinState → Repository → Repository
save_twin twin r = record {
  clusters = r.clusters;
  recommendations = r.recommendations;
  twins = insert twin.cluster_id twin r.twins;
  actuations = r.actuations;
}

unfoldable pub save_actuation : ActuationRecord → Repository → Repository
save_actuation a r = record {
  clusters = r.clusters;
  recommendations = r.recommendations;
  twins = r.twins;
  actuations = insert a.id a r.actuations;
}

-- `WHERE cluster_id=? AND id=?`
unfoldable pub of_cluster : String → Option ActuationRecord → Option ActuationRecord
of_cluster cluster_id none = none
of_cluster cluster_id (some a) = if a.cluster_id == cluster_id then some a else none

unfoldable pub get_actuation : String → String → Repository → Option ActuationRecord
unfolding of_cluster
get_actuation cluster_id actuation_id r = of_cluster cluster_id (lookup actuation_id r.actuations)

-- `WHERE cluster_id=? ORDER BY started_at DESC LIMIT ?`
unfoldable pub list_actuations : String → ℕ → Repository → List ActuationRecord
unfolding sorted
list_actuations cluster_id limit r = take limit (
    sorted (λ (a b : ActuationRecord). ltb b.started_at a.started_at)
      (filter (λ (a : ActuationRecord). a.cluster_id == cluster_id) (values r.actuations)))
