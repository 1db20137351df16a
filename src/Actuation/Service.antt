-- ===== src/Actuation/Service.antt =====
-- `ActuationService` of src/gpuopt/actuation.py: carrying out a recommendation on the cluster's
-- twin, rolling it back, and the lists and counts of the records.
use gpuopt.Base.{
  ℕ, String, Bool, true, false, Option, none, some, List, [], ◌∷◌, count, length, ◌==◌, string_eq,
  if◌then◌else◌, ◌>>=◌,
}
use gpuopt.Base.Dict.{Dict, lookup, values}
use gpuopt.Base.Sorting.{first}
use gpuopt.Actuation.{
  ActuationStatus, in_progress, completed, failed, rolled_back, status_eq, ActuationAction,
  ActuationRecord, Recommendation, type_value, ClusterRecord, TwinNode, StateJson, empty, not_json,
  state, TwinState, Repository, get_twin, save_twin, save_actuation, get_actuation, list_actuations,
}
use gpuopt.Actuation.Twin.{Applied, add_nodes, apply_rec_to_twin, build_twin_from_state}

-- What the service raises, and the ValueError of a twin whose text is no JSON.
pub data ActuationError : Type 0 where
  cluster_not_found : ActuationError
  no_recommendations : ActuationError
  recommendation_not_found : ActuationError
  actuation_not_found : ActuationError
  not_completed : ActuationError
  no_twin : ActuationError
  bad_state : ActuationError

pub data Outcome (A : Type 0) : Type 0 where
  raised : ActuationError → Outcome A
  returned : A → Outcome A

unfoldable pub find_rec : String → List Recommendation → Option Recommendation
find_rec rec_id [] = none
find_rec rec_id (r ∷ recs) =
    let rest = find_rec rec_id recs in if r.id == rec_id then some r else rest

unfoldable pub started :
    String → ℕ → Bool → String → ClusterRecord → Recommendation → ActuationRecord
started fresh now dry_run cluster_id cluster rec = record {
  id = fresh;
  cluster_id = cluster_id;
  cluster_name = cluster.name;
  environment = cluster.environment;
  rec_id = rec.id;
  rec_title = rec.title;
  rec_type = type_value rec.type;
  status = in_progress;
  dry_run = dry_run;
  started_at = now;
  completed_at = none;
  actions = [];
  rollback_of = none;
}

-- The record with its status, its time of completion and its actions, which is then saved.
unfoldable pub finish :
    ℕ
    → ActuationStatus
    → List ActuationAction
    → ActuationRecord
    → Repository
    → ActuationRecord × Repository
unfolding save_actuation
finish now status actions a r =
    let done : ActuationRecord = record {
      id = a.id;
      cluster_id = a.cluster_id;
      cluster_name = a.cluster_name;
      environment = a.environment;
      rec_id = a.rec_id;
      rec_title = a.rec_title;
      rec_type = a.rec_type;
      status = status;
      dry_run = a.dry_run;
      started_at = a.started_at;
      completed_at = some now;
      actions = actions;
      rollback_of = a.rollback_of;
    } in
    (done, save_actuation done r)

-- `json.loads(twin.state_json) if twin.state_json else {}` and its nodes; `none` is an exception.
unfoldable pub nodes_of : StateJson → Option (List TwinNode)
nodes_of empty = some []
nodes_of not_json = none
nodes_of (state nodes diverged) = some nodes

unfoldable pub diverged_twin : TwinState → Applied × Dict String TwinNode → Applied × TwinState
diverged_twin twin (applied, node_map) = (
  applied,
  record {
    cluster_id = twin.cluster_id;
    cluster_name = twin.cluster_name;
    environment = twin.environment;
    state_json = state (values node_map) none;
    has_diverged = true;
  },
)

-- The body of the `try` up to the saving of the twin; `none` is an exception.
unfoldable pub change_twin : Recommendation → TwinState → Option (Applied × TwinState)
unfolding nodes_of diverged_twin
change_twin rec twin = do
  nodes ← nodes_of twin.state_json
  node_map ← add_nodes [] nodes
  result ← apply_rec_to_twin rec node_map
  some (diverged_twin twin result)

unfoldable pub settle :
    ℕ → ActuationRecord → Repository → Option (Applied × TwinState) → ActuationRecord × Repository
unfolding finish save_twin
settle now a r none = finish now failed [] a r
settle now a r (some (applied, twin)) =
    finish now completed
      (record {
        action_type = applied.type;
        target = applied.target;
        value = applied.value;
        status = "success";
      }
        ∷ [])
      a (save_twin twin r)

-- The stored twin, or a new one.
unfoldable pub twin_of : String → ClusterRecord → Repository → Option TwinState
unfolding build_twin_from_state
twin_of cluster_id cluster r = elim (get_twin cluster_id r) [
  | none ↦ build_twin_from_state cluster_id cluster.name cluster.environment
  | some twin ↦ some twin
]

unfoldable pub carry_out :
    ℕ
    → Recommendation
    → ActuationRecord
    → Repository
    → Option TwinState
    → ActuationRecord × Repository
unfolding finish settle change_twin
carry_out now rec a r none =
    finish now failed
      (record {
        action_type = "state_check";
        target = "cluster";
        value = "no_state";
        status = "failed";
      }
        ∷ [])
      a r
carry_out now rec a r (some twin) = settle now a r (change_twin rec twin)

-- The part after the guards.
unfoldable pub run_actuation :
    String
    → ℕ
    → Bool
    → String
    → ClusterRecord
    → Recommendation
    → Repository
    → ActuationRecord × Repository
unfolding started finish carry_out twin_of
run_actuation fresh now dry_run cluster_id cluster rec r =
    let a = started fresh now dry_run cluster_id cluster rec in
    if dry_run
    then finish now completed
        (record {
          action_type = "dry_run";
          target = "cluster";
          value = "simulated";
          status = "success";
        }
          ∷ [])
        a r
    else carry_out now rec a r (twin_of cluster_id cluster r)

unfoldable pub actuate_rec :
    String
    → ℕ
    → Bool
    → String
    → ClusterRecord
    → Repository
    → Option Recommendation
    → Outcome (ActuationRecord × Repository)
unfolding run_actuation
actuate_rec fresh now dry_run cluster_id cluster r none = raised recommendation_not_found
actuate_rec fresh now dry_run cluster_id cluster r (some rec) =
    returned (run_actuation fresh now dry_run cluster_id cluster rec r)

-- `actuate`
unfoldable pub actuate :
    String → ℕ → String → String → Bool → Repository → Outcome (ActuationRecord × Repository)
unfolding find_rec actuate_rec
actuate fresh now cluster_id rec_id dry_run r = elim (lookup cluster_id r.clusters) [
  | none ↦ raised cluster_not_found
  | some cluster ↦ elim (lookup cluster_id r.recommendations) [
    | none ↦ raised no_recommendations
    | some recs ↦ actuate_rec fresh now dry_run cluster_id cluster r (find_rec rec_id recs)
  ]
]

-- `state["diverged"] = False`, where there is a text; `none` is the exception of `json.loads`.
unfoldable pub mark_restored : StateJson → Option StateJson
mark_restored empty = some empty
mark_restored not_json = none
mark_restored (state nodes diverged) = some (state nodes (some false))

unfoldable pub restored_twin : TwinState → StateJson → TwinState
restored_twin twin text = record {
  cluster_id = twin.cluster_id;
  cluster_name = twin.cluster_name;
  environment = twin.environment;
  state_json = text;
  has_diverged = false;
}

unfoldable pub rollback_record :
    String → ℕ → String → String → Option ClusterRecord → ActuationRecord → ActuationRecord
rollback_record fresh now cluster_id actuation_id cluster original = record {
  id = fresh;
  cluster_id = cluster_id;
  cluster_name = elim cluster [ none ↦ "unknown" | some c ↦ c.name ];
  environment = elim cluster [ none ↦ "" | some c ↦ c.environment ];
  rec_id = original.rec_id;
  rec_title = original.rec_title;
  rec_type = original.rec_type;
  status = rolled_back;
  dry_run = false;
  started_at = now;
  completed_at = some now;
  actions =
      record { action_type = "rollback"; target = "twin"; value = "restored"; status = "success" }
      ∷ [];
  rollback_of = some actuation_id;
}

unfoldable pub rollback_twin :
    String
    → ℕ
    → String
    → String
    → ActuationRecord
    → Repository
    → TwinState
    → Outcome (ActuationRecord × Repository)
unfolding mark_restored restored_twin rollback_record save_twin save_actuation
rollback_twin fresh now cluster_id actuation_id original r twin =
    elim (mark_restored twin.state_json) [
      | none ↦ raised bad_state
      | some text ↦
          let a =
            rollback_record fresh now cluster_id actuation_id (lookup cluster_id r.clusters)
              original in
          returned (a, save_actuation a (save_twin (restored_twin twin text) r))
    ]

-- `rollback`
unfoldable pub rollback :
    String → ℕ → String → String → Repository → Outcome (ActuationRecord × Repository)
unfolding get_actuation rollback_twin
rollback fresh now cluster_id actuation_id r = elim (get_actuation cluster_id actuation_id r) [
  | none ↦ raised actuation_not_found
  | some original ↦
      if original.status == completed
      then elim (get_twin cluster_id r) [
        | none ↦ raised no_twin
        | some twin ↦ rollback_twin fresh now cluster_id actuation_id original r twin
      ]
      else raised not_completed
]

-- `ActuationService.list_actuations`
unfoldable pub list : String → ℕ → Repository → Outcome (List ActuationRecord)
unfolding list_actuations
list cluster_id limit r = elim (lookup cluster_id r.clusters) [
  | none ↦ raised cluster_not_found
  | some cluster ↦ returned (list_actuations cluster_id limit r)
]

pub record ActuationSummary : Type 0 where
  pub cluster_id : String
  pub cluster_name : String
  pub environment : String
  pub total_actuations : ℕ
  pub successful : ℕ
  pub failed : ℕ
  pub in_progress : ℕ
  pub rolled_back : ℕ
  pub pending : ℕ
  pub latest_actuation : Option ActuationRecord

unfoldable pub count_status : ActuationStatus → List ActuationRecord → ℕ
count_status status = count (λ (a : ActuationRecord). a.status == status)

unfoldable pub summary_of : String → ClusterRecord → List ActuationRecord → ActuationSummary
unfolding count_status
summary_of cluster_id cluster actuations = record {
  cluster_id = cluster_id;
  cluster_name = cluster.name;
  environment = cluster.environment;
  total_actuations = length actuations;
  successful = count_status completed actuations;
  failed = count_status ActuationStatus.failed actuations;
  in_progress = count_status ActuationStatus.in_progress actuations;
  rolled_back = count_status ActuationStatus.rolled_back actuations;
  pending = count_status ActuationStatus.pending actuations;
  latest_actuation = first actuations;
}

-- `summarize`
unfoldable pub summarize : String → Repository → Outcome ActuationSummary
unfolding summary_of list_actuations
summarize cluster_id r = elim (lookup cluster_id r.clusters) [
  | none ↦ raised cluster_not_found
  | some cluster ↦ returned (summary_of cluster_id cluster (list_actuations cluster_id 1000 r))
]
