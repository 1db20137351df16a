-- ===== src/Actuation/Tests.antt =====
-- A cluster with one recommendation and a twin of two nodes.
use gpuopt.Base.{ℕ, String, true, false, none, some, [], ◌∷◌, ◌≡◌, ◌↔◌, refl, eq_iff, string_eq}
use gpuopt.Base.Int.{pos}
use gpuopt.Base.Dict.{lookup, Rows-insert}
use gpuopt.Actuation.{
  status_discrete, completed, ActuationRecord, efficiency, Recommendation, Repository, TwinNode,
  TwinState, number, state, get_actuation,
}
use gpuopt.Actuation.Twin.{add_nodes, apply_rec_to_twin}
use gpuopt.Actuation.Service.{
  ActuationError, Outcome, raised, returned, actuate, rollback, nodes_of,
}
use gpuopt.Actuation.Errors.{Refused, actuate_raises}
use gpuopt.Actuation.Effects.{TwinsKeyed, Effect, actuate-Effect}
use gpuopt.Actuation.Rollback.{rollback_restores_nothing}
use gpuopt.Actuation.Bounds.{Shrunk, apply_rec_shrinks}

abbrev pods : Recommendation
pods = record { id = "r1"; title = "Pod packing"; type = efficiency }

abbrev node : TwinNode
node = record {
  name = some "n1";
  allocatable_gpu_memory = number (pos 80);
  pod_count = number (pos 3);
}

abbrev twin : TwinState
twin = record {
  cluster_id = "c";
  cluster_name = "prod";
  environment = "production";
  state_json = state (node ∷ []) none;
  has_diverged = false;
}

abbrev repo : Repository
repo = record {
  clusters = ("c", record { name = "prod"; environment = "production" }) ∷ [];
  recommendations = ("c", pods ∷ []) ∷ [];
  twins = ("c", twin) ∷ [];
  actuations = [];
}

abbrev ran :
    Outcome (ActuationRecord × Repository)
    → ActuationRecord × Repository
    → ActuationRecord × Repository
ran (raised e) d = d
ran (returned p) d = p

abbrev no_record : ActuationRecord
no_record = record {
  id = "";
  cluster_id = "";
  cluster_name = "";
  environment = "";
  rec_id = "";
  rec_title = "";
  rec_type = "";
  status = completed;
  dry_run = true;
  started_at = 0;
  completed_at = none;
  actions = [];
  rollback_of = none;
}

abbrev acted : ActuationRecord × Repository
acted = ran (actuate "a1" 5 "c" "r1" false repo) (no_record, repo)

abbrev rolled : ActuationRecord × Repository
rolled = ran (rollback "a2" 6 "c" "a1" (acted.1)) (no_record, repo)

repo-TwinsKeyed : TwinsKeyed repo
repo-TwinsKeyed = Rows-insert (λ k (t : TwinState). t.cluster_id ≡ k) "c" twin [] refl (λ k v h. cc)

actuate_returns : actuate "a1" 5 "c" "r1" false repo ≡ returned (acted.0, acted.1)
unfolding actuate
actuate_returns = refl

actuate-Effect_example : Effect false "a1" "c" repo (acted.0) (acted.1)
actuate-Effect_example =
    actuate-Effect "a1" 5 "c" "r1" false repo (acted.0) (acted.1) repo-TwinsKeyed actuate_returns

rollback_returns : rollback "a2" 6 "c" "a1" (acted.1) ≡ returned (rolled.0, rolled.1)
unfolding actuate rollback add_nodes apply_rec_to_twin status_discrete
rollback_returns = refl

rollback_restores_nothing_example :
    (twin : TwinState) × (twin' : TwinState) × (lookup "c" (acted.1).twins ≡ some twin)
    × (lookup "c" (rolled.1).twins ≡ some twin')
    × (twin'.has_diverged ≡ false)
    × (nodes_of twin'.state_json ≡ nodes_of twin.state_json)
    × (get_actuation "c" "a1" (rolled.1) ≡ get_actuation "c" "a1" (acted.1))
    × ((fresh' : String) (later : ℕ)
        → (b : ActuationRecord) × (r'' : Repository) × (twin'' : TwinState) × (rollback fresh' later
              "c" "a1"
              (rolled.1)
            ≡ returned (b, r''))
          × (lookup "c" r''.twins ≡ some twin'')
          × (twin''.has_diverged ≡ false)
          × (nodes_of twin''.state_json ≡ nodes_of twin.state_json))
rollback_restores_nothing_example =
    rollback_restores_nothing "a2" 6 "c" "a1" (acted.1) (rolled.0) (rolled.1)
      (actuate-Effect "a1" 5 "c" "r1" false repo (acted.0) (acted.1) repo-TwinsKeyed
        actuate_returns).2
      (λ e. let b = (eq_iff "a2" "a1").1 e in cc) rollback_returns

actuate_raises_example :
    ((e : ActuationError)
      → (actuate "a1" 5 "c" "r9" false repo ≡ raised e) ↔ Refused e "c" "r9" repo)
    × (((e : ActuationError) → ¬ Refused e "c" "r9" repo)
        → (a : ActuationRecord) × (r' : Repository) × (actuate "a1" 5 "c" "r9" false repo
            ≡ returned (a, r')))
actuate_raises_example = actuate_raises "a1" 5 "c" "r9" false repo

apply_rec_shrinks_example : Shrunk (("n1", node) ∷ []) (
    (
      "n1",
      record {
        name = some "n1";
        allocatable_gpu_memory = number (pos 80);
        pod_count = number (pos 2);
      },
    )
    ∷ [])
unfolding apply_rec_to_twin
apply_rec_shrinks_example =
    apply_rec_shrinks pods (("n1", node) ∷ [])
      ((
        "n1",
        record {
          name = some "n1";
          allocatable_gpu_memory = number (pos 80);
          pod_count = number (pos 2);
        },
      )
        ∷ [])
      (record { type = "pod_consolidation"; target = "cluster"; value = "pods_reduced" }) refl
