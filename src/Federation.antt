-- ===== src/Federation.antt =====
-- The clusters of a federation: src/gpuopt/federation/models.py and registry.py. A utilisation is a
-- value of the type `F` of the machine's floats; the values of `options` are texts.
mod Scheduler
mod ByName
mod Changes
mod Updates
mod Refinement
mod Choice
mod Workloads
mod Tests
use gpuopt.Base.{
  ℕ, ◌+◌, String, Bool, true, false, Option, none, some, List, [], ◌∷◌, Eq, ◌==◌, string_eq,
  if◌then◌else◌, dec_beq, dec_beq_iff, is_some,
}
use gpuopt.Base.Dict.{Dict, lookup, insert, erase, values}

pub data ClusterHealth : Type 0 where
  unknown : ClusterHealth
  online : ClusterHealth
  degraded : ClusterHealth
  offline : ClusterHealth

unfoldable pub health_discrete : Discrete ClusterHealth
health_discrete = hlevel

instance abbrev pub health_eq : Eq ClusterHealth
health_eq = record { beq = dec_beq health_discrete; beq_iff = dec_beq_iff health_discrete }

pub data FederationRole : Type 0 where
  active : FederationRole
  standby : FederationRole
  draining : FederationRole

unfoldable pub role_discrete : Discrete FederationRole
role_discrete = hlevel

instance abbrev pub role_eq : Eq FederationRole
role_eq = record { beq = dec_beq role_discrete; beq_iff = dec_beq_iff role_discrete }

pub record FederatedCluster (F : Type 0) : Type 0 where
  pub id : String
  pub name : String
  pub endpoint : String
  pub environment : String
  pub health : ClusterHealth
  pub role : FederationRole
  pub total_gpus : ℕ
  pub free_gpus : ℕ
  pub gpu_models : List String
  pub avg_utilization : F
  pub region : String
  pub labels : Dict String String
  pub last_seen : ℕ
  pub created_at : ℕ
  pub options : Dict String String

-- `d.update(new)`
abbrev pub update : Dict String String → Dict String String → Dict String String
update d [] = d
update d ((k, v) ∷ new) = update (insert k v d) new

-- `new or old`
abbrev pub or_old : String → String → String
or_old new old = if new == "" then old else new

-- `{}` for an absent dict, which `update` leaves out as the code leaves out a falsy one.
abbrev pub given : Option (Dict String String) → Dict String String
given none = []
given (some d) = d

-- The arguments of `register`.
pub record Registration : Type 0 where
  pub name : String
  pub endpoint : String
  pub environment : String
  pub region : String
  pub labels : Option (Dict String String)
  pub options : Option (Dict String String)

-- `FederatedClusterRegistry._clusters`, by id.
abbrev pub Registry : Type 0 → Type 0
Registry F = Dict String (FederatedCluster F)

module _ {F : Type 0} where
  -- The branch of `register` for a cluster of the same name.
  unfoldable pub refreshed : ℕ → Registration → FederatedCluster F → FederatedCluster F
  refreshed now a c = record {
    id = c.id;
    name = c.name;
    endpoint = or_old a.endpoint c.endpoint;
    environment = or_old a.environment c.environment;
    health = c.health;
    role = c.role;
    total_gpus = c.total_gpus;
    free_gpus = c.free_gpus;
    gpu_models = c.gpu_models;
    avg_utilization = c.avg_utilization;
    region = or_old a.region c.region;
    labels = update c.labels (given a.labels);
    last_seen = now;
    created_at = c.created_at;
    options = update c.options (given a.options);
  }

  -- A new cluster; `zero` is the float 0.0.
  unfoldable pub new_cluster : F → String → ℕ → Registration → FederatedCluster F
  new_cluster zero fresh now a = record {
    id = fresh;
    name = a.name;
    endpoint = a.endpoint;
    environment = a.environment;
    health = unknown;
    role = active;
    total_gpus = 0;
    free_gpus = 0;
    gpu_models = [];
    avg_utilization = zero;
    region = a.region;
    labels = given a.labels;
    last_seen = now;
    created_at = now;
    options = given a.options;
  }

  abbrev pub behind :
      String × FederatedCluster F
      → Option (FederatedCluster F × Registry F)
      → Option (FederatedCluster F × Registry F)
  behind row none = none
  behind row (some (c, d)) = some (c, row ∷ d)

  -- The loop of `register`: the first cluster of the name is changed in place.
  unfoldable pub update_named :
      String
      → (FederatedCluster F → FederatedCluster F)
      → Registry F
      → Option (FederatedCluster F × Registry F)
  update_named name change [] = none
  update_named name change ((k, c) ∷ d) =
      let rest = update_named name change d in
      if c.name == name then some (change c, (k, change c) ∷ d) else behind (k, c) rest

  -- `register`
  unfoldable pub register :
      F → String → ℕ → Registration → Registry F → FederatedCluster F × Registry F
  unfolding refreshed new_cluster update_named
  register zero fresh now a d = elim (update_named a.name (refreshed now a) d) [
    | some (c, d') ↦ (c, d')
    | none ↦ let c = new_cluster zero fresh now a in (c, insert fresh c d)
  ]

  -- `unregister`
  unfoldable pub unregister : String → Registry F → Bool × Registry F
  unregister cluster_id d = (is_some (lookup cluster_id d), erase cluster_id d)

  -- `get`
  abbrev pub get : String → Registry F → Option (FederatedCluster F)
  get cluster_id d = lookup cluster_id d

  -- `get_by_name`
  unfoldable pub get_by_name : String → Registry F → Option (FederatedCluster F)
  get_by_name name [] = none
  get_by_name name ((k, c) ∷ d) =
      let rest = get_by_name name d in if c.name == name then some c else rest

-- The arguments of `update_health`.
pub record HealthReport (F : Type 0) : Type 0 where
  pub health : ClusterHealth
  pub total_gpus : ℕ
  pub free_gpus : ℕ
  pub gpu_models : Option (List String)
  pub avg_utilization : F

module _ {F : Type 0} where
  unfoldable pub reported : ℕ → HealthReport F → FederatedCluster F → FederatedCluster F
  reported now h c = record {
    id = c.id;
    name = c.name;
    endpoint = c.endpoint;
    environment = c.environment;
    health = h.health;
    role = c.role;
    total_gpus = h.total_gpus;
    free_gpus = h.free_gpus;
    gpu_models = elim h.gpu_models [ none ↦ c.gpu_models | some models ↦ models ];
    avg_utilization = h.avg_utilization;
    region = c.region;
    labels = c.labels;
    last_seen = now;
    created_at = c.created_at;
    options = c.options;
  }

  -- `update_health`
  unfoldable pub update_health :
      String → ℕ → HealthReport F → Registry F → Option (FederatedCluster F) × Registry F
  unfolding reported
  update_health cluster_id now h d = elim (lookup cluster_id d) [
    | none ↦ (none, d)
    | some c ↦ let c' = reported now h c in (some c', insert cluster_id c' d)
  ]

  unfoldable pub sum_gpus : (FederatedCluster F → ℕ) → List (FederatedCluster F) → ℕ
  sum_gpus gpus [] = 0
  sum_gpus gpus (c ∷ clusters) = gpus c + sum_gpus gpus clusters

pub record FederationState (F : Type 0) : Type 0 where
  pub clusters : List (FederatedCluster F)
  pub total_gpus_across_clusters : ℕ
  pub total_free_gpus : ℕ

module _ {F : Type 0} where
  -- `get_state`
  unfoldable pub get_state : Registry F → FederationState F
  unfolding sum_gpus
  get_state d = record {
    clusters = values d;
    total_gpus_across_clusters = sum_gpus (λ (c : FederatedCluster F). c.total_gpus) (values d);
    total_free_gpus = sum_gpus (λ (c : FederatedCluster F). c.free_gpus) (values d);
  }
