-- ===== src/Governance/Registry/Runs.antt =====
-- The registries that a run of the registry's operations reaches.
use gpuopt.Base.{ℕ, ◌≡◌, none, string_eq}
use gpuopt.Base.Dict.{lookup}
use gpuopt.Governance.Models.{Uuid, ModelActionClass, action_class_eq, ModelStatus, ModelVersion}
use gpuopt.Governance.Registry.{
  ModelRegistry, empty_registry, register, update_status, delete, promote_challenger,
}
use gpuopt.Governance.Registry.Laws.{
  IsSound, register-IsSound, update_status-IsSound, delete-IsSound, promote_challenger-IsSound,
}

-- One operation; a new version has a new id.
pub data Step : ModelRegistry → ModelRegistry → Type 0 where
  registers :
      (v : ModelVersion) (r : ModelRegistry) → lookup v.id r.versions ≡ none → Step r (register v r)
  updates :
      (vid : Uuid) (s : ModelStatus) (now : ℕ) (r : ModelRegistry)
      → Step r (update_status vid s now r).1
  deletes : (vid : Uuid) (r : ModelRegistry) → Step r (delete vid r).1
  promotes :
      (c : ModelActionClass) (now : ℕ) (r : ModelRegistry) → Step r (promote_challenger c now r).1

pub data Reachable : ModelRegistry → Type 0 where
  start : Reachable empty_registry
  step : {r s : ModelRegistry} → Reachable r → Step r s → Reachable s

empty-IsSound : IsSound empty_registry
empty-IsSound = record {
  keyed = λ k v e. absurd cc;
  champions = λ c k e. absurd cc;
  challengers = λ c k e. absurd cc;
}

Step-IsSound : {r s : ModelRegistry} → Step r s → IsSound r → IsSound s
Step-IsSound (registers v r fresh) h = register-IsSound v r fresh h
Step-IsSound (updates vid s now r) h = update_status-IsSound vid s now r h
Step-IsSound (deletes vid r) h = delete-IsSound vid r h
Step-IsSound (promotes c now r) h = promote_challenger-IsSound c now r h

-- Every registry that registrations of new versions, status updates, deletions and promotions
-- reach is sound: versions stand under their ids, and every champion and challenger named is a
-- stored version of the class that names it.
pub Reachable-IsSound : {r : ModelRegistry} → Reachable r → IsSound r
Reachable-IsSound start = empty-IsSound
Reachable-IsSound (step run last) = Step-IsSound last (Reachable-IsSound run)
