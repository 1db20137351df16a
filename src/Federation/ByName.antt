-- ===== src/Federation/ByName.antt =====
-- The registry, stored by id, seen as a map by name.
use gpuopt.Base.{
  ℕ, String, false, Option, none, some, [], ◌∷◌, ◌≡◌, sym, ◌==◌, string_eq, if◌then◌else◌,
  Bool-cases, inl, inr, eq_iff,
}
use gpuopt.Base.Dict.{lookup}
use gpuopt.Federation.{
  FederatedCluster, Registry, Registration, HealthReport, refreshed, new_cluster, register,
  unregister, get_by_name, update_health, reported,
}

-- What is asked of the registry, with the id and the time that the system gives.
pub data RegistryOp (F : Type 0) : Type 0 where
  register_op : String → ℕ → Registration → RegistryOp F
  unregister_op : String → RegistryOp F
  health_op : String → ℕ → HealthReport F → RegistryOp F

module _ {F : Type 0} (zero : F) where
  abbrev pub apply : RegistryOp F → Registry F → Registry F
  apply (register_op fresh now a) d = (register zero fresh now a d).1
  apply (unregister_op id) d = (unregister id d).1
  apply (health_op id now h) d = (update_health id now h d).1

-- Two names that the test parts, in either order.
pub apart : (a b : String) → a == b ≡ false → b == a ≡ false
apart a b h = elim (Bool-cases (b == a)) [
  | inl e ↦ let q = (eq_iff b a).0 e in let p = (eq_iff a b).1 (sym q) in absurd cc
  | inr e ↦ e
]

-- The abstract registry: at most one cluster for each name.
abbrev pub ByName : Type 0 → Type 0
ByName F = String → Option (FederatedCluster F)

module _ {F : Type 0} where
  abbrev pub forget : String → Option (FederatedCluster F) → Option (FederatedCluster F)
  forget id none = none
  forget id (some c) = if c.id == id then none else some c

  abbrev pub change_at :
      String
      → (FederatedCluster F → FederatedCluster F)
      → Option (FederatedCluster F)
      → Option (FederatedCluster F)
  change_at id f none = none
  change_at id f (some c) = some (if c.id == id then f c else c)

  abbrev pub entered :
      F → String → ℕ → Registration → Option (FederatedCluster F) → FederatedCluster F
  entered zero fresh now a none = new_cluster zero fresh now a
  entered zero fresh now a (some c) = refreshed now a c

  -- Registering enters or refreshes the one name; the others act on the cluster of the id.
  abbrev pub apply_by_name : F → RegistryOp F → ByName F → ByName F
  apply_by_name zero (register_op fresh now a) m j =
      if a.name == j then some (entered zero fresh now a (m a.name)) else m j
  apply_by_name zero (unregister_op id) m j = forget id (m j)
  apply_by_name zero (health_op id now h) m j = change_at id (reported now h) (m j)

  -- Each cluster stands under its id, and no later row has its id or its name.
  abbrev pub Named : Registry F → Type 0
  Named [] = Unit
  Named ((k, c) ∷ d) = (c.id ≡ k) × (get_by_name c.name d ≡ none) × (lookup k d ≡ none) × Named d

  -- A function that keeps the name and the id.
  abbrev pub Keeps : (FederatedCluster F → FederatedCluster F) → Type 0
  Keeps f = (c : FederatedCluster F) → ((f c).name ≡ c.name) × ((f c).id ≡ c.id)

  abbrev pub or_else :
      Option (FederatedCluster F) → Option (FederatedCluster F) → Option (FederatedCluster F)
  or_else none o = o
  or_else (some c) o = some c
