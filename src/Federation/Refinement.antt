-- ===== src/Federation/Refinement.antt =====
-- The registry refines a map by name.
use gpuopt.Base.{
  ℕ, String, none, some, List, [], ◌∷◌, ◌≡◌, refl, sym, ap, subst, ◌∙◌, ◌==◌, string_eq,
  if◌then◌else◌, Bool-cases, Option-cases, inl, inr, fun_ext, eq_iff,
}
use gpuopt.Base.Dict.{lookup, insert}
use gpuopt.Federation.{
  FederatedCluster, Registry, Registration, HealthReport, refreshed, new_cluster, register,
  unregister, get_by_name, update_health, reported,
}
use gpuopt.Federation.ByName.{
  RegistryOp, register_op, unregister_op, health_op, apply, ByName, apply_by_name, Named, Keeps,
  or_else,
}
use gpuopt.Federation.Changes.{
  get_by_name-erase, Named-erase, change_at-absent, get_by_name-change, Named-change,
  get_by_name-insert, Named-insert, or_else-none,
}
use gpuopt.Federation.Updates.{update_named-cases}

module _ {F : Type 0} where
  refreshed-Keeps : (now : ℕ) (a : Registration) → Keeps {F = F} (refreshed now a)
  unfolding refreshed
  refreshed-Keeps now a c = (refl, refl)

  reported-Keeps : (now : ℕ) (h : HealthReport F) → Keeps (reported now h)
  unfolding reported
  reported-Keeps now h c = (refl, refl)

-- The id of a registration is not in use.
abbrev pub Fresh : {F : Type 0} → RegistryOp F → Registry F → Type 0
Fresh (register_op fresh now a) d = lookup fresh d ≡ none
Fresh (unregister_op id) d = Unit
Fresh (health_op id now h) d = Unit

module _ {F : Type 0} (zero : F) where
  abbrev pub run : List (RegistryOp F) → Registry F → Registry F
  run [] d = d
  run (x ∷ ops) d = run ops (apply zero x d)

  abbrev pub run_by_name : List (RegistryOp F) → ByName F → ByName F
  run_by_name [] m = m
  run_by_name (x ∷ ops) m = run_by_name ops (apply_by_name zero x m)

  abbrev pub FreshIds : List (RegistryOp F) → Registry F → Type 0
  FreshIds [] d = Unit
  FreshIds (x ∷ ops) d = Fresh x d × FreshIds ops (apply zero x d)

  -- The registry is well formed, and seen by name it is what the abstract operation gives.
  abbrev pub Simulates : RegistryOp F → Registry F → Type 0
  Simulates x d =
      Named (apply zero x d)
      × ((j : String)
          → get_by_name j (apply zero x d) ≡ apply_by_name zero x (λ i. get_by_name i d) j)

  simulated :
      (x : RegistryOp F) (d d' : Registry F)
      → apply zero x d ≡ d'
      → Named d'
      → ((j : String) → get_by_name j d' ≡ apply_by_name zero x (λ i. get_by_name i d) j)
      → Simulates x d
  simulated x d d' is n view =
      subst
        (λ z.
          Named z
          × ((j : String) → get_by_name j z ≡ apply_by_name zero x (λ i. get_by_name i d) j))
        (sym is) (n, view)

  -- What a new cluster adds to the view by name.
  entered_new :
      (fresh : String) (now : ℕ) (a : Registration) (d : Registry F) (j : String)
      → get_by_name a.name d ≡ none
      → or_else (get_by_name j d) (
          if (new_cluster zero fresh now a).name == j
          then some (new_cluster zero fresh now a)
          else none)
        ≡ apply_by_name zero (register_op fresh now a) (λ i. get_by_name i d) j
  unfolding new_cluster
  entered_new fresh now a d j new = elim (Bool-cases (a.name == j)) [
    | inl named ↦
        let gone : get_by_name j d ≡ none =
          ap (λ x. get_by_name x d) (sym ((eq_iff a.name j).0 named)) ∙ new in
        rw (gone) (rw (named) (rw (new) refl))
    | inr other ↦ rw (other) (or_else-none (get_by_name j d))
  ]

  register-Simulates :
      (fresh : String) (now : ℕ) (a : Registration) (d : Registry F)
      → Named d
      → lookup fresh d ≡ none
      → Simulates (register_op fresh now a) d
  unfolding register
  register-Simulates fresh now a d n free =
      elim (update_named-cases a.name (refreshed now a) d (refreshed-Keeps now a) n) [
        | inl (nothing, new) ↦
            let c : FederatedCluster F = new_cluster zero fresh now a in
            simulated (register_op fresh now a) d (insert fresh c d)
              (rw (nothing, apply, register) refl) (Named-insert fresh c d refl free new n)
              (λ j. get_by_name-insert fresh j c d free ∙ entered_new fresh now a d j new)
        | inr (c, d', (is, found, view, absent, n')) ↦
            simulated (register_op fresh now a) d d' (rw (is, apply, register) refl) n'
              (λ j. view j ∙ rw (found) refl)
      ]

  apply-Simulates : (x : RegistryOp F) (d : Registry F) → Named d → Fresh x d → Simulates x d
  unfolding unregister update_health
  apply-Simulates (register_op fresh now a) d n free = register-Simulates fresh now a d n free
  apply-Simulates (unregister_op id) d n free =
      (Named-erase id d n, (λ j. get_by_name-erase id j d n))
  apply-Simulates (health_op id now h) d n free = elim (Option-cases (lookup id d)) [
    | inl gone ↦
        simulated (health_op id now h) d d (rw (gone, apply, update_health) refl) n
          ((λ j. sym (change_at-absent id j (reported now h) d n gone)))
    | inr (c, found) ↦
        simulated (health_op id now h) d (insert id (reported now h c) d)
          (rw (found, apply, update_health) refl)
          (Named-change id (reported now h) d c (reported-Keeps now h) n found)
          (λ j. get_by_name-change id j (reported now h) d c (reported-Keeps now h) n found)
  ]

  run-Simulates :
      (ops : List (RegistryOp F)) (d : Registry F)
      → Named d
      → FreshIds ops d
      → Named (run ops d)
        × ((j : String) → get_by_name j (run ops d) ≡ run_by_name ops (λ i. get_by_name i d) j)
  run-Simulates [] d n fresh = (n, (λ j. refl))
  run-Simulates (x ∷ ops) d n (free, later) =
      let (n', view) = apply-Simulates x d n free in
      let (n'', all) = run-Simulates ops (apply zero x d) n' later in
      (n'', (λ j. all j ∙ ap (λ (m : ByName F). run_by_name ops m j) (fun_ext view)))

  -- The registry, which stores clusters by id, refines a map with one cluster for each name: after
  -- any registrations, removals and health reports on an empty registry, where each registration
  -- brings an id that is not in use, what is found by a name is what the map holds, on which a
  -- registration enters or refreshes its name and the others act on the cluster with the id. No two
  -- clusters have the same name or id, and each is stored under its own id.
  pub registry_refines :
      (ops : List (RegistryOp F))
      → FreshIds ops []
      → Named (run ops [])
        × ((j : String) → get_by_name j (run ops []) ≡ run_by_name ops (λ i. none) j)
  unfolding get_by_name
  registry_refines ops fresh = run-Simulates ops [] tt fresh
