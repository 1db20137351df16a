-- ===== src/Actuation/Effects.antt =====
-- What a run of an actuation leaves in the tables.
use gpuopt.Base.{
  ℕ, String, Bool, true, false, Option, none, some, List, [], ◌∷◌, ◌≡◌, ◌≢◌, ◌⊎◌, inl, inr, refl,
  sym, subst, ◌∙◌, bind-some, string_eq, Option-cases,
}
use gpuopt.Base.Dict.{lookup, insert, lookup-insert_same, lookup-insert_other, Rows, Rows-insert}
use gpuopt.Actuation.{
  ActuationStatus, completed, failed, ActuationAction, Recommendation, ClusterRecord, Repository,
  ActuationRecord, TwinState, save_twin, save_actuation,
}
use gpuopt.Actuation.Twin.{Applied, add_nodes, apply_rec_to_twin, build_twin_from_state}
use gpuopt.Actuation.Service.{
  returned, actuate, run_actuation, started, finish, settle, carry_out, change_twin, diverged_twin,
  twin_of, nodes_of,
}
use gpuopt.Actuation.Errors.{actuate-cases}

-- The record is stored under its id, and no other record changes, nor do the other two tables.
abbrev pub Recorded : String → ActuationRecord → Repository → Repository → Type 0
Recorded fresh a r r' =
    (lookup fresh r'.actuations ≡ some a)
    × ((id : String) → id ≢ fresh → lookup id r'.actuations ≡ lookup id r.actuations)
    × (r'.clusters ≡ r.clusters)
    × (r'.recommendations ≡ r.recommendations)

-- The twin of the cluster is changed, and no other.
abbrev pub Diverged : String → Repository → Repository → Type 0
Diverged cluster_id r r' =
    ((twin : TwinState) × (lookup cluster_id r'.twins ≡ some twin) × (twin.has_diverged ≡ true))
    × ((other : String) → other ≢ cluster_id → lookup other r'.twins ≡ lookup other r.twins)

-- How a run ends: on a dry run the record is completed and no twin changes, otherwise it is
-- completed with the twin changed, or failed with no twin changed.
abbrev pub Ended : Bool → String → ActuationRecord → Repository → Repository → Type 0
Ended true cluster_id a r r' = (a.status ≡ completed) × (r'.twins ≡ r.twins)
Ended false cluster_id a r r' =
    ((a.status ≡ completed) × Diverged cluster_id r r')
    ⊎ ((a.status ≡ failed) × (r'.twins ≡ r.twins))

-- Every stored twin stands under its own cluster.
abbrev pub TwinsKeyed : Repository → Type 0
TwinsKeyed r = Rows (λ k (twin : TwinState). twin.cluster_id ≡ k) r.twins

finish-Recorded :
    (now : ℕ) (status : ActuationStatus) (actions : List ActuationAction) (a : ActuationRecord)
    (r : Repository)
    → let (done, r') = finish now status actions a r in
      Recorded a.id done r r' × (done.status ≡ status) × (r'.twins ≡ r.twins)
unfolding finish save_actuation
finish-Recorded now status actions a r = (
  (
    lookup-insert_same a.id _ r.actuations,
    (λ id other. lookup-insert_other a.id id _ r.actuations other),
    refl,
    refl,
  ),
  refl,
  refl,
)

abbrev pub Effect : Bool → String → String → Repository → ActuationRecord → Repository → Type 0
Effect dry_run fresh cluster_id r a r' =
    Recorded fresh a r r' × Ended dry_run cluster_id a r r' × TwinsKeyed r'

save_twin-Diverged :
    (cluster_id : String) (twin : TwinState) (r : Repository)
    → twin.cluster_id ≡ cluster_id
    → twin.has_diverged ≡ true
    → Diverged cluster_id r (save_twin twin r)
unfolding save_twin
save_twin-Diverged cluster_id twin r own new =
    subst
      (λ c.
        ((t : TwinState) × (lookup c (insert twin.cluster_id twin r.twins) ≡ some t)
          × (t.has_diverged ≡ true))
        × ((other : String)
            → other ≢ c
            → lookup other (insert twin.cluster_id twin r.twins) ≡ lookup other r.twins))
      own
      (
        (twin, lookup-insert_same twin.cluster_id twin r.twins, new),
        (λ other apart. lookup-insert_other twin.cluster_id other twin r.twins apart),
      )

settle-Effect :
    (now : ℕ) (cluster_id : String) (a : ActuationRecord) (r : Repository)
    (o : Option (Applied × TwinState))
    → TwinsKeyed r
    → ((p : Applied) (t : TwinState)
        → o ≡ some (p, t)
        → (t.cluster_id ≡ cluster_id) × (t.has_diverged ≡ true))
    → let (done, r') = settle now a r o in Effect false a.id cluster_id r done r'
unfolding settle save_twin finish save_actuation
settle-Effect now cluster_id a r none keyed shape =
    let f = finish-Recorded now failed [] a r in (f.0, inr (refl, refl), keyed)
settle-Effect now cluster_id a r (some (applied, twin)) keyed shape =
    let own = shape applied twin refl in
    let f =
      finish-Recorded now completed
        (record {
          action_type = applied.type;
          target = applied.target;
          value = applied.value;
          status = "success";
        }
          ∷ [])
        a (save_twin twin r) in
    (
      f.0,
      inl (refl, save_twin-Diverged cluster_id twin r (own.0) (own.1)),
      Rows-insert (λ k (t : TwinState). t.cluster_id ≡ k) twin.cluster_id twin r.twins refl keyed,
    )

-- A changed twin is the cluster's own and has diverged.
change_twin-own :
    (rec : Recommendation) (twin : TwinState) (p : Applied) (t : TwinState)
    → change_twin rec twin ≡ some (p, t)
    → (t.cluster_id ≡ twin.cluster_id) × (t.has_diverged ≡ true)
unfolding change_twin diverged_twin
change_twin-own rec twin p t h =
    let (nodes, e, h1) = bind-some (nodes_of twin.state_json) _ (p, t) h in
    let (node_map, e', h2) = bind-some (add_nodes [] nodes) _ (p, t) h1 in
    let (result, e'', h3) = bind-some (apply_rec_to_twin rec node_map) _ (p, t) h2 in
    let same : diverged_twin twin result ≡ (p, t) = cc in
    subst
      (λ (z : Applied × TwinState). (z.1.cluster_id ≡ twin.cluster_id) × (z.1.has_diverged ≡ true))
      same (refl, refl)

carry_out-Effect :
    (now : ℕ) (cluster_id : String) (rec : Recommendation) (a : ActuationRecord) (r : Repository)
    (o : Option TwinState)
    → TwinsKeyed r
    → ((t : TwinState) → o ≡ some t → t.cluster_id ≡ cluster_id)
    → let (done, r') = carry_out now rec a r o in Effect false a.id cluster_id r done r'
unfolding carry_out
carry_out-Effect now cluster_id rec a r none keyed own =
    let f =
      finish-Recorded now failed
        (record {
          action_type = "state_check";
          target = "cluster";
          value = "no_state";
          status = "failed";
        }
          ∷ [])
        a r in
    (f.0, inr (refl, refl), keyed)
carry_out-Effect now cluster_id rec a r (some twin) keyed own =
    settle-Effect now cluster_id a r (change_twin rec twin) keyed
      (λ p t e. let c = change_twin-own rec twin p t e in (c.0 ∙ own twin refl, c.1))

some-own :
    (cluster_id : String) (s t : TwinState)
    → s.cluster_id ≡ cluster_id
    → some s ≡ some t
    → t.cluster_id ≡ cluster_id
some-own cluster_id s t own h = let e : s ≡ t = cc in subst (λ x. x.cluster_id ≡ cluster_id) e own

twin_of-own :
    (cluster_id : String) (c : ClusterRecord) (r : Repository) (t : TwinState)
    → TwinsKeyed r
    → twin_of cluster_id c r ≡ some t
    → t.cluster_id ≡ cluster_id
unfolding twin_of build_twin_from_state
twin_of-own cluster_id c r t keyed h = elim (Option-cases (lookup cluster_id r.twins)) [
  | inl missing ↦
      let built : build_twin_from_state cluster_id c.name c.environment ≡ some t =
        sym (rw (missing, twin_of) refl) ∙ h in
      some-own cluster_id _ t refl built
  | inr (twin, found) ↦
      let kept : some twin ≡ some t = sym (rw (found, twin_of) refl) ∙ h in
      some-own cluster_id twin t (keyed cluster_id twin found) kept
]

run_actuation-Effect :
    (fresh : String) (now : ℕ) (dry_run : Bool) (cluster_id : String) (c : ClusterRecord)
    (rec : Recommendation) (r : Repository)
    → TwinsKeyed r
    → let (a, r') = run_actuation fresh now dry_run cluster_id c rec r in
      Effect dry_run fresh cluster_id r a r'
unfolding run_actuation started
run_actuation-Effect fresh now true cluster_id c rec r keyed =
    let f =
      finish-Recorded now completed
        (record {
          action_type = "dry_run";
          target = "cluster";
          value = "simulated";
          status = "success";
        }
          ∷ [])
        (started fresh now true cluster_id c rec) r in
    (f.0, (refl, refl), keyed)
run_actuation-Effect fresh now false cluster_id c rec r keyed =
    carry_out-Effect now cluster_id rec (started fresh now false cluster_id c rec) r
      (twin_of cluster_id c r) keyed (λ t e. twin_of-own cluster_id c r t keyed e)

-- An actuation that returns has stored its record under the fresh id and changed no other record,
-- no cluster and no recommendation. A dry run is completed and changes no twin; otherwise the record
-- is completed and the cluster's twin, no other, is stored as diverged, or the record is failed and
-- no twin changes. Twins stay stored under their own clusters, as they were before.
pub actuate-Effect :
    (fresh : String) (now : ℕ) (cluster_id rec_id : String) (dry_run : Bool) (r : Repository)
    (a : ActuationRecord) (r' : Repository)
    → TwinsKeyed r
    → actuate fresh now cluster_id rec_id dry_run r ≡ returned (a, r')
    → Effect dry_run fresh cluster_id r a r'
actuate-Effect fresh now cluster_id rec_id dry_run r a r' keyed h =
    elim (actuate-cases fresh now cluster_id rec_id dry_run r) [
      | inl (d, is, why) ↦ absurd cc
      | inr (c, rec, is) ↦
          let same : run_actuation fresh now dry_run cluster_id c rec r ≡ (a, r') = cc in
          subst (λ (z : ActuationRecord × Repository). Effect dry_run fresh cluster_id r z.0 z.1)
            same (run_actuation-Effect fresh now dry_run cluster_id c rec r keyed)
    ]
