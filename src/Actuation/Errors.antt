-- ===== src/Actuation/Errors.antt =====
-- When `actuate` and `rollback` raise, and what.
use gpuopt.Base.{
  ℕ, String, Bool, none, some, List, [], ◌∷◌, All, ◌≡◌, ◌≢◌, ◌↔◌, ◌⊎◌, inl, inr, refl, subst, ◌∙◌,
  ◌==◌, string_eq, Bool-cases, Option-cases, eq_iff,
}
use gpuopt.Base.Dict.{lookup}
use gpuopt.Actuation.{Recommendation, ClusterRecord, Repository, ActuationRecord}
use gpuopt.Actuation.Service.{
  ActuationError, cluster_not_found, no_recommendations, recommendation_not_found,
  actuation_not_found, not_completed, no_twin, bad_state, Outcome, raised, returned, actuate,
  actuate_rec, find_rec, run_actuation,
}

-- No recommendation of the set has the id.
abbrev pub Lacks : String → List Recommendation → Type 0
Lacks rec_id recs = All (λ (r : Recommendation). r.id ≢ rec_id) recs

find_rec-Lacks :
    (rec_id : String) (recs : List Recommendation)
    → (find_rec rec_id recs ≡ none) ↔ Lacks rec_id recs
unfolding find_rec
find_rec-Lacks rec_id [] = ((λ h. tt), (λ h. refl))
find_rec-Lacks rec_id (r ∷ recs) =
    let ih = find_rec-Lacks rec_id recs in
    elim (Bool-cases (r.id == rec_id)) [
      | inl e ↦ rw (e) ((λ h. absurd cc), (λ h. absurd (h.0 ((eq_iff r.id rec_id).0 e))))
      | inr e ↦
          rw (e)
            ((λ h. ((λ q. let b = (eq_iff r.id rec_id).1 q in absurd cc), ih.0 h)), (λ h. ih.1 h.1))
    ]

-- The reason of each error of `actuate`, in the tables it reads.
abbrev pub Refused : ActuationError → String → String → Repository → Type 0
Refused cluster_not_found cluster_id rec_id r = lookup cluster_id r.clusters ≡ none
Refused no_recommendations cluster_id rec_id r =
    (lookup cluster_id r.clusters ≢ none) × (lookup cluster_id r.recommendations ≡ none)
Refused recommendation_not_found cluster_id rec_id r =
    (lookup cluster_id r.clusters ≢ none)
    × ((recs : List Recommendation) × (lookup cluster_id r.recommendations ≡ some recs)
        × Lacks rec_id recs)
Refused actuation_not_found cluster_id rec_id r = ⊥
Refused not_completed cluster_id rec_id r = ⊥
Refused no_twin cluster_id rec_id r = ⊥
Refused bad_state cluster_id rec_id r = ⊥

module _ (fresh : String) (now : ℕ) (cluster_id rec_id : String) (dry_run : Bool)
    (r : Repository) where
  abbrev pub answer : Outcome (ActuationRecord × Repository)
  answer = actuate fresh now cluster_id rec_id dry_run r

  no_cluster : lookup cluster_id r.clusters ≡ none → answer ≡ raised cluster_not_found
  unfolding actuate
  no_cluster missing = rw (missing, actuate) refl

  no_set :
      (c : ClusterRecord)
      → lookup cluster_id r.clusters ≡ some c
      → lookup cluster_id r.recommendations ≡ none
      → answer ≡ raised no_recommendations
  unfolding actuate
  no_set c found missing = rw (found, actuate) (rw (missing) refl)

  by_rec :
      (c : ClusterRecord) (recs : List Recommendation)
      → lookup cluster_id r.clusters ≡ some c
      → lookup cluster_id r.recommendations ≡ some recs
      → answer ≡ actuate_rec fresh now dry_run cluster_id c r (find_rec rec_id recs)
  unfolding actuate
  by_rec c recs found set = rw (found, actuate) (rw (set) refl)

  no_rec :
      (c : ClusterRecord) (recs : List Recommendation)
      → lookup cluster_id r.clusters ≡ some c
      → lookup cluster_id r.recommendations ≡ some recs
      → find_rec rec_id recs ≡ none
      → answer ≡ raised recommendation_not_found
  unfolding actuate_rec
  no_rec c recs found set missing = by_rec c recs found set ∙ rw (missing) refl

  ran :
      (c : ClusterRecord) (recs : List Recommendation) (rec : Recommendation)
      → lookup cluster_id r.clusters ≡ some c
      → lookup cluster_id r.recommendations ≡ some recs
      → find_rec rec_id recs ≡ some rec
      → answer ≡ returned (run_actuation fresh now dry_run cluster_id c rec r)
  unfolding actuate_rec
  ran c recs rec found set hit = by_rec c recs found set ∙ rw (hit) refl

  same_error :
      (d e : ActuationError)
      → answer ≡ raised d
      → Refused d cluster_id rec_id r
      → answer ≡ raised e
      → Refused e cluster_id rec_id r
  same_error d e is why h = let q : d ≡ e = cc in subst (λ x. Refused x cluster_id rec_id r) q why

  -- An answer that is one of the cases of the guards.
  pub actuate-cases :
      ((d : ActuationError) × (answer ≡ raised d) × Refused d cluster_id rec_id r)
      ⊎ ((c : ClusterRecord) × (rec : Recommendation) × (answer
            ≡ returned (run_actuation fresh now dry_run cluster_id c rec r)))
  actuate-cases = elim (Option-cases (lookup cluster_id r.clusters)) [
    | inl missing ↦ inl (cluster_not_found, no_cluster missing, missing)
    | inr (c, found) ↦
        let there : lookup cluster_id r.clusters ≢ none = λ gone. cc in
        elim (Option-cases (lookup cluster_id r.recommendations)) [
          | inl missing ↦ inl (no_recommendations, no_set c found missing, (there, missing))
          | inr (recs, set) ↦ elim (Option-cases (find_rec rec_id recs)) [
            | inl missing ↦ inl (
              recommendation_not_found,
              no_rec c recs found set missing,
              (there, (recs, set, (find_rec-Lacks rec_id recs).0 missing)),
            )
            | inr (rec, hit) ↦ inr (c, rec, ran c recs rec found set hit)
          ]
        ]
  ]

  Refused-raises : (e : ActuationError) → Refused e cluster_id rec_id r → answer ≡ raised e
  Refused-raises cluster_not_found h = no_cluster h
  Refused-raises no_recommendations (there, missing) =
      elim (Option-cases (lookup cluster_id r.clusters)) [
        | inl gone ↦ absurd (there gone)
        | inr (c, found) ↦ no_set c found missing
      ]
  Refused-raises recommendation_not_found (there, (recs, set, lacks)) =
      elim (Option-cases (lookup cluster_id r.clusters)) [
        | inl gone ↦ absurd (there gone)
        | inr (c, found) ↦ no_rec c recs found set ((find_rec-Lacks rec_id recs).1 lacks)
      ]
  Refused-raises actuation_not_found h = absurd h
  Refused-raises not_completed h = absurd h
  Refused-raises no_twin h = absurd h
  Refused-raises bad_state h = absurd h

  -- An actuation raises an error exactly for its reason: the cluster is unknown, or it is known and
  -- has no set of recommendations, or none of the set has the id. It raises no other error, and so
  -- it returns a record whenever none of the three holds.
  pub actuate_raises :
      ((e : ActuationError) → (answer ≡ raised e) ↔ Refused e cluster_id rec_id r)
      × (((e : ActuationError) → ¬ Refused e cluster_id rec_id r)
          → (a : ActuationRecord) × (r' : Repository) × (answer ≡ returned (a, r')))
  actuate_raises = (
    (λ e. (
      (λ h. elim actuate-cases [
        | inl (d, is, why) ↦ same_error d e is why h
        | inr (c, rec, is) ↦ absurd cc
      ]),
      Refused-raises e,
    )),
    (λ none_holds. elim actuate-cases [
      | inl (d, is, why) ↦ absurd (none_holds d why)
      | inr (c, rec, is) ↦
          let out = run_actuation fresh now dry_run cluster_id c rec r in (out.0, out.1, is)
    ]),
  )
