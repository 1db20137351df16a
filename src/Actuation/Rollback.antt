-- ===== src/Actuation/Rollback.antt =====
-- What a rollback does and does not do.
use gpuopt.Base.{
  ℕ, String, true, false, some, ◌≡◌, ◌≢◌, inl, inr, refl, sym, ap, subst, ◌∙◌, ◌==◌, string_eq,
  Bool-cases, Option-cases,
}
use gpuopt.Base.Dict.{lookup, insert, lookup-insert_same, lookup-insert_other}
use gpuopt.Actuation.{
  completed, status_eq, ActuationRecord, Repository, TwinState, StateJson, empty, not_json, state,
  get_actuation, of_cluster, save_twin, save_actuation,
}
use gpuopt.Actuation.Service.{
  ActuationError, raised, returned, actuation_not_found, no_twin, bad_state, not_completed,
  rollback, rollback_twin, rollback_record, mark_restored, restored_twin, nodes_of,
}
use gpuopt.Actuation.Effects.{TwinsKeyed}

-- What a rollback that returns has found.
abbrev pub Rollable :
    String → String → Repository → ActuationRecord → TwinState → StateJson → Type 0
Rollable cluster_id actuation_id r original twin text =
    (get_actuation cluster_id actuation_id r ≡ some original)
    × (original.status == completed ≡ true)
    × (lookup cluster_id r.twins ≡ some twin)
    × (mark_restored twin.state_json ≡ some text)

module _ (fresh : String) (now : ℕ) (cluster_id actuation_id : String) (r : Repository) where
  abbrev pub record_of : ActuationRecord → ActuationRecord
  record_of original =
      rollback_record fresh now cluster_id actuation_id (lookup cluster_id r.clusters) original

  abbrev pub after : ActuationRecord → TwinState → StateJson → Repository
  after original twin text =
      save_actuation (record_of original) (save_twin (restored_twin twin text) r)

  Rollable-returns :
      (original : ActuationRecord) (twin : TwinState) (text : StateJson)
      → Rollable cluster_id actuation_id r original twin text
      → rollback fresh now cluster_id actuation_id r
        ≡ returned (record_of original, after original twin text)
  unfolding rollback rollback_twin
  Rollable-returns original twin text (got, done, stored, json) =
      rw (got, rollback) (rw (done) (rw (stored) (rw (json, rollback_twin) refl)))

  clash :
      (e : ActuationError) (a : ActuationRecord) (r' : Repository)
      → rollback fresh now cluster_id actuation_id r ≡ raised e
      → ¬ rollback fresh now cluster_id actuation_id r ≡ returned (a, r')
  clash e a r' is h = cc

  same_answer :
      (original : ActuationRecord) (twin : TwinState) (text : StateJson) (a : ActuationRecord)
      (r' : Repository)
      → rollback fresh now cluster_id actuation_id r
        ≡ returned (record_of original, after original twin text)
      → rollback fresh now cluster_id actuation_id r ≡ returned (a, r')
      → (a ≡ record_of original) × (r' ≡ after original twin text)
  same_answer original twin text a r' is h = (cc, cc)

  returns-Rollable :
      (a : ActuationRecord) (r' : Repository)
      → rollback fresh now cluster_id actuation_id r ≡ returned (a, r')
      → (original : ActuationRecord) × (twin : TwinState) × (text : StateJson) × Rollable cluster_id
          actuation_id r original twin text
        × (a ≡ record_of original)
        × (r' ≡ after original twin text)
  unfolding rollback rollback_twin
  returns-Rollable a r' h = elim (Option-cases (get_actuation cluster_id actuation_id r)) [
    | inl gone ↦ absurd (clash actuation_not_found a r' (rw (gone, rollback) refl) h)
    | inr (original, got) ↦ elim (Bool-cases (original.status == completed)) [
      | inl done ↦ elim (Option-cases (lookup cluster_id r.twins)) [
        | inl gone ↦ absurd (clash no_twin a r' (rw (got, rollback) (rw (done) (rw (gone) refl))) h)
        | inr (twin, stored) ↦ elim (Option-cases (mark_restored twin.state_json)) [
          | inl bad ↦ absurd (
              clash bad_state a r'
                (rw (got, rollback) (rw (done) (rw (stored) (rw (bad, rollback_twin) refl)))) h)
          | inr (text, json) ↦
              let found : Rollable cluster_id actuation_id r original twin text =
                (got, done, stored, json) in
              let same =
                same_answer original twin text a r' (Rollable-returns original twin text found) h in
              (original, twin, text, found, same.0, same.1)
        ]
      ]
      | inr undone ↦ absurd (clash not_completed a r' (rw (got, rollback) (rw (undone) refl)) h)
    ]
  ]

mark_restored-again :
    (s text : StateJson)
    → mark_restored s ≡ some text
    → (mark_restored text ≡ some text) × (nodes_of text ≡ nodes_of s)
unfolding mark_restored nodes_of
mark_restored-again empty text h =
    let e : empty ≡ text = cc in
    subst (λ t. (mark_restored t ≡ some t) × (nodes_of t ≡ nodes_of empty)) e (refl, refl)
mark_restored-again not_json text h = absurd cc
mark_restored-again (state nodes d) text h =
    let e : state nodes (some false) ≡ text = cc in
    subst (λ t. (mark_restored t ≡ some t) × (nodes_of t ≡ some nodes)) e (refl, refl)

-- What a rollback that returns leaves, and that it can be repeated.
module _ (fresh : String) (now : ℕ) (cluster_id actuation_id : String) (r : Repository)
    (original : ActuationRecord) (twin : TwinState) (text : StateJson) where
  after-get_actuation :
      fresh ≢ actuation_id
      → get_actuation cluster_id actuation_id
          (after fresh now cluster_id actuation_id r original twin text)
        ≡ get_actuation cluster_id actuation_id r
  unfolding get_actuation save_actuation save_twin rollback_record
  after-get_actuation other =
      ap (of_cluster cluster_id)
        (lookup-insert_other fresh actuation_id _ r.actuations (λ e. other (sym e)))

  after-get_twin :
      twin.cluster_id ≡ cluster_id
      → lookup cluster_id (after fresh now cluster_id actuation_id r original twin text).twins
        ≡ some (restored_twin twin text)
  unfolding save_actuation save_twin restored_twin
  after-get_twin own =
      subst
        (λ c.
          lookup c (insert twin.cluster_id (restored_twin twin text) r.twins)
          ≡ some (restored_twin twin text))
        own (lookup-insert_same twin.cluster_id (restored_twin twin text) r.twins)

-- A rollback that returns marks the cluster's twin as not diverged and leaves its nodes as the
-- actuation made them, and the record of the actuation as it was: a second rollback of the same
-- actuation returns as well, and leaves a twin that is not diverged and still has the same nodes.
-- Twins are stored under their own clusters, and the new record of the first rollback has a new id.
pub rollback_restores_nothing :
    (fresh : String) (now : ℕ) (cluster_id actuation_id : String) (r : Repository)
    (a : ActuationRecord) (r' : Repository)
    → TwinsKeyed r
    → fresh ≢ actuation_id
    → rollback fresh now cluster_id actuation_id r ≡ returned (a, r')
    → (twin : TwinState) × (twin' : TwinState) × (lookup cluster_id r.twins ≡ some twin)
      × (lookup cluster_id r'.twins ≡ some twin')
      × (twin'.has_diverged ≡ false)
      × (nodes_of twin'.state_json ≡ nodes_of twin.state_json)
      × (get_actuation cluster_id actuation_id r' ≡ get_actuation cluster_id actuation_id r)
      × ((fresh' : String) (later : ℕ)
          → (b : ActuationRecord) × (r'' : Repository) × (twin'' : TwinState) × (rollback fresh'
                later cluster_id actuation_id r'
              ≡ returned (b, r''))
            × (lookup cluster_id r''.twins ≡ some twin'')
            × (twin''.has_diverged ≡ false)
            × (nodes_of twin''.state_json ≡ nodes_of twin.state_json))
unfolding restored_twin
rollback_restores_nothing fresh now cluster_id actuation_id r a r' keyed other h =
    let (original, twin, text, found, at, is) =
      returns-Rollable fresh now cluster_id actuation_id r a r' h in
    let own = keyed cluster_id twin (found.2) in
    let again = mark_restored-again twin.state_json text (found.3) in
    let got : get_actuation cluster_id actuation_id r' ≡ get_actuation cluster_id actuation_id r =
      ap (get_actuation cluster_id actuation_id) is
      ∙ after-get_actuation fresh now cluster_id actuation_id r original twin text other in
    let stored : lookup cluster_id r'.twins ≡ some (restored_twin twin text) =
      subst (λ z. lookup cluster_id z.twins ≡ some (restored_twin twin text)) (sym is)
        (after-get_twin fresh now cluster_id actuation_id r original twin text own) in
    (
      twin,
      restored_twin twin text,
      found.2,
      stored,
      refl,
      again.1,
      got,
      (λ fresh' later. (
        record_of fresh' later cluster_id actuation_id r' original,
        after fresh' later cluster_id actuation_id r' original (restored_twin twin text) text,
        restored_twin (restored_twin twin text) text,
        Rollable-returns fresh' later cluster_id actuation_id r' original (restored_twin twin text)
            text (got ∙ found.0, found.1, stored, again.0),
        after-get_twin fresh' later cluster_id actuation_id r' original (restored_twin twin text)
            text own,
        refl,
        again.1,
      )),
    )
