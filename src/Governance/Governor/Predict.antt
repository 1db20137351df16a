-- ===== src/Governance/Governor/Predict.antt =====
-- What `ModelGovernor.predict` answers and records.
use gpuopt.Base.{
  ℕ, ◌+◌, true, false, ◌&&◌, ◌||◌, not, ◌≡◌, ◌≢◌, ◌↔◌, ◌⊎◌, refl, sym, ap, ◌∙◌, subst, Option, none,
  some, List, ◌==◌, string_eq, if◌then◌else◌, arith, Bool-cases, Option-cases, inl, inr, beq_refl,
}
use gpuopt.Base.Dict.{Dict, lookup, insert, erase, has_key, lookup-insert, lookup-erase}
use gpuopt.Governance.Models.{
  Uuid, ModelActionClass, action_class_eq, ModelVersion, FallbackConfig, GovernanceConfig,
}
use gpuopt.Governance.Registry.{ModelRegistry, get_champion, record_prediction, set_fallback}
use gpuopt.Governance.Registry.Laws.{IsSound}
use gpuopt.Governance.Registry.Promotion.{champion_at}
use gpuopt.Governance.Fallback.{
  Starts, should_fallback, activate_fallback, deactivate_fallback, is_fallback_active,
  check_recovery, set_default,
}
use gpuopt.Governance.Governor.{Governor, fallback, model, predict_fit, predict}
use gpuopt.Governance.Governor.Laws.{IsFit, should_fallback_iff}

-- A champion of class `c` that is not to fall back recovers the class at once.
recovers :
    (config : FallbackConfig) (c : ModelActionClass) (v : ModelVersion) (confidence : ℕ)
    (drift_scores : List ℕ) (now : ℕ) (r : ModelRegistry) (starts : Starts)
    → get_champion c r ≡ some v
    → v.action_class ≡ c
    → (should_fallback config v confidence drift_scores now starts).0 ≡ false
    → check_recovery config v confidence drift_scores now (r, starts)
      ≡ (true, deactivate_fallback c (r, starts))
unfolding check_recovery
recovers config c v confidence drift_scores now r starts e class fit =
    let at : get_champion v.action_class r ≡ some v =
      subst (λ z. get_champion z r ≡ some v) (sym class) e in
    rw (at, check_recovery) (rw (fit) (ap (λ z. (true, deactivate_fallback z (r, starts))) class))

-- The state after a prediction that the model answers.
answered : ModelActionClass → Uuid → ℕ → Governor → Governor
answered c vid confidence g =
    if is_fallback_active c g.starts
    then record g {
      registry = record_prediction vid confidence (deactivate_fallback c (g.registry, g.starts)).0;
      starts = (deactivate_fallback c (g.registry, g.starts)).1;
    }
    else record g { registry = record_prediction vid confidence g.registry }

predict-fit :
    (config : GovernanceConfig) (c : ModelActionClass) (confidence : ℕ) (drift_scores : List ℕ)
    (now : ℕ) (g : Governor) (v : ModelVersion)
    → IsSound g.registry
    → get_champion c g.registry ≡ some v
    → (should_fallback config.fallback v confidence drift_scores now g.starts).0 ≡ false
    → predict config c confidence drift_scores now g
      ≡ (model v.id confidence, answered c v.id confidence g)
unfolding predict predict_fit answered
predict-fit config c confidence drift_scores now g v h e fit =
    let (a, b, class) = champion_at c g.registry v h e in
    rw (e, predict)
      (rw (fit) (
        rw
          (recovers config.fallback c v confidence drift_scores now g.registry g.starts e class fit)
          (elim (Bool-cases (is_fallback_active c g.starts)) [
            | inl on ↦ rw (on) refl
            | inr off ↦ rw (off) refl
          ])))

predict-unfit :
    (config : GovernanceConfig) (c : ModelActionClass) (confidence : ℕ) (drift_scores : List ℕ)
    (now : ℕ) (g : Governor) (v : ModelVersion)
    → get_champion c g.registry ≡ some v
    → (should_fallback config.fallback v confidence drift_scores now g.starts).0 ≡ true
    → predict config c confidence drift_scores now g ≡ (
      fallback (should_fallback config.fallback v confidence drift_scores now g.starts).1,
      record g { registry = set_fallback c true g.registry; starts = set_default c now g.starts },
    )
unfolding predict activate_fallback
predict-unfit config c confidence drift_scores now g v e unfit = rw (e, predict) (rw (unfit) refl)

-- In a sound registry a class with a champion is answered by that champion exactly when the
-- fallback is switched off or the champion is fit: enough confidence, no drift above the limit, no
-- stale training data.
pub predict_model_iff :
    (config : GovernanceConfig) (c : ModelActionClass) (confidence : ℕ) (drift_scores : List ℕ)
    (now : ℕ) (g : Governor) (v : ModelVersion)
    → IsSound g.registry
    → get_champion c g.registry ≡ some v
    → ((predict config c confidence drift_scores now g).0 ≡ model v.id confidence)
      ↔ ((config.fallback.enabled ≡ true) → IsFit config.fallback v confidence drift_scores now)
predict_model_iff config c confidence drift_scores now g v h e =
    let fit = should_fallback_iff config.fallback v confidence drift_scores now g.starts in
    elim (Bool-cases (should_fallback config.fallback v confidence drift_scores now g.starts).0) [
      | inl unfit ↦
          rw (predict-unfit config c confidence drift_scores now g v e unfit)
            ((λ h. absurd cc), (λ ok. let f = fit.1 ok in absurd cc))
      | inr ok ↦
          rw (predict-fit config c confidence drift_scores now g v h e ok)
            ((λ h. fit.0 ok), (λ h. refl))
    ]

-- `d.get(k, 0)`
abbrev pub or_zero : Option ℕ → ℕ
or_zero none = 0
or_zero (some n) = n

abbrev pub counted : Uuid → ModelRegistry → ℕ
counted vid r = or_zero (lookup vid r.prediction_counts)

lookup-insert_same : (vid : Uuid) (n : ℕ) (d : Dict Uuid ℕ) → lookup vid (insert vid n d) ≡ some n
lookup-insert_same vid n d = rw (lookup-insert vid vid n d) (rw (beq_refl vid) refl)

counted-record_prediction :
    (vid : Uuid) (confidence : ℕ) (r : ModelRegistry)
    → counted vid (record_prediction vid confidence r) ≡ counted vid r + 1
unfolding record_prediction
counted-record_prediction vid confidence r = elim (Option-cases (lookup vid r.prediction_counts)) [
  | inl e ↦ rw (e) (ap or_zero (lookup-insert_same vid 1 r.prediction_counts))
  | inr (n, e) ↦ rw (e) (ap or_zero (lookup-insert_same vid (n + 1) r.prediction_counts))
]

has_key-erase : (c : ModelActionClass) (starts : Starts) → has_key c (erase c starts) ≡ false
has_key-erase c starts = rw (lookup-erase c c starts) (rw (beq_refl c) refl)

has_key-set_default :
    (c : ModelActionClass) (now : ℕ) (starts : Starts) → has_key c (set_default c now starts) ≡ true
has_key-set_default c now starts = elim (Bool-cases (has_key c starts)) [
  | inl on ↦ rw (on) on
  | inr off ↦ rw (off) (rw (lookup-insert c c now starts) (rw (beq_refl c) refl))
]

-- A prediction of the champion is counted once and ends the class's fallback; a fallback is not
-- counted, and the class is in fallback from then on.
pub predict_records :
    (config : GovernanceConfig) (c : ModelActionClass) (confidence : ℕ) (drift_scores : List ℕ)
    (now : ℕ) (g : Governor) (v : ModelVersion)
    → IsSound g.registry
    → get_champion c g.registry ≡ some v
    → (((predict config c confidence drift_scores now g).0 ≡ model v.id confidence)
        × (counted v.id (predict config c confidence drift_scores now g).1.registry
            ≡ counted v.id g.registry + 1)
        × (is_fallback_active c (predict config c confidence drift_scores now g).1.starts ≡ false))
      ⊎ (((predict config c confidence drift_scores now g).0 ≢ model v.id confidence)
          × ((predict config c confidence drift_scores now g).1.registry.prediction_counts
              ≡ g.registry.prediction_counts)
          × (is_fallback_active c (predict config c confidence drift_scores now g).1.starts ≡ true))
unfolding is_fallback_active answered deactivate_fallback set_fallback
predict_records config c confidence drift_scores now g v h e =
    elim (Bool-cases (should_fallback config.fallback v confidence drift_scores now g.starts).0) [
      | inl unfit ↦
          rw (predict-unfit config c confidence drift_scores now g v e unfit)
            (inr ((λ f. cc), refl, has_key-set_default c now g.starts))
      | inr fit ↦
          rw (predict-fit config c confidence drift_scores now g v h e fit)
            (elim (Bool-cases (is_fallback_active c g.starts)) [
              | inl on ↦
                  rw (on, is_fallback_active)
                    (inl
                      (refl, counted-record_prediction v.id confidence _, has_key-erase c g.starts))
              | inr off ↦
                  rw (off, is_fallback_active)
                    (inl (refl, counted-record_prediction v.id confidence g.registry, off))
            ])
    ]

-- The registry's set of classes in fallback and the engine's start times name the same classes.
abbrev pub Agrees : Governor → Type 0
Agrees g = (c : ModelActionClass) → has_key c g.registry.fallback_active ≡ has_key c g.starts

has_key-insert-erase :
    {V : Type 0} (c k : ModelActionClass) (v : V) (d : Dict ModelActionClass V)
    → (has_key k (insert c v d) ≡ (c == k || has_key k d))
      × (has_key k (erase c d) ≡ (not (c == k) && has_key k d))
has_key-insert-erase c k v d =
    ((rw (lookup-insert c k v d) (ground arith)), (rw (lookup-erase c k d) (ground arith)))

set_default-keys :
    (c k : ModelActionClass) (now : ℕ) (starts : Starts)
    → has_key k (set_default c now starts) ≡ (c == k || has_key k starts)
set_default-keys c k now starts = elim (Bool-cases (has_key c starts)) [
  | inl on ↦ rw (on) (elim (Bool-cases (c == k)) [
    | inl same ↦
        rw (same) (subst (λ z. has_key z starts ≡ true) ((action_class_eq.beq_iff c k).0 same) on)
    | inr other ↦ rw (other) refl
  ])
  | inr off ↦ rw (off) (has_key-insert-erase c k now starts).0
]

has_key-flags :
    (c k : ModelActionClass) (r : ModelRegistry)
    → (has_key k (set_fallback c true r).fallback_active ≡ (c == k || has_key k r.fallback_active))
      × (has_key k (set_fallback c false r).fallback_active
          ≡ (not (c == k) && has_key k r.fallback_active))
unfolding set_fallback
has_key-flags c k r = (
  (has_key-insert-erase c k tt r.fallback_active).0,
  (has_key-insert-erase c k tt r.fallback_active).1,
)

-- In a sound registry a prediction keeps the two records of the classes in fallback in agreement.
pub predict-Agrees :
    (config : GovernanceConfig) (c : ModelActionClass) (confidence : ℕ) (drift_scores : List ℕ)
    (now : ℕ) (g : Governor)
    → IsSound g.registry
    → Agrees g
    → Agrees (predict config c confidence drift_scores now g).1
unfolding predict answered deactivate_fallback record_prediction
predict-Agrees config c confidence drift_scores now g h agrees =
    elim (Option-cases (get_champion c g.registry)) [
      | inl e ↦ rw (e, predict) agrees
      | inr (v, e) ↦
          elim (Bool-cases
            (should_fallback config.fallback v confidence drift_scores now g.starts).0) [
              | inl unfit ↦
                  rw (predict-unfit config c confidence drift_scores now g v e unfit)
                    (λ k. fallen k)
              | inr fit ↦
                  rw (predict-fit config c confidence drift_scores now g v h e fit) (λ k. kept v k)
            ]
    ]
  where
    fallen :
        (k : ModelActionClass)
        → has_key k (set_fallback c true g.registry).fallback_active
          ≡ has_key k (set_default c now g.starts)
    fallen k =
        (has_key-flags c k g.registry).0
        ∙ ap (λ b. c == k || b) (agrees k)
        ∙ sym (set_default-keys c k now g.starts)

    cleared :
        (k : ModelActionClass)
        → has_key k (set_fallback c false g.registry).fallback_active ≡ has_key k (erase c g.starts)
    cleared k =
        (has_key-flags c k g.registry).1
        ∙ ap (λ b. not (c == k) && b) (agrees k)
        ∙ sym (has_key-insert-erase c k now g.starts).1

    kept :
        (v : ModelVersion) (k : ModelActionClass)
        → has_key k (answered c v.id confidence g).registry.fallback_active
          ≡ has_key k (answered c v.id confidence g).starts
    kept v k = elim (Bool-cases (is_fallback_active c g.starts)) [
      | inl on ↦ rw (on) (cleared k)
      | inr off ↦ rw (off) (agrees k)
    ]
