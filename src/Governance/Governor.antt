-- ===== src/Governance/Governor.antt =====
-- `ModelGovernor` of src/gpuopt/model_governance/governance.py: registration, promotion and
-- prediction. The drift monitor's scores for the champion are an argument.
pub mod Laws
pub mod Predict
use gpuopt.Base.{
  ℕ, String, Bool, true, false, ◌&&◌, ◌||◌, Option, none, some, List, [], ◌∷◌, ltb, is_none,
  if◌then◌else◌,
}
use gpuopt.Base.Dict.{lookup}
use gpuopt.Governance.Models.{
  Uuid, ModelActionClass, ModelStatus, draft, challenger, ModelVersion, ApprovalRequest,
  GovernanceConfig,
}
use gpuopt.Governance.Registry.{
  ModelRegistry, register, get, update_status, promote_challenger, get_champion, record_prediction,
}
use gpuopt.Governance.Approval.{Requests, requires_approval, request_approval}
use gpuopt.Governance.Fallback.{
  Starts, Reason, should_fallback, activate_fallback, is_fallback_active, check_recovery,
}

pub record Governor : Type 0 where
  pub registry : ModelRegistry
  pub requests : Requests
  pub starts : Starts

-- `register_model`; `fresh` and `fresh_request` are new UUIDs, and `window_end` the end of the
-- training window.
unfoldable pub register_model :
    GovernanceConfig
    → Uuid
    → Uuid
    → ℕ
    → String
    → String
    → ModelActionClass
    → String
    → Option ℕ
    → Governor
    → ModelVersion × Governor
register_model config fresh fresh_request now name version c owner window_end g =
    let v : ModelVersion = record {
      id = fresh;
      model_name = name;
      version = version;
      action_class = c;
      status = draft;
      owner = owner;
      created_at = now;
      updated_at = now;
      training_data_window_end = window_end;
      approved_by = none;
      approved_at = none;
      approval_note = "";
      certification_days = 90;
      certified_until = none;
    } in
    let r = register v g.registry in
    if requires_approval config v
    then (
      v,
      record g {
        registry = r;
        requests = (request_approval fresh_request now v owner none g.requests).1;
      },
    )
    else (
      record v { status = challenger; updated_at = now },
      record g { registry = (update_status fresh challenger now r).1 },
    )

abbrev pub is_expired : Option ℕ → ℕ → Bool
is_expired none now = false
is_expired (some until) now = ltb until now

unfoldable pub set_champion :
    GovernanceConfig → Uuid → ℕ → Governor → Option ModelVersion × Governor
set_champion config vid now g = elim (get vid g.registry) [
  | none ↦ (none, g)
  | some v ↦
      if requires_approval config v && is_none v.approved_by
      then (none, g)
      else if is_expired v.certified_until now
      then (none, g)
      else let (promoted, r) = promote_challenger v.action_class now g.registry in
        (promoted, record g { registry = r })
]

-- What `predict` answers: the model's version, or a fallback.
pub data Prediction : Type 0 where
  no_champion : Prediction
  fallback : Reason → Prediction
  still_in_fallback : Prediction
  model : Uuid → ℕ → Prediction

-- The part of `predict` after the champion was judged fit.
pub predict_fit :
    GovernanceConfig
    → ModelActionClass
    → ModelVersion
    → ℕ
    → List ℕ
    → ℕ
    → Governor
    → Prediction × Governor
predict_fit config c v confidence drift_scores now g =
    let (recovered, s) =
      check_recovery config.fallback v confidence drift_scores now (g.registry, g.starts) in
    if is_fallback_active c g.starts
    then if recovered
      then (
        model v.id confidence,
        record g { registry = record_prediction v.id confidence s.0; starts = s.1 },
      )
      else (still_in_fallback, record g { registry = s.0; starts = s.1 })
    else (
      model v.id confidence,
      record g { registry = record_prediction v.id confidence g.registry },
    )

unfoldable pub predict :
    GovernanceConfig → ModelActionClass → ℕ → List ℕ → ℕ → Governor → Prediction × Governor
unfolding predict_fit
predict config c confidence drift_scores now g = elim (get_champion c g.registry) [
  | none ↦ (no_champion, g)
  | some v ↦
      let (should, reason) =
        should_fallback config.fallback v confidence drift_scores now g.starts in
      if should
      then (let s = activate_fallback c now (g.registry, g.starts) in
          (fallback reason, record g { registry = s.0; starts = s.1 }))
      else predict_fit config c v confidence drift_scores now g
]
