-- ===== src/Governance/Approval.antt =====
-- `ApprovalManager` of src/gpuopt/model_governance/approval.py, on the registry and its own
-- requests.
pub mod Laws
use gpuopt.Base.{
  ℕ, zero, suc, ◌+◌, ◌-◌, ◌*◌, ◌<◌, String, Bool, true, false, Option, none, some, List, [], ◌∷◌,
  any, ◌==◌, string_eq, if◌then◌else◌, ltb,
}
use gpuopt.Base.Dict.{Dict, lookup, insert, values}
use gpuopt.Governance.Models.{
  Uuid, ModelActionClass, action_class_eq, ModelActionClass-discrete, ModelStatus, ApprovalStatus,
  pending, approved, expired, ModelVersion, ApprovalRequest, GovernanceConfig,
}
use gpuopt.Governance.Registry.{ModelRegistry, get, update_status}

abbrev pub Requests : Type 0
Requests = Dict Uuid ApprovalRequest

abbrev pub day : ℕ
day = 86400

unfoldable pub requires_approval : GovernanceConfig → ModelVersion → Bool
unfolding ModelActionClass-discrete
requires_approval config v = any (λ c. v.action_class == c) config.high_impact_action_classes

-- `days or default`: no number, and the number 0, give the default.
abbrev pub or_days : Option ℕ → ℕ → ℕ
or_days none d = d
or_days (some zero) d = d
or_days (some (suc n)) d = suc n

unfoldable pub request_approval :
    Uuid → ℕ → ModelVersion → String → Option ℕ → Requests → ApprovalRequest × Requests
request_approval fresh now v requested_by certification_days requests =
    let req : ApprovalRequest = record {
      id = fresh;
      model_version_id = v.id;
      action_class = v.action_class;
      requested_by = if requested_by == "" then v.owner else requested_by;
      requested_at = now;
      status = pending;
      reviewed_by = none;
      reviewed_at = none;
      review_notes = "";
      certification_period_days = or_days certification_days 90;
      certified_until = none;
    } in
    (req, insert fresh req requests)

abbrev pub approve_request : String → String → ℕ → ℕ → ApprovalRequest → ApprovalRequest
approve_request reviewer notes days now req = record req {
  status = approved;
  reviewed_by = some reviewer;
  reviewed_at = some now;
  review_notes = notes;
  certified_until = some (now + days * day);
}

abbrev pub certify : String → String → ℕ → ℕ → ModelVersion → ModelVersion
certify reviewer notes days now v = record v {
  approved_by = some reviewer;
  approved_at = some now;
  approval_note = notes;
  certification_days = days;
  certified_until = some (now + days * day);
}

-- The version of the request, if the registry has it, is changed in place.
pub certify_version : Uuid → String → String → ℕ → ℕ → ModelRegistry → ModelRegistry
certify_version vid reviewer notes days now r = elim (get vid r) [
  | none ↦ r
  | some v ↦ record r { versions = insert vid (certify reviewer notes days now v) r.versions }
]

unfoldable pub approve :
    Uuid
    → String
    → String
    → Option ℕ
    → ℕ
    → ModelRegistry × Requests
    → Option ApprovalRequest × (ModelRegistry × Requests)
unfolding certify_version
approve request_id reviewer notes certification_days now (r, requests) =
    elim (lookup request_id requests) [
      | none ↦ (none, (r, requests))
      | some req ↦
          let days = or_days certification_days req.certification_period_days in
          let req' = approve_request reviewer notes days now req in
          (
            some req',
            (
              certify_version req.model_version_id reviewer notes days now r,
              insert request_id req' requests,
            ),
          )
    ]

unfoldable pub reject :
    Uuid
    → String
    → String
    → ℕ
    → ModelRegistry × Requests
    → Option ApprovalRequest × (ModelRegistry × Requests)
reject request_id reviewer notes now (r, requests) = elim (lookup request_id requests) [
  | none ↦ (none, (r, requests))
  | some req ↦
      let req' : ApprovalRequest = record req {
        status = ApprovalStatus.rejected;
        reviewed_by = some reviewer;
        reviewed_at = some now;
        review_notes = notes;
      } in
      (
        some req',
        (
          (update_status req.model_version_id ModelStatus.rejected now r).1,
          insert request_id req' requests,
        ),
      )
]

abbrev pub is_approved : ApprovalStatus → Bool
is_approved approved = true
is_approved _ = false

-- One turn of the loop of `check_recertification`: the request, changed or not, and whether it is
-- due.
abbrev pub recertify_until : ℕ → ℕ → Option ℕ → ApprovalRequest → ApprovalRequest × Bool
recertify_until now reminder none req = (req, false)
recertify_until now reminder (some until) req =
    if ltb until now
    then (record req { status = expired }, true)
    else (req, ltb (until - now) (reminder * day))

unfoldable pub recertify_one : ℕ → ℕ → ApprovalRequest → ApprovalRequest × Bool
recertify_one now reminder req =
    if is_approved req.status
    then recertify_until now reminder req.certified_until req
    else (req, false)

unfoldable pub recertify : ℕ → ℕ → Requests → List ApprovalRequest × Requests
unfolding recertify_one
recertify now reminder [] = ([], [])
recertify now reminder ((k, req) ∷ rest) =
    let (due, rest') = recertify now reminder rest in
    let (req', is_due) = recertify_one now reminder req in
    (if is_due then req' ∷ due else due, (k, req') ∷ rest')
