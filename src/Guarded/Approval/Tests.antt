-- ===== src/Guarded/Approval/Tests.antt =====
-- Runs of the approval workflow at concrete inputs.
use gpuopt.Base.{
  ℕ, String, true, ◌≡◌, refl, Option, none, some, List, [], ◌∷◌, all, string_eq, nat_eq,
}
use gpuopt.Base.Dict.{lookup, Rows-insert}
use gpuopt.Guarded.Approval.{
  Uuid, approved, rejected, ApprovalStep, ApprovalRecord, ApprovalWorkflowRequest,
  effective_approvers, create_request, approve, list_approvals_for_actuation, latest_from,
  check_actuation_approved,
}
use gpuopt.Guarded.Approval.Steps.{step_approved, approvers}
use gpuopt.Guarded.Approval.Invariant.{IsSound, IsConsistent}
use gpuopt.Guarded.Approval.Runs.{
  Call, Decision, creation, decision, approval, rejection, run, apply_decisions, approved_unanimous,
  decided_final,
}
use gpuopt.Guarded.Approval.Completion.{approvals, approve_all}
use gpuopt.Guarded.Approval.Actuation.{Evidence, check_actuation_approved_sound}

abbrev no_clusters : Uuid → Option String
no_clusters c = none

abbrev request : ApprovalWorkflowRequest
request = record {
  actuation_id = "act-1";
  cluster_id = some "c1";
  required_approvers = "ann" ∷ "bob" ∷ [];
  reason = "rollout";
}

-- Ann's second approval is refused, since her step is decided.
abbrev calls : List Call
calls =
    creation "r1" "c9" 5 request
    ∷ decision (approval "r1" "ann" "" 6)
    ∷ decision (approval "r1" "ann" "" 7)
    ∷ decision (approval "r1" "bob" "fine" 8)
    ∷ []

abbrev given : ℕ → String → ℕ → String → ApprovalStep
given order who at why = record {
  step_order = order;
  approver = who;
  status = approved;
  decided_at = some at;
  reason = why;
}

abbrev final : ApprovalRecord
final = record {
  id = "r1";
  actuation_id = "act-1";
  cluster_id = "c1";
  cluster_name = "";
  status = approved;
  steps = given 1 "ann" 6 "" ∷ given 2 "bob" 8 "fine" ∷ [];
  required_approvers = "ann" ∷ "bob" ∷ [];
  reason = "rollout";
  created_at = 5;
  decided_at = some 8;
  final_reason = "fine";
}

run-calls : run no_clusters calls [] ≡ ("r1", final) ∷ []
unfolding run create_request approve
run-calls = refl

approved_unanimous_example :
    (all step_approved final.steps ≡ true)
    × (approvers final.steps ≡ effective_approvers final.required_approvers)
unfolding run create_request approve
approved_unanimous_example = approved_unanimous no_clusters calls "r1" final refl refl

abbrev refused : ApprovalRecord
refused = record final {
  status = rejected;
  steps = record (given 1 "ann" 6 "") { status = rejected } ∷ given 2 "bob" 8 "fine" ∷ [];
}

abbrev late : List Decision
late = rejection "r1" "bob" "no" 9 ∷ approval "r1" "ann" "" 10 ∷ approval "r2" "ann" "" 10 ∷ []

final-IsSound : IsSound (("r1", refused) ∷ [])
final-IsSound =
    Rows-insert (λ k r. IsConsistent r × (r.id ≡ k)) "r1" refused []
      (record { agrees = refl; assigned = refl }, refl) (λ j q e. cc)

decided_final_example : lookup "r1" (apply_decisions late (("r1", refused) ∷ [])) ≡ some refused
decided_final_example =
    decided_final late "r1" (("r1", refused) ∷ []) refused final-IsSound refl refl

approve_all_example :
    let created = (create_request no_clusters "r1" "c9" 5 request []).1 in
    (r : ApprovalRecord) × (lookup "r1" (
        apply_decisions
          (approvals "r1" "ok" 6 (effective_approvers request.required_approvers))
          created)
      ≡ some r)
    × (r.status ≡ approved)
approve_all_example = approve_all no_clusters "r1" "c9" 5 request [] "ok" 6

check_actuation_approved_sound_example : Evidence "act-1" (("r1", final) ∷ [])
unfolding check_actuation_approved list_approvals_for_actuation latest_from
check_actuation_approved_sound_example =
    check_actuation_approved_sound "act-1" (("r1", final) ∷ []) refl
