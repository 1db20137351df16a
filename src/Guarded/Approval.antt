-- ===== src/Guarded/Approval.antt =====
-- `ApprovalWorkflow` of src/gpuopt/guarded_automation.py, with the approval schemas of
-- src/gpuopt/schemas.py and the approvals table of src/gpuopt/repository.py. A UUID is its text. A
-- method reads the clock once, as the argument `now`, and fresh UUIDs are arguments. The table
-- has no column for `cluster_name`, so a record that is read back has lost it.
pub mod Steps
pub mod Invariant
pub mod Runs
pub mod Completion
pub mod Actuation
mod Tests
use gpuopt.Base.{
  ℕ, suc, ◌+◌, ◌≤◌, String, Bool, true, false, ◌&&◌, ◌||◌, not, Option, none, some, List, [], ◌∷◌,
  any, all, filter, ◌==◌, string_eq, if◌then◌else◌, leb,
}
use gpuopt.Base.Dict.{Dict, lookup, insert, values}

abbrev pub Uuid : Type 0
Uuid = String

pub data ApprovalStatus : Type 0 where
  pending approved rejected cancelled : ApprovalStatus

abbrev pub is_pending : ApprovalStatus → Bool
is_pending pending = true
is_pending _ = false

abbrev pub is_approved : ApprovalStatus → Bool
is_approved approved = true
is_approved _ = false

abbrev pub is_rejected : ApprovalStatus → Bool
is_rejected rejected = true
is_rejected _ = false

pub record ApprovalStep : Type 0 where
  pub step_order : ℕ
  pub approver : String
  pub status : ApprovalStatus
  pub decided_at : Option ℕ
  pub reason : String

pub record ApprovalWorkflowRequest : Type 0 where
  pub actuation_id : Uuid
  pub cluster_id : Option Uuid
  pub required_approvers : List String
  pub reason : String

pub record ApprovalRecord : Type 0 where
  pub id : Uuid
  pub actuation_id : Uuid
  pub cluster_id : Uuid
  pub cluster_name : String
  pub status : ApprovalStatus
  pub steps : List ApprovalStep
  pub required_approvers : List String
  pub reason : String
  pub created_at : ℕ
  pub decided_at : Option ℕ
  pub final_reason : String

-- The approvals table, by the record's id.
abbrev pub Approvals : Type 0
Approvals = Dict Uuid ApprovalRecord

pub data ApprovalError : Type 0 where
  not_found : Uuid → ApprovalError
  already_decided : ApprovalStatus → ApprovalError
  approver_not_found : String → ApprovalError

pub data Outcome : Type 0 where
  ok : ApprovalRecord → Outcome
  err : ApprovalError → Outcome

-- `save_approval`: insert or replace, without the cluster's name.
unfoldable pub save_approval : ApprovalRecord → Approvals → Approvals
save_approval r db = insert r.id (record r { cluster_name = "" }) db

-- `a or b` on texts
abbrev pub or_text : String → String → String
or_text a b = if a == "" then b else a

abbrev pub or_uuid : Option Uuid → Uuid → Uuid
or_uuid none fresh = fresh
or_uuid (some u) fresh = u

abbrev pub new_step : ℕ → String → ApprovalStep
new_step order who = record {
  step_order = order;
  approver = who;
  status = pending;
  decided_at = none;
  reason = "";
}

-- The steps, numbered from `i + 1`.
number_steps : ℕ → List String → List ApprovalStep
number_steps i [] = []
number_steps i (who ∷ rest) = new_step (i + 1) who ∷ number_steps (i + 1) rest

-- The approvers that a request ends up with.
abbrev pub effective_approvers : List String → List String
effective_approvers [] = "default_approver" ∷ []
effective_approvers (a ∷ rest) = a ∷ rest

unfoldable pub initial_steps : List String → List ApprovalStep
unfolding number_steps
initial_steps [] = new_step 1 "default_approver" ∷ []
initial_steps (a ∷ rest) = number_steps 0 (a ∷ rest)

-- `get_cluster` is the repository's: the name of a known cluster.
cluster_name_of : (Uuid → Option String) → Option Uuid → String
cluster_name_of get_cluster none = ""
cluster_name_of get_cluster (some c) = elim (get_cluster c) [ none ↦ "" | some name ↦ name ]

unfoldable pub create_request :
    (Uuid → Option String)
    → Uuid
    → Uuid
    → ℕ
    → ApprovalWorkflowRequest
    → Approvals
    → ApprovalRecord × Approvals
unfolding initial_steps cluster_name_of save_approval
create_request get_cluster fresh fresh_cluster now request db =
    let r : ApprovalRecord = record {
      id = fresh;
      actuation_id = request.actuation_id;
      cluster_id = or_uuid request.cluster_id fresh_cluster;
      cluster_name = cluster_name_of get_cluster request.cluster_id;
      status = pending;
      steps = initial_steps request.required_approvers;
      required_approvers = request.required_approvers;
      reason = request.reason;
      created_at = now;
      decided_at = none;
      final_reason = "";
    } in
    (r, save_approval r db)

-- The loop over `record.steps` with its `for ... else`: the first pending step of the approver is
-- decided, and `none` means that there was none.
pub mark_step :
    ApprovalStatus → String → ℕ → String → List ApprovalStep → Option (List ApprovalStep)
mark_step verdict who now why [] = none
mark_step verdict who now why (s ∷ rest) =
    let later = mark_step verdict who now why rest in
    if s.approver == who && is_pending s.status
    then some (record s { status = verdict; decided_at = some now; reason = why } ∷ rest)
    else elim later [ none ↦ none | some marked ↦ some (s ∷ marked) ]

-- The record's own status, after a step was approved.
pub settle : ℕ → String → ApprovalRecord → ApprovalRecord
settle now why r =
    let all_decided = all (λ (s : ApprovalStep). not (is_pending s.status)) r.steps in
    let all_approved = all (λ (s : ApprovalStep). is_approved s.status) r.steps in
    let any_rejected = any (λ (s : ApprovalStep). is_rejected s.status) r.steps in
    if all_decided && all_approved
    then record r {
      status = approved;
      decided_at = some now;
      final_reason = or_text why "All approvers approved";
    }
    else if any_rejected
    then record r {
      status = rejected;
      decided_at = some now;
      final_reason = or_text why "Rejected by approver";
    }
    else r

pub close_rejected : ℕ → String → ApprovalRecord → ApprovalRecord
close_rejected now why r = record r {
  status = rejected;
  decided_at = some now;
  final_reason = or_text why "Rejected by approver";
}

-- What `approve` and `reject` share: the record is found and pending, a step is marked, the record
-- is closed by `finish`, and saved.
decide :
    ApprovalStatus
    → (ℕ → String → ApprovalRecord → ApprovalRecord)
    → Uuid
    → String
    → String
    → ℕ
    → Approvals
    → Outcome × Approvals
unfolding mark_step save_approval
decide verdict finish approval_id who why now db = elim (lookup approval_id db) [
  | none ↦ (err (not_found approval_id), db)
  | some r ↦
      if is_pending r.status
      then elim (mark_step verdict who now why r.steps) [
        | none ↦ (err (approver_not_found who), db)
        | some marked ↦
            let closed = finish now why (record r { steps = marked }) in
            (ok closed, save_approval closed db)
      ]
      else (err (already_decided r.status), db)
]

unfoldable pub approve : Uuid → String → String → ℕ → Approvals → Outcome × Approvals
unfolding decide settle
approve = decide approved settle

unfoldable pub reject : Uuid → String → String → ℕ → Approvals → Outcome × Approvals
unfolding decide close_rejected
reject = decide rejected close_rejected

pub list_approvals_for_actuation : Uuid → Approvals → List ApprovalRecord
list_approvals_for_actuation actuation db =
    filter (λ (r : ApprovalRecord). r.actuation_id == actuation) (values db)

-- `max(approvals, key=created_at)`: the first of the latest.
pub latest_from : ApprovalRecord → List ApprovalRecord → ApprovalRecord
latest_from best [] = best
latest_from best (r ∷ rest) =
    latest_from (if leb r.created_at best.created_at then best else r) rest

unfoldable pub check_actuation_approved : Uuid → Approvals → Bool
check_actuation_approved actuation db = elim (list_approvals_for_actuation actuation db) [
  | [] ↦ false
  | r ∷ rest ↦ is_approved (latest_from r rest).status
]
