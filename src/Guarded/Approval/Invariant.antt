-- ===== src/Guarded/Approval/Invariant.antt =====
-- A record's status agrees with its steps, and every operation on the table keeps that.
use gpuopt.Base.{
  ℕ, String, true, ◌≡◌, refl, ◌∙◌, Option, some, List, any, all, arith, string_eq, Bool-cases,
  Option-cases, inl, inr,
}
use gpuopt.Base.Dict.{lookup, Rows, Rows-insert}
use gpuopt.Guarded.Approval.{
  Uuid, ApprovalStatus, pending, approved, rejected, cancelled, is_pending, ApprovalStep,
  ApprovalRecord, Approvals, ApprovalWorkflowRequest, effective_approvers, mark_step, settle,
  close_rejected, save_approval, create_request, approve, reject, decide,
}
use gpuopt.Guarded.Approval.Steps.{
  step_pending, step_approved, step_rejected, step_open, approvers, mark_step-approvers,
  mark_step-all_open, mark_step-any_rejected, all_open_none_rejected, all_open_undecided,
  initial_steps-approvers, initial_steps_open,
}

-- A pending record waits for a step, and none stands against it; an approved one has every step
-- approved; a rejected one has a rejected step; no operation cancels.
abbrev pub Agrees : ApprovalStatus → List ApprovalStep → Type 0
Agrees pending steps = (all step_open steps ≡ true) × (any step_pending steps ≡ true)
Agrees approved steps = all step_approved steps ≡ true
Agrees rejected steps = any step_rejected steps ≡ true
Agrees cancelled steps = ⊥

pub record IsConsistent (r : ApprovalRecord) : Type 0 where
  pub agrees : Agrees r.status r.steps
  pub assigned : approvers r.steps ≡ effective_approvers r.required_approvers

-- Every row is consistent and stands under its id.
abbrev pub IsSound : Approvals → Type 0
IsSound = Rows (λ k r. IsConsistent r × (r.id ≡ k))

save_approval-IsSound :
    (r : ApprovalRecord) (db : Approvals)
    → IsConsistent r
    → IsSound db
    → IsSound (save_approval r db)
unfolding save_approval
save_approval-IsSound r db c s =
    Rows-insert (λ k r. IsConsistent r × (r.id ≡ k)) r.id (record r { cluster_name = "" }) db
      (record { agrees = c.agrees; assigned = c.assigned }, refl) s

-- The status that `settle` gives agrees with the steps, where all are pending or approved.
settle-IsConsistent :
    (now : ℕ) (why : String) (r : ApprovalRecord)
    → r.status ≡ pending
    → all step_open r.steps ≡ true
    → approvers r.steps ≡ effective_approvers r.required_approvers
    → IsConsistent (settle now why r)
unfolding settle
settle-IsConsistent now why r p o a =
    ground (arith, all_open_none_rejected r.steps, all_open_undecided r.steps)

Agrees-open :
    (st : ApprovalStatus) (steps : List ApprovalStep)
    → is_pending st ≡ true
    → Agrees st steps
    → (st ≡ pending) × (all step_open steps ≡ true)
Agrees-open pending steps p a = (refl, a.0)
Agrees-open approved steps p a = cc
Agrees-open rejected steps p a = cc
Agrees-open cancelled steps p a = cc

module _ (k : Uuid) (who why : String) (now : ℕ) (r : ApprovalRecord) (c : IsConsistent r) where
  approved_step :
      (marked : List ApprovalStep)
      → is_pending r.status ≡ true
      → mark_step approved who now why r.steps ≡ some marked
      → IsConsistent (settle now why (record r { steps = marked }))
  approved_step marked p e =
      let (st, o) = Agrees-open r.status r.steps p c.agrees in
      settle-IsConsistent now why (record r { steps = marked }) st
        (mark_step-all_open who now why r.steps e o)
        (mark_step-approvers who now why approved r.steps e ∙ c.assigned)

  rejected_step :
      (marked : List ApprovalStep)
      → mark_step rejected who now why r.steps ≡ some marked
      → IsConsistent (close_rejected now why (record r { steps = marked }))
  unfolding close_rejected
  rejected_step marked e = record {
    agrees = mark_step-any_rejected who now why r.steps e;
    assigned = mark_step-approvers who now why rejected r.steps e ∙ c.assigned;
  }

-- A decision keeps the table sound, if marking a step and finishing keeps a record consistent.
decide-IsSound :
    (verdict : ApprovalStatus) (finish : ℕ → String → ApprovalRecord → ApprovalRecord) (k : Uuid)
    (who why : String) (now : ℕ) (db : Approvals)
    → ((r : ApprovalRecord) (marked : List ApprovalStep)
        → IsConsistent r
        → is_pending r.status ≡ true
        → mark_step verdict who now why r.steps ≡ some marked
        → IsConsistent (finish now why (record r { steps = marked })))
    → IsSound db
    → IsSound (decide verdict finish k who why now db).1
unfolding decide
decide-IsSound verdict finish k who why now db keep s = elim (Option-cases (lookup k db)) [
  | inl e ↦ rw (e, decide) s
  | inr (r, e) ↦
      rw (e, decide)
        (elim (Bool-cases (is_pending r.status)) [
          | inr f ↦ rw (f, decide) s
          | inl p ↦
              rw (p, decide)
                (elim (Option-cases (mark_step verdict who now why r.steps)) [
                  | inl m ↦ rw (m, decide) s
                  | inr (marked, m) ↦
                      rw (m, decide)
                        (save_approval-IsSound (finish now why (record r { steps = marked })) db
                          (keep r marked (s k r e).0 p m) s)
                ])
        ])
]

pub approve-IsSound :
    (k : Uuid) (who why : String) (now : ℕ) (db : Approvals)
    → IsSound db
    → IsSound (approve k who why now db).1
unfolding approve
approve-IsSound k who why now db s =
    decide-IsSound approved settle k who why now db
      (λ r marked c p e. approved_step k who why now r c marked p e) s

pub reject-IsSound :
    (k : Uuid) (who why : String) (now : ℕ) (db : Approvals)
    → IsSound db
    → IsSound (reject k who why now db).1
unfolding reject
reject-IsSound k who why now db s =
    decide-IsSound rejected close_rejected k who why now db
      (λ r marked c p e. rejected_step k who why now r c marked e) s

pub create_request-IsSound :
    (get_cluster : Uuid → Option String) (fresh fresh_cluster : Uuid) (now : ℕ)
    (request : ApprovalWorkflowRequest) (db : Approvals)
    → IsSound db
    → IsSound (create_request get_cluster fresh fresh_cluster now request db).1
unfolding create_request
create_request-IsSound get_cluster fresh fresh_cluster now request db s =
    save_approval-IsSound (create_request get_cluster fresh fresh_cluster now request db).0 db
      (record {
        agrees = initial_steps_open request.required_approvers;
        assigned = initial_steps-approvers request.required_approvers;
      })
      s
