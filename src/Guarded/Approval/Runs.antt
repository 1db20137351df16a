-- ===== src/Guarded/Approval/Runs.antt =====
-- What holds of the approvals table over whole runs of the workflow's operations.
use gpuopt.Base.{
  subst, ◌≢◌, ℕ, String, true, false, ◌≡◌, refl, ◌∙◌, sym, Option, some, List, [], ◌∷◌, all, arith,
  string_eq, eq_iff, Bool-cases, Option-cases, inl, inr,
}
use gpuopt.Base.Dict.{lookup, lookup-insert}
use gpuopt.Guarded.Approval.{
  Uuid, ApprovalStatus, approved, rejected, is_pending, ApprovalRecord, Approvals,
  ApprovalWorkflowRequest, effective_approvers, mark_step, settle, close_rejected, save_approval,
  create_request, approve, reject, decide,
}
use gpuopt.Guarded.Approval.Steps.{step_approved, approvers}
use gpuopt.Guarded.Approval.Invariant.{
  IsSound, approve-IsSound, reject-IsSound, create_request-IsSound,
}

-- A decision of an approver, as a client sends it.
pub data Decision : Type 0 where
  approval rejection : Uuid → String → String → ℕ → Decision

-- A call of the workflow: a new request, with its fresh UUIDs and its time, or a decision.
pub data Call : Type 0 where
  creation : Uuid → Uuid → ℕ → ApprovalWorkflowRequest → Call
  decision : Decision → Call

unfoldable pub apply_decision : Decision → Approvals → Approvals
apply_decision (approval k who why now) db = (approve k who why now db).1
apply_decision (rejection k who why now) db = (reject k who why now db).1

unfoldable pub apply_decisions : List Decision → Approvals → Approvals
unfolding apply_decision
apply_decisions [] db = db
apply_decisions (d ∷ ds) db = apply_decisions ds (apply_decision d db)

unfoldable pub run : (Uuid → Option String) → List Call → Approvals → Approvals
unfolding apply_decision
run get_cluster [] db = db
run get_cluster (creation fresh fresh_cluster now request ∷ calls) db =
    run get_cluster calls (create_request get_cluster fresh fresh_cluster now request db).1
run get_cluster (decision d ∷ calls) db = run get_cluster calls (apply_decision d db)

apply_decision-IsSound :
    (d : Decision) (db : Approvals) → IsSound db → IsSound (apply_decision d db)
unfolding apply_decision
apply_decision-IsSound (approval k who why now) db s = approve-IsSound k who why now db s
apply_decision-IsSound (rejection k who why now) db s = reject-IsSound k who why now db s

run-IsSound :
    (get_cluster : Uuid → Option String) (calls : List Call) (db : Approvals)
    → IsSound db
    → IsSound (run get_cluster calls db)
unfolding run
run-IsSound get_cluster [] db s = s
run-IsSound get_cluster (creation fresh fresh_cluster now request ∷ calls) db s =
    run-IsSound get_cluster calls (create_request get_cluster fresh fresh_cluster now request db).1
      (create_request-IsSound get_cluster fresh fresh_cluster now request db s)
run-IsSound get_cluster (decision d ∷ calls) db s =
    run-IsSound get_cluster calls (apply_decision d db) (apply_decision-IsSound d db s)

-- Whatever calls are made on an empty table, a record whose status is approved has a step for each
-- of its required approvers (or for the default approver, if none is required), in order, and
-- every step is approved.
pub approved_unanimous :
    (get_cluster : Uuid → Option String) (calls : List Call) (k : Uuid) (r : ApprovalRecord)
    → lookup k (run get_cluster calls []) ≡ some r
    → r.status ≡ approved
    → (all step_approved r.steps ≡ true)
      × (approvers r.steps ≡ effective_approvers r.required_approvers)
approved_unanimous get_cluster calls k r found st =
    let c = (run-IsSound get_cluster calls [] (λ j q e. cc) k r found).0 in
    (rw st at c.agrees, c.assigned)

lookup-save_approval_ne :
    (c r : ApprovalRecord) (k : Uuid) (db : Approvals)
    → c.id ≢ k
    → lookup k db ≡ some r
    → lookup k (save_approval c db) ≡ some r
unfolding save_approval
lookup-save_approval_ne c r k db ne found =
    grind (arith, lookup-insert c.id k (record c { cluster_name = "" }) db, eq_iff c.id k)

-- A decision on any record leaves a decided record as it is.
decide_final :
    (verdict : ApprovalStatus) (finish : ℕ → String → ApprovalRecord → ApprovalRecord) (j k : Uuid)
    (who why : String) (now : ℕ) (db : Approvals) (r : ApprovalRecord)
    → ((q : ApprovalRecord) → (finish now why q).id ≡ q.id)
    → IsSound db
    → lookup k db ≡ some r
    → is_pending r.status ≡ false
    → lookup k (decide verdict finish j who why now db).1 ≡ some r
unfolding decide
decide_final verdict finish j k who why now db r same s found st =
    elim (Option-cases (lookup j db)) [
      | inl e ↦ rw (e, decide) found
      | inr (q, e) ↦
          rw (e, decide)
            (elim (Bool-cases (is_pending q.status)) [
              | inr f ↦ rw (f, decide) found
              | inl p ↦
                  rw (p, decide)
                    (elim (Option-cases (mark_step verdict who now why q.steps)) [
                      | inl m ↦ rw (m, decide) found
                      | inr (marked, m) ↦
                          rw (m, decide)
                            (lookup-save_approval_ne (finish now why (record q { steps = marked }))
                              r k db
                              (λ h.
                                let jk : j ≡ k =
                                  sym (s j q e).1 ∙ sym (same (record q { steps = marked })) ∙ h in
                                let e' : lookup k db ≡ some q =
                                  subst (λ x. lookup x db ≡ some q) jk e in
                                cc)
                              found)
                    ])
            ])
    ]

settle_id : (now : ℕ) (why : String) (r : ApprovalRecord) → (settle now why r).id ≡ r.id
unfolding settle
settle_id now why r = ground arith

close_rejected_id :
    (now : ℕ) (why : String) (r : ApprovalRecord) → (close_rejected now why r).id ≡ r.id
unfolding close_rejected
close_rejected_id now why r = refl

apply_decision_final :
    (d : Decision) (k : Uuid) (db : Approvals) (r : ApprovalRecord)
    → IsSound db
    → lookup k db ≡ some r
    → is_pending r.status ≡ false
    → lookup k (apply_decision d db) ≡ some r
unfolding apply_decision approve reject
apply_decision_final (approval j who why now) k db r s found st =
    decide_final approved settle j k who why now db r (settle_id now why) s found st
apply_decision_final (rejection j who why now) k db r s found st =
    decide_final rejected close_rejected j k who why now db r (close_rejected_id now why) s found st

-- In a sound table, a record that is no longer pending stays exactly as it is through any further
-- approvals and rejections, of that record or of others.
pub decided_final :
    (ds : List Decision) (k : Uuid) (db : Approvals) (r : ApprovalRecord)
    → IsSound db
    → lookup k db ≡ some r
    → is_pending r.status ≡ false
    → lookup k (apply_decisions ds db) ≡ some r
unfolding apply_decisions
decided_final [] k db r s found st = found
decided_final (d ∷ ds) k db r s found st =
    decided_final ds k (apply_decision d db) r (apply_decision-IsSound d db s)
      (apply_decision_final d k db r s found st) st
