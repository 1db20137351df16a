-- ===== src/Guarded/Approval/Completion.antt =====
-- A request that every approver approves, in the order of its steps, ends approved.
use mathlib.Core.List.{append_assoc}
use gpuopt.Base.{
  ℕ, ◌+◌, String, true, false, not, ◌≡◌, refl, ◌∙◌, sym, ap, Option, some, List, [], ◌∷◌, ◌++◌, all,
  any, arith, string_eq, eq_iff, beq_refl,
}
use gpuopt.Base.Dict.{lookup, lookup-insert}
use gpuopt.Guarded.Approval.{
  Uuid, pending, approved, is_pending, ApprovalStep, ApprovalRecord, Approvals,
  ApprovalWorkflowRequest, effective_approvers, initial_steps, mark_step, settle, save_approval,
  create_request, approve, decide, number_steps, new_step,
}
use gpuopt.Guarded.Approval.Steps.{
  step_pending, step_approved, step_rejected, approvers, initial_steps-approvers,
}
use gpuopt.Guarded.Approval.Runs.{approval, apply_decision, apply_decisions, Decision}

abbrev approve_step : ℕ → String → ApprovalStep → ApprovalStep
approve_step now why s = record s { status = approved; decided_at = some now; reason = why }

-- The first pending step behind approved ones is the one that its approver marks.
mark_step_next :
    (now : ℕ) (why : String) (done rest : List ApprovalStep) (s : ApprovalStep)
    → all step_approved done ≡ true
    → step_pending s ≡ true
    → mark_step approved s.approver now why (done ++ s ∷ rest)
      ≡ some (done ++ approve_step now why s ∷ rest)
unfolding mark_step
mark_step_next now why [] rest s d p = rw (beq_refl s.approver, p)
mark_step_next now why (x ∷ done) rest s d p = grind (arith, mark_step_next now why done rest s)

all_approved_snoc :
    (done : List ApprovalStep) (s : ApprovalStep)
    → all step_approved done ≡ true
    → step_approved s ≡ true
    → all step_approved (done ++ s ∷ []) ≡ true
all_approved_snoc [] s d p = ground arith
all_approved_snoc (x ∷ done) s d p = ground (arith, all_approved_snoc done s)

all_decided_approved :
    (done : List ApprovalStep)
    → all step_approved done ≡ true
    → all (λ s. not (step_pending s)) done ≡ true
all_decided_approved [] d = refl
all_decided_approved (x ∷ done) d = ground (arith, all_decided_approved done)

undecided_while_pending :
    (done rest : List ApprovalStep) (s : ApprovalStep)
    → step_pending s ≡ true
    → all (λ s. not (step_pending s)) (done ++ s ∷ rest) ≡ false
undecided_while_pending [] rest s p = ground arith
undecided_while_pending (x ∷ done) rest s p = ground (arith, undecided_while_pending done rest s)

pending_none_rejected :
    (rest : List ApprovalStep) → all step_pending rest ≡ true → any step_rejected rest ≡ false
pending_none_rejected [] p = refl
pending_none_rejected (x ∷ rest) p = ground (arith, pending_none_rejected rest)

progress_none_rejected :
    (done rest : List ApprovalStep)
    → all step_approved done ≡ true
    → all step_pending rest ≡ true
    → any step_rejected (done ++ rest) ≡ false
progress_none_rejected [] rest d p = pending_none_rejected rest p
progress_none_rejected (x ∷ done) rest d p = ground (arith, progress_none_rejected done rest)

settle_waits :
    (now : ℕ) (why : String) (r : ApprovalRecord) (done rest : List ApprovalStep) (s : ApprovalStep)
    → all step_approved done ≡ true
    → all step_pending (s ∷ rest) ≡ true
    → r.steps ≡ done ++ s ∷ rest
    → settle now why r ≡ r
unfolding settle
settle_waits now why r done rest s d p e =
    ground (arith, progress_none_rejected done (s ∷ rest) d p, undecided_while_pending done rest s)

settle_completes :
    (now : ℕ) (why : String) (r : ApprovalRecord)
    → all step_approved r.steps ≡ true
    → (settle now why r).status ≡ approved
unfolding settle
settle_completes now why r d = ground (arith, all_decided_approved r.steps)

-- The record under `k` is pending: the steps `done` are approved and the steps `rest` wait.
record InProgress (k : Uuid) (rest : List ApprovalStep) (db : Approvals) : Type 0 where
  at : ApprovalRecord
  found : lookup k db ≡ some at
  under : at.id ≡ k
  open_status : at.status ≡ pending
  done : List ApprovalStep
  split : at.steps ≡ done ++ rest
  done_approved : all step_approved done ≡ true
  rest_pending : all step_pending rest ≡ true

-- What `approve` does when the next approver calls it.
approve_next :
    (k : Uuid) (why : String) (now : ℕ) (s : ApprovalStep) (rest : List ApprovalStep)
    (db : Approvals) (w : InProgress k (s ∷ rest) db)
    → (approve k s.approver why now db).1
      ≡ save_approval
          (settle now why (record w.at { steps = w.done ++ approve_step now why s ∷ rest }))
          db
unfolding approve decide
approve_next k why now s rest db w =
    let m : mark_step approved s.approver now why w.at.steps
        ≡ some (w.done ++ approve_step now why s ∷ rest) =
      rw w.split (mark_step_next now why w.done rest s w.done_approved (ground arith)) in
    let p : is_pending w.at.status ≡ true = ap is_pending w.open_status in
    rw (w.found, decide) (rw (p, decide) (rw (m, decide) refl))

lookup-save_approval :
    (c : ApprovalRecord) (k : Uuid) (db : Approvals)
    → c.id ≡ k
    → lookup k (save_approval c db) ≡ some (record c { cluster_name = "" })
unfolding save_approval
lookup-save_approval c k db e =
    grind (arith, lookup-insert c.id k (record c { cluster_name = "" }) db, eq_iff c.id k)

settle_id : (now : ℕ) (why : String) (r : ApprovalRecord) → (settle now why r).id ≡ r.id
unfolding settle
settle_id now why r = ground arith

module _ (k : Uuid) (why : String) (now : ℕ) (s : ApprovalStep) (db : Approvals) where
  approve_next-InProgress :
      (next : ApprovalStep) (rest : List ApprovalStep)
      → InProgress k (s ∷ next ∷ rest) db
      → InProgress k (next ∷ rest) (approve k s.approver why now db).1
  approve_next-InProgress next rest w =
      let marked : List ApprovalStep = w.done ++ approve_step now why s ∷ next ∷ rest in
      let moved : ApprovalRecord = record w.at { steps = marked } in
      let split : marked ≡ (w.done ++ approve_step now why s ∷ []) ++ next ∷ rest =
        sym (append_assoc w.done (approve_step now why s ∷ []) (next ∷ rest)) in
      let approved_now : all step_approved (w.done ++ approve_step now why s ∷ []) ≡ true =
        all_approved_snoc w.done (approve_step now why s) w.done_approved refl in
      let waiting : all step_pending (next ∷ rest) ≡ true = ground (arith, w.rest_pending) in
      let stays : settle now why moved ≡ moved =
        settle_waits now why moved (w.done ++ approve_step now why s ∷ []) rest next approved_now
          waiting split in
      record {
        at = record moved { cluster_name = "" };
        found =
            rw (approve_next k why now s (next ∷ rest) db w)
              (rw stays (lookup-save_approval moved k db w.under));
        under = w.under;
        open_status = w.open_status;
        done = w.done ++ approve_step now why s ∷ [];
        split = split;
        done_approved = approved_now;
        rest_pending = waiting;
      }

  approve_last :
      InProgress k (s ∷ []) db
      → (r : ApprovalRecord) × (lookup k (approve k s.approver why now db).1 ≡ some r)
        × (r.status ≡ approved)
  approve_last w =
      let moved : ApprovalRecord = record w.at { steps = w.done ++ approve_step now why s ∷ [] } in
      (
        record (settle now why moved) { cluster_name = "" },
        rw (approve_next k why now s [] db w)
            (lookup-save_approval (settle now why moved) k db (settle_id now why moved ∙ w.under)),
        settle_completes now why moved
            (all_approved_snoc w.done (approve_step now why s) w.done_approved refl),
      )

pub approvals : Uuid → String → ℕ → List String → List Decision
approvals k why now [] = []
approvals k why now (who ∷ rest) = approval k who why now ∷ approvals k why now rest

approve_rest :
    (k : Uuid) (why : String) (now : ℕ) (s : ApprovalStep) (rest : List ApprovalStep)
    (db : Approvals)
    → InProgress k (s ∷ rest) db
    → (r : ApprovalRecord) × (lookup k
          (apply_decisions (approvals k why now (approvers (s ∷ rest))) db)
        ≡ some r)
      × (r.status ≡ approved)
unfolding approvals apply_decisions apply_decision
approve_rest k why now s [] db w = approve_last k why now s db w
approve_rest k why now s (next ∷ rest) db w =
    approve_rest k why now next rest (approve k s.approver why now db).1
      (approve_next-InProgress k why now s db next rest w)

number_steps_pending : (i : ℕ) (who : List String) → all step_pending (number_steps i who) ≡ true
unfolding number_steps
number_steps_pending i [] = refl
number_steps_pending i (w ∷ rest) = number_steps_pending (i + 1) rest

initial_steps_shape :
    (who : List String)
    → (s : ApprovalStep) × (rest : List ApprovalStep) × (initial_steps who ≡ s ∷ rest)
      × (all step_pending (s ∷ rest) ≡ true)
unfolding initial_steps number_steps
initial_steps_shape [] = (new_step 1 "default_approver", [], refl, refl)
initial_steps_shape (w ∷ rest) =
    (new_step 1 w, number_steps 1 rest, refl, number_steps_pending 1 rest)

-- After a new request, on any table, approvals by its approvers in order (by the default approver,
-- if it requires none) leave its record approved.
pub approve_all :
    (get_cluster : Uuid → Option String) (fresh fresh_cluster : Uuid) (now : ℕ)
    (request : ApprovalWorkflowRequest) (db : Approvals) (why : String) (later : ℕ)
    → let created = (create_request get_cluster fresh fresh_cluster now request db).1 in
      (r : ApprovalRecord) × (lookup fresh (
          apply_decisions
            (approvals fresh why later (effective_approvers request.required_approvers))
            created)
        ≡ some r)
      × (r.status ≡ approved)
unfolding create_request
approve_all get_cluster fresh fresh_cluster now request db why later =
    let (r, created) = create_request get_cluster fresh fresh_cluster now request db in
    let (s, rest, shape, waiting) = initial_steps_shape request.required_approvers in
    let named : approvers (s ∷ rest) ≡ effective_approvers request.required_approvers =
      ap approvers (sym shape) ∙ initial_steps-approvers request.required_approvers in
    rw (← named) (
      approve_rest fresh why later s rest created (record {
        at = record r { cluster_name = "" };
        found = lookup-save_approval r fresh db refl;
        under = refl;
        open_status = refl;
        done = [];
        split = shape;
        done_approved = refl;
        rest_pending = waiting;
      }))
