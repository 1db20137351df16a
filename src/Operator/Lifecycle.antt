-- ===== src/Operator/Lifecycle.antt =====
-- How often the adapter runs for an action over many reconciliations, and what decides it.
use gpuopt.Base.{
  ℕ, suc, ◌≤◌, Bool, true, false, ◌≡◌, refl, ap, ◌⊎◌, inl, inr, String, some, List, [], ◌∷◌, length,
  string_eq, All, if◌then◌else◌, arith, Option-cases,
}
use gpuopt.Operator.Adapter.{
  Name, ActionPhase, pending, approved, running, completed, failed, rolled_back,
  GpuOptimizationAction, Listing, Call, update_action_status, execute_reports_success,
}
use gpuopt.Operator.Controller.{
  Item, phase_of, action_type_of, build_action, build_with, Outcome, idle, run_action,
  reconcile_built, reconcile_action,
}

-- The adapter's runs over a list of reconciliations, each with its own answers of the API, and the
-- item at the end.
unfoldable pub reconcile_many : List (Call → Bool) → Listing → Item → ℕ × Item
reconcile_many [] listing item = (0, item)
reconcile_many (ok ∷ oks) listing item =
    let now = reconcile_action ok listing item in
    let (n, last) = reconcile_many oks listing now.item in (if now.ran then suc n else n, last)

-- Every status update of an action succeeds, or none does.
abbrev pub Writes : (Call → Bool) → Type 0
Writes ok = (ns name : Name) (p : ActionPhase) → ok (update_action_status ns name p) ≡ true

abbrev pub Fails : (Call → Bool) → Type 0
Fails ok = (ns name : Name) (p : ActionPhase) → ok (update_action_status ns name p) ≡ false

-- The reconciliation left the item, or ran it and stored that it is completed.
IsOneStep : Item → Outcome → Type 0
IsOneStep item o =
    ((o.ran ≡ false) × (o.item ≡ item)) ⊎ ((o.ran ≡ true) × (o.item.phase ≡ some "completed"))

run_action-completes :
    (ok : Call → Bool) (listing : Listing) (a : GpuOptimizationAction) (before : List Call)
    (item : Item)
    → Writes ok
    → (run_action ok listing a before item).item.phase ≡ some "completed"
unfolding run_action
run_action-completes ok listing a before item writes =
    rw (execute_reports_success ok listing a, run_action)
      (rw (writes a.namespace a.name completed) refl)

run_action-ran :
    (ok : Call → Bool) (listing : Listing) (a : GpuOptimizationAction) (before : List Call)
    (item : Item)
    → (run_action ok listing a before item).ran ≡ true
unfolding run_action
run_action-ran ok listing a before item = refl

reconcile_built-IsOneStep :
    (ok : Call → Bool) (listing : Listing) (a : GpuOptimizationAction) (p : ActionPhase)
    (item : Item)
    → Writes ok
    → IsOneStep item (reconcile_built ok listing a p item)
unfolding reconcile_built IsOneStep
reconcile_built-IsOneStep ok listing a pending item w =
    inr (run_action-ran ok listing _ _ _, run_action-completes ok listing _ _ _ w)
reconcile_built-IsOneStep ok listing a approved item w = inl (refl, refl)
reconcile_built-IsOneStep ok listing a running item w =
    inr (run_action-ran ok listing a [] item, run_action-completes ok listing a [] item w)
reconcile_built-IsOneStep ok listing a completed item w = inl (refl, refl)
reconcile_built-IsOneStep ok listing a failed item w = inl (refl, refl)
reconcile_built-IsOneStep ok listing a rolled_back item w = inl (refl, refl)

reconcile_action-IsOneStep :
    (ok : Call → Bool) (listing : Listing) (item : Item)
    → Writes ok
    → IsOneStep item (reconcile_action ok listing item)
unfolding reconcile_action IsOneStep
reconcile_action-IsOneStep ok listing item w = elim (Option-cases (build_action item)) [
  | inl e ↦ rw (e, reconcile_action) (inl (refl, refl))
  | inr (a, e) ↦ rw (e, reconcile_action) (reconcile_built-IsOneStep ok listing a a.phase item w)
]

-- An action of a phase, where the item has a type.
pub built_phase :
    (item : Item) (a : GpuOptimizationAction) (s : String)
    → item.phase ≡ some s
    → build_action item ≡ some a
    → a.phase ≡ phase_of s
unfolding build_action build_with
built_phase item a s e f = elim (Option-cases (action_type_of item.action_type)) [
  | inl g ↦ absurd (ground arith)
  | inr (t, g) ↦ ground arith
]

completed_idle :
    (ok : Call → Bool) (listing : Listing) (item : Item)
    → item.phase ≡ some "completed"
    → reconcile_action ok listing item ≡ idle item
unfolding reconcile_action reconcile_built phase_of
completed_idle ok listing item e = elim (Option-cases (build_action item)) [
  | inl f ↦ rw (f, reconcile_action) refl
  | inr (a, f) ↦
      let p : a.phase ≡ completed = built_phase item a "completed" e f in
      rw (f, reconcile_action) (rw (p, reconcile_built) refl)
]

completed_many :
    (oks : List (Call → Bool)) (listing : Listing) (item : Item)
    → item.phase ≡ some "completed"
    → reconcile_many oks listing item ≡ (0, item)
unfolding reconcile_many
completed_many [] listing item e = refl
completed_many (ok ∷ oks) listing item e =
    rw (completed_idle ok listing item e) (rw (completed_many oks listing item e) refl)

-- When every status update of the action succeeds, any number of reconciliations runs the adapter
-- for it at most once.
pub runs_at_most_once :
    (oks : List (Call → Bool)) (listing : Listing) (item : Item)
    → All Writes oks
    → (reconcile_many oks listing item).0 ≤ 1
unfolding reconcile_many IsOneStep
runs_at_most_once [] listing item writes = omega arith
runs_at_most_once (ok ∷ oks) listing item (w, writes) =
    elim (reconcile_action-IsOneStep ok listing item w) [
      | inl (idle_now, same) ↦
          rw (idle_now, reconcile_many) (rw (same) (runs_at_most_once oks listing item writes))
      | inr (ran_now, ended) ↦
          rw (ran_now, reconcile_many)
            (rw (completed_many oks listing (reconcile_action ok listing item).item ended)
              (omega arith))
    ]

-- An action that waits to run, whose type is known.
abbrev pub IsWaiting : Item → Type 0
IsWaiting item =
    (a : GpuOptimizationAction) × (build_action item ≡ some a)
    × ((a.phase ≡ pending) ⊎ (a.phase ≡ running))

unwritten :
    (ok : Call → Bool) (listing : Listing) (a : GpuOptimizationAction) (before : List Call)
    (item : Item)
    → Fails ok
    → (run_action ok listing a before item).item ≡ item
unfolding run_action
unwritten ok listing a before item fails = rw (fails a.namespace a.name _) refl

waiting_runs :
    (ok : Call → Bool) (listing : Listing) (item : Item)
    → Fails ok
    → IsWaiting item
    → ((reconcile_action ok listing item).ran ≡ true)
      × ((reconcile_action ok listing item).item ≡ item)
unfolding reconcile_action reconcile_built
waiting_runs ok listing item fails (a, e, inl p) =
    rw (e, reconcile_action)
      (rw (p, reconcile_built)
        (rw (fails a.namespace a.name running)
          (run_action-ran ok listing _ _ item, unwritten ok listing _ _ item fails)))
waiting_runs ok listing item fails (a, e, inr p) =
    rw (e, reconcile_action)
      (rw (p, reconcile_built)
        (run_action-ran ok listing _ _ item, unwritten ok listing _ _ item fails))

-- When no status update succeeds, a waiting action is run again by every reconciliation.
pub failing_updates_rerun :
    (oks : List (Call → Bool)) (listing : Listing) (item : Item)
    → All Fails oks
    → IsWaiting item
    → (reconcile_many oks listing item).0 ≡ length oks
unfolding reconcile_many
failing_updates_rerun [] listing item fails waiting = refl
failing_updates_rerun (ok ∷ oks) listing item (f, fails) waiting =
    let (ran_now, same) = waiting_runs ok listing item f waiting in
    rw (ran_now, reconcile_many)
      (rw (same) (ap suc (failing_updates_rerun oks listing item fails waiting)))

waiting_completes :
    (ok : Call → Bool) (listing : Listing) (item : Item)
    → Writes ok
    → IsWaiting item
    → ((reconcile_action ok listing item).ran ≡ true)
      × ((reconcile_action ok listing item).item.phase ≡ some "completed")
unfolding reconcile_action reconcile_built
waiting_completes ok listing item w (a, e, inl p) =
    rw (e, reconcile_action)
      (rw (p, reconcile_built)
        (run_action-ran ok listing _ _ _, run_action-completes ok listing _ _ _ w))
waiting_completes ok listing item w (a, e, inr p) =
    rw (e, reconcile_action)
      (rw (p, reconcile_built)
        (run_action-ran ok listing _ _ item, run_action-completes ok listing _ _ item w))

-- When the status updates of the first reconciliation succeed, one reconciliation or more run the
-- adapter exactly once for an action that is pending or running, and leave it completed.
pub waiting_runs_once :
    (ok : Call → Bool) (oks : List (Call → Bool)) (listing : Listing) (item : Item)
    → Writes ok
    → IsWaiting item
    → ((reconcile_many (ok ∷ oks) listing item).0 ≡ 1)
      × ((reconcile_many (ok ∷ oks) listing item).1.phase ≡ some "completed")
unfolding reconcile_many
waiting_runs_once ok oks listing item w waiting =
    let (ran_now, ended) = waiting_completes ok listing item w waiting in
    rw (ran_now, reconcile_many)
      (rw (completed_many oks listing (reconcile_action ok listing item).item ended) (refl, ended))
