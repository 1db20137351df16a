-- ===== src/Guarded/Approval/Steps.antt =====
-- The lists of steps: what marking one step does to them.
use gpuopt.Base.{
  ℕ, ◌+◌, String, Bool, true, false, ◌&&◌, ◌||◌, not, ◌≡◌, refl, ap, some, List, [], ◌∷◌, any, all,
  arith, string_eq,
}
use gpuopt.Guarded.Approval.{
  ApprovalStatus, approved, rejected, is_pending, is_approved, is_rejected, ApprovalStep, mark_step,
  number_steps, initial_steps, effective_approvers,
}

abbrev pub step_pending : ApprovalStep → Bool
step_pending s = is_pending s.status

abbrev pub step_approved : ApprovalStep → Bool
step_approved s = is_approved s.status

abbrev pub step_rejected : ApprovalStep → Bool
step_rejected s = is_rejected s.status

-- A step that does not stand in the way: pending or approved.
abbrev pub step_open : ApprovalStep → Bool
step_open s = step_pending s || step_approved s

abbrev pub approvers : List ApprovalStep → List String
approvers [] = []
approvers (s ∷ rest) = s.approver ∷ approvers rest

module _ (who : String) (now : ℕ) (why : String) where
  pub mark_step-approvers :
      (verdict : ApprovalStatus) (steps : List ApprovalStep) {marked : List ApprovalStep}
      → mark_step verdict who now why steps ≡ some marked
      → approvers marked ≡ approvers steps
  unfolding mark_step
  mark_step-approvers verdict [] h = cc
  mark_step-approvers verdict (s ∷ rest) h = grind (arith, mark_step-approvers verdict rest)

  pub mark_step-all_open :
      (steps : List ApprovalStep) {marked : List ApprovalStep}
      → mark_step approved who now why steps ≡ some marked
      → all step_open steps ≡ true
      → all step_open marked ≡ true
  unfolding mark_step
  mark_step-all_open [] h o = cc
  mark_step-all_open (s ∷ rest) h o = grind (arith, mark_step-all_open rest)

  pub mark_step-any_rejected :
      (steps : List ApprovalStep) {marked : List ApprovalStep}
      → mark_step rejected who now why steps ≡ some marked
      → any step_rejected marked ≡ true
  unfolding mark_step
  mark_step-any_rejected [] h = cc
  mark_step-any_rejected (s ∷ rest) h = grind (arith, mark_step-any_rejected rest)

-- No step is rejected where all are pending or approved.
pub all_open_none_rejected :
    (steps : List ApprovalStep) → all step_open steps ≡ true → any step_rejected steps ≡ false
all_open_none_rejected [] h = refl
all_open_none_rejected (s ∷ rest) h = ground (arith, all_open_none_rejected rest)

-- Where all are pending or approved, either one is pending or all are approved.
pub all_open_undecided :
    (steps : List ApprovalStep)
    → all step_open steps ≡ true
    → (all (λ s. not (step_pending s)) steps && all step_approved steps) ≡ false
    → any step_pending steps ≡ true
all_open_undecided [] h u = cc
all_open_undecided (s ∷ rest) h u = ground (arith, all_open_undecided rest)

number_steps-approvers : (i : ℕ) (who : List String) → approvers (number_steps i who) ≡ who
unfolding number_steps
number_steps-approvers i [] = refl
number_steps-approvers i (w ∷ rest) = ap (λ l. w ∷ l) (number_steps-approvers (i + 1) rest)

number_steps-all_open : (i : ℕ) (who : List String) → all step_open (number_steps i who) ≡ true
unfolding number_steps
number_steps-all_open i [] = refl
number_steps-all_open i (w ∷ rest) = number_steps-all_open (i + 1) rest

pub initial_steps-approvers :
    (who : List String) → approvers (initial_steps who) ≡ effective_approvers who
unfolding initial_steps
initial_steps-approvers [] = refl
initial_steps-approvers (w ∷ rest) = number_steps-approvers 0 (w ∷ rest)

pub initial_steps_open :
    (who : List String)
    → (all step_open (initial_steps who) ≡ true) × (any step_pending (initial_steps who) ≡ true)
unfolding initial_steps
initial_steps_open [] = (refl, refl)
initial_steps_open (w ∷ rest) = (number_steps-all_open 0 (w ∷ rest), refl)
