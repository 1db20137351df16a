-- ===== src/Canary/Progress.antt =====
-- What a deployment goes through.
use gpuopt.Base.{
  ◌==◌, string_eq, ℕ, zero, suc, ◌+◌, ◌≤◌, ◌<◌, String, Bool, true, false, Option, none, some, List,
  [], ◌∷◌, All, ◌≡◌, ◌↔◌, inl, inr, refl, sym, ap, subst, ◌∙◌, if◌then◌else◌, length, take, leb,
  arith, Bool-cases, Option-cases,
}
use gpuopt.Canary.{
  StepStatus, passed, active, failed, CanaryStep, DeploymentStatus, completed, CanaryDeployment,
  RollbackPlan, Metrics, evaluate, mark, step_at, pass_step, fail_step, create_plan, advance,
  create, template, CanaryManager,
}

abbrev pub Passed : List CanaryStep → Type 0
Passed steps = All (λ (s : CanaryStep). s.status ≡ passed) steps

-- The steps before the current one have passed, and the deployment is completed exactly when there
-- is no current one.
pub record IsConsistent (dep : CanaryDeployment) : Type 0 where
  pub before : Passed (take dep.current_step dep.steps)
  pub bound : dep.current_step ≤ length dep.steps
  pub done : (dep.status ≡ completed) ↔ (length dep.steps ≤ dep.current_step)

pub length-mark :
    (i : ℕ) (st : StepStatus) (steps : List CanaryStep) → length (mark i st steps) ≡ length steps
unfolding mark
length-mark i st [] = refl
length-mark zero st (s ∷ steps) = refl
length-mark (suc i) st (s ∷ steps) = ap suc (length-mark i st steps)

take-mark :
    (i : ℕ) (st : StepStatus) (steps : List CanaryStep) → take i (mark i st steps) ≡ take i steps
unfolding mark
take-mark i st [] = refl
take-mark zero st (s ∷ steps) = refl
take-mark (suc i) st (s ∷ steps) = ap (λ l. s ∷ l) (take-mark i st steps)

Passed-mark :
    (i : ℕ) (steps : List CanaryStep)
    → Passed (take i steps)
    → Passed (take (suc i) (mark i passed steps))
unfolding mark
Passed-mark i [] h = tt
Passed-mark zero (s ∷ steps) h = (refl, tt)
Passed-mark (suc i) (s ∷ steps) (at, rest) = (at, Passed-mark i steps rest)

step_at_lt :
    (i : ℕ) (steps : List CanaryStep) (s : CanaryStep) → step_at i steps ≡ some s → i < length steps
unfolding step_at
step_at_lt i [] s h = absurd cc
step_at_lt zero (x ∷ steps) s h = omega arith
step_at_lt (suc i) (x ∷ steps) s h = omega (arith, step_at_lt i steps s h)

pub step_at-some :
    (i : ℕ) (steps : List CanaryStep)
    → i < length steps
    → (s : CanaryStep) × (step_at i steps ≡ some s)
unfolding step_at
step_at-some i [] h = absurd (omega arith)
step_at-some zero (x ∷ steps) h = (x, refl)
step_at-some (suc i) (x ∷ steps) h = step_at-some i steps (omega arith)

-- The steps after a passed one, whether or not another one follows.
after_pass :
    (i : ℕ) (steps : List CanaryStep) (b : Bool)
    → Passed (take i steps)
    → let marked = mark i passed steps in
      let steps' = if b then marked else mark (i + 1) active marked in
      Passed (take (i + 1) steps') × (length steps' ≡ length steps)
after_pass i steps true h =
    let next : suc i ≡ i + 1 = omega arith in
    (
      subst (λ k. Passed (take k (mark i passed steps))) next (Passed-mark i steps h),
      length-mark i passed steps,
    )
after_pass i steps false h =
    let next : suc i ≡ i + 1 = omega arith in
    let marked = mark i passed steps in
    (
      subst (λ l. Passed l) (sym (take-mark (i + 1) active marked))
          (subst (λ k. Passed (take k marked)) next (Passed-mark i steps h)),
      length-mark (i + 1) active marked ∙ length-mark i passed steps,
    )

status_done :
    (st : DeploymentStatus) (size size' i : ℕ)
    → (st ≡ completed) ↔ (size ≤ i)
    → i < size
    → size' ≡ size
    → ((if leb size (i + 1) then completed else st) ≡ completed) ↔ (size' ≤ i + 1)
status_done st size size' i done here same = elim (Bool-cases (leb size (i + 1))) [
  | inl last ↦ rw (last) ((λ h. ground (arith, last, same)), (λ h. refl))
  | inr more ↦ rw (more) (
    (λ h. absurd (ground (arith, here, done.0 h))),
    (λ h. absurd (ground (arith, more, same, h))),
  )
]

pass_step-IsConsistent :
    (dep : CanaryDeployment)
    → dep.current_step < length dep.steps
    → IsConsistent dep
    → IsConsistent (pass_step dep)
unfolding pass_step
pass_step-IsConsistent dep here c =
    let out =
      after_pass dep.current_step dep.steps (leb (length dep.steps) (dep.current_step + 1))
        c.before in
    record {
      before = out.0;
      bound = omega (arith, out.1);
      done = status_done dep.status (length dep.steps) _ dep.current_step c.done here (out.1);
    }

fail_step-IsConsistent :
    (dep : CanaryDeployment)
    → dep.current_step < length dep.steps
    → IsConsistent dep
    → IsConsistent (fail_step dep)
unfolding fail_step
fail_step-IsConsistent dep here c =
    let size = length-mark dep.current_step failed dep.steps in
    record {
      before = subst (λ l. Passed l) (sym (take-mark dep.current_step failed dep.steps)) c.before;
      bound = omega (arith, size);
      done = ((λ h. absurd cc), (λ h. absurd (omega (arith, size))));
    }

advanced :
    (b : Bool) (p f : CanaryDeployment × Option RollbackPlan) (dep' : CanaryDeployment)
    (plan : Option RollbackPlan)
    → (if b then p else f) ≡ (dep', plan)
    → IsConsistent (p.0)
    → IsConsistent (f.0)
    → IsConsistent dep'
advanced true p f dep' plan h good bad =
    subst (λ (z : CanaryDeployment × Option RollbackPlan). IsConsistent (z.0)) h good
advanced false p f dep' plan h good bad =
    subst (λ (z : CanaryDeployment × Option RollbackPlan). IsConsistent (z.0)) h bad

pub advance-IsConsistent :
    (fresh : String) (metrics : Metrics) (dep dep' : CanaryDeployment) (plan : Option RollbackPlan)
    → advance fresh metrics dep ≡ some (dep', plan)
    → IsConsistent dep
    → IsConsistent dep'
unfolding advance
advance-IsConsistent fresh metrics dep dep' plan h c =
    elim (Option-cases (step_at dep.current_step dep.steps)) [
      | inl gone ↦ let is : advance fresh metrics dep ≡ none = rw (gone, advance) refl in absurd cc
      | inr (step, found) ↦
          let here = step_at_lt dep.current_step dep.steps step found in
          let good : CanaryDeployment × Option RollbackPlan = (pass_step dep, none) in
          let bad : CanaryDeployment × Option RollbackPlan =
            (fail_step dep, some (create_plan fresh dep.action_id dep.action_type)) in
          let out : CanaryDeployment × Option RollbackPlan =
            if evaluate metrics step.success_criteria then good else bad in
          let is : advance fresh metrics dep ≡ some out = rw (found, advance) refl in
          let same : out ≡ (dep', plan) = cc in
          advanced (evaluate metrics step.success_criteria) good bad dep' plan same
            (pass_step-IsConsistent dep here c) (fail_step-IsConsistent dep here c)
    ]

-- What happens to a deployment after its creation: it is advanced, any number of times.
pub data Run : CanaryDeployment → Type 0 where
  created :
      (fresh action_id action_type : String) (m : CanaryManager)
      → Run ((create fresh action_id action_type m).0)
  stepped :
      (fresh : String) (metrics : Metrics) (dep dep' : CanaryDeployment)
      (plan : Option RollbackPlan)
      → Run dep
      → advance fresh metrics dep ≡ some (dep', plan)
      → Run dep'

template_some : (action_type : String) → 0 < length (template action_type)
unfolding template
template_some action_type = elim (Bool-cases (action_type == "scale_down")) [
  | inl e ↦ rw (e) (omega arith)
  | inr e ↦ elim (Bool-cases (action_type == "preempt")) [
    | inl f ↦ rw (e) (rw (f) (omega arith))
    | inr f ↦ rw (e) (rw (f) (omega arith))
  ]
]

-- Of a deployment that was created and then advanced, every step before the current one has passed,
-- and it is completed exactly when no step is left: so all steps of a completed one have passed.
pub Run-IsConsistent : (dep : CanaryDeployment) → Run dep → IsConsistent dep
unfolding create
Run-IsConsistent dep (created fresh action_id action_type m) =
    let some_step = template_some action_type in
    record {
      before = tt;
      bound = omega arith;
      done = ((λ h. absurd cc), (λ h. absurd (omega (arith, some_step))));
    }
Run-IsConsistent dep' (stepped fresh metrics dep d plan r h) =
    advance-IsConsistent fresh metrics dep dep' plan h (Run-IsConsistent dep r)
