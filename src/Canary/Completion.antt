-- ===== src/Canary/Completion.antt =====
-- A deployment whose steps pass is completed.
use gpuopt.Base.{
  ℕ, zero, suc, ◌+◌, ◌-◌, ◌≤◌, ◌<◌, String, Bool, true, false, Option, none, some, List, [], ◌∷◌,
  All, ◌≡◌, ◌>>=◌, refl, subst, ◌∙◌, if◌then◌else◌, length, leb, arith,
}
use gpuopt.Canary.{
  StepStatus, passed, active, CanaryStep, completed, CanaryDeployment, Metrics, evaluate, mark,
  step_at, pass_step, advance,
}
use gpuopt.Canary.Progress.{IsConsistent, advance-IsConsistent, step_at-some, length-mark}

-- The metrics meet the criteria of every step.
abbrev pub AllMet : Metrics → List CanaryStep → Type 0
AllMet metrics steps = All (λ (s : CanaryStep). evaluate metrics s.success_criteria ≡ true) steps

mark-AllMet :
    (metrics : Metrics) (i : ℕ) (st : StepStatus) (steps : List CanaryStep)
    → AllMet metrics steps
    → AllMet metrics (mark i st steps)
unfolding mark
mark-AllMet metrics i st [] h = tt
mark-AllMet metrics zero st (s ∷ steps) h = h
mark-AllMet metrics (suc i) st (s ∷ steps) (at, rest) = (at, mark-AllMet metrics i st steps rest)

met_at :
    (metrics : Metrics) (i : ℕ) (steps : List CanaryStep) (s : CanaryStep)
    → AllMet metrics steps
    → step_at i steps ≡ some s
    → evaluate metrics s.success_criteria ≡ true
unfolding step_at
met_at metrics i [] s h found = absurd cc
met_at metrics zero (x ∷ steps) s (at, rest) found =
    let e : x ≡ s = cc in
    subst (λ (z : CanaryStep). evaluate metrics z.success_criteria ≡ true) e at
met_at metrics (suc i) (x ∷ steps) s (at, rest) found = met_at metrics i steps s rest found

beyond_last : (i : ℕ) (steps : List CanaryStep) → length steps ≤ i → step_at i steps ≡ none
unfolding step_at
beyond_last i [] h = refl
beyond_last zero (x ∷ steps) h = absurd (omega arith)
beyond_last (suc i) (x ∷ steps) h = beyond_last i steps (omega arith)

-- A deployment advanced a number of times with the same metrics.
abbrev pub advance_times : ℕ → String → Metrics → CanaryDeployment → Option CanaryDeployment
advance_times zero fresh metrics dep = some dep
advance_times (suc n) fresh metrics dep =
    advance fresh metrics dep >>= (λ (dep', plan). advance_times n fresh metrics dep')

passes :
    (fresh : String) (metrics : Metrics) (dep : CanaryDeployment)
    → dep.current_step < length dep.steps
    → AllMet metrics dep.steps
    → advance fresh metrics dep ≡ some (pass_step dep, none)
unfolding advance
passes fresh metrics dep here met =
    let (step, found) = step_at-some dep.current_step dep.steps here in
    rw (found, advance) (rw (met_at metrics dep.current_step dep.steps step met found) refl)

either :
    (P : List CanaryStep → Type 0) (b : Bool) (x y : List CanaryStep)
    → P x
    → P y
    → P (if b then x else y)
either P true x y p q = p
either P false x y p q = q

-- What a passed step keeps.
passed_on :
    (metrics : Metrics) (dep : CanaryDeployment)
    → AllMet metrics dep.steps
    → let dep' = pass_step dep in
      AllMet metrics dep'.steps
      × (length dep'.steps ≡ length dep.steps)
      × (dep'.current_step ≡ suc dep.current_step)
      × (dep'.rollback_triggered ≡ dep.rollback_triggered)
unfolding pass_step
passed_on metrics dep met =
    let b = leb (length dep.steps) (dep.current_step + 1) in
    let marked = mark-AllMet metrics dep.current_step passed dep.steps met in
    (
      either (AllMet metrics) b _ _ marked
          (mark-AllMet metrics (dep.current_step + 1) active _ marked),
      either (λ steps. length steps ≡ length dep.steps) b _ _
          (length-mark dep.current_step passed dep.steps)
          (length-mark (dep.current_step + 1) active _
            ∙ length-mark dep.current_step passed dep.steps),
      omega arith,
      refl,
    )

abbrev pub Completes : ℕ → String → Metrics → CanaryDeployment → Type 0
Completes n fresh metrics dep =
    (dep' : CanaryDeployment) × (advance_times n fresh metrics dep ≡ some dep')
    × (dep'.status ≡ completed)
    × (dep'.rollback_triggered ≡ dep.rollback_triggered)
    × ((other : String) (more : Metrics) → advance other more dep' ≡ none)

Completes-in :
    (n : ℕ) (fresh : String) (metrics : Metrics) (dep : CanaryDeployment)
    → IsConsistent dep
    → AllMet metrics dep.steps
    → n + dep.current_step ≡ length dep.steps
    → Completes n fresh metrics dep
unfolding advance
Completes-in zero fresh metrics dep c met e = (
  dep,
  refl,
  c.done.1 (omega arith),
  refl,
  (λ other more. rw (beyond_last dep.current_step dep.steps (omega arith), advance) refl),
)
Completes-in (suc n) fresh metrics dep c met e =
    let is = passes fresh metrics dep (omega arith) met in
    let (met', size, next, kept) = passed_on metrics dep met in
    let c' = advance-IsConsistent fresh metrics dep (pass_step dep) none is c in
    let (dep', run, done, same, stop) =
      Completes-in n fresh metrics (pass_step dep) c' met' (omega arith) in
    (dep', rw (is, advance_times) run, done, same ∙ kept, stop)

-- A consistent deployment whose remaining steps are all advanced with metrics that meet the criteria
-- of its steps is completed after exactly as many advances as steps remain, and a further advance
-- raises an IndexError. This holds of one that was rolled back as well, whose rollback mark stays.
pub advance-Completes :
    (fresh : String) (metrics : Metrics) (dep : CanaryDeployment)
    → IsConsistent dep
    → AllMet metrics dep.steps
    → Completes (length dep.steps - dep.current_step) fresh metrics dep
advance-Completes fresh metrics dep c met =
    let low = c.bound in
    Completes-in (length dep.steps - dep.current_step) fresh metrics dep c met (omega arith)
