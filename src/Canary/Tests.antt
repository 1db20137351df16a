-- ===== src/Canary/Tests.antt =====
-- A preemption whose first step fails, and which goes on all the same.
use gpuopt.Base.{◌-◌, true, false, some, [], ◌≡◌, refl, length, string_eq}
use gpuopt.Canary.{
  CanaryManager, CanaryDeployment, Metrics, create, advance, fail_step, create_plan, template,
}
use gpuopt.Canary.Progress.{Run, created, stepped, IsConsistent, Run-IsConsistent}
use gpuopt.Canary.Completion.{Completes, advance-Completes}

abbrev manager : CanaryManager
manager = record { deployments = []; plans = [] }

abbrev good : Metrics
good = record { error_rate = 0; latency_p99 = 500; error_count = 0; is_set = λ name. true }

abbrev bad : Metrics
bad = record { error_rate = 0; latency_p99 = 500; error_count = 0; is_set = λ name. false }

abbrev started : CanaryDeployment
started = (create "d" "a" "preempt" manager).0

abbrev failed_once : CanaryDeployment
failed_once = fail_step started

fails : advance "p" bad started ≡ some (failed_once, some (create_plan "p" "a" "preempt"))
unfolding advance create template
fails = refl

failed-Run : Run failed_once
failed-Run =
    stepped "p" bad started failed_once (some (create_plan "p" "a" "preempt"))
      (created "d" "a" "preempt" manager) fails

Run-IsConsistent_example : IsConsistent failed_once
Run-IsConsistent_example = Run-IsConsistent failed_once failed-Run

-- It was rolled back, and is completed after three advances.
advance-Completes_example :
    Completes (length failed_once.steps - failed_once.current_step) "p" good failed_once
unfolding fail_step create template advance
advance-Completes_example =
    advance-Completes "p" good failed_once (Run-IsConsistent failed_once failed-Run)
      (refl, (refl, (refl, tt)))
