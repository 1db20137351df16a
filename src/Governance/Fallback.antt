-- ===== src/Governance/Fallback.antt =====
-- `FallbackEngine` of src/gpuopt/model_governance/fallback.py, on the registry and the times at
-- which the fallback of each class began. Drift reports come as their scores. The reasons are
-- constructors; the heuristics' answers are data for the client and left out.
use gpuopt.Base.{
  ℕ, ◌*◌, ◌-◌, Bool, true, false, not, Option, none, some, List, any, ltb, is_none, if◌then◌else◌,
}
use gpuopt.Base.Dict.{Dict, lookup, insert, erase, has_key}
use gpuopt.Governance.Models.{ModelActionClass, action_class_eq, ModelVersion, FallbackConfig}
use gpuopt.Governance.Registry.{ModelRegistry, get_champion, set_fallback}

pub data Reason : Type 0 where
  disabled low_confidence drift stale_data forced_recovery_check no_reason : Reason

abbrev pub Starts : Type 0
Starts = Dict ModelActionClass ℕ

-- More than `hours` have gone by since `t`.
abbrev pub hours_since : ℕ → ℕ → ℕ → Bool
hours_since t now hours = ltb (hours * 3600) (now - t)

abbrev pub is_stale : Option ℕ → ℕ → ℕ → Bool
is_stale none now hours = false
is_stale (some window_end) now hours = hours_since window_end now hours

abbrev pub overdue : Option ℕ → ℕ → ℕ → Bool
overdue none now hours = false
overdue (some start) now hours = hours_since start now hours

unfoldable pub should_fallback :
    FallbackConfig → ModelVersion → ℕ → List ℕ → ℕ → Starts → Bool × Reason
should_fallback config v confidence drift_scores now starts =
    if not config.enabled
    then (false, disabled)
    else if ltb confidence config.confidence_threshold
    then (true, low_confidence)
    else if any (λ s. ltb config.drift_score_threshold s) drift_scores
    then (true, drift)
    else if is_stale v.training_data_window_end now config.max_data_stale_hours
    then (true, stale_data)
    else if overdue (lookup v.action_class starts) now config.max_fallback_duration_hours
    then (false, forced_recovery_check)
    else (false, no_reason)

-- `setdefault`
abbrev pub set_default : ModelActionClass → ℕ → Starts → Starts
set_default c now starts = if has_key c starts then starts else insert c now starts

unfoldable pub activate_fallback :
    ModelActionClass → ℕ → ModelRegistry × Starts → ModelRegistry × Starts
activate_fallback c now (r, starts) = (set_fallback c true r, set_default c now starts)

unfoldable pub deactivate_fallback :
    ModelActionClass → ModelRegistry × Starts → ModelRegistry × Starts
deactivate_fallback c (r, starts) = (set_fallback c false r, erase c starts)

unfoldable pub is_fallback_active : ModelActionClass → Starts → Bool
is_fallback_active c starts = has_key c starts

unfoldable pub check_recovery :
    FallbackConfig
    → ModelVersion
    → ℕ
    → List ℕ
    → ℕ
    → ModelRegistry × Starts
    → Bool × (ModelRegistry × Starts)
check_recovery config v confidence drift_scores now (r, starts) =
    if is_none (get_champion v.action_class r)
    then (false, (r, starts))
    else if (should_fallback config v confidence drift_scores now starts).0
    then (false, (r, starts))
    else (true, deactivate_fallback v.action_class (r, starts))
