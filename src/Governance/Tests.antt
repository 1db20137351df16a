-- ===== src/Governance/Tests.antt =====
-- The governance theorems at a concrete registry: two versions of one class, the first its
-- champion, the second its challenger.
use gpuopt.Base.{ℕ, ◌≡◌, true, refl, String, Option, none, some, [], ◌∷◌, string_eq, arith}
use gpuopt.Base.Dict.{lookup}
use gpuopt.Governance.Models.{
  Uuid, cost_estimation, action_class_eq, ModelStatus, draft, challenger, champion, ApprovalStatus,
  pending, ModelVersion, ApprovalRequest, GovernanceConfig, ModelActionClass-discrete,
}
use gpuopt.Governance.Registry.{
  ModelRegistry, empty_registry, register, get, update_status, get_champion, get_challenger,
  promote_challenger, assign, version_at,
}
use gpuopt.Governance.Registry.Laws.{IsSound}
use gpuopt.Governance.Registry.Runs.{registers, updates, Reachable, start, step, Reachable-IsSound}
use gpuopt.Governance.Registry.Promotion.{with_status, promote_challenger_effect}
use gpuopt.Governance.Approval.{reject, requires_approval}
use gpuopt.Governance.Approval.Laws.{rejected_still_champion}
use gpuopt.Governance.Governor.{Governor, set_champion, predict, model}
use gpuopt.Governance.Governor.Laws.{set_champion_exact}
use gpuopt.Governance.Governor.Predict.{predict_model_iff, Agrees}

abbrev version_named : Uuid → Option String → ModelVersion
version_named vid by = record {
  id = vid;
  model_name = "cost";
  version = vid;
  action_class = cost_estimation;
  status = draft;
  owner = "ann";
  created_at = 0;
  updated_at = 0;
  training_data_window_end = none;
  approved_by = by;
  approved_at = none;
  approval_note = "";
  certification_days = 90;
  certified_until = none;
}

abbrev first : ModelVersion
first = version_named "a" (some "bob")

abbrev second : ModelVersion
second = version_named "b" none

abbrev with_first : ModelRegistry
with_first = (update_status "a" champion 5 (register first empty_registry)).1

abbrev with_both : ModelRegistry
with_both = (update_status "b" challenger 6 (register second with_first)).1

second_is_new : lookup "b" with_first.versions ≡ none
unfolding update_status register assign
second_is_new = refl

with_both-Reachable : Reachable with_both
with_both-Reachable =
    step
      (step (step (step start (registers first empty_registry refl)) (updates "a" champion 5 _))
        (registers second with_first second_is_new))
      (updates "b" challenger 6 _)

with_both-IsSound : IsSound with_both
with_both-IsSound = Reachable-IsSound with_both-Reachable

Reachable-IsSound_example : IsSound with_both
Reachable-IsSound_example = Reachable-IsSound with_both-Reachable

champion_first : get_champion cost_estimation with_both ≡ some (with_status champion 5 first)
unfolding update_status register assign get_champion version_at ModelActionClass-discrete
champion_first = refl

challenger_second :
    get_challenger cost_estimation with_both ≡ some (with_status challenger 6 second)
unfolding update_status register assign get_challenger version_at ModelActionClass-discrete
challenger_second = refl

promote_challenger_effect_example :
    get_champion cost_estimation (promote_challenger cost_estimation 9 with_both).1
    ≡ some (with_status champion 9 second)
promote_challenger_effect_example =
    (promote_challenger_effect cost_estimation 9 with_both (with_status challenger 6 second)
      with_both-IsSound challenger_second).1

abbrev config : GovernanceConfig
config = record {
  fallback = record {
    enabled = true;
    confidence_threshold = 60;
    max_data_stale_hours = 168;
    drift_score_threshold = 30;
    max_fallback_duration_hours = 24;
  };
  high_impact_action_classes = cost_estimation ∷ [];
  recertification_reminder_days = 14;
}

abbrev governor : Governor
governor = record { registry = with_both; requests = []; starts = [] }

first_stored : get "a" with_both ≡ some (with_status champion 5 first)
unfolding update_status register assign
first_stored = refl

second_stored : get "b" with_both ≡ some (with_status challenger 6 second)
unfolding update_status register assign
second_stored = refl

second_needs_approval : requires_approval config (with_status challenger 6 second) ≡ true
unfolding requires_approval ModelActionClass-discrete
second_needs_approval = refl

-- The unapproved second version is promoted by a request for the approved first one.
set_champion_exact_example :
    ((set_champion config "a" 9 governor).0 ≡ some (with_status champion 9 second))
    × (get_champion cost_estimation (set_champion config "a" 9 governor).1.registry
        ≡ some (with_status champion 9 second))
set_champion_exact_example =
    (set_champion_exact config "a" 9 governor with_both-IsSound).0 (with_status challenger 6 second)
      (
        with_status champion 5 first,
        first_stored,
        ((λ needed q. cc), (λ t e. absurd cc)),
        challenger_second,
      )

predict_model_iff_example :
    (predict config cost_estimation 80 (10 ∷ []) 9 governor).0 ≡ model "a" 80
predict_model_iff_example =
    (predict_model_iff config cost_estimation 80 (10 ∷ []) 9 governor (with_status champion 5 first)
        with_both-IsSound champion_first).1
      (λ h. (omega arith, (omega arith, tt), (λ t e. absurd cc)))

governor-Agrees : Agrees governor
unfolding update_status register assign
governor-Agrees c = refl

abbrev request_for : Uuid → ApprovalStatus → Option ℕ → ApprovalRequest
request_for vid s until = record {
  id = "r";
  model_version_id = vid;
  action_class = cost_estimation;
  requested_by = "ann";
  requested_at = 1;
  status = s;
  reviewed_by = none;
  reviewed_at = none;
  review_notes = "";
  certification_period_days = 90;
  certified_until = until;
}

rejected_still_champion_example :
    get_champion cost_estimation
      (reject "r" "eve" "no" 9 (with_both, ("r", request_for "a" pending none) ∷ [])).1.0
    ≡ some (with_status ModelStatus.rejected 9 first)
rejected_still_champion_example =
    rejected_still_champion "r" "eve" "no" 9 with_both (("r", request_for "a" pending none) ∷ [])
      (request_for "a" pending none) cost_estimation (with_status champion 5 first)
      with_both-IsSound refl champion_first refl
