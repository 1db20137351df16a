-- ===== src/Governance/Models.antt =====
-- The data of src/gpuopt/model_governance/models.py that the registry, the approval manager, the
-- fallback engine and the governor read. A UUID is its text, a time is in seconds, and a confidence
-- or drift score is a whole number in a fixed unit: the code compares and adds them only.
use gpuopt.Base.{ℕ, String, Bool, Option, List, Eq, dec_beq, dec_beq_iff}

abbrev pub Uuid : Type 0
Uuid = String

pub data ModelActionClass : Type 0 where
  anomaly_detection demand_forecast recommendation_scoring placement_optimization : ModelActionClass
  cost_estimation drift_detection power_optimization : ModelActionClass

unfoldable pub ModelActionClass-discrete : Discrete ModelActionClass
ModelActionClass-discrete = hlevel

instance abbrev pub action_class_eq : Eq ModelActionClass
action_class_eq = record {
  beq = dec_beq ModelActionClass-discrete;
  beq_iff = dec_beq_iff ModelActionClass-discrete;
}

pub data ModelStatus : Type 0 where
  draft challenger champion deprecated rejected archived : ModelStatus

pub data ApprovalStatus : Type 0 where
  pending approved rejected expired : ApprovalStatus

pub record ModelVersion : Type 0 where
  pub id : Uuid
  pub model_name : String
  pub version : String
  pub action_class : ModelActionClass
  pub status : ModelStatus
  pub owner : String
  pub created_at : ℕ
  pub updated_at : ℕ
  pub training_data_window_end : Option ℕ
  pub approved_by : Option String
  pub approved_at : Option ℕ
  pub approval_note : String
  pub certification_days : ℕ
  pub certified_until : Option ℕ

pub record ApprovalRequest : Type 0 where
  pub id : Uuid
  pub model_version_id : Uuid
  pub action_class : ModelActionClass
  pub requested_by : String
  pub requested_at : ℕ
  pub status : ApprovalStatus
  pub reviewed_by : Option String
  pub reviewed_at : Option ℕ
  pub review_notes : String
  pub certification_period_days : ℕ
  pub certified_until : Option ℕ

pub record FallbackConfig : Type 0 where
  pub enabled : Bool
  pub confidence_threshold : ℕ
  pub max_data_stale_hours : ℕ
  pub drift_score_threshold : ℕ
  pub max_fallback_duration_hours : ℕ

pub record GovernanceConfig : Type 0 where
  pub fallback : FallbackConfig
  pub high_impact_action_classes : List ModelActionClass
  pub recertification_reminder_days : ℕ
