-- ===== src/Healing.antt =====
-- Node health scores and what is done about them, src/gpuopt/healing/auto_healer.py. A risk score is
-- a number of hundredths, and the code's sums are taken as exact; a reading that is missing is 0.
-- Messages and durations are left out.
mod Scores
mod Tests
use gpuopt.Base.{
  ℕ, ◌+◌, String, Bool, Option, none, some, List, [], ◌∷◌, ◌++◌, last, ltb, leb, if◌then◌else◌,
  string_eq,
}
use gpuopt.Base.Dict.{Dict, insert}

pub record Telemetry : Type 0 where
  pub temperature : Option ℕ
  pub ecc_errors : Option ℕ
  pub memory_utilization : Option ℕ
  pub gpu_utilization : Option ℕ
  pub xid_errors : Option ℕ

pub data RemediationAction : Type 0 where
  cordon : RemediationAction
  drain : RemediationAction
  restart : RemediationAction
  scale_up : RemediationAction
  scale_down : RemediationAction
  reboot : RemediationAction

pub data ResultStatus : Type 0 where
  proposed : ResultStatus
  executed : ResultStatus
  skipped : ResultStatus

pub record RemediationResult : Type 0 where
  pub node_id : String
  pub action : RemediationAction
  pub status : ResultStatus

pub record AutoHealer : Type 0 where
  pub remediation_history : List RemediationResult
  pub active_remediations : Dict String RemediationAction

pub data HealthStatus : Type 0 where
  healthy : HealthStatus
  warning : HealthStatus
  degraded : HealthStatus
  critical : HealthStatus

-- `telemetry.get(key, 0)`
abbrev pub reading : Option ℕ → ℕ
reading none = 0
reading (some n) = n

-- What a reading adds to the score: above the first bound, or else above the second.
unfoldable pub graded : ℕ → ℕ → ℕ → ℕ → ℕ → ℕ
graded high score low score' n = if ltb high n then score else (if ltb low n then score' else 0)

-- The score of `check_node_health`.
unfoldable pub risk_score : Telemetry → ℕ
unfolding graded
risk_score t =
    graded 85 40 75 20 (reading t.temperature)
    + graded 20 40 10 20 (reading t.ecc_errors)
    + graded 95 30 85 15 (reading t.memory_utilization)
    + graded 95 20 95 20 (reading t.gpu_utilization)
    + graded 10 50 5 25 (reading t.xid_errors)

-- The `health_status` of `check_node_health`.
unfoldable pub health_status : ℕ → HealthStatus
health_status risk =
    if leb 80 risk
    then critical
    else (if leb 40 risk then degraded else (if leb 20 risk then warning else healthy))

-- `suggest_remediation`
unfoldable pub suggest_remediation : Telemetry → String → Option RemediationResult
unfolding risk_score
suggest_remediation t node_id =
    let risk = risk_score t in
    if ltb risk 40
    then none
    else some (record {
      node_id = node_id;
      action = if leb 80 risk then cordon else (if leb 60 risk then drain else restart);
      status = proposed;
    })

unfoldable pub carry_out :
    String → Option RemediationResult → AutoHealer → RemediationResult × AutoHealer
carry_out node_id none h = (record { node_id = node_id; action = scale_down; status = skipped }, h)
carry_out node_id (some r) h =
    let done : RemediationResult = record {
      node_id = r.node_id;
      action = r.action;
      status = executed;
    } in
    (
      done,
      record {
        remediation_history = h.remediation_history ++ (done ∷ []);
        active_remediations = insert node_id r.action h.active_remediations;
      },
    )

-- `execute_remediation`
unfoldable pub execute_remediation :
    Telemetry → String → AutoHealer → RemediationResult × AutoHealer
unfolding suggest_remediation carry_out
execute_remediation t node_id h = carry_out node_id (suggest_remediation t node_id) h

-- `get_history`
abbrev pub get_history : ℕ → AutoHealer → List RemediationResult
get_history limit h = last limit h.remediation_history

-- `clear_history`
abbrev pub clear_history : AutoHealer → AutoHealer
clear_history h = record { remediation_history = []; active_remediations = [] }
