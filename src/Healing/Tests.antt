-- ===== src/Healing/Tests.antt =====
-- A hot node with memory errors.
use gpuopt.Base.{none, some, []}
use gpuopt.Healing.{Telemetry, AutoHealer, execute_remediation, health_status, risk_score}
use gpuopt.Healing.Scores.{Treated, execute_remediation_treats}

abbrev broken : Telemetry
broken = record {
  temperature = some 90;
  ecc_errors = some 30;
  memory_utilization = none;
  gpu_utilization = none;
  xid_errors = none;
}

abbrev healer : AutoHealer
healer = record { remediation_history = []; active_remediations = [] }

execute_remediation_treats_example :
    Treated (health_status (risk_score broken)) "n1" healer (execute_remediation broken "n1" healer)
execute_remediation_treats_example = execute_remediation_treats broken "n1" healer
