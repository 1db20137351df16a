-- ===== src/Guarded.antt =====
-- Guarded automation (src/gpuopt/guarded_automation.py): the policy engine's pre-flight check and
-- the multi-step approval workflow.
pub mod Policy
pub mod Approval
