-- ===== src/Governance.antt =====
-- Model governance (src/gpuopt/model_governance): the registry of model versions with its champion
-- and challenger of each action class, the approval of high-impact models, the fallback to
-- heuristics, and the governor that joins them.
pub mod Models
pub mod Registry
pub mod Approval
pub mod Fallback
pub mod Governor
mod Tests
