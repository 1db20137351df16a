-- ===== src/Operator.antt =====
-- The Kubernetes operator (src/gpuopt/k8s_operator): the action adapter and the controller's
-- reconciliation of actions and profiles. The Kubernetes API is outside: what its listings give is
-- an argument, and `ok` says which of the calls that write succeed.
pub mod Adapter
pub mod Controller
pub mod Lifecycle
pub mod Approval
mod Tests
