-- ===== src/Lib.antt =====
-- GPUOpt, an optimiser of GPU clusters, is a Python service (src/gpuopt). This library models the
-- parts of it that decide: who may do what, which change is allowed, which model answers, what is
-- run on a cluster and how often.
--
-- The parts, each with its files here and its sources:
--   Guarded.Policy: the pre-flight check of an actuation against the policies, `PolicyEngine` of
--   src/gpuopt/guarded_automation.py. `check_pre_flight`, `_policy_applies` and `_evaluate_policy`
--   keep their names; the branches of the last are functions of their own.
--   Guarded.Approval: `ApprovalWorkflow` of the same file with the approvals table of
--   src/gpuopt/repository.py. `create_request`, `approve`, `reject` and `check_actuation_approved`
--   act on the table; exceptions are values.
--   Rbac: `RBACManager` and `PermissionChecker` of src/gpuopt/rbac.py, users, roles and API keys.
--   Governance: src/gpuopt/model_governance, the registry of model versions, their approval, the
--   fallback to heuristics, and `ModelGovernor`, which joins them in `set_champion` and `predict`.
--   Watch: `ResourceCache` and `WatchManager` of src/gpuopt/watch_stream.py.
--   Operator: the controller and the adapter of src/gpuopt/k8s_operator, which run the actions that
--   the Kubernetes API lists.
--   Remediation: `RemediationEngine` of src/gpuopt/remediation.py, which runs rules on alerts.
--   Preemption: `PreemptionEngine` of src/gpuopt/preemption.py, which evicts outranked workloads.
--   Ratelimit: `RateLimitMiddleware` of src/gpuopt/ratelimit.py, with the limits of
--   src/gpuopt/config.py.
--   Actuation: `ActuationService` of src/gpuopt/actuation.py on the tables of twins and actuations
--   of src/gpuopt/repository.py, in Service, with the change of a twin in Twin.
--   Federation: the registry of clusters of src/gpuopt/federation/registry.py, and in Scheduler the
--   choice of a cluster and the placing of a workload of federation/scheduler.py, with the part of
--   src/gpuopt/scheduler/rl_scheduler.py that it calls. ByName has the registry as a map by name.
--   Domains: `RingStore` and `PersistentStore` of src/gpuopt/domains/stores.py.
--   Canary: `CanaryManager` of src/gpuopt/risk_r03_canary.py.
--   Fairness: the two classes of src/gpuopt/scheduler/fairness.py.
--   Flavors: `ResourceFlavorManager` of src/gpuopt/scheduler/resource_flavors.py.
--   Extended: the policy envelopes and the tenant quotas of src/gpuopt/governance_extended.py.
--   Healing: `AutoHealer` of src/gpuopt/healing/auto_healer.py.
-- Base holds what they share: Boolean tests, whole numbers, equality as an interface, Python's lists and dicts, its
-- stable sort, and the machine's floats as an interface.
--
-- The policy check and the approval gate stand before an actuation, remediation starts actuations,
-- and the operator carries out actions on the cluster; they meet in the service interfaces
-- only. An actuation itself asks neither for a check nor for an approval.
--
-- State is passed explicitly: a method is a function from the state to its answer and the new
-- state, and an object that the code shares and changes in place is a row of the state. An
-- operation reads the clock once, as an argument; fresh identifiers are arguments as well. A UUID
-- is its text, and texts that the code joins or cuts are lists of code points. A score, confidence
-- or drift is a whole number of a fixed unit where the code compares and adds only; where it divides,
-- floats are a type with operations, of which at most that the comparison orders is assumed. All
-- loops are structural, so no fuel is used.
--
-- Not modelled: HTTP routes and SQL; the digest of an API key (a parameter); the Kubernetes API
-- (its listings are arguments, the success of its writes a parameter); the actuation and power
-- services as remediation calls them (an interface); the learning of the scheduler (its values and
-- draws are arguments); log and message texts where nothing depends on them;
-- threads, since a lock makes each operation one step; the analytics, catalogues and cost formulas.
pub mod Base
pub mod Guarded
pub mod Rbac
pub mod Governance
pub mod Watch
pub mod Operator
pub mod Remediation
pub mod Preemption
pub mod Ratelimit
pub mod Domains
pub mod Actuation
pub mod Federation
pub mod Canary
pub mod Fairness
pub mod Healing
pub mod Flavors
pub mod Extended
