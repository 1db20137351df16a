-- ===== src/Remediation/Running.antt =====
-- What running a rule records.
use gpuopt.Base.{true, ◌≡◌, codes_eq, nat_eq}
use gpuopt.Remediation.{Ident, RemediationAction, Services, execute_action}

-- The action succeeds.
abbrev pub Succeeds : Services → Ident → RemediationAction → Type 0
Succeeds services cluster a = execute_action services cluster a a.type ≡ true
