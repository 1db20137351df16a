-- ===== src/Rbac/Roles.antt =====
-- The permissions, the role types and the system roles' permissions of src/gpuopt/rbac.py. A set of
-- permissions is a list, of which only membership is used.
use gpuopt.Base.{
  Bool, ◌||◌, ◌≡◌, refl, List, [], ◌∷◌, ◌++◌, any, arith, Eq, ◌==◌, dec_beq, dec_beq_iff,
}

pub data RoleType : Type 0 where
  admin operator viewer finops developer : RoleType

pub data Permission : Type 0 where
  cluster_create cluster_read cluster_update cluster_delete : Permission
  state_read state_collect analysis_read analysis_run : Permission
  recommendation_read recommendation_generate : Permission
  actuate_dry_run actuate_live actuate_rollback : Permission
  alert_read alert_manage policy_read policy_manage approval_manage : Permission
  cost_read cost_manage power_read power_manage tenant_read tenant_manage : Permission
  compliance_read dashboard_read report_manage remediation_manage : Permission
  rbac_manage stream_read : Permission

unfoldable pub RoleType-discrete : Discrete RoleType
RoleType-discrete = hlevel

unfoldable pub Permission-discrete : Discrete Permission
Permission-discrete = hlevel

instance abbrev pub role_type_eq : Eq RoleType
role_type_eq = record { beq = dec_beq RoleType-discrete; beq_iff = dec_beq_iff RoleType-discrete }

instance abbrev pub permission_eq : Eq Permission
permission_eq = record {
  beq = dec_beq Permission-discrete;
  beq_iff = dec_beq_iff Permission-discrete;
}

-- `permission in permissions`
unfoldable pub holds : Permission → List Permission → Bool
unfolding Permission-discrete
holds p ps = any (λ q. p == q) ps

-- `_ROLE_DEFINITIONS`
unfoldable pub role_definitions : RoleType → List Permission
role_definitions admin =
    cluster_create ∷ cluster_read ∷ cluster_update ∷ cluster_delete ∷ state_read ∷ state_collect
    ∷ analysis_read ∷ analysis_run ∷ recommendation_read ∷ recommendation_generate ∷ actuate_dry_run
    ∷ actuate_live ∷ actuate_rollback ∷ alert_read ∷ alert_manage ∷ policy_read ∷ policy_manage
    ∷ approval_manage ∷ cost_read ∷ cost_manage ∷ power_read ∷ power_manage ∷ tenant_read
    ∷ tenant_manage ∷ compliance_read ∷ dashboard_read ∷ report_manage ∷ remediation_manage
    ∷ rbac_manage ∷ stream_read ∷ []
role_definitions operator =
    cluster_read ∷ cluster_update ∷ state_read ∷ state_collect ∷ analysis_read ∷ analysis_run
    ∷ recommendation_read ∷ recommendation_generate ∷ actuate_dry_run ∷ actuate_live ∷ alert_read
    ∷ alert_manage ∷ policy_read ∷ policy_manage ∷ approval_manage ∷ cost_read ∷ power_read
    ∷ dashboard_read ∷ report_manage ∷ remediation_manage ∷ stream_read ∷ []
role_definitions viewer =
    cluster_read ∷ state_read ∷ analysis_read ∷ recommendation_read ∷ alert_read ∷ policy_read
    ∷ cost_read ∷ power_read ∷ compliance_read ∷ dashboard_read ∷ stream_read ∷ []
role_definitions finops =
    cluster_read ∷ state_read ∷ analysis_read ∷ recommendation_read ∷ alert_read ∷ cost_read
    ∷ cost_manage ∷ power_read ∷ compliance_read ∷ dashboard_read ∷ report_manage ∷ stream_read ∷ []
role_definitions developer =
    cluster_read ∷ state_read ∷ state_collect ∷ analysis_read ∷ analysis_run ∷ recommendation_read
    ∷ recommendation_generate ∷ actuate_dry_run ∷ alert_read ∷ policy_read ∷ cost_read ∷ power_read
    ∷ dashboard_read ∷ stream_read ∷ []

pub holds-append :
    (p : Permission) (ps qs : List Permission) → holds p (ps ++ qs) ≡ (holds p ps || holds p qs)
unfolding holds
holds-append p [] qs = refl
holds-append p (q ∷ ps) qs = ground (arith, holds-append p ps qs)
