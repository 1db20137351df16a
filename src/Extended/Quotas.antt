-- ===== src/Extended/Quotas.antt =====
-- `TenantQuotaManager`. Memory is in whole gigabytes; percentages are left out but for the division
-- that computes them.
use gpuopt.Base.{
  ℕ, ◌+◌, String, Bool, ◌&&◌, Option, none, some, string_eq, ltb, leb, ◌==◌, nat_eq, if◌then◌else◌,
}
use gpuopt.Base.Dict.{Dict, lookup, insert}

pub record TenantQuota : Type 0 where
  pub tenant_id : String
  pub tenant_name : String
  pub max_gpus : ℕ
  pub max_memory_gb : ℕ
  pub max_priority : ℕ
  pub gpus_in_use : ℕ
  pub memory_in_use_gb : ℕ
  pub burst_allowed : Bool
  pub burst_max_gpus : ℕ

-- The arguments of `set_quota`.
pub record QuotaRequest : Type 0 where
  pub tenant_name : String
  pub max_gpus : ℕ
  pub max_memory_gb : ℕ
  pub priority : ℕ
  pub burst_allowed : Bool
  pub burst_max_gpus : ℕ

-- A new quota, or the stored one with its limits replaced: its name and its use stay.
unfoldable pub with_limits : String → QuotaRequest → Option TenantQuota → TenantQuota
with_limits tenant_id a none = record {
  tenant_id = tenant_id;
  tenant_name = a.tenant_name;
  max_gpus = a.max_gpus;
  max_memory_gb = a.max_memory_gb;
  max_priority = a.priority;
  gpus_in_use = 0;
  memory_in_use_gb = 0;
  burst_allowed = a.burst_allowed;
  burst_max_gpus = a.burst_max_gpus;
}
with_limits tenant_id a (some q) = record {
  tenant_id = q.tenant_id;
  tenant_name = q.tenant_name;
  max_gpus = a.max_gpus;
  max_memory_gb = a.max_memory_gb;
  max_priority = a.priority;
  gpus_in_use = q.gpus_in_use;
  memory_in_use_gb = q.memory_in_use_gb;
  burst_allowed = a.burst_allowed;
  burst_max_gpus = a.burst_max_gpus;
}

-- `set_quota`
unfoldable pub set_quota :
    String → QuotaRequest → Dict String TenantQuota → TenantQuota × Dict String TenantQuota
unfolding with_limits
set_quota tenant_id a quotas =
    let q = with_limits tenant_id a (lookup tenant_id quotas) in (q, insert tenant_id q quotas)

pub data QuotaAnswer : Type 0 where
  tenant_not_found : QuotaAnswer
  burst_used : QuotaAnswer
  gpus_exceeded : QuotaAnswer
  memory_exceeded : QuotaAnswer
  available : QuotaAnswer
  division_by_zero : QuotaAnswer

-- An answer that carries a percentage, by which the code divides.
abbrev pub percent_of : ℕ → QuotaAnswer → QuotaAnswer
percent_of limit a = if limit == 0 then division_by_zero else a

unfoldable pub check_tenant : ℕ → ℕ → TenantQuota → QuotaAnswer
check_tenant gpus memory q =
    if ltb q.max_gpus (q.gpus_in_use + gpus)
    then percent_of q.max_gpus (
        if q.burst_allowed && leb (q.gpus_in_use + gpus) q.burst_max_gpus
        then burst_used
        else gpus_exceeded)
    else (if ltb q.max_memory_gb (q.memory_in_use_gb + memory)
        then percent_of q.max_memory_gb memory_exceeded
        else percent_of q.max_gpus available)

-- `check_quota`
unfoldable pub check_quota : String → ℕ → ℕ → Dict String TenantQuota → QuotaAnswer
unfolding check_tenant
check_quota tenant_id gpus memory quotas = elim (lookup tenant_id quotas) [
  | none ↦ tenant_not_found
  | some q ↦ check_tenant gpus memory q
]

-- `update_usage`
unfoldable pub update_usage :
    String → ℕ → ℕ → Dict String TenantQuota → Option TenantQuota × Dict String TenantQuota
update_usage tenant_id gpus_used memory_used quotas = elim (lookup tenant_id quotas) [
  | none ↦ (none, quotas)
  | some q ↦
      let q' : TenantQuota = record {
        tenant_id = q.tenant_id;
        tenant_name = q.tenant_name;
        max_gpus = q.max_gpus;
        max_memory_gb = q.max_memory_gb;
        max_priority = q.max_priority;
        gpus_in_use = gpus_used;
        memory_in_use_gb = memory_used;
        burst_allowed = q.burst_allowed;
        burst_max_gpus = q.burst_max_gpus;
      } in
      (some q', insert tenant_id q' quotas)
]
