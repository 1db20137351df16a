-- ===== src/Extended/Limits.antt =====
-- What a quota allows.
use gpuopt.Base.{ℕ, ◌+◌, ◌≤◌, ◌<◌, String, true, some, ◌≡◌, ◌↔◌, refl, sym, subst, string_eq, arith}
use gpuopt.Base.Dict.{Dict, lookup}
use gpuopt.Extended.Quotas.{
  TenantQuota, QuotaAnswer, burst_used, available, division_by_zero, check_tenant, check_quota,
}

-- The request stays within the tenant's GPUs, or goes beyond them, within its burst.
abbrev pub Within : ℕ → TenantQuota → Type 0
Within gpus q = q.gpus_in_use + gpus ≤ q.max_gpus

abbrev pub Bursts : ℕ → TenantQuota → Type 0
Bursts gpus q =
    (q.max_gpus < q.gpus_in_use + gpus)
    × (q.burst_allowed ≡ true)
    × (q.gpus_in_use + gpus ≤ q.burst_max_gpus)

abbrev pub FitsMemory : ℕ → TenantQuota → Type 0
FitsMemory memory q = q.memory_in_use_gb + memory ≤ q.max_memory_gb

available_iff :
    (gpus memory : ℕ) (q : TenantQuota)
    → (check_tenant gpus memory q ≡ available)
      ↔ ((0 < q.max_gpus) × Within gpus q × FitsMemory memory q)
unfolding check_tenant
available_iff gpus memory q = ground arith

burst_iff :
    (gpus memory : ℕ) (q : TenantQuota)
    → (check_tenant gpus memory q ≡ burst_used) ↔ ((0 < q.max_gpus) × Bursts gpus q)
unfolding check_tenant
burst_iff gpus memory q = ground arith

division_if :
    (gpus memory : ℕ) (q : TenantQuota)
    → q.max_gpus ≡ 0
    → ¬ (q.gpus_in_use + gpus ≡ 0)
    → check_tenant gpus memory q ≡ division_by_zero
unfolding check_tenant
division_if gpus memory q empty some_gpus = ground (arith, empty, some_gpus)

-- What is answered for a tenant's quota.
abbrev pub Answered : ℕ → ℕ → TenantQuota → QuotaAnswer → Type 0
Answered gpus memory q a =
    ((a ≡ available) ↔ ((0 < q.max_gpus) × Within gpus q × FitsMemory memory q))
    × ((a ≡ burst_used) ↔ ((0 < q.max_gpus) × Bursts gpus q))
    × (q.max_gpus ≡ 0 → ¬ (q.gpus_in_use + gpus ≡ 0) → a ≡ division_by_zero)

-- A request of a known tenant is granted from the quota exactly when that is not 0 and the request
-- stays within its GPUs and its memory, and from the burst exactly when it goes beyond a quota that
-- is not 0, bursts are allowed and it stays within the burst's GPUs, whatever memory it asks for.
-- With a quota of 0 GPUs, and any in use or asked for, the check divides by zero.
pub check_quota_exact :
    (tenant_id : String) (gpus memory : ℕ) (quotas : Dict String TenantQuota) (q : TenantQuota)
    → lookup tenant_id quotas ≡ some q
    → Answered gpus memory q (check_quota tenant_id gpus memory quotas)
unfolding check_quota
check_quota_exact tenant_id gpus memory quotas q found =
    let is : check_quota tenant_id gpus memory quotas ≡ check_tenant gpus memory q =
      rw (found, check_quota) refl in
    subst (λ a. Answered gpus memory q a) (sym is)
      (available_iff gpus memory q, burst_iff gpus memory q, division_if gpus memory q)
