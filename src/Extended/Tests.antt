-- ===== src/Extended/Tests.antt =====
-- An envelope on replicas, and a tenant without GPUs.
use gpuopt.Base.{String, true, false, [], ◌∷◌, All, ◌≡◌, ◌↔◌, refl, string_eq}
use gpuopt.Base.Dict.{Dict, values}
use gpuopt.Extended.Envelopes.{
  Value, number, one, lte, PolicyEnvelope, Envelopes, allowed, enforce_policy,
}
use gpuopt.Extended.Enforcement.{InDomain, Passes, enforce_policy_exact}
use gpuopt.Extended.Quotas.{TenantQuota, check_quota}
use gpuopt.Extended.Limits.{Answered, check_quota_exact}

abbrev few_replicas : PolicyEnvelope
few_replicas = record {
  policy_id = "p1";
  name = "few replicas";
  domain = "scaling";
  rules = record { field = "replicas"; operator = lte; value = one (number 4) } ∷ [];
  action = "warn";
  enabled = true;
}

abbrev envelopes : Envelopes
envelopes = ("p1", few_replicas) ∷ []

abbrev context : Dict String Value
context = ("replicas", number 9) ∷ []

enforce_policy_exact_example :
    (enforce_policy "scaling" context envelopes ≡ allowed)
    ↔ All (λ e. InDomain "scaling" e → Passes context e) (values envelopes)
enforce_policy_exact_example = enforce_policy_exact "scaling" context envelopes

abbrev no_gpus : TenantQuota
no_gpus = record {
  tenant_id = "t";
  tenant_name = "T";
  max_gpus = 0;
  max_memory_gb = 10;
  max_priority = 5;
  gpus_in_use = 0;
  memory_in_use_gb = 0;
  burst_allowed = false;
  burst_max_gpus = 0;
}

check_quota_exact_example : Answered 1 1 no_gpus (check_quota "t" 1 1 (("t", no_gpus) ∷ []))
check_quota_exact_example = check_quota_exact "t" 1 1 (("t", no_gpus) ∷ []) no_gpus refl
