-- ===== src/Fairness/Tests.antt =====
-- Two tenants who share ten GPUs. A float is a number of thousandths.
use gpuopt.Base.{
  ℕ, ◌+◌, ◌-◌, ◌*◌, ◌/◌, ◌≤◌, String, none, some, [], ◌∷◌, count, ◌==◌, refl, string_eq,
  if◌then◌else◌, ltb, arith, eq_iff,
}
use gpuopt.Base.Dict.{Dict}
use gpuopt.Base.Floats.{Floats, nonnegative}
use gpuopt.Fairness.{Tenant, schedule}
use gpuopt.Fairness.Conservation.{Allocates, schedule-Allocates}

abbrev floats : Floats ℕ
floats = record {
  of_nat = λ n. n * 1000;
  literal = λ n k. n * 1000 / 10;
  plus = λ a b. a + b;
  minus = λ a b. a - b;
  times = λ a b. a * b / 1000;
  over = λ a b. a * 1000 / b;
  negate = λ a. 1000000 - a;
  less = λ a b. ltb a b;
  round = λ k a. a;
  truncate = λ a. nonnegative (a / 1000);
}

abbrev tenant : ℕ → Tenant ℕ
tenant quota = record {
  weight = none;
  requested_gpus = some 4;
  allocated_gpus = some 1;
  quota = some quota;
  priority = none;
  preemptible = none;
}

abbrev tenants : Dict String (Tenant ℕ)
tenants = ("a", tenant 4) ∷ ("b", tenant 8) ∷ []

abbrev quotas : String → ℕ
quotas id = if id == "a" then 4 else 8

tenants-once : (id : String) → count (λ (row : String × Tenant ℕ). row.0 == id) tenants ≤ 1
tenants-once id = ground (arith, eq_iff "a" id, eq_iff "b" id, eq_iff "b" "a")

schedule-Allocates_example : Allocates floats quotas tenants 10 (schedule floats tenants 10)
schedule-Allocates_example =
    schedule-Allocates floats quotas tenants 10 tenants-once (refl, (refl, tt))
