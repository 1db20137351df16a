-- ===== src/Fairness.antt =====
-- Dominant resource fairness and the proportional allocation of GPUs to tenants,
-- src/gpuopt/scheduler/fairness.py, over the machine's floats.
mod Totals
mod Quotas
mod Conservation
mod Tests
use gpuopt.Base.{
  ℕ, ◌+◌, ◌-◌, String, Bool, ◌&&◌, not, Option, none, some, List, [], ◌∷◌, map, filter, ltb, length,
  if◌then◌else◌, string_eq,
}
use gpuopt.Base.Dict.{Dict, lookup, insert}
use gpuopt.Base.Floats.{Floats, Whole, nonnegative, negative, max, min}
use gpuopt.Base.Sorting.{sorted}

-- The entries of a tenant's dict, each of which may be missing.
pub record Tenant (F : Type 0) : Type 0 where
  pub weight : Option F
  pub requested_gpus : Option ℕ
  pub allocated_gpus : Option ℕ
  pub quota : Option ℕ
  pub priority : Option F
  pub preemptible : Option Bool

pub record FairShareAllocation (F : Type 0) : Type 0 where
  pub tenant_id : String
  pub fair_share : F
  pub gpus_allocated : ℕ
  pub gpus_requested : ℕ
  pub gpu_quota : ℕ
  pub usage_ratio : F
  pub fair_share_ratio : F
  pub dominant_share : F
  pub priority : F
  pub preemptible : Bool
  pub adjustment : F

-- `info.get(key, default)`
abbrev pub get_or {ℓ} : {A : Type ℓ} → A → Option A → A
get_or d none = d
get_or d (some a) = a

-- The second loop of `schedule`.
module _ {F : Type 0} where
  unfoldable pub extra_for : Dict String ℕ → ℕ → FairShareAllocation F → ℕ
  extra_for allocation remaining a =
      min remaining (a.gpu_quota - get_or 0 (lookup a.tenant_id allocation))

  unfoldable pub top_up : FairShareAllocation F → Dict String ℕ × ℕ → Dict String ℕ × ℕ
  unfolding extra_for
  top_up a (allocation, remaining) =
      let extra = extra_for allocation remaining a in
      if ltb 0 extra
      then (
        insert a.tenant_id (get_or 0 (lookup a.tenant_id allocation) + extra) allocation,
        remaining - extra,
      )
      else (allocation, remaining)

  -- The `break` at 0 is kept by `top_up`, which then changes nothing.
  unfoldable pub second_round : List (FairShareAllocation F) → Dict String ℕ × ℕ → Dict String ℕ × ℕ
  unfolding top_up
  second_round [] s = s
  second_round (a ∷ rest) s = second_round rest (top_up a s)

-- The body of the loop in `compute`.
module _ {F : Type 0} (fl : Floats F) where
  abbrev pub greater : F → F → F
  greater a b = if fl.less a b then b else a

  unfoldable pub sum_weights : F → Dict String (Tenant F) → F
  sum_weights acc [] = acc
  sum_weights acc ((k, t) ∷ tenants) =
      sum_weights (fl.plus acc (get_or (fl.literal 10 1) t.weight)) tenants

  unfoldable pub adjustment_of : F → Bool → F → F
  adjustment_of dominant preemptible priority =
      if fl.less (fl.literal 9 1) dominant && preemptible
      then fl.negate (fl.literal 1 1)
      else (if fl.less dominant (fl.literal 5 1) && fl.less (fl.literal 10 1) priority
          then fl.literal 5 2
          else fl.of_nat 0)

  unfoldable pub share_of : F → Tenant F → F
  share_of total_weight t =
      greater
        (if fl.less (fl.of_nat 0) total_weight
          then fl.over (get_or (fl.literal 10 1) t.weight) total_weight
          else fl.of_nat 0)
        (fl.literal 5 2)

  unfoldable pub allocation_of : ℕ → F → String × Tenant F → FairShareAllocation F
  unfolding share_of adjustment_of
  allocation_of total_gpus total_weight (tenant_id, t) =
      let allocated = get_or 0 t.allocated_gpus in
      let quota = get_or total_gpus t.quota in
      let priority = get_or (fl.literal 10 1) t.priority in
      let preemptible = get_or Bool.false t.preemptible in
      let share = share_of total_weight t in
      let ideal = fl.times share (fl.of_nat total_gpus) in
      let dominant =
        if fl.less (fl.of_nat 0) ideal then fl.over (fl.of_nat allocated) ideal else fl.of_nat 0 in
      record {
        tenant_id = tenant_id;
        fair_share = fl.round 4 share;
        gpus_allocated = allocated;
        gpus_requested = get_or 0 t.requested_gpus;
        gpu_quota = quota;
        usage_ratio = fl.round 4 (fl.over (fl.of_nat allocated) (fl.of_nat (max quota 1)));
        fair_share_ratio = fl.round 4 (fl.over (fl.of_nat allocated) (greater ideal (fl.of_nat 1)));
        dominant_share = fl.round 4 dominant;
        priority = priority;
        preemptible = preemptible;
        adjustment = fl.round 4 (adjustment_of dominant preemptible priority);
      }

  unfoldable pub by_share : FairShareAllocation F → FairShareAllocation F → Bool
  by_share a b = fl.less (fl.negate a.dominant_share) (fl.negate b.dominant_share)

  -- The allocations of `compute`; the lists of tenants above and below their share are not used by
  -- the scheduler and left out.
  unfoldable pub compute : Dict String (Tenant F) → ℕ → List (FairShareAllocation F)
  unfolding sum_weights allocation_of by_share sorted
  compute tenants total_gpus =
      if ltb 0 total_gpus
      then sorted by_share
          (map (allocation_of total_gpus (sum_weights (fl.of_nat 0) tenants)) tenants)
      else []

  -- `max(0, fair + adjustment)`
  abbrev pub shifted : ℕ → Whole → ℕ
  shifted fair (nonnegative n) = fair + n
  shifted fair (negative n) = fair - n

  -- A share is not negative, so a negative one is not met.
  abbrev pub whole : Whole → ℕ
  whole (nonnegative n) = n
  whole (negative n) = 0

  -- What the first loop gives a tenant.
  unfoldable pub entitled : ℕ → ℕ → FairShareAllocation F → ℕ
  entitled total_gpus remaining a =
      let fair = whole (fl.truncate (fl.times a.fair_share (fl.of_nat total_gpus))) in
      let adjusted = shifted fair (fl.truncate (fl.times a.adjustment (fl.of_nat total_gpus))) in
      min (min (adjusted + a.gpus_allocated) a.gpu_quota) remaining

  -- The first loop, over the allocation and what remains.
  unfoldable pub first_round :
      ℕ → List (FairShareAllocation F) → Dict String ℕ × ℕ → Dict String ℕ × ℕ
  unfolding entitled
  first_round total_gpus [] s = s
  first_round total_gpus (a ∷ rest) (allocation, remaining) =
      let allocated = entitled total_gpus remaining a in
      first_round total_gpus rest (insert a.tenant_id allocated allocation, remaining - allocated)

  unfoldable pub by_priority : FairShareAllocation F → FairShareAllocation F → Bool
  by_priority a b = fl.less b.priority a.priority

  unfoldable pub by_dominance : FairShareAllocation F → FairShareAllocation F → Bool
  by_dominance a b = fl.less a.dominant_share b.dominant_share

  -- `ProportionalFairnessScheduler.schedule`
  unfoldable pub schedule : Dict String (Tenant F) → ℕ → Dict String ℕ
  unfolding compute first_round second_round by_priority by_dominance sorted
  schedule tenants total_gpus =
      let allocations = compute tenants total_gpus in
      let first = first_round total_gpus (sorted by_priority allocations) ([], total_gpus) in
      (second_round (sorted by_dominance allocations) first).0
