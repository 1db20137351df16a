-- ===== src/Flavors.antt =====
-- Resource flavors, kinds of nodes that workloads are admitted to, and the choice of one,
-- src/gpuopt/scheduler/resource_flavors.py. A measure of memory or use that only is stored is left out.
mod Selection
mod Tests
use gpuopt.Base.{
  ℕ, ◌+◌, ◌-◌, String, Bool, true, false, ◌&&◌, ◌||◌, not, Option, none, some, List, [], ◌∷◌, Eq,
  ◌==◌, string_eq, if◌then◌else◌, dec_beq, dec_beq_iff, filter, any, leb, ltb, is_some,
}
use gpuopt.Base.Dict.{Dict, lookup, insert, erase, values}
use gpuopt.Base.Floats.{Whole, nonnegative, negative}
use gpuopt.Base.Sorting.{sorted, first}
use Prim.Native.Nat.{Ordering}
use Prim.Native.String.{compare}

pub data Tier : Type 0 where
  premium : Tier
  standard : Tier
  spot : Tier
  reserved : Tier

unfoldable pub tier_discrete : Discrete Tier
tier_discrete = hlevel

instance abbrev pub tier_eq : Eq Tier
tier_eq = record { beq = dec_beq tier_discrete; beq_iff = dec_beq_iff tier_discrete }

pub record ResourceFlavor : Type 0 where
  pub name : String
  pub node_labels : Dict String String
  pub resources : Dict String String
  pub tier : Tier
  pub priority : ℕ
  pub max_workloads : ℕ
  pub active : Bool

pub record FlavorUsage : Type 0 where
  pub flavor_name : String
  pub total_gpus : ℕ
  pub used_gpus : ℕ
  pub available_gpus : Whole
  pub workloads_admitted : ℕ
  pub workloads_pending : ℕ

pub record FlavorManager : Type 0 where
  pub flavors : Dict String ResourceFlavor
  pub usage : Dict String FlavorUsage

-- The arguments of `create_flavor`; an absent or empty dict of resources stands for one GPU.
unfoldable pub create_flavor :
    String
    → Dict String String
    → Dict String String
    → Tier
    → ℕ
    → ℕ
    → FlavorManager
    → ResourceFlavor × FlavorManager
create_flavor name node_labels resources tier priority max_workloads m =
    let flavor : ResourceFlavor = record {
      name = name;
      node_labels = node_labels;
      resources = elim resources [ [] ↦ ("nvidia.com/gpu", "1") ∷ [] | r ∷ rs ↦ r ∷ rs ];
      tier = tier;
      priority = priority;
      max_workloads = max_workloads;
      active = true;
    } in
    (flavor, record { flavors = insert name flavor m.flavors; usage = m.usage })

unfoldable pub list_flavors : Option Tier → FlavorManager → List ResourceFlavor
list_flavors none m = values m.flavors
list_flavors (some tier) m = filter (λ (f : ResourceFlavor). f.tier == tier) (values m.flavors)

unfoldable pub delete_flavor : String → FlavorManager → Bool × FlavorManager
delete_flavor name m =
    if is_some (lookup name m.flavors)
    then (true, record { flavors = erase name m.flavors; usage = erase name m.usage })
    else (false, m)

-- `total_gpus - used_gpus`
abbrev pub difference : ℕ → ℕ → Whole
difference a b = if leb b a then nonnegative (a - b) else negative (b - a)

unfoldable pub update_usage : String → ℕ → ℕ → ℕ → ℕ → FlavorManager → FlavorManager
update_usage name total used admitted pending m = record {
  flavors = m.flavors;
  usage =
      insert name
        (record {
          flavor_name = name;
          total_gpus = total;
          used_gpus = used;
          available_gpus = difference total used;
          workloads_admitted = admitted;
          workloads_pending = pending;
        })
        m.usage;
}

abbrev pub text_before : String → String → Bool
text_before a b = elim (compare a b) [ Ordering.lt ↦ true | _ ↦ false ]

-- `key=lambda f: (-f.priority, f.name)`
unfoldable pub preferred : ResourceFlavor → ResourceFlavor → Bool
preferred f g =
    ltb g.priority f.priority || (not (ltb f.priority g.priority) && text_before f.name g.name)

unfoldable pub candidates : List String → FlavorManager → List ResourceFlavor
unfolding sorted preferred
candidates exclude m = sorted preferred (
    filter (λ (f : ResourceFlavor). f.active && not (any (λ n. n == f.name) exclude))
      (values m.flavors))

-- The candidates of the preferred tier, where there are any.
unfoldable pub or_all : List ResourceFlavor → List ResourceFlavor → List ResourceFlavor
or_all [] all = all
or_all (f ∷ fs) all = f ∷ fs

unfoldable pub in_tier : Option Tier → List ResourceFlavor → List ResourceFlavor
unfolding or_all
in_tier none all = all
in_tier (some tier) all = or_all (filter (λ (f : ResourceFlavor). f.tier == tier) all) all

abbrev pub at_least : ℕ → Whole → Bool
at_least n (nonnegative k) = leb n k
at_least n (negative k) = false

-- The test of the loop: no usage is known, or enough GPUs are free.
unfoldable pub fits : ℕ → Option FlavorUsage → Bool
fits required none = true
fits required (some u) = at_least required u.available_gpus

unfoldable pub first_fitting : ℕ → FlavorManager → List ResourceFlavor → Option ResourceFlavor
unfolding fits
first_fitting required m [] = none
first_fitting required m (f ∷ fs) =
    let rest = first_fitting required m fs in
    if fits required (lookup f.name m.usage) then some f else rest

unfoldable pub or_first : Option ResourceFlavor → List ResourceFlavor → Option ResourceFlavor
or_first none fs = first fs
or_first (some f) fs = some f

-- `select_flavor`
unfoldable pub select_flavor : ℕ → Option Tier → List String → FlavorManager → Option ResourceFlavor
unfolding candidates in_tier first_fitting or_first
select_flavor required tier exclude m =
    let pool = in_tier tier (candidates exclude m) in or_first (first_fitting required m pool) pool
