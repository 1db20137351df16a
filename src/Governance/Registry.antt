-- ===== src/Governance/Registry.antt =====
-- `ModelRegistry` of src/gpuopt/model_governance/registry.py. The dicts keyed by an action class's
-- value are keyed by the class; a set is a dict to the unit. A version object is shared by whoever
-- got it from the registry, so a change of it is a change of the registry.
pub mod Laws
pub mod Runs
pub mod Promotion
use gpuopt.Base.{
  ℕ, ◌+◌, ◌<◌, Bool, true, false, Option, none, some, List, [], ◌∷◌, ◌==◌, string_eq, if◌then◌else◌,
  ltb, is_none,
}
use gpuopt.Base.Dict.{Dict, lookup, insert, erase, values}
use gpuopt.Governance.Models.{
  Uuid, ModelActionClass, action_class_eq, ModelStatus, champion, challenger, deprecated,
  ModelVersion, ModelActionClass-discrete,
}

pub record ModelRegistry : Type 0 where
  pub versions : Dict Uuid ModelVersion
  pub champions : Dict ModelActionClass Uuid
  pub challengers : Dict ModelActionClass Uuid
  pub prediction_counts : Dict Uuid ℕ
  pub confidence_sum : Dict Uuid ℕ
  pub confidence_count : Dict Uuid ℕ
  pub fallback_active : Dict ModelActionClass (Unit {0})
  pub drift_alerts : Dict ModelActionClass ℕ

-- `__init__`, and `clear_all`
abbrev pub empty_registry : ModelRegistry
empty_registry = record {
  versions = [];
  champions = [];
  challengers = [];
  prediction_counts = [];
  confidence_sum = [];
  confidence_count = [];
  fallback_active = [];
  drift_alerts = [];
}

unfoldable pub register : ModelVersion → ModelRegistry → ModelRegistry
register v r = record r { versions = insert v.id v r.versions }

abbrev pub get : Uuid → ModelRegistry → Option ModelVersion
get vid r = lookup vid r.versions

-- `key in self._challengers and self._challengers[key] == version_id`
abbrev pub points_to : Uuid → Option Uuid → Bool
points_to vid none = false
points_to vid (some k) = k == vid

-- The maps of champions and challengers after a version of class `c` has taken the status.
unfoldable pub assign : ModelStatus → ModelActionClass → Uuid → ModelRegistry → ModelRegistry
assign champion c vid r = record r {
  champions = insert c vid r.champions;
  challengers =
      if points_to vid (lookup c r.challengers) then erase c r.challengers else r.challengers;
}
assign challenger c vid r = record r { challengers = insert c vid r.challengers }
assign _ c vid r = r

unfoldable pub update_status :
    Uuid → ModelStatus → ℕ → ModelRegistry → Option ModelVersion × ModelRegistry
update_status vid status now r = elim (get vid r) [
  | none ↦ (none, r)
  | some v ↦
      let v' : ModelVersion = record v { status = status; updated_at = now } in
      (some v', assign status v.action_class vid (record r { versions = insert vid v' r.versions }))
]

unfoldable pub delete : Uuid → ModelRegistry → Bool × ModelRegistry
delete vid r = elim (get vid r) [
  | none ↦ (false, r)
  | some v ↦ (
    true,
    record r {
      versions = erase vid r.versions;
      champions = erase v.action_class r.champions;
      challengers = erase v.action_class r.challengers;
    },
  )
]

unfoldable pub version_at : Option Uuid → ModelRegistry → Option ModelVersion
version_at none r = none
version_at (some vid) r = get vid r

unfoldable pub get_champion : ModelActionClass → ModelRegistry → Option ModelVersion
unfolding version_at
get_champion c r = version_at (lookup c r.champions) r

unfoldable pub get_challenger : ModelActionClass → ModelRegistry → Option ModelVersion
unfolding version_at
get_challenger c r = version_at (lookup c r.challengers) r

-- The current champion, if any, is deprecated before the challenger takes its place.
pub retire : Option ModelVersion → ℕ → ModelRegistry → ModelRegistry
retire none now r = r
retire (some v) now r = (update_status v.id deprecated now r).1

unfoldable pub promote_challenger :
    ModelActionClass → ℕ → ModelRegistry → Option ModelVersion × ModelRegistry
unfolding retire
promote_challenger c now r = elim (get_challenger c r) [
  | none ↦ (none, r)
  | some v ↦ update_status v.id champion now (retire (get_champion c r) now r)
]

abbrev add_to : Uuid → ℕ → Dict Uuid ℕ → Dict Uuid ℕ
add_to vid n d = insert vid (elim (lookup vid d) [ none ↦ n | some m ↦ m + n ]) d

unfoldable pub record_prediction : Uuid → ℕ → ModelRegistry → ModelRegistry
record_prediction vid confidence r = record r {
  prediction_counts = add_to vid 1 r.prediction_counts;
  confidence_sum = add_to vid confidence r.confidence_sum;
  confidence_count = add_to vid 1 r.confidence_count;
}

unfoldable pub set_fallback : ModelActionClass → Bool → ModelRegistry → ModelRegistry
set_fallback c true r = record r { fallback_active = insert c tt r.fallback_active }
set_fallback c false r = record r { fallback_active = erase c r.fallback_active }

unfoldable pub record_drift : ModelActionClass → ModelRegistry → ℕ × ModelRegistry
record_drift c r =
    let count : ℕ = elim (lookup c r.drift_alerts) [ none ↦ 1 | some n ↦ n + 1 ] in
    (count, record r { drift_alerts = insert c count r.drift_alerts })

unfoldable pub clear_drift : ModelActionClass → ModelRegistry → ModelRegistry
clear_drift c r = record r { drift_alerts = erase c r.drift_alerts }

pub check_recertification : Option ModelVersion → ℕ → Bool
check_recertification none now = true
check_recertification (some v) now = elim (v.certified_until) [ none ↦ true | some t ↦ ltb t now ]
