-- ===== src/Flavors/Tests.antt =====
-- A full flavor of the preferred tier, and a free one of another.
use gpuopt.Base.{String, true, [], ◌∷◌, string_eq}
use gpuopt.Flavors.{Tier, premium, standard, ResourceFlavor, FlavorManager, update_usage}

abbrev flavor : String → Tier → ResourceFlavor
flavor name tier = record {
  name = name;
  node_labels = [];
  resources = [];
  tier = tier;
  priority = 1;
  max_workloads = 0;
  active = true;
}

abbrev manager : FlavorManager
manager = update_usage "gold" 8 8 4 0 (record {
  flavors = ("gold", flavor "gold" premium) ∷ ("base", flavor "base" standard) ∷ [];
  usage = [];
})
