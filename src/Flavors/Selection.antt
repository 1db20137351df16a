-- ===== src/Flavors/Selection.antt =====
-- Which flavor is selected.
use gpuopt.Base.{ℕ, String, true, Option, none, some, List, [], ◌∷◌, All, ◌≡◌, ◌≢◌, ◌⊎◌, string_eq}
use gpuopt.Base.Dict.{lookup, values}
use gpuopt.Flavors.{Tier, ResourceFlavor, FlavorManager, fits}

-- The flavor can take the workload: no usage of it is known, or enough of its GPUs are free.
abbrev pub Fits : ℕ → FlavorManager → ResourceFlavor → Type 0
Fits required m f = fits required (lookup f.name m.usage) ≡ true

abbrev pub Listed : ResourceFlavor → List ResourceFlavor → Type 0
Listed f [] = ⊥
Listed f (g ∷ gs) = (g ≡ f) ⊎ Listed f gs

abbrev pub Candidate : List String → FlavorManager → ResourceFlavor → Type 0
Candidate exclude m f =
    Listed f (values m.flavors) × (f.active ≡ true) × All (λ n. n ≢ f.name) exclude

-- The pool is of the preferred tier, or no candidate is.
abbrev pub InTier : Option Tier → List ResourceFlavor → ResourceFlavor → Type 0
InTier none all f = Unit
InTier (some tier) all f = (f.tier ≡ tier) ⊎ All (λ (g : ResourceFlavor). g.tier ≢ tier) all
