-- ===== src/Topology/Complete.antt =====
-- No logical CPU is left out of the order or enters it twice.
use dirtybird_c_miner.Base.{
  ℕ, zero, suc, ◌+◌, ◌<◌, ◌≡◌, List, [], ◌∷◌, if◌then◌else◌, ℤ, pos, negsuc, int_eq,
}
use dirtybird_c_miner.Topology.{DlunaCoreInfo}

module _ (w : ℕ → ℕ) where
  -- The weight of an id; none weighs nothing.
  abbrev pub weigh : ℤ → ℕ
  weigh (pos n) = w n
  weigh (negsuc n) = 0

  -- What a loop over the cores of a class pushes.
  abbrev pub class_weight : (DlunaCoreInfo → ℤ) → ℕ → List DlunaCoreInfo → ℕ
  class_weight cpu cls [] = 0
  class_weight cpu cls (core ∷ cores) =
      (if int_eq core.efficiency_class (pos cls) then weigh (cpu core) else 0)
      + class_weight cpu cls cores

  abbrev pub lower_weight : ℕ → List DlunaCoreInfo → ℕ
  lower_weight zero cores = 0
  lower_weight (suc cls) cores =
      class_weight (λ c. c.primary_cpu) cls cores
      + class_weight (λ c. c.sibling_cpu) cls cores
      + lower_weight cls cores

-- All ids of all cores.
abbrev pub all_weight : (ℕ → ℕ) → List DlunaCoreInfo → ℕ
all_weight w [] = 0
all_weight w (core ∷ cores) =
    weigh w core.primary_cpu + weigh w core.sibling_cpu + all_weight w cores

ClassBelow : ℕ → DlunaCoreInfo → Type 0
ClassBelow k core = (n : ℕ) × (core.efficiency_class ≡ pos n) × (n < k)

abbrev pub HasClass : DlunaCoreInfo → Type 0
HasClass core = (n : ℕ) × (core.efficiency_class ≡ pos n)
