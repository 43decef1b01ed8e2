-- ===== src/Topology/Tests.antt =====
-- A hybrid part with two fast cores and two slow ones.
use dirtybird_c_miner.Base.{◌≡◌, refl, List, [], ◌∷◌, pos, negsuc}
use dirtybird_c_miner.Base.{int_eq}
use dirtybird_c_miner.Topology.{
  DlunaCoreInfo, usable, all_usable, max_class, push, push_class, push_lower, tiers_of, or_identity,
  pin_order_from_cores,
}
use dirtybird_c_miner.Topology.Bounds.{Expressible, pin_order_from_cores-Expressible}

abbrev hybrid : List DlunaCoreInfo
hybrid =
    record { efficiency_class = pos 1; primary_cpu = pos 0; sibling_cpu = pos 1 }
    ∷ record { efficiency_class = pos 1; primary_cpu = pos 2; sibling_cpu = pos 3 }
    ∷ record { efficiency_class = pos 0; primary_cpu = pos 4; sibling_cpu = negsuc 0 }
    ∷ record { efficiency_class = pos 0; primary_cpu = pos 5; sibling_cpu = negsuc 0 }
    ∷ []

fast_cores_first : (pin_order_from_cores hybrid (pos 6)).order ≡ 0 ∷ 2 ∷ 4 ∷ 5 ∷ 1 ∷ 3 ∷ []
unfolding pin_order_from_cores or_identity tiers_of push_class push_lower push max_class all_usable
    usable int_eq
fast_cores_first = refl

pin_order_from_cores-Expressible_example : Expressible (pin_order_from_cores hybrid (pos 6)).order
pin_order_from_cores-Expressible_example = pin_order_from_cores-Expressible hybrid (pos 6)
