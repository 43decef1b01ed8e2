-- ===== src/Tune/Laws.antt =====
-- What the options depend on.
use dirtybird_c_miner.Base.{ℕ, ◌≡◌, List, map, Option, some, if◌then◌else◌}
use dirtybird_c_miner.Text.Chars.{codes}
use dirtybird_c_miner.Tune.{
  DlunaPriorityLevel, prio_normal, lower, priority_level_from_string, have_value, env_is_exactly,
}

SpellsMax : Option (List ℕ) → Type 0
SpellsMax priority = (s : List ℕ) × (priority ≡ some s) × (map lower s ≡ codes "max")

level_of : Option (List ℕ) → Option (List ℕ) → DlunaPriorityLevel
level_of priority disable =
    if have_value priority
    then priority_level_from_string priority
    else if env_is_exactly disable b'1'
    then prio_normal
    else prio_normal
