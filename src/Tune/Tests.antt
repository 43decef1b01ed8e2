-- ===== src/Tune/Tests.antt =====
-- Options from concrete values of the variables.
use dirtybird_c_miner.Base.{◌≡◌, refl, none, some, true}
use dirtybird_c_miner.Text.Chars.{codes}
use dirtybird_c_miner.Tune.{
  prio_normal, ieq, str_ieq, priority_level_from_string, options_from_values,
}

mixed_case : (options_from_values (some (codes "MaX")) none).disable_power_throttling ≡ true
unfolding options_from_values priority_level_from_string str_ieq ieq
mixed_case = refl

misspelt : (options_from_values (some (codes "maxi")) none).level ≡ prio_normal
unfolding options_from_values priority_level_from_string str_ieq ieq
misspelt = refl
