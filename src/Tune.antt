-- ===== src/Tune.antt =====
-- src/runtime_tune.cpp: the scheduling options that the environment asks for. A variable that is not
-- set is none; a string holds no NUL.
mod Tests
pub mod Laws
use dirtybird_c_miner.Base.{
  ℕ, ◌+◌, Bool, true, false, not, ◌&&◌, List, [], ◌∷◌, Option, none, some, leb, ◌==◌, if◌then◌else◌,
}
use dirtybird_c_miner.Text.Chars.{codes}

pub data DlunaPriorityLevel : Type 0 where
  prio_normal : DlunaPriorityLevel
  prio_max : DlunaPriorityLevel

pub record DlunaRuntimeTuneOptions : Type 0 where
  pub level : DlunaPriorityLevel
  pub disable_power_throttling : Bool

unfoldable pub env_is_exactly : Option (List ℕ) → ℕ → Bool
env_is_exactly none expected = false
env_is_exactly (some []) expected = false
env_is_exactly (some (c ∷ [])) expected = c == expected
env_is_exactly (some (c ∷ d ∷ rest)) expected = false

abbrev pub lower : ℕ → ℕ
lower c = if leb b'A' c && leb c b'Z' then c + 32 else c

-- The loop over both strings, and the test behind it.
unfoldable pub ieq : List ℕ → List ℕ → Bool
ieq [] [] = true
ieq [] (b ∷ bs) = false
ieq (a ∷ as') [] = false
ieq (a ∷ as') (b ∷ bs) = if not (lower a == lower b) then false else ieq as' bs

unfoldable pub str_ieq : Option (List ℕ) → List ℕ → Bool
str_ieq none b = false
str_ieq (some a) b = ieq a b

unfoldable pub priority_level_from_string : Option (List ℕ) → DlunaPriorityLevel
priority_level_from_string s = if str_ieq s (codes "max") then prio_max else prio_normal

abbrev pub have_value : Option (List ℕ) → Bool
have_value none = false
have_value (some []) = false
have_value (some (c ∷ rest)) = true

abbrev pub is_max : DlunaPriorityLevel → Bool
is_max prio_normal = false
is_max prio_max = true

unfoldable pub options_from_values : Option (List ℕ) → Option (List ℕ) → DlunaRuntimeTuneOptions
options_from_values priority disable_runtime_tune =
    let level : DlunaPriorityLevel =
      if have_value priority
      then priority_level_from_string priority
      else if env_is_exactly disable_runtime_tune b'1'
      then prio_normal
      else prio_normal in
    record { level = level; disable_power_throttling = if is_max level then true else false }
