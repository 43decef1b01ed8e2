-- ===== src/Console/Tests.antt =====
-- A status line on terminals of several widths.
use dirtybird_c_miner.Base.{ℕ, ◌≤◌, ◌≡◌, refl, true, List, ◌∷◌, ◌++◌, length, pos}
use dirtybird_c_miner.Text.Chars.{codes}
use dirtybird_c_miner.Console.{
  Printf, DlunaStatus, lb_esc, lb_txt, put_fields, tier_full, counters, tier_medium, tier_narrow,
  tier_compact, tier_minimal, tiers, render_tier, first_fitting, format_status,
}
use dirtybird_c_miner.Console.Clamp.{
  outside, step_outside, step_place, is_text, clamp_from, ansi_clamp,
}
use dirtybird_c_miner.Console.Columns.{columns, ansi_clamp-columns}
use dirtybird_c_miner.Console.Line.{PrintsText, format_status_fits}

-- A formatter that prints the same width for every number.
abbrev fixed : Printf ℕ
fixed = record { f2 = λ d. codes "12.34"; lld = λ n. codes "567"; d02 = λ n. codes "08" }

fixed-PrintsText : PrintsText fixed
fixed-PrintsText = record { f2 = λ d. refl; lld = λ n. refl; d02 = λ n. refl }

abbrev status : DlunaStatus ℕ
status = record {
  rate = 1;
  avg = 2;
  height = pos 567;
  accepted = pos 567;
  blocks = pos 567;
  rejected = pos 567;
  diff = codes "1.5M";
  hh = pos 8;
  mm = pos 8;
  ss = pos 8;
}

abbrev red_word : List ℕ
red_word = 27 ∷ codes "[91mred" ++ 27 ∷ codes "[0m"

format_status_fits_example :
    let out = format_status fixed true 512 status (pos 56) in
    (columns outside out ≤ 55) × (length out ≤ 511)
format_status_fits_example = format_status_fits fixed fixed-PrintsText status refl true 511 55

-- A phone's terminal gets less than the whole line.
phone_columns : columns outside (format_status fixed true 512 status (pos 56)) ≡ 53
unfolding columns is_text step_place step_outside format_status first_fitting render_tier put_fields
    lb_esc lb_txt tiers tier_full counters tier_medium tier_narrow tier_compact tier_minimal
phone_columns = refl

clamp_keeps_escapes : ansi_clamp red_word 1 ≡ 27 ∷ codes "[91mr" ++ 27 ∷ codes "[0m"
unfolding ansi_clamp clamp_from is_text step_place step_outside
clamp_keeps_escapes = refl

ansi_clamp-columns_example : columns outside (ansi_clamp red_word 2) ≤ 2
ansi_clamp-columns_example = ansi_clamp-columns red_word 2
