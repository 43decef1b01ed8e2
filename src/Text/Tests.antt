-- ===== src/Text/Tests.antt =====
-- Texts at concrete inputs.
use dirtybird_c_miner.Base.{◌≡◌, refl, [], ◌∷◌, arith, pos, negsuc}
use dirtybird_c_miner.Text.Chars.{codes}
use dirtybird_c_miner.Text.Hex.{hex_str, hexstr_to_bytes, hexstr_to_bytes-hex_str}
use dirtybird_c_miner.Text.Json.{json_int}

int_behind_blanks : json_int (codes "{\"height\":  -12,") (codes "height") ≡ negsuc 11
unfolding json_int
int_behind_blanks = refl

int_as_string : json_int (codes "{\"height\":\"12\"}") (codes "height") ≡ pos 0
unfolding json_int
int_as_string = refl

hexstr_to_bytes-hex_str_example :
    hexstr_to_bytes (hex_str (0 ∷ 127 ∷ 255 ∷ [])) ≡ 0 ∷ 127 ∷ 255 ∷ []
hexstr_to_bytes-hex_str_example = hexstr_to_bytes-hex_str (0 ∷ 127 ∷ 255 ∷ []) (omega arith)
