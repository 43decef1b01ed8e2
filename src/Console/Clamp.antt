-- ===== src/Console/Clamp.antt =====
-- `ansi_clamp`, the last resort on a narrow terminal.
use dirtybird_c_miner.Base.{
  ℕ, zero, suc, Bool, false, ◌&&◌, List, [], ◌∷◌, leb, ◌==◌, if◌then◌else◌,
}

-- Where the loop stands: its inner loops over an escape sequence are states.
pub data Place : Type 0 where
  outside : Place
  after_esc : Place  -- behind the escape character
  in_params : Place
  in_interm : Place

abbrev pub is_param : ℕ → Bool
is_param c = leb 0x30 c && leb c 0x3f

abbrev pub is_interm : ℕ → Bool
is_interm c = leb 0x20 c && leb c 0x2f

-- The place behind a character.
unfoldable pub step_outside : ℕ → Place
step_outside c = if c == 0x1b then after_esc else outside

unfoldable pub step_place : Place → ℕ → Place
step_place outside c = step_outside c
step_place after_esc c = if c == b'[' then in_params else step_outside c
step_place in_params c =
    if is_param c then in_params else if is_interm c then in_interm else outside
step_place in_interm c = if is_interm c then in_interm else outside

-- Whether a character is printable text, not part of an escape sequence and not a control.
unfoldable pub is_text : Place → ℕ → Bool
is_text outside c = leb 0x20 c
is_text after_esc c = if c == b'[' then false else leb 0x20 c
is_text in_params c = false
is_text in_interm c = false

-- `left` is the rest of the budget.
unfoldable pub clamp_from : Place → ℕ → List ℕ → List ℕ
clamp_from p left [] = []
clamp_from p zero (c ∷ rest) =
    let keep = clamp_from (step_place p c) zero rest in if is_text p c then keep else c ∷ keep
clamp_from p (suc left) (c ∷ rest) =
    let spent = clamp_from (step_place p c) left rest in
    let kept = clamp_from (step_place p c) (suc left) rest in
    if is_text p c then c ∷ spent else c ∷ kept

unfoldable pub ansi_clamp : List ℕ → ℕ → List ℕ
ansi_clamp buf budget = clamp_from outside budget buf
