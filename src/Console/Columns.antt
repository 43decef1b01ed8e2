-- ===== src/Console/Columns.antt =====
-- The columns that a text takes on a terminal, and what `ansi_clamp` leaves of them.
use dirtybird_c_miner.Base.{
  ℕ, zero, suc, length, ◌+◌, ◌≤◌, ◌≡◌, refl, sym, subst, ap, ◌⊎◌, Bool, true, false, List, [], ◌∷◌,
  inl, inr, Bool-cases, arith,
}
use dirtybird_c_miner.Console.Clamp.{
  Place, outside, after_esc, in_params, in_interm, step_outside, step_place, is_text, clamp_from,
  ansi_clamp,
}

abbrev pub width : Bool → ℕ
width true = 1
width false = 0

-- The printable characters outside escape sequences.
unfoldable pub columns : Place → List ℕ → ℕ
columns p [] = 0
columns p (c ∷ rest) = width (is_text p c) + columns (step_place p c) rest

-- Behind a text character the terminal is outside escape sequences.
pub text_step : (p : Place) (c : ℕ) → is_text p c ≡ true → step_place p c ≡ outside
unfolding is_text step_place step_outside
text_step outside c h = ground arith
text_step after_esc c h = ground arith
text_step in_params c h = absurd (cc h)
text_step in_interm c h = absurd (cc h)

text_place : (p : Place) (c : ℕ) → is_text p c ≡ true → (p ≡ outside) ⊎ (p ≡ after_esc)
unfolding is_text
text_place outside c h = inl refl
text_place after_esc c h = inr refl
text_place in_params c h = absurd (cc h)
text_place in_interm c h = absurd (cc h)

-- A control is one right behind an escape character, too.
control_after_esc :
    (c : ℕ)
    → is_text outside c ≡ false
    → (is_text after_esc c ≡ false) × (step_place after_esc c ≡ step_place outside c)
unfolding is_text step_place
control_after_esc c h = ground arith

-- Without budget no text is left, also right behind an escape character.
abbrev NoText : List ℕ → Type 0
NoText xs =
    ((p : Place) → columns p (clamp_from p 0 xs) ≡ 0)
    × (columns after_esc (clamp_from outside 0 xs) ≡ 0)

NoText-dropped :
    (p : Place) (xs : List ℕ)
    → (p ≡ outside) ⊎ (p ≡ after_esc)
    → NoText xs
    → columns p (clamp_from outside 0 xs) ≡ 0
NoText-dropped p xs (inl e) h =
    subst (λ q. columns q (clamp_from outside 0 xs) ≡ 0) (sym e) (h.0 outside)
NoText-dropped p xs (inr e) h = subst (λ q. columns q (clamp_from outside 0 xs) ≡ 0) (sym e) h.1

NoText-behind :
    (c : ℕ) (rest : List ℕ) (p : Place) → NoText rest → columns p (clamp_from p 0 (c ∷ rest)) ≡ 0
unfolding columns clamp_from
NoText-behind c rest p h = elim (Bool-cases (is_text p c)) [
  | inr control ↦ rw control (rw control (omega (arith, h.0 (step_place p c))))
  | inl text ↦ rw (text, text_step p c text) (NoText-dropped p rest (text_place p c text) h)
]

NoText-after_esc :
    (c : ℕ) (rest : List ℕ) → NoText rest → columns after_esc (clamp_from outside 0 (c ∷ rest)) ≡ 0
unfolding columns clamp_from
NoText-after_esc c rest h = elim (Bool-cases (is_text outside c)) [
  | inl text ↦ rw (text, text_step outside c text) h.1
  | inr control ↦
      let (still, same) = control_after_esc c control in
      rw control (rw (still, same) (omega (arith, h.0 (step_place outside c))))
]

clamp_zero : (xs : List ℕ) → NoText xs
unfolding columns clamp_from
clamp_zero [] = (λ p. refl, refl)
clamp_zero (c ∷ rest) =
    let h = clamp_zero rest in (λ p. NoText-behind c rest p h, NoText-after_esc c rest h)

clamp_columns : (p : Place) (left : ℕ) (xs : List ℕ) → columns p (clamp_from p left xs) ≤ left
unfolding columns clamp_from
clamp_columns p left [] = omega arith
clamp_columns p zero (c ∷ rest) = omega (arith, (clamp_zero (c ∷ rest)).0 p)
clamp_columns p (suc left) (c ∷ rest) = elim (Bool-cases (is_text p c)) [
  | inl text ↦ rw text (rw text (omega (arith, clamp_columns (step_place p c) left rest)))
  | inr control ↦
      rw control (rw control (omega (arith, clamp_columns (step_place p c) (suc left) rest)))
]

clamp_fits : (p : Place) (left : ℕ) (xs : List ℕ) → columns p xs ≤ left → clamp_from p left xs ≡ xs
unfolding columns clamp_from
clamp_fits p left [] h = refl
clamp_fits p zero (c ∷ rest) h = elim (Bool-cases (is_text p c)) [
  | inl text ↦ absurd (omega (arith, h, ap width text))
  | inr control ↦
      rw control (ap (λ l. c ∷ l) (clamp_fits (step_place p c) zero rest (omega (arith, h))))
]
clamp_fits p (suc left) (c ∷ rest) h = elim (Bool-cases (is_text p c)) [
  | inl text ↦
      rw text
        (ap (λ l. c ∷ l) (clamp_fits (step_place p c) left rest (omega (arith, h, ap width text))))
  | inr control ↦ rw control (
      ap (λ l. c ∷ l)
        (clamp_fits (step_place p c) (suc left) rest (omega (arith, h, ap width control))))
]

-- `ansi_clamp` leaves at most as many columns of text as the budget has, for every input, be it cut
-- off inside an escape sequence.
pub ansi_clamp-columns :
    (buf : List ℕ) (budget : ℕ) → columns outside (ansi_clamp buf budget) ≤ budget
unfolding ansi_clamp
ansi_clamp-columns buf budget = clamp_columns outside budget buf

-- `ansi_clamp` keeps a text within the budget whole.
pub ansi_clamp_fits :
    (buf : List ℕ) (budget : ℕ) → columns outside buf ≤ budget → ansi_clamp buf budget ≡ buf
unfolding ansi_clamp
ansi_clamp_fits buf budget h = clamp_fits outside budget buf h

length-clamp_from : (p : Place) (left : ℕ) (xs : List ℕ) → length (clamp_from p left xs) ≤ length xs
unfolding clamp_from
length-clamp_from p left [] = omega arith
length-clamp_from p zero (c ∷ rest) = ground (arith, length-clamp_from (step_place p c) zero rest)
length-clamp_from p (suc left) (c ∷ rest) = ground (
  arith,
  length-clamp_from (step_place p c) left rest,
  length-clamp_from (step_place p c) (suc left) rest,
)

pub length-ansi_clamp : (buf : List ℕ) (budget : ℕ) → length (ansi_clamp buf budget) ≤ length buf
unfolding ansi_clamp
length-ansi_clamp buf budget = length-clamp_from outside budget buf
