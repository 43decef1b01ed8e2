-- ===== src/Console/Fits.antt =====
-- The status line fits its buffer and one row of the terminal.
use dirtybird_c_miner.Base.{
  ℕ, suc, ◌+◌, ◌-◌, ◌≤◌, ◌<◌, ◌≡◌, inl, inr, refl, ap, ◌∙◌, Bool, true, false, ◌&&◌, List, [], ◌∷◌,
  ◌++◌, length, All, length-append, ltb, leb, leb→le, Bool-cases, arith,
}
use dirtybird_c_miner.Text.Chars.{codes}
use dirtybird_c_miner.Console.{
  Colour, c_label, c_rate, c_text, c_avg, c_height, c_mini, c_block, c_diff, c_time, c_rej_ok,
  c_rej_hi, colour_seq, LineBuf, lb_esc, lb_txt, Field, put_fields, clr_eol, render_tier,
  first_fitting,
}
use dirtybird_c_miner.Console.Clamp.{Place, outside, is_text, step_place, step_outside}
use dirtybird_c_miner.Console.Columns.{columns, width, text_step}

not_ltb : (a b : ℕ) → ltb a b ≡ false → b ≤ a
not_ltb a b h = ground arith

not_leb : (a b : ℕ) → leb a b ≡ false → b < a
not_leb a b h = ground arith

pub place_after : Place → List ℕ → Place
place_after p [] = p
place_after p (c ∷ rest) = place_after (step_place p c) rest

columns-append :
    (p : Place) (xs ys : List ℕ)
    → columns p (xs ++ ys) ≡ columns p xs + columns (place_after p xs) ys
unfolding columns place_after
columns-append p [] ys = omega arith
columns-append p (c ∷ xs) ys = omega (arith, columns-append (step_place p c) xs ys)

place_after-append :
    (p : Place) (xs ys : List ℕ) → place_after p (xs ++ ys) ≡ place_after (place_after p xs) ys
unfolding place_after
place_after-append p [] ys = refl
place_after-append p (c ∷ xs) ys = place_after-append (step_place p c) xs ys

-- No control character.
abbrev pub printable : List ℕ → Bool
printable [] = true
printable (c ∷ rest) = leb 0x20 c && printable rest

pub printable-append :
    (xs ys : List ℕ) → printable xs ≡ true → printable ys ≡ true → printable (xs ++ ys) ≡ true
printable-append [] ys h k = k
printable-append (x ∷ xs) ys h k = ground (arith, printable-append xs ys)

printable-∷ :
    (c : ℕ) (xs : List ℕ) → printable (c ∷ xs) ≡ true → (leb 0x20 c ≡ true) × (printable xs ≡ true)
printable-∷ c xs h = ground arith

printable-columns :
    (xs : List ℕ)
    → printable xs ≡ true
    → (columns outside xs ≡ length xs) × (place_after outside xs ≡ outside)
unfolding columns place_after is_text
printable-columns [] h = (refl, refl)
printable-columns (c ∷ xs) h =
    let (text, rest) = printable-∷ c xs h in
    let stays = text_step outside c text in
    let (all_text, ends) = printable-columns xs rest in
    (
      omega (arith, ap width text, ap (λ p. columns p xs) stays, all_text),
      ap (λ p. place_after p xs) stays ∙ ends,
    )

-- What the writer's fields mean.
pub record Sound (room : ℕ) (lb : LineBuf) : Type 0 where
  pub place : place_after outside lb.b ≡ outside
  pub vis : columns outside lb.b ≡ lb.vis
  pub cap : lb.cap ≡ suc room
  pub size : length lb.b ≤ room

behind :
    (b seq : List ℕ)
    → place_after outside b ≡ outside
    → place_after outside seq ≡ outside
    → (place_after outside (b ++ seq) ≡ outside)
      × (columns outside (b ++ seq) ≡ columns outside b + columns outside seq)
behind b seq p q = (
  place_after-append outside b seq ∙ ap (λ x. place_after x seq) p ∙ q,
  columns-append outside b seq ∙ ap (λ x. columns outside b + columns x seq) p,
)

overflowed : {room : ℕ} (lb : LineBuf) → Sound room lb → Sound room (record lb { ovf = true })
overflowed lb h = record { place = h.place; vis = h.vis; cap = h.cap; size = h.size }

lb_esc-Sound :
    {room : ℕ} (lb : LineBuf) (seq : List ℕ)
    → columns outside seq ≡ 0
    → place_after outside seq ≡ outside
    → Sound room lb
    → Sound room (lb_esc lb seq)
unfolding lb_esc
lb_esc-Sound lb seq none same h = elim (Bool-cases lb.ovf) [
  | inl over ↦ rw over (overflowed lb h)
  | inr fine ↦ elim (Bool-cases (ltb lb.cap (length lb.b + length seq + 1))) [
    | inl full ↦ rw (fine, full) (overflowed lb h)
    | inr fits ↦
        let (ends, cols) = behind lb.b seq h.place same in
        rw (fine, fits)
          (record {
            place = ends;
            vis = omega (arith, cols, none, h.vis);
            cap = h.cap;
            size = omega (arith, length-append lb.b seq, not_ltb _ _ fits, h.cap);
          })
  ]
]

lb_txt-Sound :
    {room : ℕ} (lb : LineBuf) (text : List ℕ)
    → printable text ≡ true
    → Sound room lb
    → Sound room (lb_txt lb text)
unfolding lb_txt
lb_txt-Sound lb text p h = elim (Bool-cases lb.ovf) [
  | inl over ↦ rw over (overflowed lb h)
  | inr fine ↦ elim (Bool-cases (leb (lb.cap - length lb.b) (length text))) [
    | inl full ↦ rw (fine, full) (overflowed lb h)
    | inr fits ↦
        let (all_text, same) = printable-columns text p in
        let (ends, cols) = behind lb.b text h.place same in
        rw (fine, fits)
          (record {
            place = ends;
            vis = omega (arith, cols, all_text, h.vis);
            cap = h.cap;
            size = omega (arith, length-append lb.b text, not_leb _ _ fits, h.cap);
          })
  ]
]

colour_seq_lem :
    (c : Colour)
    → (columns outside (colour_seq c) ≡ 0) × (place_after outside (colour_seq c) ≡ outside)
unfolding columns place_after is_text step_place step_outside
colour_seq_lem c_label = (refl, refl)
colour_seq_lem c_rate = (refl, refl)
colour_seq_lem c_text = (refl, refl)
colour_seq_lem c_avg = (refl, refl)
colour_seq_lem c_height = (refl, refl)
colour_seq_lem c_mini = (refl, refl)
colour_seq_lem c_block = (refl, refl)
colour_seq_lem c_diff = (refl, refl)
colour_seq_lem c_time = (refl, refl)
colour_seq_lem c_rej_ok = (refl, refl)
colour_seq_lem c_rej_hi = (refl, refl)

put_fields-Sound :
    {room : ℕ} (fields : List Field) (lb : LineBuf)
    → All (λ f. printable f.1 ≡ true) fields
    → Sound room lb
    → Sound room (put_fields lb fields)
unfolding put_fields
put_fields-Sound [] lb p h = h
put_fields-Sound ((c, text) ∷ rest) lb p h =
    let (none, same) = colour_seq_lem c in
    put_fields-Sound rest (lb_txt (lb_esc lb (colour_seq c)) text) p.1 (
      lb_txt-Sound (lb_esc lb (colour_seq c)) text p.0 (lb_esc-Sound lb (colour_seq c) none same h))

clr_eol_lem :
    (tty : Bool)
    → (columns outside (clr_eol tty) ≡ 0) × (place_after outside (clr_eol tty) ≡ outside)
unfolding columns place_after is_text step_place step_outside
clr_eol_lem true = (refl, refl)
clr_eol_lem false = (refl, refl)

control_lem :
    (columns outside (13 ∷ []) ≡ 0)
    × (place_after outside (13 ∷ []) ≡ outside)
    × (columns outside (27 ∷ codes "[0m") ≡ 0)
    × (place_after outside (27 ∷ codes "[0m") ≡ outside)
unfolding columns place_after is_text step_place step_outside
control_lem = (refl, refl, refl, refl)

empty-Sound : (room : ℕ) → Sound room (record { b = []; cap = suc room; vis = 0; ovf = false })
unfolding place_after columns
empty-Sound room = record { place = refl; vis = refl; cap = refl; size = omega arith }

pub render_tier-Sound :
    (tty : Bool) (room : ℕ) (fields : List Field)
    → All (λ f. printable f.1 ≡ true) fields
    → Sound room (render_tier tty (suc room) fields)
unfolding render_tier
render_tier-Sound tty room fields p =
    let clr = clr_eol_lem tty in
    let (cr, cr_place, reset, reset_place) = control_lem in
    lb_esc-Sound _ (clr_eol tty) clr.0 clr.1 (
      lb_esc-Sound _ (27 ∷ codes "[0m") reset reset_place
        (put_fields-Sound fields _ p (lb_esc-Sound _ (13 ∷ []) cr cr_place (empty-Sound room))))

pub first_fitting-fits :
    (tty : Bool) (room budget : ℕ) (layouts : List (List Field)) (last : List ℕ)
    → All (λ fields. All (λ f. printable f.1 ≡ true) fields) layouts
    → (columns outside last ≤ budget) × (length last ≤ room)
    → let out = first_fitting tty (suc room) budget layouts last in
      (columns outside out ≤ budget) × (length out ≤ room)
unfolding first_fitting
first_fitting-fits tty room budget [] last p h = h
first_fitting-fits tty room budget (fields ∷ rest) last p h =
    let lb = render_tier tty (suc room) fields in
    let ok = render_tier-Sound tty room fields p.0 in
    let later = first_fitting-fits tty room budget rest last p.1 h in
    elim (Bool-cases lb.ovf) [
      | inl over ↦ rw over later
      | inr fine ↦ elim (Bool-cases (leb lb.vis budget)) [
        | inr wide ↦ rw (fine, wide) later
        | inl fits ↦ rw (fine, fits) (omega (arith, ok.vis, leb→le _ _ fits), ok.size)
      ]
    ]
