-- ===== src/Console.antt =====
-- src/console.cpp: the status line, in five layouts, kept on one terminal row.
pub mod Clamp
pub mod Columns
pub mod Fits
pub mod Line
mod Tests
use dirtybird_c_miner.Base.{
  ℕ, zero, suc, ◌+◌, ◌-◌, ◌*◌, Bool, true, false, ◌&&◌, List, [], ◌∷◌, ◌++◌, length, ltb, leb, ◌==◌,
  if◌then◌else◌, ℤ, pos, negsuc,
}
use dirtybird_c_miner.Text.Chars.{codes}
use dirtybird_c_miner.Console.Clamp.{ansi_clamp}

-- The C library's `%.2f`, `%lld` and `%02d`, on doubles of a type `D`.
pub record Printf {ℓ} (D : Type ℓ) : Type ℓ where
  pub f2 : D → List ℕ
  pub lld : ℤ → List ℕ
  pub d02 : ℤ → List ℕ

pub record DlunaStatus {ℓ} (D : Type ℓ) : Type ℓ where
  pub rate : D
  pub avg : D
  pub height : ℤ
  pub accepted : ℤ
  pub blocks : ℤ
  pub rejected : ℤ
  pub diff : List ℕ
  pub hh : ℤ
  pub mm : ℤ
  pub ss : ℤ

-- The colours that the layouts name.
pub data Colour : Type 0 where
  c_label : Colour
  c_rate : Colour
  c_text : Colour
  c_avg : Colour
  c_height : Colour
  c_mini : Colour
  c_block : Colour
  c_diff : Colour
  c_time : Colour
  c_rej_ok : Colour
  c_rej_hi : Colour

abbrev pub colour_seq : Colour → List ℕ
colour_seq c_label = 27 ∷ codes "[93m"
colour_seq c_rate = 27 ∷ codes "[92m"
colour_seq c_text = 27 ∷ codes "[97m"
colour_seq c_avg = 27 ∷ codes "[32m"
colour_seq c_height = 27 ∷ codes "[34m"
colour_seq c_mini = 27 ∷ codes "[36m"
colour_seq c_block = 27 ∷ codes "[32m"
colour_seq c_diff = 27 ∷ codes "[35m"
colour_seq c_time = 27 ∷ codes "[37m"
colour_seq c_rej_ok = 27 ∷ codes "[37m"
colour_seq c_rej_hi = 27 ∷ codes "[91m"

-- The writer: `b` are the bytes written, `vis` the columns, `ovf` that something did not fit.
pub record LineBuf : Type 0 where
  pub b : List ℕ
  pub cap : ℕ
  pub vis : ℕ
  pub ovf : Bool

unfoldable pub lb_esc : LineBuf → List ℕ → LineBuf
lb_esc lb seq =
    if lb.ovf
    then lb
    else if ltb lb.cap (length lb.b + length seq + 1)
    then record lb { ovf = true }
    else record lb { b = lb.b ++ seq }

-- `text` is what the format and its arguments print.
unfoldable pub lb_txt : LineBuf → List ℕ → LineBuf
lb_txt lb text =
    if lb.ovf
    then lb
    else if leb (lb.cap - length lb.b) (length text)
    then record lb { ovf = true }
    else record lb { b = lb.b ++ text; vis = lb.vis + length text }

-- A colour and the text behind it: one line of `render_tier`.
abbrev pub Field : Type 0
Field = Colour × List ℕ

unfoldable pub put_fields : LineBuf → List Field → LineBuf
put_fields lb [] = lb
put_fields lb ((colour, text) ∷ rest) =
    put_fields (lb_txt (lb_esc lb (colour_seq colour)) text) rest

abbrev pub is_positive : ℤ → Bool
is_positive (pos zero) = false
is_positive (pos (suc n)) = true
is_positive (negsuc n) = false

module _ {ℓ} {D : Type ℓ} (f : Printf D) (s : DlunaStatus D) where
  abbrev pub rej : Colour
  rej = if is_positive s.rejected then c_rej_hi else c_rej_ok

  abbrev pub clock : List ℕ
  clock = f.d02 s.hh ++ (b':' ∷ (f.d02 s.mm ++ (b':' ∷ f.d02 s.ss)))

  unfoldable pub tier_full : List Field
  tier_full =
      (c_label, codes "[DIRTYBIRD-C] ")
      ∷ (c_rate, f.f2 s.rate ++ codes " KH/s")
      ∷ (c_text, codes " (")
      ∷ (c_avg, f.f2 s.avg ++ codes " KH/s avg")
      ∷ (c_text, codes ") | ")
      ∷ (c_height, codes "Height:" ++ f.lld s.height)
      ∷ (c_text, codes " | ")
      ∷ (c_mini, codes "Miniblocks:" ++ f.lld s.accepted)
      ∷ (c_text, codes " | ")
      ∷ (c_block, codes "Blocks:" ++ f.lld s.blocks)
      ∷ (c_text, codes " | ")
      ∷ (rej, codes "REJ:" ++ f.lld s.rejected)
      ∷ (c_text, codes " | ")
      ∷ (c_diff, codes "Diff:" ++ s.diff)
      ∷ (c_text, codes " | ")
      ∷ (c_time, clock)
      ∷ []

  -- The fields from the height on that the medium and the narrow layout share.
  unfoldable pub counters : List Field
  counters =
      (c_height, codes "H:" ++ f.lld s.height)
      ∷ (c_text, codes " | ")
      ∷ (c_mini, codes "MB:" ++ f.lld s.accepted)
      ∷ (c_text, codes " | ")
      ∷ (c_block, codes "B:" ++ f.lld s.blocks)
      ∷ (c_text, codes " | ")
      ∷ (rej, codes "R:" ++ f.lld s.rejected)
      ∷ (c_text, codes " | ")
      ∷ (c_diff, codes "D:" ++ s.diff)
      ∷ (c_text, codes " | ")
      ∷ (c_time, clock)
      ∷ []

  unfoldable pub tier_medium : List Field
  tier_medium =
      (c_label, codes "[DIRTYBIRD-C] ")
      ∷ (c_rate, f.f2 s.rate ++ codes " KH/s")
      ∷ (c_text, codes " (")
      ∷ (c_avg, f.f2 s.avg ++ codes " avg")
      ∷ (c_text, codes ") | ")
      ∷ counters

  unfoldable pub tier_narrow : List Field
  tier_narrow =
      (c_label, codes "[DIRTYBIRD-C] ")
      ∷ (c_rate, f.f2 s.rate ++ codes " KH/s")
      ∷ (c_text, codes " | ")
      ∷ counters

  unfoldable pub tier_compact : List Field
  tier_compact =
      (c_label, codes "[DB] ")
      ∷ (c_rate, f.f2 s.rate ++ codes " KH/s")
      ∷ (c_text, codes " | ")
      ∷ (c_height, codes "H:" ++ f.lld s.height)
      ∷ (c_text, codes " ")
      ∷ (c_mini, codes "MB:" ++ f.lld s.accepted)
      ∷ (c_text, codes " ")
      ∷ (c_block, codes "B:" ++ f.lld s.blocks)
      ∷ (c_text, codes " ")
      ∷ (rej, codes "R:" ++ f.lld s.rejected)
      ∷ (c_text, codes " | ")
      ∷ (c_time, clock)
      ∷ []

  unfoldable pub tier_minimal : List Field
  tier_minimal =
      (c_label, codes "[DB] ")
      ∷ (c_rate, f.f2 s.rate ++ codes " KH/s")
      ∷ (c_text, codes " ")
      ∷ (c_mini, codes "MB:" ++ f.lld s.accepted)
      ∷ (c_text, codes " ")
      ∷ (c_block, codes "B:" ++ f.lld s.blocks)
      ∷ []

  unfoldable pub tiers : List (List Field)
  tiers = tier_full ∷ tier_medium ∷ tier_narrow ∷ tier_compact ∷ tier_minimal ∷ []

abbrev pub clr_eol : Bool → List ℕ
clr_eol tty = if tty then 27 ∷ codes "[K" else []

-- The layouts differ only in their fields.
unfoldable pub render_tier : Bool → ℕ → List Field → LineBuf
render_tier tty cap fields =
    lb_esc
      (lb_esc
        (put_fields (lb_esc (record { b = []; cap = cap; vis = 0; ovf = false }) (13 ∷ [])) fields)
        (27 ∷ codes "[0m"))
      (clr_eol tty)

-- The loop over the layouts, or `last` if none fits.
unfoldable pub first_fitting : Bool → ℕ → ℕ → List (List Field) → List ℕ → List ℕ
first_fitting tty cap budget [] last = last
first_fitting tty cap budget (fields ∷ rest) last =
    let lb = render_tier tty cap fields in
    let others = first_fitting tty cap budget rest last in
    if lb.ovf then others else if leb lb.vis budget then lb.b else others

-- One column less than the console has; `INT_MAX` where there is no console.
abbrev pub column_budget : ℤ → ℕ
column_budget (pos zero) = 2147483647
column_budget (pos (suc n)) = n
column_budget (negsuc n) = 2147483647

-- The text that is left in a buffer of `cap` bytes; `cols` 0 or below stands for no console.
unfoldable pub format_status {ℓ} : {D : Type ℓ} → Printf D → Bool → ℕ → DlunaStatus D → ℤ → List ℕ
format_status f tty zero s cols = []
format_status f tty (suc room) s cols =
    first_fitting tty (suc room) (column_budget cols) (tiers f s)
      (ansi_clamp (render_tier tty (suc room) (tier_minimal f s)).b (column_budget cols))
