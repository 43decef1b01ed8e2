-- ===== src/Text/Strtol.antt =====
-- `strtol`, `strtoll` and `atoi`: blanks, a sign, an optional 0x in base 16, and the digits up to
-- the first other character. The result stops at the ends of the 64-bit range.
use dirtybird_c_miner.Base.{
  ℕ, ◌+◌, ◌-◌, ◌*◌, ◌%◌, ◌^◌, Bool, true, false, ◌&&◌, ◌||◌, List, [], ◌∷◌, Option, none, some, ltb,
  leb, ◌==◌, if◌then◌else◌, ℤ, pos, negsuc,
}

-- `isspace` in the C locale.
unfoldable pub is_space : ℕ → Bool
is_space c = c == 32 || (leb 9 c && leb c 13)

unfoldable pub skip_space : List ℕ → List ℕ
unfolding is_space
skip_space [] = []
skip_space (c ∷ s) = if is_space c then skip_space s else c ∷ s

-- The value of a digit in some base up to 36.
unfoldable pub digit_value : ℕ → Option ℕ
digit_value c =
    if leb b'0' c && leb c b'9'
    then some (c - b'0')
    else if leb b'a' c && leb c b'z'
    then some (c - b'a' + 10)
    else if leb b'A' c && leb c b'Z'
    then some (c - b'A' + 10)
    else none

unfoldable pub digit_in : ℕ → ℕ → Option ℕ
unfolding digit_value
digit_in base c = elim (digit_value c) [
  | none ↦ none
  | some v ↦ if ltb v base then some v else none
]

-- The number that the leading digits of a string stand for, read behind `acc`.
unfoldable pub magnitude : ℕ → ℕ → List ℕ → ℕ
unfolding digit_in
magnitude base acc [] = acc
magnitude base acc (c ∷ s) = elim (digit_in base c) [
  | none ↦ acc
  | some v ↦ magnitude base (acc * base + v) s
]

skip_0x : ℕ → List ℕ → List ℕ
skip_0x base (z ∷ x ∷ d ∷ s) =
    if base == 16 && z == b'0' && (x == b'x' || x == b'X')
    then (elim (digit_in 16 d) [ none ↦ z ∷ x ∷ d ∷ s | some v ↦ d ∷ s ])
    else z ∷ x ∷ d ∷ s
skip_0x base s = s

saturate : Bool → ℕ → ℤ
saturate false m = if ltb m (2 ^ 63) then pos m else pos (2 ^ 63 - 1)
saturate true m =
    if m == 0 then pos 0 else if leb m (2 ^ 63) then negsuc (m - 1) else negsuc (2 ^ 63 - 1)

signed : ℕ → List ℕ → ℤ
unfolding magnitude skip_0x saturate
signed base [] = pos 0
signed base (c ∷ s) =
    if c == b'-'
    then saturate true (magnitude base 0 (skip_0x base s))
    else if c == b'+'
    then saturate false (magnitude base 0 (skip_0x base s))
    else saturate false (magnitude base 0 (skip_0x base (c ∷ s)))

unfoldable pub strtoll : ℕ → List ℕ → ℤ
unfolding skip_space signed
strtoll base s = signed base (skip_space s)

-- Casts of a signed value to `uint8_t`, `uint16_t` and `uint64_t`.
abbrev pub to_unsigned : ℕ → ℤ → ℕ
to_unsigned m (pos n) = n % m
to_unsigned m (negsuc n) = m - 1 - n % m
