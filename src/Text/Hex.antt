-- ===== src/Text/Hex.antt =====
-- include/hex.h: bytes to lower-case hexadecimal and back.
use dirtybird_c_miner.Base.{
  ℕ, zero, suc, ◌*◌, ◌<◌, ◌≡◌, refl, ap, ap₂, true, bit_and, List, [], ◌∷◌, length, get_or, All,
  holds_below, holds_below_at, ◌>>>◌, ◌==◌, ==_iff, arith,
}
use dirtybird_c_miner.Text.Chars.{codes}
use dirtybird_c_miner.Text.Strtol.{strtoll, to_unsigned}

abbrev characters : List ℕ
characters = codes "0123456789abcdef"

unfoldable pub hex_str : List ℕ → List ℕ
hex_str [] = []
hex_str (b ∷ rest) =
    get_or characters (b >>> 4) 32 ∷ get_or characters (bit_and b 0x0f) 32 ∷ hex_str rest

-- The bytes written to `b`, one for each two characters.
unfoldable pub hexstr_to_bytes : List ℕ → List ℕ
hexstr_to_bytes [] = []
hexstr_to_bytes (c ∷ []) = to_unsigned 256 (strtoll 16 (c ∷ [])) ∷ []
hexstr_to_bytes (c ∷ d ∷ s) = to_unsigned 256 (strtoll 16 (c ∷ d ∷ [])) ∷ hexstr_to_bytes s

digit_pair : ℕ → ℕ
unfolding strtoll
digit_pair b =
    to_unsigned 256
      (strtoll 16 (get_or characters (b >>> 4) 32 ∷ get_or characters (bit_and b 0x0f) 32 ∷ []))

digit_pair_table : holds_below (λ b. digit_pair b == b) 256 ≡ true
unfolding digit_pair
digit_pair_table = refl

digit_pair_lem : (b : ℕ) → b < 256 → digit_pair b ≡ b
digit_pair_lem b h =
    (==_iff (digit_pair b) b).0 (holds_below_at (λ c. digit_pair c == c) 256 b digit_pair_table h)

-- Reading back the hexadecimal form of a string of bytes gives the bytes.
pub hexstr_to_bytes-hex_str :
    (data' : List ℕ) → All (λ b. b < 256) data' → hexstr_to_bytes (hex_str data') ≡ data'
unfolding hexstr_to_bytes hex_str
hexstr_to_bytes-hex_str [] h = refl
hexstr_to_bytes-hex_str (b ∷ rest) h =
    ap₂ ◌∷◌ (unfold digit_pair in digit_pair_lem b h.0) (hexstr_to_bytes-hex_str rest h.1)

pub length-hex_str : (data' : List ℕ) → length (hex_str data') ≡ 2 * length data'
unfolding hex_str
length-hex_str [] = omega arith
length-hex_str (b ∷ rest) = omega (arith, length-hex_str rest)

pub length-hexstr_to_bytes :
    (n : ℕ) (s : List ℕ) → length s ≡ n * 2 → length (hexstr_to_bytes s) ≡ n
unfolding hexstr_to_bytes
length-hexstr_to_bytes zero [] h = refl
length-hexstr_to_bytes zero (c ∷ s) h = absurd (omega arith)
length-hexstr_to_bytes (suc n) [] h = absurd (omega arith)
length-hexstr_to_bytes (suc n) (c ∷ []) h = absurd (omega arith)
length-hexstr_to_bytes (suc n) (c ∷ d ∷ s) h = ap suc (length-hexstr_to_bytes n s (omega arith))
