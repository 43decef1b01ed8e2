-- ===== src/Ws/Frame.antt =====
-- The bytes of a WebSocket frame: header, extended length, mask.
pub mod Laws
use dirtybird_c_miner.Base.{
  ℕ, zero, suc, ◌+◌, ◌-◌, ◌*◌, List, [], ◌∷◌, ◌++◌, bit_and, bit_or, bit_xor, u8, u64, ◌<<<◌, ◌>>>◌,
  get_or, ltb, if◌then◌else◌,
}

-- The loop that stores a 64-bit length from byte `8 - left` on.
unfoldable pub length_bytes : ℕ → ℕ → List ℕ
length_bytes l zero = []
length_bytes l (suc left) = bit_and (l >>> (56 - 8 * (7 - left))) 0xff ∷ length_bytes l left

-- The header before the masking key.
unfoldable pub frame_header : ℕ → ℕ → List ℕ
unfolding length_bytes
frame_header len opcode =
    bit_or 0x80 (bit_and opcode 0x0f)
    ∷ (if ltb len 126
        then bit_or 0x80 (u8 len) ∷ []
        else if ltb len 65536
        then bit_or 0x80 126 ∷ bit_and (len >>> 8) 0xff ∷ bit_and len 0xff ∷ []
        else bit_or 0x80 127 ∷ length_bytes len 8)

-- The loops that mask and unmask, from index `i` on.
unfoldable pub mask_from : List ℕ → ℕ → List ℕ → List ℕ
mask_from mask i [] = []
mask_from mask i (b ∷ rest) = bit_xor b (get_or mask (bit_and i 3) 0) ∷ mask_from mask (i + 1) rest

-- The loop that reads a 64-bit length.
unfoldable pub length_from : ℕ → List ℕ → ℕ
length_from plen [] = plen
length_from plen (b ∷ rest) = length_from (bit_or (u64 (plen <<< 8)) b) rest
