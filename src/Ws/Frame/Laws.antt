-- ===== src/Ws/Frame/Laws.antt =====
-- Masking twice, and lengths written and read back.
use dirtybird_c_miner.Base.{
  ℕ, suc, ◌+◌, ◌*◌, ◌/◌, ◌%◌, ◌^◌, ◌≤◌, ◌<◌, ◌≡◌, refl, ap, ap₂, ◌∙◌, List, [], ◌∷◌, length,
  bit_and, bit_or, u8, u64, ◌<<<◌, ◌>>>◌, Bool, not, true, false, ◌&&◌, ◌==◌, ==_iff, bit_and_255,
  bit_xor_twice, bit_or_shifted, holds_below_at, arith,
}
use dirtybird_c_miner.Ws.Frame.{length_bytes, mask_from, length_from}

-- Masking with the same key again gives the payload back.
pub mask_from_twice :
    (mask : List ℕ) (i : ℕ) (xs : List ℕ) → mask_from mask i (mask_from mask i xs) ≡ xs
unfolding mask_from
mask_from_twice mask i [] = refl
mask_from_twice mask i (x ∷ xs) = ap₂ ◌∷◌ (bit_xor_twice x _) (mask_from_twice mask (i + 1) xs)

pub length-mask_from :
    (mask : List ℕ) (i : ℕ) (xs : List ℕ) → length (mask_from mask i xs) ≡ length xs
unfolding mask_from
length-mask_from mask i [] = refl
length-mask_from mask i (x ∷ xs) = ap suc (length-mask_from mask (i + 1) xs)

-- A byte behind a number that does not wrap.
append_byte : (a b : ℕ) → a < 2 ^ 56 → b < 256 → bit_or (u64 (a <<< 8)) b ≡ a * 256 + b
append_byte a b small byte = ap (λ t. bit_or t b) (omega arith) ∙ bit_or_shifted 8 a b byte

three_bytes :
    (x y z : ℕ)
    → x < 256
    → y < 256
    → z < 256
    → bit_or (u64 (bit_or (u64 (bit_or 0 x <<< 8)) y <<< 8)) z ≡ (x * 256 + y) * 256 + z
three_bytes x y z hx hy hz =
    ap (λ t. bit_or (u64 (bit_or (u64 (t <<< 8)) y <<< 8)) z)
      (append_byte 0 x (omega arith) hx ∙ omega arith)
    ∙ ap (λ t. bit_or (u64 (t <<< 8)) z) (append_byte x y (omega arith) hy)
    ∙ append_byte (x * 256 + y) z (omega arith) hz

pub length_16 :
    (len : ℕ) → len < 65536 → bit_or (u64 (bit_and (len >>> 8) 0xff <<< 8)) (bit_and len 0xff) ≡ len
length_16 len h =
    rw (bit_and_255 (len >>> 8), bit_and_255 len)
      (append_byte ((len / 2 ^ 8) % 256) (len % 256) (omega arith) (omega arith) ∙ omega arith)

pub length_64 : (len : ℕ) → len ≤ 1024 * 1024 → length_from 0 (length_bytes len 8) ≡ len
unfolding length_from length_bytes
length_64 len h =
    rw
      (
        zero_byte (len >>> 56) (omega arith),
        zero_byte (len >>> 48) (omega arith),
        zero_byte (len >>> 40) (omega arith),
        zero_byte (len >>> 32) (omega arith),
        zero_byte (len >>> 24) (omega arith),
        bit_and_255 (len >>> 16),
        bit_and_255 (len >>> 8),
        bit_and_255 (len >>> 0),
      )
      (three_bytes ((len >>> 16) % 256) ((len >>> 8) % 256) ((len >>> 0) % 256) (omega arith)
          (omega arith) (omega arith)
        ∙ omega arith)
  where
    zero_byte : (n : ℕ) → n ≡ 0 → bit_and n 0xff ≡ 0
    zero_byte n e = bit_and_255 n ∙ omega (arith, e)

both : {p q : Bool} → (p && not q) ≡ true → (p ≡ true) × (q ≡ false)
both {p} {q} h = ground arith

-- A short length beside the mask bit.
pub short_length :
    (l : ℕ)
    → l < 126
    → (bit_and (bit_or 0x80 (u8 l)) 0x7f ≡ l) × ((bit_and (bit_or 0x80 (u8 l)) 0x80 == 0) ≡ false)
short_length l h =
    let (same, masked) = both (holds_below_at test 126 l refl h) in ((==_iff _ l).0 same, masked)
  where
    test : ℕ → Bool
    test k = bit_and (bit_or 0x80 (u8 k)) 0x7f == k && not (bit_and (bit_or 0x80 (u8 k)) 0x80 == 0)
