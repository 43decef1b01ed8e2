-- ===== src/Base/Bits.antt =====
-- Machine words: casts to a width, shifts, and `|` and `^` at variables.
use Prim.Native.Nat.{ℕ, zero, suc, ◌+◌, ◌*◌, ◌/◌, ◌%◌, ◌^◌, ◌≤◌, ◌<◌, min, max}
use Prim.Native.Nat.{
  bit_and, bit_or, bit_xor, differ, digits, bit_and-bitwise, bit_or-bitwise, bit_xor-bitwise,
}
use mathlib.Core.Path.{◌≡◌, refl, ap, ap₂, ◌∙◌}
use native.Mathlib.Nat.{pow-suc}
use native.Mathlib.Omega.{arith}

abbrev pub u8 : ℕ → ℕ
u8 n = n % 2 ^ 8

abbrev pub u16 : ℕ → ℕ
u16 n = n % 2 ^ 16

abbrev pub u32 : ℕ → ℕ
u32 n = n % 2 ^ 32

abbrev pub u64 : ℕ → ℕ
u64 n = n % 2 ^ 64

abbrev pub u128 : ℕ → ℕ
u128 n = n % 2 ^ 128

-- `fetch_add` of a 64-bit atomic counter.
abbrev pub add64 : ℕ → ℕ → ℕ
add64 a b = (a + b) % 2 ^ 64

infixl 75 ◌<<<◌ ◌>>>◌
abbrev pub ◌<<<◌ : ℕ → ℕ → ℕ
x <<< k = x * 2 ^ k

abbrev pub ◌>>>◌ : ℕ → ℕ → ℕ
x >>> k = x / 2 ^ k

module _ (rest : ℕ → ℕ) (op : ℕ → ℕ → ℕ) where
  -- Any two counts that cover the first number give the same digits.
  digits-eq :
      (fuel fuel' a b : ℕ)
      → a ≤ fuel
      → a ≤ fuel'
      → digits rest op fuel a b ≡ digits rest op fuel' a b
  digits-eq zero zero a b h h' = refl
  digits-eq zero (suc fuel') zero b h h' = refl
  digits-eq zero (suc fuel') (suc a) b h h' = absurd (omega arith)
  digits-eq (suc fuel) zero zero b h h' = refl
  digits-eq (suc fuel) zero (suc a) b h h' = absurd (omega arith)
  digits-eq (suc fuel) (suc fuel') zero b h h' = refl
  digits-eq (suc fuel) (suc fuel') (suc a) b h h' =
      ap (λ t. t * 2 + op (suc a % 2) (b % 2))
        (digits-eq fuel fuel' (suc a / 2) (b / 2) (omega arith) (omega arith))

  digits_low :
      (a b : ℕ)
      → digits rest op (suc a) (suc a) b
        ≡ digits rest op (suc a / 2) (suc a / 2) (b / 2) * 2 + op (suc a % 2) (b % 2)
  digits_low a b =
      ap (λ t. t * 2 + op (suc a % 2) (b % 2))
        (digits-eq a (suc a / 2) (suc a / 2) (b / 2) (omega arith) (omega arith))

-- The lowest digit of `|`.
bit_or_low : (a b : ℕ) → bit_or a b ≡ bit_or (a / 2) (b / 2) * 2 + max (a % 2) (b % 2)
bit_or_low zero b = simp bit_or-bitwise (omega arith)
bit_or_low (suc a) b = simp bit_or-bitwise (digits_low (λ y. y) max a b)

-- The lowest digit of `^`.
bit_xor_low : (a b : ℕ) → bit_xor a b ≡ bit_xor (a / 2) (b / 2) * 2 + differ (a % 2) (b % 2)
bit_xor_low zero b = simp bit_xor-bitwise (omega arith)
bit_xor_low (suc a) b = simp bit_xor-bitwise (digits_low (λ y. y) differ a b)

bit_or-zero_within : (n a : ℕ) → a ≤ n → bit_or a 0 ≡ a
bit_or-zero_within n zero h = refl
bit_or-zero_within zero (suc a) h = absurd (omega arith)
bit_or-zero_within (suc n) (suc a) h =
    omega (arith, bit_or_low (suc a) 0, bit_or-zero_within n (suc a / 2) (omega arith))

-- `(a << k) | b` is a sum where `b` fits in the `k` low bits.
pub bit_or_shifted : (k a b : ℕ) → b < 2 ^ k → bit_or (a * 2 ^ k) b ≡ a * 2 ^ k + b
bit_or_shifted zero a b fits = ground (arith, bit_or-zero_within a a)
bit_or_shifted (suc k) a b fits = ground (
  arith,
  bit_or_low (a * 2 ^ suc k) b,
  pow-suc 2 k,
  ap (λ (t : ℕ). a * t) (pow-suc 2 k),
  bit_or_shifted k a (b / 2) (omega arith),
)

-- `a | (b << k)` is a sum where `a` fits in the `k` low bits.
pub bit_or_under : (k a b : ℕ) → a < 2 ^ k → bit_or a (b * 2 ^ k) ≡ b * 2 ^ k + a
bit_or_under zero a b fits =
    let none_left : a ≡ 0 = omega arith in rw none_left (simp bit_or-bitwise (omega arith))
bit_or_under (suc k) a b fits = ground (
  arith,
  bit_or_low a (b * 2 ^ suc k),
  pow-suc 2 k,
  ap (λ (t : ℕ). b * t) (pow-suc 2 k),
  bit_or_under k (a / 2) b (omega (arith, pow-suc 2 k)),
)

-- The lowest digit of `&`.
bit_and_low : (a b : ℕ) → bit_and a b ≡ bit_and (a / 2) (b / 2) * 2 + min (a % 2) (b % 2)
bit_and_low zero b = simp bit_and-bitwise (omega arith)
bit_and_low (suc a) b = simp bit_and-bitwise (digits_low (λ y. 0) min a b)

bit_and-zero_within : (n a : ℕ) → a ≤ n → bit_and a 0 ≡ 0
bit_and-zero_within n zero h = omega (arith, bit_and_low 0 0)
bit_and-zero_within zero (suc a) h = absurd (omega arith)
bit_and-zero_within (suc n) (suc a) h =
    omega (arith, bit_and_low (suc a) 0, bit_and-zero_within n (suc a / 2) (omega arith))

bit_and_3 : (a : ℕ) → bit_and a 3 ≡ a % 4
bit_and_3 a =
    omega
      (arith, bit_and_low a 3, bit_and_low (a / 2) 1, bit_and-zero_within (a / 2 / 2) (a / 2 / 2))

bit_and_15 : (a : ℕ) → bit_and a 15 ≡ a % 16
bit_and_15 a = omega (arith, bit_and_low a 15, bit_and_low (a / 2) 7, bit_and_3 (a / 2 / 2))

-- A cast to a byte by a mask.
pub bit_and_255 : (a : ℕ) → bit_and a 255 ≡ a % 256
bit_and_255 a = omega (
  arith,
  bit_and_low a 255,
  bit_and_low (a / 2) 127,
  bit_and_low (a / 2 / 2) 63,
  bit_and_low (a / 2 / 2 / 2) 31,
  bit_and_15 (a / 2 / 2 / 2 / 2),
)

-- The low 12 bits by a mask.
pub bit_and_4095 : (a : ℕ) → bit_and a 4095 ≡ a % 4096
bit_and_4095 a = omega (
  arith,
  bit_and_low a 4095,
  bit_and_low (a / 2) 2047,
  bit_and_low (a / 2 / 2) 1023,
  bit_and_low (a / 2 / 2 / 2) 511,
  bit_and_255 (a / 2 / 2 / 2 / 2),
)

bit_and_65535 : (a : ℕ) → bit_and a 65535 ≡ a % 65536
bit_and_65535 a = omega (
  arith,
  bit_and_low a 65535,
  bit_and_low (a / 2) 32767,
  bit_and_low (a / 2 / 2) 16383,
  bit_and_low (a / 2 / 2 / 2) 8191,
  bit_and_4095 (a / 2 / 2 / 2 / 2),
)

-- The low 17 bits by a mask.
pub bit_and_131071 : (a : ℕ) → bit_and a 131071 ≡ a % 131072
bit_and_131071 a = omega (arith, bit_and_low a 131071, bit_and_65535 (a / 2))

bit_and_twice : (a c : ℕ) → bit_and a (c * 2) ≡ bit_and (a / 2) c * 2
bit_and_twice a c =
    let half : c * 2 / 2 ≡ c = omega arith in
    omega (arith, bit_and_low a (c * 2), ap (bit_and (a / 2)) half)

bit_and_4_times : (a c : ℕ) → bit_and a (c * 4) ≡ bit_and (a / 4) c * 4
bit_and_4_times a c =
    let mask : c * 4 ≡ c * 2 * 2 = omega arith in
    let quarter : a / 2 / 2 ≡ a / 4 = omega arith in
    omega (
      arith,
      ap (bit_and a) mask,
      bit_and_twice a (c * 2),
      bit_and_twice (a / 2) c,
      ap (λ (q : ℕ). bit_and q c) quarter,
    )

bit_and_16_times : (a c : ℕ) → bit_and a (c * 16) ≡ bit_and (a / 16) c * 16
bit_and_16_times a c =
    let mask : c * 16 ≡ c * 4 * 4 = omega arith in
    let part : a / 4 / 4 ≡ a / 16 = omega arith in
    omega (
      arith,
      ap (bit_and a) mask,
      bit_and_4_times a (c * 4),
      bit_and_4_times (a / 4) c,
      ap (λ (q : ℕ). bit_and q c) part,
    )

-- A mask whose low byte is clear.
pub bit_and_256_times : (a c : ℕ) → bit_and a (c * 256) ≡ bit_and (a / 256) c * 256
bit_and_256_times a c =
    let mask : c * 256 ≡ c * 16 * 16 = omega arith in
    let part : a / 16 / 16 ≡ a / 256 = omega arith in
    omega (
      arith,
      ap (bit_and a) mask,
      bit_and_16_times a (c * 16),
      bit_and_16_times (a / 16) c,
      ap (λ (q : ℕ). bit_and q c) part,
    )

differ_twice : (x y : ℕ) → x < 2 → y < 2 → differ (differ x y) y ≡ x
differ_twice zero zero h k = refl
differ_twice zero (suc zero) h k = refl
differ_twice (suc zero) zero h k = refl
differ_twice (suc zero) (suc zero) h k = refl
differ_twice (suc (suc x)) y h k = absurd (omega arith)
differ_twice x (suc (suc y)) h k = absurd (omega arith)

differ_small : (x y : ℕ) → x < 2 → y < 2 → differ x y < 2
differ_small zero zero h k = omega arith
differ_small zero (suc zero) h k = omega arith
differ_small (suc zero) zero h k = omega arith
differ_small (suc zero) (suc zero) h k = omega arith
differ_small (suc (suc x)) y h k = absurd (omega arith)
differ_small x (suc (suc y)) h k = absurd (omega arith)

xor_twice_within : (n a b : ℕ) → a + b ≤ n → bit_xor (bit_xor a b) b ≡ a
xor_twice_within zero zero zero h = refl
xor_twice_within zero zero (suc b) h = absurd (omega arith)
xor_twice_within zero (suc a) b h = absurd (omega arith)
xor_twice_within (suc n) a b h =
    let low = bit_xor_low a b in
    let small = differ_small (a % 2) (b % 2) (omega arith) (omega arith) in
    let high : bit_xor a b / 2 ≡ bit_xor (a / 2) (b / 2) = omega (arith, low, small) in
    let bit : bit_xor a b % 2 ≡ differ (a % 2) (b % 2) = omega (arith, low, small) in
    bit_xor_low (bit_xor a b) b
    ∙ ap₂ (λ x y. x * 2 + y)
        (ap (λ t. bit_xor t (b / 2)) high ∙ xor_twice_within n (a / 2) (b / 2) (omega arith))
        (ap (λ t. differ t (b % 2)) bit ∙ differ_twice (a % 2) (b % 2) (omega arith) (omega arith))
    ∙ (omega arith)

pub bit_xor_twice : (a b : ℕ) → bit_xor (bit_xor a b) b ≡ a
bit_xor_twice a b = xor_twice_within (a + b) a b (omega arith)
