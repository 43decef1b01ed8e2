-- ===== src/Stage/Be64.antt =====
-- Eight bytes compared as one number.
use Prim.Native.Nat.{Ordering}
use native.Mathlib.Nat.{suc-mul, mul-le-mul_right, pow-suc}
use dirtybird_c_miner.Base.{
  ℕ, zero, suc, ◌+◌, ◌*◌, ◌^◌, ◌≤◌, ◌<◌, ◌≡◌, refl, ap, ◌∙◌, inl, inr, List, get_or, bit_or,
  bit_or_shifted, ltb, ◌==◌, ==_iff, if◌then◌else◌, Bool-cases, arith,
}
use dirtybird_c_miner.Stage.AfterKey.{compare_numbers, memcmp, load_be64}

-- The number that `count` bytes spell, the first the most significant.
abbrev pub value : List ℕ → ℕ → ℕ → ℕ
value bytes zero p = 0
value bytes (suc count) p = get_or bytes p 0 * 256 ^ count + value bytes count (p + 1)

compare_numbers-digits :
    (B x y u v : ℕ)
    → u < B
    → v < B
    → compare_numbers (x * B + u) (y * B + v)
      ≡ (if x == y then compare_numbers u v else if ltb x y then Ordering.lt else Ordering.gt)
compare_numbers-digits B x y u v hu hv = elim (Bool-cases (x == y)) [
  | inl e ↦ let same : x ≡ y = (==_iff x y).0 e in rw (e, same) (ground arith)
  | inr e ↦ elim (Bool-cases (ltb x y)) [
    | inl l ↦
        let less : suc x ≤ y = ground (arith, l) in
        ground (arith, e, l, suc-mul x B, mul-le-mul_right {m = suc x} {n = y} B less)
    | inr g ↦
        let more : suc y ≤ x = ground (arith, e, g) in
        ground (arith, e, g, suc-mul y B, mul-le-mul_right {m = suc y} {n = x} B more)
  ]
]

module _ (bytes : List ℕ) (small : (p : ℕ) → get_or bytes p 0 < 256) where
  value_lt : (count p : ℕ) → value bytes count p < 256 ^ count
  value_lt zero p = omega arith
  value_lt (suc count) p = omega (
    arith,
    small p,
    value_lt count (p + 1),
    pow-suc 256 count,
    suc-mul (get_or bytes p 0) (256 ^ count),
    mul-le-mul_right {m = suc (get_or bytes p 0)} {n = 256} (256 ^ count) (omega (arith, small p)),
  )

  pub compare_numbers-value :
      (count a b : ℕ)
      → compare_numbers (value bytes count a) (value bytes count b) ≡ memcmp bytes a b count
  unfolding memcmp
  compare_numbers-value zero a b = refl
  compare_numbers-value (suc count) a b =
      compare_numbers-digits (256 ^ count) (get_or bytes a 0) (get_or bytes b 0)
        (value bytes count (a + 1)) (value bytes count (b + 1)) (value_lt count (a + 1))
        (value_lt count (b + 1))
      ∙ ground (arith, compare_numbers-value count (a + 1) (b + 1))

  pub load_be64-value : (p : ℕ) → load_be64 bytes p ≡ value bytes 8 p
  unfolding load_be64
  load_be64-value p =
      let x0 = get_or bytes p 0 in
      let x1 = get_or bytes (p + 1) 0 in
      let x2 = get_or bytes (p + 2) 0 in
      let x3 = get_or bytes (p + 3) 0 in
      let x4 = get_or bytes (p + 4) 0 in
      let x5 = get_or bytes (p + 5) 0 in
      let x6 = get_or bytes (p + 6) 0 in
      let x7 = get_or bytes (p + 7) 0 in
      let h0 = small p in
      let h1 = small (p + 1) in
      let h2 = small (p + 2) in
      let h3 = small (p + 3) in
      let h4 = small (p + 4) in
      let h5 = small (p + 5) in
      let h6 = small (p + 6) in
      let h7 = small (p + 7) in
      let w1 : ℕ = x0 * 256 + x1 in
      let s1 : bit_or (x0 * 2 ^ 56) (x1 * 2 ^ 48) ≡ w1 * 2 ^ 48 =
        bit_or_shifted 56 x0 (x1 * 2 ^ 48) (omega arith) ∙ (omega arith) in
      let w2 : ℕ = w1 * 256 + x2 in
      let s2 : bit_or (bit_or (x0 * 2 ^ 56) (x1 * 2 ^ 48)) (x2 * 2 ^ 40) ≡ w2 * 2 ^ 40 =
        ap (λ t. bit_or t (x2 * 2 ^ 40)) s1
        ∙ bit_or_shifted 48 w1 (x2 * 2 ^ 40) (omega arith)
        ∙ (omega arith) in
      let w3 : ℕ = w2 * 256 + x3 in
      let s3 : bit_or (bit_or (bit_or (x0 * 2 ^ 56) (x1 * 2 ^ 48)) (x2 * 2 ^ 40)) (x3 * 2 ^ 32)
          ≡ w3 * 2 ^ 32 =
        ap (λ t. bit_or t (x3 * 2 ^ 32)) s2
        ∙ bit_or_shifted 40 w2 (x3 * 2 ^ 32) (omega arith)
        ∙ (omega arith) in
      let w4 : ℕ = w3 * 256 + x4 in
      let s4 : bit_or
            (bit_or (bit_or (bit_or (x0 * 2 ^ 56) (x1 * 2 ^ 48)) (x2 * 2 ^ 40)) (x3 * 2 ^ 32))
            (x4 * 2 ^ 24)
          ≡ w4 * 2 ^ 24 =
        ap (λ t. bit_or t (x4 * 2 ^ 24)) s3
        ∙ bit_or_shifted 32 w3 (x4 * 2 ^ 24) (omega arith)
        ∙ (omega arith) in
      let w5 : ℕ = w4 * 256 + x5 in
      let s5 : bit_or
            (bit_or
              (bit_or (bit_or (bit_or (x0 * 2 ^ 56) (x1 * 2 ^ 48)) (x2 * 2 ^ 40)) (x3 * 2 ^ 32))
              (x4 * 2 ^ 24))
            (x5 * 2 ^ 16)
          ≡ w5 * 2 ^ 16 =
        ap (λ t. bit_or t (x5 * 2 ^ 16)) s4
        ∙ bit_or_shifted 24 w4 (x5 * 2 ^ 16) (omega arith)
        ∙ (omega arith) in
      let w6 : ℕ = w5 * 256 + x6 in
      let s6 : bit_or
            (bit_or
              (bit_or
                (bit_or (bit_or (bit_or (x0 * 2 ^ 56) (x1 * 2 ^ 48)) (x2 * 2 ^ 40)) (x3 * 2 ^ 32))
                (x4 * 2 ^ 24))
              (x5 * 2 ^ 16))
            (x6 * 2 ^ 8)
          ≡ w6 * 2 ^ 8 =
        ap (λ t. bit_or t (x6 * 2 ^ 8)) s5
        ∙ bit_or_shifted 16 w5 (x6 * 2 ^ 8) (omega arith)
        ∙ (omega arith) in
      let w7 : ℕ = w6 * 256 + x7 in
      let s7 : bit_or
            (bit_or
              (bit_or
                (bit_or
                  (bit_or (bit_or (bit_or (x0 * 2 ^ 56) (x1 * 2 ^ 48)) (x2 * 2 ^ 40)) (x3 * 2 ^ 32))
                  (x4 * 2 ^ 24))
                (x5 * 2 ^ 16))
              (x6 * 2 ^ 8))
            (x7)
          ≡ w7 =
        ap (λ t. bit_or t (x7)) s6 ∙ bit_or_shifted 8 w6 (x7) (omega arith) ∙ (omega arith) in
      let e2 : p + 1 + 1 ≡ p + 2 = omega arith in
      let g2 = ap (λ (q : ℕ). get_or bytes q 0) e2 in
      let e3 : p + 1 + 1 + 1 ≡ p + 3 = omega arith in
      let g3 = ap (λ (q : ℕ). get_or bytes q 0) e3 in
      let e4 : p + 1 + 1 + 1 + 1 ≡ p + 4 = omega arith in
      let g4 = ap (λ (q : ℕ). get_or bytes q 0) e4 in
      let e5 : p + 1 + 1 + 1 + 1 + 1 ≡ p + 5 = omega arith in
      let g5 = ap (λ (q : ℕ). get_or bytes q 0) e5 in
      let e6 : p + 1 + 1 + 1 + 1 + 1 + 1 ≡ p + 6 = omega arith in
      let g6 = ap (λ (q : ℕ). get_or bytes q 0) e6 in
      let e7 : p + 1 + 1 + 1 + 1 + 1 + 1 + 1 ≡ p + 7 = omega arith in
      let g7 = ap (λ (q : ℕ). get_or bytes q 0) e7 in s7 ∙ (omega arith)
