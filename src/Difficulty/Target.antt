-- ===== src/Difficulty/Target.antt =====
-- What `compute_target` stores: 2 ^ 256 divided by the difficulty, rounded down.
use native.Mathlib.Nat.{div-add-mod', mod-lt, div-lt_iff_lt-mul, div-eq_of_lt-le, mod-eq_of_lt}
use dirtybird_c_miner.Base.{
  ℕ, zero, suc, ◌+◌, ◌-◌, ◌*◌, ◌/◌, ◌%◌, ◌^◌, ◌<◌, ◌≡◌, refl, sym, ap, ◌∙◌, bit_or, u128, ◌<<<◌,
  pos, List, [], ◌∷◌, ◌++◌, length, set-append, replicate, All, lt→ltb, bit_or_shifted,
  length-append, arith,
}
use mathlib.Core.List.{append_assoc}
use dirtybird_c_miner.Difficulty.{divide_from, compute_target}
use dirtybird_c_miner.Difficulty.Value.{IsByte, value_from, be_value}

-- The quotient digits, most significant first, of a long division started with `rem`.
quotient : ℕ → ℕ → List ℕ → List ℕ
quotient d rem [] = []
quotient d rem (b ∷ rest) = (rem * 256 + b) / d ∷ quotient d ((rem * 256 + b) % d) rest

remainder : ℕ → ℕ → List ℕ → ℕ
remainder d rem [] = rem
remainder d rem (b ∷ rest) = remainder d ((rem * 256 + b) % d) rest

-- Division digit by digit is division.
value_from-quotient :
    (d rem v : ℕ) (rest : List ℕ)
    → value_from v (quotient d rem rest) * d + remainder d rem rest ≡ value_from (v * d + rem) rest
unfolding quotient remainder
value_from-quotient d rem v [] = refl
value_from-quotient d rem v (b ∷ rest) =
    value_from-quotient d (r % d) (v * 256 + r / d) rest
    ∙ ap (λ t. value_from t rest) (omega (arith, div-add-mod' r d))
  where
    r : ℕ
    r = rem * 256 + b

remainder-lt : (d rem : ℕ) (rest : List ℕ) → rem < d → remainder d rem rest < d
unfolding remainder
remainder-lt d rem [] h = h
remainder-lt d rem (b ∷ rest) h =
    remainder-lt d ((rem * 256 + b) % d) rest (mod-lt (rem * 256 + b) (omega arith))

digit-IsByte : (d rem b : ℕ) → rem < d → IsByte b → IsByte ((rem * 256 + b) / d)
digit-IsByte d rem b h hb =
    (div-lt_iff_lt-mul {k = d} {x = rem * 256 + b} {y = 256} (omega arith)).1 (omega arith)

quotient-IsByte :
    (d rem : ℕ) (rest : List ℕ) → rem < d → All IsByte rest → All IsByte (quotient d rem rest)
unfolding quotient
quotient-IsByte d rem [] h hb = tt
quotient-IsByte d rem (b ∷ rest) h hb = (
  digit-IsByte d rem b h hb.0,
  quotient-IsByte d ((rem * 256 + b) % d) rest (mod-lt (rem * 256 + b) (omega arith)) hb.1,
)

-- The 128-bit remainder does not wrap.
shift_in : (rem b : ℕ) → rem < 2 ^ 63 → IsByte b → bit_or (u128 (rem <<< 8)) b ≡ rem * 256 + b
shift_in rem b h hb =
    ap (λ t. bit_or t b) (mod-eq_of_lt {n = rem * 256} {m = 2 ^ 128} (omega arith))
    ∙ bit_or_shifted 8 rem b hb

-- From index 1 on the loop stores the quotient's digits behind those already there.
divide_from-quotient :
    (d rem i : ℕ) (rest stored : List ℕ)
    → rem < d
    → d < 2 ^ 63
    → All IsByte rest
    → i ≡ suc (length stored)
    → divide_from d rest i rem (stored ++ replicate (length rest) 0) ≡ stored ++ quotient d rem rest
unfolding divide_from quotient
divide_from-quotient d rem i [] stored h small hb e = refl
divide_from-quotient d rem i (b ∷ rest) stored h small hb e =
    rw
      (
        shift_in rem b (omega arith) hb.0,
        lt→ltb 0 i (omega arith),
        mod-eq_of_lt {n = q} {m = 2 ^ 64} (omega (arith, fits)),
        mod-eq_of_lt {n = q} {m = 2 ^ 8} fits,
        set-append stored 0 (replicate (length rest) 0) (i - 1) q (omega arith),
      )
      (regroup (
        divide_from-quotient d (r % d) (i + 1) rest (stored ++ q ∷ []) (mod-lt r (omega arith))
          small hb.1 (omega (arith, e, length-append stored (q ∷ [])))))
  where
    r : ℕ
    r = rem * 256 + b

    q : ℕ
    q = r / d

    fits : q < 256
    fits = digit-IsByte d rem b h hb.0

    regroup :
        divide_from d rest (i + 1) (r % d) ((stored ++ q ∷ []) ++ replicate (length rest) 0)
          ≡ (stored ++ q ∷ []) ++ quotient d (r % d) rest
        → divide_from d rest (i + 1) (r % d) (stored ++ q ∷ replicate (length rest) 0)
          ≡ stored ++ q ∷ quotient d (r % d) rest
    regroup t = rw (append_assoc, append_assoc) at t

-- Index 0 only shifts in the leading digit.
divide_from_first :
    (d : ℕ) (rest target : List ℕ)
    → divide_from d (1 ∷ rest) 0 0 target ≡ divide_from d rest 1 (1 % d) target
unfolding divide_from
divide_from_first d rest target = refl

compute_target-quotient :
    (n : ℕ)
    → 1 < suc n
    → suc n < 2 ^ 63
    → compute_target (pos (suc n)) ≡ quotient (suc n) 1 (replicate 32 0)
unfolding compute_target
compute_target-quotient n h small =
    divide_from_first (suc n) (replicate 32 0) (replicate 32 0)
    ∙ rw (mod-eq_of_lt h) (divide_from-quotient (suc n) 1 1 (replicate 32 0) [] h small zeros refl)
  where
    zeros : All IsByte (replicate 32 0)
    zeros = omega arith

length-quotient : (d rem : ℕ) (rest : List ℕ) → length (quotient d rem rest) ≡ length rest
unfolding quotient
length-quotient d rem [] = refl
length-quotient d rem (b ∷ rest) = ap suc (length-quotient d ((rem * 256 + b) % d) rest)

-- The 32 bytes of the target, read most significant first, are 2 ^ 256 divided by the
-- difficulty and rounded down, for every difficulty from 2 to the largest `int64_t`.
pub compute_target_value :
    (d : ℕ)
    → 1 < d
    → d < 2 ^ 63
    → (be_value (compute_target (pos d)) ≡ 2 ^ 256 / d)
      × (length (compute_target (pos d)) ≡ 32)
      × All IsByte (compute_target (pos d))
compute_target_value zero h small = absurd (omega arith)
compute_target_value (suc n) h small = rw (compute_target-quotient n h small) (
  sym (div-eq_of_lt-le (suc n) (omega (arith, whole)) (omega (arith, whole, rest))),
  length-quotient (suc n) 1 (replicate 32 0),
  quotient-IsByte (suc n) 1 (replicate 32 0) h (omega arith),
)
  where
    digits : List ℕ
    digits = quotient (suc n) 1 (replicate 32 0)

    whole : be_value digits * suc n + remainder (suc n) 1 (replicate 32 0) ≡ 2 ^ 256
    whole =
        value_from-quotient (suc n) 1 0 (replicate 32 0)
        ∙ ap (λ t. value_from t (replicate 32 0)) {x = 0 * suc n + 1} {y = 1} (omega arith)

    rest : remainder (suc n) 1 (replicate 32 0) < suc n
    rest = remainder-lt (suc n) 1 (replicate 32 0) h

-- A difficulty of 1 overflows the 32 bytes: its target is 0.
pub compute_target_one : compute_target (pos 1) ≡ replicate 32 0
unfolding compute_target divide_from
compute_target_one = refl
