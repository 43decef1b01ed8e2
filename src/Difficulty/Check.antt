-- ===== src/Difficulty/Check.antt =====
-- `check_hash` compares numbers.
use mathlib.Core.List.{reverse-cons}
use native.Mathlib.Nat.{le-div_iff_mul-le}
use dirtybird_c_miner.Base.{
  ℕ, zero, suc, ◌+◌, ◌-◌, ◌*◌, ◌^◌, ◌≤◌, ◌<◌, ◌≡◌, ◌↔◌, refl, sym, ap, ◌∙◌, pos, Bool, true, false,
  inl, inr, List, [], ◌∷◌, reverse, length, get_or, drop, replicate, negsuc, ◌≢◌, Bool-cases, All,
  ltb, if◌then◌else◌, drop-get_or, drop-eq-nil, length-reverse, All-reverse, get_or-append_left,
  get_or-append_here, arith,
}
use dirtybird_c_miner.Difficulty.{check_from, check_hash, compute_target}
use dirtybird_c_miner.Difficulty.Value.{IsByte, value_from, value_from-lt, be_value, le_value}
use dirtybird_c_miner.Difficulty.Target.{compute_target_value, compute_target_one}

-- The comparison of two equally long strings of bytes, first byte first.
compare_bytes : List ℕ → List ℕ → Bool
compare_bytes [] ys = true
compare_bytes (x ∷ xs) [] = true
compare_bytes (x ∷ xs) (y ∷ ys) =
    if ltb x y then true else if ltb y x then false else compare_bytes xs ys

compare_bytes_iff :
    (a : ℕ) (xs ys : List ℕ)
    → length xs ≡ length ys
    → All IsByte xs
    → All IsByte ys
    → (compare_bytes xs ys ≡ true) ↔ (value_from a xs ≤ value_from a ys)
unfolding compare_bytes
compare_bytes_iff a [] [] e hx hy = (λ _. omega arith, λ _. refl)
compare_bytes_iff a [] (y ∷ ys) e hx hy = absurd (omega arith)
compare_bytes_iff a (x ∷ xs) [] e hx hy = absurd (omega arith)
compare_bytes_iff a (x ∷ xs) (y ∷ ys) e hx hy = ground (
  arith,
  value_from-lt (a * 256 + x) (a * 256 + y) xs ys,
  value_from-lt (a * 256 + y) (a * 256 + x) ys xs,
  compare_bytes_iff (a * 256 + x) xs ys (omega arith) hx.1 hy.1,
  ap (λ t. value_from (a * 256 + t) xs ≤ value_from (a * 256 + t) ys),
)

get_or-reverse :
    (xs : List ℕ) (i j : ℕ) → suc (i + j) ≡ length xs → get_or (reverse xs) i 0 ≡ get_or xs j 0
get_or-reverse [] i j h = absurd (omega arith)
get_or-reverse (x ∷ xs) i zero h =
    rw (reverse-cons x xs)
      (get_or-append_here (reverse xs) x [] i 0 (omega (arith, length-reverse xs)))
get_or-reverse (x ∷ xs) i (suc j) h = rw (reverse-cons x xs) (
    get_or-append_left (reverse xs) (x ∷ []) i 0 (omega (arith, length-reverse xs))
    ∙ get_or-reverse xs i j (omega arith))

-- The loop walks the hash backwards and the target forwards.
check_from-compare_bytes :
    (hash target : List ℕ) (left i : ℕ)
    → i + left ≡ 32
    → length hash ≡ 32
    → length target ≡ 32
    → check_from hash target left ≡ compare_bytes (drop i (reverse hash)) (drop i target)
unfolding check_from compare_bytes
check_from-compare_bytes hash target zero i h eh et =
    rw (drop-eq-nil i (reverse hash) (omega (arith, length-reverse hash)))
check_from-compare_bytes hash target (suc left) i h eh et =
    let position : 31 - left ≡ i = omega arith in
    rw (
      position,
      drop-get_or (reverse hash) i 0 (omega (arith, length-reverse hash)),
      drop-get_or target i 0 (omega arith),
      get_or-reverse hash i (31 - i) (omega arith),
      check_from-compare_bytes hash target left (suc i) (omega arith) eh et,
    )

-- A hash passes exactly when the number that it stands for, least significant byte first, is at
-- most the target's, most significant byte first.
pub check_hash_iff :
    (hash target : List ℕ)
    → length hash ≡ 32
    → length target ≡ 32
    → All IsByte hash
    → All IsByte target
    → (check_hash hash target ≡ true) ↔ (le_value hash ≤ be_value target)
unfolding check_hash
check_hash_iff hash target eh et bh bt =
    rw (check_from-compare_bytes hash target 32 0 (omega arith) eh et) (
      compare_bytes_iff 0 (reverse hash) target (length-reverse hash ∙ eh ∙ sym et)
        (All-reverse IsByte hash bh) bt)

-- A hash meets a difficulty from 2 to the largest `int64_t` exactly when the number that it stands
-- for, times the difficulty, is at most 2 ^ 256.
pub check_hash-compute_target :
    (hash : List ℕ) (d : ℕ)
    → length hash ≡ 32
    → All IsByte hash
    → 1 < d
    → d < 2 ^ 63
    → (check_hash hash (compute_target (pos d)) ≡ true) ↔ (le_value hash * d ≤ 2 ^ 256)
check_hash-compute_target hash d eh bh h small =
    let (value, size, bytes) = compute_target_value d h small in
    let passes = check_hash_iff hash (compute_target (pos d)) eh size bh bytes in
    let fits = le-div_iff_mul-le {k = d} {x = le_value hash} {y = 2 ^ 256} (omega arith) in
    (λ p. fits.0 (rw value at (passes.0 p)), λ p. passes.1 (rw value (fits.1 p)))

compare_bytes-full :
    (xs : List ℕ) → All IsByte xs → compare_bytes xs (replicate (length xs) 0xff) ≡ true
unfolding compare_bytes
compare_bytes-full [] h = refl
compare_bytes-full (x ∷ xs) h = ground (arith, compare_bytes-full xs h.1)

-- A difficulty of zero or below lets every hash pass.
pub check_hash_nonpositive :
    (hash : List ℕ) (n : ℕ)
    → length hash ≡ 32
    → All IsByte hash
    → (check_hash hash (compute_target (pos 0)) ≡ true)
      × (check_hash hash (compute_target (negsuc n)) ≡ true)
unfolding compute_target
check_hash_nonpositive hash n e h = (passes, passes)
  where
    passes : check_hash hash (replicate 32 0xff) ≡ true
    passes =
        unfold check_hash in
        check_from-compare_bytes hash (replicate 32 0xff) 32 0 (omega arith) e refl
        ∙ ap (λ k. compare_bytes (reverse hash) (replicate k 0xff)) (sym (length-reverse hash ∙ e))
        ∙ compare_bytes-full (reverse hash) (All-reverse IsByte hash h)

-- A difficulty of 1 should let every hash pass, and rejects every hash but zero: the quotient
-- 2 ^ 256 does not fit in 32 bytes.
pub check_hash_one :
    (hash : List ℕ)
    → length hash ≡ 32
    → All IsByte hash
    → le_value hash ≢ 0
    → check_hash hash (compute_target (pos 1)) ≡ false
check_hash_one hash e h nonzero = elim (Bool-cases (check_hash hash (compute_target (pos 1)))) [
  | inl passes ↦ absurd (nonzero (omega (arith, at_most_zero passes)))
  | inr fails ↦ fails
]
  where
    at_most_zero : check_hash hash (compute_target (pos 1)) ≡ true → le_value hash ≤ 0
    at_most_zero passes =
        (check_hash_iff hash (replicate 32 0) e refl h (omega arith)).0
          (rw compute_target_one at passes)
