-- ===== src/Difficulty.antt =====
-- src/difficulty.cpp: the 32-byte target of a difficulty, and the comparison of a hash with it.
pub mod Value
pub mod Target
pub mod Check
mod Tests
use dirtybird_c_miner.Base.{
  ℕ, zero, suc, ◌+◌, ◌-◌, ◌/◌, ◌%◌, bit_or, u8, u64, u128, ◌<<<◌, ℤ, pos, negsuc, Bool, true, false,
  List, [], ◌∷◌, get_or, set, replicate, ltb, if◌then◌else◌,
}

-- The loop of `compute_target` from index `i` on, `rest` being `dividend[i..33)`.
divide_from : ℕ → List ℕ → ℕ → ℕ → List ℕ → List ℕ
divide_from d [] i rem target = target
divide_from d (b ∷ rest) i rem target =
    let rem' = bit_or (u128 (rem <<< 8)) b in
    divide_from d rest (i + 1) (rem' % d)
      (if ltb 0 i then set target (i - 1) (u8 (u64 (rem' / d))) else target)

-- 2 ^ 256 as a 33-byte big-endian number.
abbrev pub dividend : List ℕ
dividend = 1 ∷ replicate 32 0

pub compute_target : ℤ → List ℕ
compute_target (negsuc n) = replicate 32 0xff
compute_target (pos zero) = replicate 32 0xff
compute_target (pos (suc n)) = divide_from (suc n) dividend 0 0 (replicate 32 0)

-- The loop of `check_hash` with `left` rounds to go, at index `32 - left`.
check_from : List ℕ → List ℕ → ℕ → Bool
check_from hash target zero = true
check_from hash target (suc left) =
    let i = 31 - left in
    let h = get_or hash (31 - i) 0 in
    let t = get_or target i 0 in
    let rest = check_from hash target left in
    if ltb h t then true else if ltb t h then false else rest

pub check_hash : List ℕ → List ℕ → Bool
check_hash hash target = check_from hash target 32
