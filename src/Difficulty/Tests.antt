-- ===== src/Difficulty/Tests.antt =====
-- Targets and comparisons at concrete inputs.
use dirtybird_c_miner.Base.{
  ℕ, ◌*◌, ◌/◌, ◌^◌, ◌≤◌, ◌≡◌, ◌↔◌, refl, pos, true, false, List, [], ◌∷◌, ◌++◌, length, replicate,
  All, arith,
}
use dirtybird_c_miner.Difficulty.{divide_from, compute_target, check_from, check_hash}
use dirtybird_c_miner.Difficulty.Value.{IsByte, be_value, le_value}
use dirtybird_c_miner.Difficulty.Target.{compute_target_value}
use dirtybird_c_miner.Difficulty.Check.{check_hash_iff, check_hash-compute_target, check_hash_one}

-- A hash whose most significant byte is 1.
abbrev small_hash : List ℕ
small_hash = 7 ∷ replicate 30 0 ++ 1 ∷ []

abbrev some_target : List ℕ
some_target = 2 ∷ replicate 31 0

target-256 : compute_target (pos 256) ≡ 1 ∷ replicate 31 0
unfolding compute_target divide_from
target-256 = refl

hash_over_target : check_hash small_hash (compute_target (pos 256)) ≡ false
unfolding check_hash check_from compute_target divide_from
hash_over_target = refl

compute_target_value_example :
    (be_value (compute_target (pos 1000)) ≡ 2 ^ 256 / 1000)
    × (length (compute_target (pos 1000)) ≡ 32)
    × All IsByte (compute_target (pos 1000))
compute_target_value_example = compute_target_value 1000 (omega arith) (omega arith)

check_hash_iff_example :
    (check_hash small_hash some_target ≡ true) ↔ (le_value small_hash ≤ be_value some_target)
check_hash_iff_example = check_hash_iff small_hash some_target refl refl (omega arith) (omega arith)

check_hash-compute_target_example :
    (check_hash small_hash (compute_target (pos 200)) ≡ true)
    ↔ (le_value small_hash * 200 ≤ 2 ^ 256)
check_hash-compute_target_example =
    check_hash-compute_target small_hash 200 refl (omega arith) (omega arith) (omega arith)

check_hash_one_example : check_hash small_hash (compute_target (pos 1)) ≡ false
check_hash_one_example = check_hash_one small_hash refl (omega arith) (omega arith)
