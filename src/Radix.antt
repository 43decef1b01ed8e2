-- ===== src/Radix.antt =====
-- The counting passes of the radix sorts in src/v114_stubs.cpp and src/sa_2byte_radix.cpp.
pub mod Blocks
pub mod Gather
pub mod Pass
use dirtybird_c_miner.Base.{ℕ, ◌+◌, List, [], ◌∷◌, get_or, set, replicate}

module _ {ℓ} {A : Type ℓ} (bucket : A → ℕ) where
  -- The entries of each bucket are counted.
  unfoldable pub count_all : List ℕ → List A → List ℕ
  count_all counts [] = counts
  count_all counts (x ∷ xs) = count_all (set counts (bucket x) (get_or counts (bucket x) 0 + 1)) xs

  -- Each entry goes where the cursor of its bucket is, and the cursor moves on.
  unfoldable pub scatter : List ℕ → List A → List A → List A
  scatter cursors tmp [] = tmp
  scatter cursors tmp (x ∷ xs) =
      let at = get_or cursors (bucket x) 0 in
      scatter (set cursors (bucket x) (at + 1)) (set tmp at x) xs

-- The counts become the places where the buckets begin.
unfoldable pub prefix_sums : ℕ → List ℕ → List ℕ
prefix_sums sum [] = []
prefix_sums sum (n ∷ counts) = sum ∷ prefix_sums (sum + n) counts

-- A whole pass into `tmp`.
unfoldable pub counting_pass {ℓ} : {A : Type ℓ} → (A → ℕ) → ℕ → List A → List A → List A
unfolding count_all prefix_sums scatter
counting_pass bucket size tmp xs =
    scatter bucket (prefix_sums 0 (count_all bucket (replicate size 0) xs)) tmp xs
