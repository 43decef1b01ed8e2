-- ===== src/Stage/RunSort.antt =====
-- The radix sorts of src/v114_stubs.cpp, which put the runs in the order of their keys.
use dirtybird_c_miner.Base.{
  ℕ, ◌+◌, ◌-◌, ◌*◌, List, ◌∷◌, ◌++◌, length, take, replicate, get_or, set, bit_and, leb, ◌>>>◌,
  if◌then◌else◌,
}
use dirtybird_c_miner.Radix.{count_all, prefix_sums, scatter, counting_pass}
use dirtybird_c_miner.Stage.Runs.{Stage5Run, stage5_radix_order_key}

-- `resize`: entries behind the old end are value-initialised.
unfoldable pub resize_runs : ℕ → List Stage5Run → List Stage5Run
resize_runs n runs = take n runs ++ replicate (n - length runs) (record { key = 0; packed = 0 })

-- The 12 bits of the ordered key that a pass sorts by.
unfoldable pub pass_bucket : ℕ → Stage5Run → ℕ
pass_bucket pass run = bit_and (stage5_radix_order_key run.key >>> (pass * 12)) 0xfff

-- The runs and the scratch vector after a pass, swapped.
unfoldable pub radix_pass : ℕ → List Stage5Run → List Stage5Run → List Stage5Run × List Stage5Run
radix_pass pass runs tmp = (counting_pass (pass_bucket pass) 4096 tmp runs, runs)

unfoldable pub radix_sort_runs_by_key :
    List Stage5Run → List Stage5Run → List Stage5Run × List Stage5Run
radix_sort_runs_by_key runs tmp =
    let (runs', tmp') = radix_pass 0 runs (resize_runs (length runs) tmp) in radix_pass 1 runs' tmp'

-- A byte of a stored key.
unfoldable pub key_byte : ℕ → Stage5Run → ℕ
key_byte i run = bit_and (run.key >>> (i * 8)) 0xff

-- The loop that moves four runs a round, and the one that moves what is left.
unfoldable pub scatter_by_four :
    (Stage5Run → ℕ) → List ℕ → List Stage5Run → List Stage5Run → List Stage5Run
scatter_by_four bucket counts tmp (r0 ∷ r1 ∷ r2 ∷ r3 ∷ runs) =
    let c0 = get_or counts (bucket r0) 0 in
    let counts0 = set counts (bucket r0) (c0 + 1) in
    let c1 = get_or counts0 (bucket r1) 0 in
    let counts1 = set counts0 (bucket r1) (c1 + 1) in
    let c2 = get_or counts1 (bucket r2) 0 in
    let counts2 = set counts1 (bucket r2) (c2 + 1) in
    let c3 = get_or counts2 (bucket r3) 0 in
    let counts3 = set counts2 (bucket r3) (c3 + 1) in
    scatter_by_four bucket counts3 (set (set (set (set tmp c0 r0) c1 r1) c2 r2) c3 r3) runs
scatter_by_four bucket counts tmp runs = scatter bucket counts tmp runs

-- The counts of all three bytes are taken before the first pass.
unfoldable pub radix_sort_runs_by_stored_key :
    List Stage5Run → List Stage5Run → List Stage5Run × List Stage5Run
radix_sort_runs_by_stored_key runs tmp =
    let counts = λ (i : ℕ). count_all (key_byte i) (replicate 256 0) runs in
    let tmp0 = resize_runs (length runs) tmp in
    let tmp1 = scatter_by_four (key_byte 0) (prefix_sums 0 (counts 0)) tmp0 runs in
    let runs1 = scatter_by_four (key_byte 1) (prefix_sums 0 (counts 1)) runs tmp1 in
    let tmp2 = scatter_by_four (key_byte 2) (prefix_sums 0 (counts 2)) tmp1 runs1 in
    if leb (length runs) 1 then (runs, tmp) else (tmp2, runs1)
