-- ===== src/Stage/Descriptors.antt =====
-- The descriptor stream that the last stage of src/v114_stubs.cpp reads.
use dirtybird_c_miner.Base.{
  ℕ, zero, suc, ◌+◌, ◌-◌, ◌*◌, ◌/◌, ◌%◌, true, false, not, ◌||◌, List, [], ◌∷◌, drop, Option, none,
  some, bit_and, ltb, leb, ◌==◌, ◌>>>◌, if◌then◌else◌,
}
use dirtybird_c_miner.Stage.{read_u32_le}
use dirtybird_c_miner.Stage.Parse.{Stage5InputView}
use dirtybird_c_miner.Stage.Runs.{Stage5Run, make_stage5_run}

-- The run of one record, and the positions counted with it: none where the record is refused.
unfoldable pub read_run : ℕ → ℕ → ℕ → ℕ → ℕ → Option (Stage5Run × ℕ)
read_run logical_len arena_count key packed total_positions =
    let count = packed >>> 17 in
    let arena_index = bit_and packed 0x1ffff in
    if count == 0
    then (if leb logical_len arena_index
        then none
        else if leb logical_len total_positions
        then none
        else some (make_stage5_run key arena_index 1 true, total_positions + 1))
    else if ltb arena_count arena_index || ltb (arena_count - arena_index) count
    then none
    else if ltb logical_len total_positions || ltb (logical_len - total_positions) count
    then none
    else some (make_stage5_run key arena_index count false, total_positions + count)

-- The loop over the records, with `left` records to read from the bytes.
unfoldable pub read_runs : ℕ → ℕ → ℕ → List ℕ → ℕ → Option (List Stage5Run × ℕ)
read_runs logical_len arena_count zero bytes total_positions = some ([], total_positions)
read_runs logical_len arena_count (suc left) bytes total_positions =
    elim (read_run logical_len arena_count (read_u32_le bytes) (read_u32_le (drop 4 bytes))
      total_positions) [
        | none ↦ none
        | some found ↦ elim (read_runs logical_len arena_count left (drop 8 bytes) found.1) [
          | none ↦ none
          | some rest ↦ some (found.0 ∷ rest.0, rest.1)
        ]
      ]

-- `stage_v114_sa_build_descriptor_trusted` up to the sort: the runs, where the checks pass.
unfoldable pub trusted_runs : Stage5InputView → ℕ → Option (List Stage5Run)
trusted_runs view out_cap =
    if ltb out_cap (view.logical_len * 4)
    then none
    else if not (view.int_len % 4 == 0) || not (view.desc_len % 8 == 0)
    then none
    else elim (read_runs view.logical_len (view.int_len / 4) (view.desc_len / 8) view.desc 0) [
      | none ↦ none
      | some found ↦ if found.1 == view.logical_len then some found.0 else none
    ]
