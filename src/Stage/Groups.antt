-- ===== src/Stage/Groups.antt =====
-- The last stage of src/v114_stubs.cpp with trusted descriptors: the sorted runs, group by group.
use dirtybird_c_miner.Base.{
  ℕ, zero, suc, ◌*◌, Bool, List, [], ◌∷◌, ◌++◌, length, take, drop, Option, none, some, ◌==◌,
  if◌then◌else◌,
}
use dirtybird_c_miner.Stage.{write_u32_le}
use dirtybird_c_miner.Stage.Parse.{Stage5InputView}
use dirtybird_c_miner.Stage.Runs.{
  Stage5Run, stage5_run_is_literal, stage5_run_begin, stage5_run_count,
}
use dirtybird_c_miner.Stage.Merge.{write_equal_key_group}
use dirtybird_c_miner.Stage.Descriptors.{trusted_runs}
use dirtybird_c_miner.Stage.RunSort.{radix_sort_runs_by_key}

-- Positions written one after the other.
unfoldable pub positions_bytes : List ℕ → List ℕ
positions_bytes [] = []
positions_bytes (pos ∷ positions) = write_u32_le pos ++ positions_bytes positions

-- The inner loop: the runs with the key of the group, and the runs behind them.
unfoldable pub same_key_runs : ℕ → List Stage5Run → List Stage5Run × List Stage5Run
same_key_runs key [] = ([], [])
same_key_runs key (run ∷ runs) =
    let rest = same_key_runs key runs in
    if key == run.key then (run ∷ rest.0, rest.1) else ([], run ∷ runs)

-- A group of one run: the arena's bytes are copied, and a literal is written.
unfoldable pub write_single_run : Stage5InputView → Stage5Run → List ℕ
write_single_run view run =
    if stage5_run_is_literal run
    then write_u32_le (stage5_run_begin run)
    else take (stage5_run_count run * 4) (drop (stage5_run_begin run * 4) view.int_arena)

-- A group: its first run and the others.
unfoldable pub write_group : Stage5InputView → Stage5Run → List Stage5Run → List ℕ
write_group view run [] = write_single_run view run
write_group view run (next ∷ others) =
    positions_bytes (write_equal_key_group view (run ∷ next ∷ others))

-- The outer loop, with a round for each run at most.
unfoldable pub write_sorted_runs : ℕ → Stage5InputView → List Stage5Run → List ℕ
write_sorted_runs zero view runs = []
write_sorted_runs (suc fuel) view [] = []
write_sorted_runs (suc fuel) view (run ∷ runs) =
    let group = same_key_runs run.key runs in
    write_group view run group.0 ++ write_sorted_runs fuel view group.1

-- The whole call: the bytes written where it returns true. `active` is the guard against a call from
-- within a call, and `radix_tmp` is what the last call left in the scratch vector. `out_pos` counts
-- positions of four bytes.
unfoldable pub stage_v114_sa_build_descriptor_trusted :
    Bool → List Stage5Run → Stage5InputView → ℕ → Option (List ℕ)
stage_v114_sa_build_descriptor_trusted active radix_tmp view out_cap =
    if active then none else elim (trusted_runs view out_cap) [
      | none ↦ none
      | some runs ↦
          let sorted = (radix_sort_runs_by_key runs radix_tmp).0 in
          let out = write_sorted_runs (length sorted) view sorted in
          if length out == view.logical_len * 4 then some out else none
    ]
