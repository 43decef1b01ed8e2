-- ===== src/Stage/Merge.antt =====
-- How the last stage of src/v114_stubs.cpp puts the runs of one key in the order of their suffixes.
use dirtybird_c_miner.Base.{
  ℕ, zero, suc, ◌+◌, ◌*◌, Bool, true, false, not, ◌||◌, List, [], ◌∷◌, ◌++◌, length, drop, Option,
  none, some, ltb, ◌==◌, if◌then◌else◌,
}
use dirtybird_c_miner.Stage.{read_u32_le}
use dirtybird_c_miner.Stage.Order.{insertion_sort}
use dirtybird_c_miner.Stage.Parse.{Stage5InputView}
use dirtybird_c_miner.Stage.Runs.{
  Stage5Run, stage5_run_is_literal, stage5_run_begin, stage5_run_count,
}
use dirtybird_c_miner.Stage.AfterKey.{suffix_less_after_key}

unfoldable pub stage5_run_pos : Stage5InputView → Stage5Run → ℕ → ℕ
stage5_run_pos view run rel =
    let begin = stage5_run_begin run in
    if stage5_run_is_literal run
    then begin
    else read_u32_le (drop ((begin + rel) * 4) view.int_arena)

-- The positions of a run from index `rel` on.
unfoldable pub positions_from : Stage5InputView → Stage5Run → ℕ → ℕ → List ℕ
positions_from view run rel zero = []
positions_from view run rel (suc left) =
    stage5_run_pos view run rel ∷ positions_from view run (suc rel) left

unfoldable pub run_positions : Stage5InputView → Stage5Run → List ℕ
run_positions view run = positions_from view run 0 (stage5_run_count run)

-- The merging loops: `fuel` rounds are enough where it is the number of all entries.
unfoldable pub merge_loop : (ℕ → ℕ → Bool) → ℕ → List ℕ → List ℕ → List ℕ
merge_loop precedes fuel [] right = right
merge_loop precedes fuel (l ∷ left) [] = l ∷ left
merge_loop precedes zero (l ∷ left) (r ∷ right) = []
merge_loop precedes (suc fuel) (l ∷ left) (r ∷ right) = elim (precedes l r) [
  | true ↦ l ∷ merge_loop precedes fuel left (r ∷ right)
  | false ↦ r ∷ merge_loop precedes fuel (l ∷ left) right
]

unfoldable pub merge_sorted_suffix_positions_after_key : Stage5InputView → List ℕ → List ℕ → List ℕ
merge_sorted_suffix_positions_after_key view left right =
    merge_loop (suffix_less_after_key view) (length left + length right) left right

-- A pass: neighbouring segments are merged, and a last one alone is copied. The segments are the
-- parts of the positions that `run_lengths` tells.
unfoldable pub merge_pass : Stage5InputView → List (List ℕ) → List (List ℕ)
merge_pass view [] = []
merge_pass view (segment ∷ []) = segment ∷ []
merge_pass view (left ∷ right ∷ segments) =
    merge_sorted_suffix_positions_after_key view left right ∷ merge_pass view segments

-- The passes while there is more than one segment, at most `fuel` of them.
unfoldable pub merge_passes : Stage5InputView → ℕ → List (List ℕ) → List (List ℕ)
merge_passes view zero segments = segments
merge_passes view (suc fuel) segments = elim (ltb 1 (length segments)) [
  | true ↦ merge_passes view fuel (merge_pass view segments)
  | false ↦ segments
]

-- The segments one after the other.
unfoldable pub flatten : List (List ℕ) → List ℕ
flatten [] = []
flatten (segment ∷ segments) = segment ++ flatten segments

-- The merged positions; a pass less than there are segments is enough.
unfoldable pub merge_equal_key_runs_after_key : Stage5InputView → List (List ℕ) → List ℕ
merge_equal_key_runs_after_key view segments =
    flatten (merge_passes view (length segments) segments)

-- The positions of literal runs, none where a run is not literal.
unfoldable pub literal_positions : List Stage5Run → Option (List ℕ)
literal_positions [] = some []
literal_positions (run ∷ runs) =
    if not (stage5_run_is_literal run) then none else elim (literal_positions runs) [
      | none ↦ none
      | some positions ↦ some (stage5_run_begin run ∷ positions)
    ]

-- `try_write_literal_equal_key_group_after_key`: what it writes, none where it returns false.
unfoldable pub try_write_literal_group : Stage5InputView → List Stage5Run → Option (List ℕ)
try_write_literal_group view runs =
    if (length runs == 0) || ltb 32 (length runs) then none else elim (literal_positions runs) [
      | none ↦ none
      | some positions ↦ some (insertion_sort (suffix_less_after_key view) positions)
    ]

-- `try_write_two_equal_key_runs_after_key`: what it writes, none where it returns false.
unfoldable pub try_write_two_runs : Stage5InputView → List Stage5Run → Option (List ℕ)
try_write_two_runs view [] = none
try_write_two_runs view (left ∷ []) = none
try_write_two_runs view (left ∷ right ∷ []) = some (
    merge_loop (suffix_less_after_key view) (stage5_run_count left + stage5_run_count right)
      (run_positions view left) (run_positions view right))
try_write_two_runs view (left ∷ right ∷ next ∷ runs) = none

-- The positions of each run of a group.
unfoldable pub segments_of : Stage5InputView → List Stage5Run → List (List ℕ)
segments_of view [] = []
segments_of view (run ∷ runs) = run_positions view run ∷ segments_of view runs

-- A group of several runs with one key: what is written for it.
unfoldable pub write_equal_key_group : Stage5InputView → List Stage5Run → List ℕ
write_equal_key_group view runs = elim (try_write_literal_group view runs) [
  | some positions ↦ positions
  | none ↦ elim (try_write_two_runs view runs) [
    | some positions ↦ positions
    | none ↦ merge_equal_key_runs_after_key view (segments_of view runs)
  ]
]
