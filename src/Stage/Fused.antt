-- ===== src/Stage/Fused.antt =====
-- The fused first stage of src/v114_stubs.cpp: the groups become runs in a scratch area instead of
-- records in a buffer.
use dirtybird_c_miner.Base.{
  ℕ, zero, suc, ◌+◌, ◌-◌, Bool, true, false, not, ◌&&◌, ◌||◌, List, [], ◌∷◌, ◌++◌, length, set,
  get_or, Option, none, some, ltb, leb, ◌==◌, ◌<<<◌, if◌then◌else◌,
}
use dirtybird_c_miner.Stage.{
  descriptor_arena_index_count, stage4_max_group_count, stage4_short_run_max, Stage4InputView,
  has_load24_padding, load24_fast,
}
use dirtybird_c_miner.Stage.Order.{sort_stage4_suffix_order, chunk_ends}
use dirtybird_c_miner.Stage.Rounds.{rounds, write_round, run_two, run_fixed, run_short}
use dirtybird_c_miner.Stage.Runs.{Stage5Run, make_stage5_run, stage5_radix_order_key}

-- The fields of `FusedStage5Scratch` that the stage fills; the others hold what a call needs for
-- itself.
pub record FusedStage5Scratch : Type 0 where
  pub arena_positions : List ℕ
  pub arena_len : ℕ
  pub runs : List Stage5Run

-- The copy of positions to the entries from `index` on.
unfoldable pub store_from : List ℕ → ℕ → List ℕ → List ℕ
store_from arena index [] = arena
store_from arena index (pos ∷ positions) = store_from (set arena index pos) (index + 1) positions

unfoldable pub append_fused_order_group :
    Bool → ℕ → List ℕ → FusedStage5Scratch → Option FusedStage5Scratch
append_fused_order_group count1_singletons key members scratch =
    let count = length members in
    let ordered_key = stage5_radix_order_key key in
    let begin = scratch.arena_len in
    if count == 0
    then none
    else if (count == 1) && not count1_singletons
    then some (record scratch {
      runs = scratch.runs ++ make_stage5_run ordered_key (get_or members 0 0) 1 true ∷ [];
    })
    else if ltb descriptor_arena_index_count begin
        || ltb (descriptor_arena_index_count - begin) count
        || ltb (length scratch.arena_positions) (begin + count)
    then none
    else some (record scratch {
      arena_positions = store_from scratch.arena_positions begin members;
      arena_len = begin + count;
      runs = scratch.runs ++ make_stage5_run ordered_key begin count false ∷ [];
    })

-- From position `pos` on.
unfoldable pub emit_fused_literal_records :
    Bool → Stage4InputView → ℕ → ℕ → FusedStage5Scratch → Option FusedStage5Scratch
emit_fused_literal_records count1_singletons view pos zero scratch = some scratch
emit_fused_literal_records count1_singletons view pos (suc left) scratch =
    elim (append_fused_order_group count1_singletons
      (load24_fast view pos (has_load24_padding view)) (pos ∷ []) scratch) [
        | none ↦ none
        | some next ↦ emit_fused_literal_records count1_singletons view (pos + 1) left next
      ]

unfoldable pub emit_full_group_run_compact_fused_two :
    Bool → Stage4InputView → ℕ → FusedStage5Scratch → Option FusedStage5Scratch
emit_full_group_run_compact_fused_two count1_singletons =
    run_two (append_fused_order_group count1_singletons)

-- For three or four groups.
unfoldable pub emit_full_group_run_compact_fused_fixed :
    Bool → Stage4InputView → ℕ → ℕ → FusedStage5Scratch → Option FusedStage5Scratch
emit_full_group_run_compact_fused_fixed count1_singletons =
    run_fixed (append_fused_order_group count1_singletons)

unfoldable pub emit_full_group_run_compact_fused_short :
    Bool → Stage4InputView → ℕ → ℕ → FusedStage5Scratch → Option FusedStage5Scratch
emit_full_group_run_compact_fused_short count1_singletons =
    run_short (append_fused_order_group count1_singletons)

-- `std_sort less order` is the library's `std::sort`.
unfoldable pub emit_full_group_run_compact_fused :
    ((ℕ → ℕ → Bool) → List ℕ → List ℕ)
    → Bool
    → Stage4InputView
    → ℕ
    → ℕ
    → FusedStage5Scratch
    → Option FusedStage5Scratch
emit_full_group_run_compact_fused std_sort count1_singletons view start_group end_group scratch =
    let group_count = end_group - start_group in
    let base = start_group <<< 8 in
    if group_count == 0
    then some scratch
    else if ltb stage4_max_group_count group_count
    then none
    else if group_count == 1
    then emit_fused_literal_records count1_singletons view base 256 scratch
    else if leb group_count stage4_short_run_max
    then emit_full_group_run_compact_fused_short count1_singletons view start_group end_group
        scratch
    else rounds
        (write_round (append_fused_order_group count1_singletons) view (has_load24_padding view))
        view 255 (sort_stage4_suffix_order std_sort view (chunk_ends base 0 group_count)) scratch
