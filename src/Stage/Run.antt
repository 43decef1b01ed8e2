-- ===== src/Stage/Run.antt =====
-- The runs of full groups of src/v114_stubs.cpp: 256 rounds over the last, …, first positions of the
-- chunks of 256 bytes.
use dirtybird_c_miner.Base.{
  ℕ, ◌+◌, ◌-◌, ◌*◌, Bool, ◌&&◌, List, length, Option, none, some, ltb, leb, ◌==◌, ◌<<<◌,
  if◌then◌else◌,
}
use dirtybird_c_miner.Stage.{
  stage4_max_group_count, stage4_short_run_max, Stage4InputView, load24_padded, has_load24_padding,
  Output, Limits, write_arena_all,
}
use dirtybird_c_miner.Stage.Order.{sort_stage4_suffix_order, chunk_ends}
use dirtybird_c_miner.Stage.Emit.{
  emit_direct_records, emit_compact_literal_records, key_groups, write_compact_order_group,
  write_sorted_group, write_full_groups,
}
use dirtybird_c_miner.Stage.Rounds.{rounds, write_round, run_two, run_fixed, run_short}

-- One round of `emit_full_group_run`: the order goes to the arena, then each group of equal keys
-- becomes a record.
unfoldable pub write_full_round :
    Limits → Stage4InputView → ℕ → ℕ → ℕ → List ℕ → Output → Option Output
write_full_round limits view base group_count rel order output =
    let arena_base = base + (255 - rel) * group_count in
    let groups = key_groups (load24_padded view) order in
    elim output.int_arena [
      | none ↦ write_full_groups limits arena_base groups output
      | some int_arena ↦ elim (write_arena_all limits.int_arena_cap int_arena arena_base order) [
        | none ↦ none
        | some written ↦
            write_full_groups limits arena_base groups (record output { int_arena = some written })
      ]
    ]

unfoldable pub emit_full_group_run_compact_two :
    Limits → Stage4InputView → ℕ → Output → Option Output
emit_full_group_run_compact_two limits = run_two (write_compact_order_group limits)

-- For three or four groups.
unfoldable pub emit_full_group_run_compact_fixed :
    Limits → Stage4InputView → ℕ → ℕ → Output → Option Output
emit_full_group_run_compact_fixed limits = run_fixed (write_compact_order_group limits)

unfoldable pub emit_full_group_run_compact_short :
    Limits → Stage4InputView → ℕ → ℕ → Output → Option Output
emit_full_group_run_compact_short limits = run_short (write_compact_order_group limits)

-- `std_sort less order` is the library's `std::sort`.
module _ (std_sort : (ℕ → ℕ → Bool) → List ℕ → List ℕ) where
  unfoldable pub emit_full_group_run : Limits → Stage4InputView → ℕ → ℕ → Output → Option Output
  emit_full_group_run limits view start_group end_group output =
      let group_count = end_group - start_group in
      let base = start_group <<< 8 in
      let direct = emit_direct_records view base 256 output in
      if group_count == 0
      then some output
      else if group_count == 1
      then (if (length direct.records - length output.records == 256)
            && leb (length direct.records * 8) limits.out_cap
          then some direct
          else none)
      else rounds (write_full_round limits view base group_count) view 255
          (sort_stage4_suffix_order std_sort view (chunk_ends base 0 group_count)) output

  unfoldable pub emit_full_group_run_compact :
      Limits → Stage4InputView → ℕ → ℕ → Output → Option Output
  emit_full_group_run_compact limits view start_group end_group output =
      let group_count = end_group - start_group in
      let base = start_group <<< 8 in
      if group_count == 0
      then some output
      else if group_count == 1
      then emit_compact_literal_records limits view base 256 output
      else if leb group_count stage4_short_run_max
      then emit_full_group_run_compact_short limits view start_group end_group output
      else if ltb stage4_max_group_count group_count
      then none
      else rounds (write_round (write_sorted_group limits) view (has_load24_padding view)) view 255
          (sort_stage4_suffix_order std_sort view (chunk_ends base 0 group_count)) output
