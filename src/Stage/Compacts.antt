-- ===== src/Stage/Compacts.antt =====
-- `stage_v114_encode_compact_raw` gives a result on every input it accepts.
use dirtybird_c_miner.Base.{
  ℕ, ◌+◌, ◌-◌, ◌*◌, ◌≤◌, ◌<◌, ◌≡◌, refl, ◌∙◌, subst, Bool, true, inl, inr, List, length, some,
  bit_and, bit_and_255, leb, ◌==◌, ==_iff, ◌<<<◌, ◌>>>◌, Bool-cases, arith,
}
use dirtybird_c_miner.Stage.{
  descriptor_arena_index_count, stage4_short_run_max, Stage4InputView, has_load24_padding, Output,
  Limits,
}
use dirtybird_c_miner.Stage.Order.{suffix_less, sort_stage4_suffix_order_small, chunk_ends}
use dirtybird_c_miner.Stage.Emit.{write_compact_order_group}
use dirtybird_c_miner.Stage.Rounds.{rounds, write_round, run_fixed}
use dirtybird_c_miner.Stage.Run.{emit_full_group_run_compact, emit_full_group_run_compact_short}
use dirtybird_c_miner.Stage.Encode.{empty_output, raw_input_ok, stage_v114_encode_compact_raw}
use dirtybird_c_miner.Stage.Room.{Succeeds, length-insertion_sort, length-chunk_ends}
use dirtybird_c_miner.Stage.Paths.{rounds_eq}
use dirtybird_c_miner.Stage.Dispatch.{short_eq}
use dirtybird_c_miner.Stage.Progress.{rounds-Succeeds, group_runs-Succeeds}
use dirtybird_c_miner.Stage.Packed.{Packed, write_round-Packed, emit_compact_literal_records-Packed}
use dirtybird_c_miner.Stage.Finishes.{KeepsLength, raw_input_ok_lem}

pub small_length :
    (view : Stage4InputView) (order : List ℕ)
    → length (sort_stage4_suffix_order_small view order) ≡ length order
unfolding sort_stage4_suffix_order_small
small_length view order = length-insertion_sort (suffix_less view) order

module _ (limits : Limits) (bound : ℕ) (room : bound * 8 ≤ limits.out_cap)
    (arena_room : bound * 4 ≤ limits.int_arena_cap)
    (small : bound ≤ descriptor_arena_index_count) where
  compact_rounds-Packed :
      (view : Stage4InputView) (start group : ℕ) (order : List ℕ) (output : Output)
      → start < group
      → group * 256 ≤ bound
      → length order ≡ group - start
      → Packed (start * 256) output
      → Succeeds (Packed (group * 256)) (
          rounds
            (write_round (write_compact_order_group limits) view (has_load24_padding view))
            view
            255
            order
            output)
  compact_rounds-Packed view start group order output before inside len p =
      let (next, ok, q) =
        rounds-Succeeds Packed view
          (write_round (write_compact_order_group limits) view (has_load24_padding view))
          (group - start) bound
          (λ rel n order output _ len fits p.
            let (next, ok, q) =
              write_round-Packed limits bound room arena_room small view (has_load24_padding view)
                rel n order output (omega (arith, len, fits)) p in
            (next, ok, subst (λ m. Packed (n + m) next) len q))
          255 (start * 256) order output (omega arith) len (omega arith) p in
      (next, ok, subst (λ m. Packed m next) (omega arith) q)

  -- A run of groups within the text.
  emit_full_group_run_compact-Packed :
      (std_sort : (ℕ → ℕ → Bool) → List ℕ → List ℕ) (view : Stage4InputView) (start group : ℕ)
      (output : Output)
      → KeepsLength std_sort
      → start < group
      → group * 256 ≤ bound
      → Packed (start * 256) output
      → Succeeds
          (Packed (group * 256))
          (emit_full_group_run_compact std_sort limits view start group output)
  unfolding emit_full_group_run_compact emit_full_group_run_compact_short run_fixed
  emit_full_group_run_compact-Packed std_sort view start group output lengths before inside p =
      let count = group - start in
      let ends = chunk_ends (start <<< 8) 0 count in
      let len = length-chunk_ends (start <<< 8) 0 count in
      elim (Bool-cases (group - start == 1)) [
        | inl e ↦
            let one : group - start ≡ 1 = (==_iff (group - start) 1).0 e in
            let (next, ok, q) =
              emit_compact_literal_records-Packed limits bound room arena_room small view
                (start <<< 8) 256 (start * 256) output (omega (arith, one)) p in
            (next, ground (arith, e, ok), subst (λ m. Packed m next) (omega (arith, one)) q)
        | inr e ↦ elim (Bool-cases (leb (group - start) stage4_short_run_max)) [
          | inl few ↦
              let two : 2 ≤ group - start = ground (arith, e) in
              let most : group - start ≤ 25 = ground (arith, few) in
              let (next, ok, q) =
                compact_rounds-Packed view start group (sort_stage4_suffix_order_small view ends)
                  output before inside (small_length view ends ∙ len) p in
              (
                next,
                ground (
                  arith,
                  e,
                  few,
                  short_eq (write_compact_order_group limits) view start group output two most,
                  ok,
                ),
                q,
              )
          | inr many ↦
              let (next, ok, q) =
                compact_rounds-Packed view start group (std_sort (suffix_less view) ends) output
                  before inside (lengths (suffix_less view) ends ∙ len) p in
              (
                next,
                ground (
                  arith,
                  e,
                  many,
                  small,
                  rounds_eq limits view (has_load24_padding view) 255
                      (std_sort (suffix_less view) ends) output,
                  ok,
                ),
                q,
              )
        ]
      ]

-- On every view that passes the checks of the raw forms, with four bytes of arena for each
-- position, `stage_v114_encode_compact_raw` ends and returns true, whatever its flag for single
-- positions is: no write is refused, and records and arena entries are at most one for each
-- position. Of `std::sort` only that it keeps the number of the entries is used.
pub stage_v114_encode_compact_raw_lem :
    (std_sort : (ℕ → ℕ → Bool) → List ℕ → List ℕ) (count1_singletons : Bool)
    (view : Stage4InputView) (desc_cap int_arena_cap : ℕ) (int_arena : List ℕ)
    → KeepsLength std_sort
    → raw_input_ok view desc_cap ≡ true
    → view.logical_len * 4 ≤ int_arena_cap
    → (output : Output) × (stage_v114_encode_compact_raw std_sort count1_singletons view desc_cap
          int_arena_cap int_arena
        ≡ some output)
      × (length output.records ≤ view.logical_len)
      × (output.arena_entries ≤ view.logical_len)
unfolding stage_v114_encode_compact_raw
stage_v114_encode_compact_raw_lem std_sort count1_singletons view desc_cap int_arena_cap int_arena
      lengths ok arena_room =
    let limits : Limits = record {
      out_cap = desc_cap;
      int_arena_cap = int_arena_cap;
      count1_singletons = count1_singletons;
    } in
    let (small, room) = raw_input_ok_lem view desc_cap ok in
    let full = view.logical_len >>> 8 in
    let (next, runs, p) =
      group_runs-Succeeds Packed (emit_full_group_run_compact std_sort limits view) view.flags full
        (λ start group output before last p.
          emit_full_group_run_compact-Packed limits view.logical_len room arena_room small std_sort
            view start group output lengths before (omega arith) p)
        full 1 0 (empty_output (some int_arena)) (omega arith) (omega arith) (λ z. omega (arith, z))
        (omega arith, omega arith, (int_arena, refl)) in
    let (last, tail, q) =
      emit_compact_literal_records-Packed limits view.logical_len room arena_room small view
        (full <<< 8) (bit_and view.logical_len 0xff) (full * 256) next
        (omega (arith, bit_and_255 view.logical_len)) p in
    (
      last,
      ground (arith, ok, runs, tail),
      omega (arith, q.0, bit_and_255 view.logical_len),
      omega (arith, q.1, bit_and_255 view.logical_len),
    )
