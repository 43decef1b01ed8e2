-- ===== src/Stage/HashSink.antt =====
-- The sink that hashes positions in src/v114_stubs.cpp, and the last stage of the fused form. The
-- library's SHA-256 is a context and its `SHA256_Update`, `update`.
use Prim.Native.Nat.{min}
use dirtybird_c_miner.Base.{
  ℕ, zero, suc, ◌+◌, ◌-◌, ◌%◌, Bool, not, ◌&&◌, ◌||◌, List, [], ◌∷◌, ◌++◌, length, take, drop,
  Option, none, some, ltb, leb, ◌==◌, if◌then◌else◌,
}
use dirtybird_c_miner.Stage.{Stage4InputView}
use dirtybird_c_miner.Stage.Order.{insertion_sort}
use dirtybird_c_miner.Stage.Parse.{Stage5InputView}
use dirtybird_c_miner.Stage.Runs.{
  Stage5Run, stage5_run_is_literal, stage5_run_begin, stage5_run_count, fused_run_pos,
}
use dirtybird_c_miner.Stage.AfterKey.{suffix_less_after_key}
use dirtybird_c_miner.Stage.Fused.{FusedStage5Scratch}
use dirtybird_c_miner.Stage.Encode.{fused_emission}
use dirtybird_c_miner.Stage.Merge.{merge_loop, merge_equal_key_runs_after_key, literal_positions}
use dirtybird_c_miner.Stage.RunSort.{radix_sort_runs_by_stored_key}
use dirtybird_c_miner.Stage.Groups.{positions_bytes, same_key_runs}

abbrev pub buffer_words : ℕ
buffer_words = 2048

-- The buffer holds the words that are not yet hashed.
pub record FusedHashSink (Ctx : Type 0) : Type 0 where
  pub ctx : Ctx
  pub buffer : List ℕ
  pub positions : ℕ

unfoldable pub fused_hash_sink_init : {Ctx : Type 0} → Ctx → FusedHashSink Ctx
fused_hash_sink_init start = record { ctx = start; buffer = []; positions = 0 }

-- The positions of a run, from index `rel` on.
unfoldable pub fused_positions_from : List ℕ → Stage5Run → ℕ → ℕ → List ℕ
fused_positions_from arena run rel zero = []
fused_positions_from arena run rel (suc left) =
    fused_run_pos arena run rel ∷ fused_positions_from arena run (suc rel) left

unfoldable pub fused_positions : List ℕ → Stage5Run → List ℕ
fused_positions arena run = fused_positions_from arena run 0 (stage5_run_count run)

unfoldable pub fused_segments : List ℕ → List Stage5Run → List (List ℕ)
fused_segments arena [] = []
fused_segments arena (run ∷ runs) = fused_positions arena run ∷ fused_segments arena runs

-- `stage5`, without descriptors.
abbrev pub fused_stage5_view : Stage4InputView → Stage5InputView
fused_stage5_view view = record {
  logical_len = view.logical_len;
  data_len = view.data_len;
  int_len = 0;
  desc_len = 0;
  bytes = view.bytes;
  int_arena = [];
  desc = [];
}

module _ {Ctx : Type 0} (update : Ctx → List ℕ → Ctx) where
  unfoldable pub fused_hash_sink_flush : FusedHashSink Ctx → FusedHashSink Ctx
  fused_hash_sink_flush sink =
      if length sink.buffer == 0
      then sink
      else record sink { ctx = update sink.ctx (positions_bytes sink.buffer); buffer = [] }

  -- A full buffer is hashed.
  unfoldable pub fused_hash_sink_filled : FusedHashSink Ctx → List ℕ → ℕ → FusedHashSink Ctx
  fused_hash_sink_filled sink buffer positions =
      if length buffer == buffer_words
      then record {
        ctx = update sink.ctx (positions_bytes buffer);
        buffer = [];
        positions = positions;
      }
      else record { ctx = sink.ctx; buffer = buffer; positions = positions }

  unfoldable pub fused_hash_sink_write_pos : FusedHashSink Ctx → ℕ → FusedHashSink Ctx
  fused_hash_sink_write_pos sink pos =
      fused_hash_sink_filled sink (sink.buffer ++ pos ∷ []) (sink.positions + 1)

  -- The loop on a little-endian host, with `fuel` rounds: each takes at least one position.
  unfoldable pub write_positions_loop : ℕ → FusedHashSink Ctx → List ℕ → FusedHashSink Ctx
  write_positions_loop zero sink positions = sink
  write_positions_loop (suc fuel) sink positions =
      let count = length positions in
      let full = count - count % buffer_words in
      let chunk = min count (buffer_words - length sink.buffer) in
      let at_once =
        write_positions_loop fuel
          (record sink {
            ctx = update sink.ctx (positions_bytes (take full positions));
            positions = sink.positions + full;
          })
          (drop full positions) in
      let buffered =
        write_positions_loop fuel
          (fused_hash_sink_filled sink (sink.buffer ++ take chunk positions)
            (sink.positions + chunk))
          (drop chunk positions) in
      if count == 0
      then sink
      else if (length sink.buffer == 0) && leb buffer_words count
      then at_once
      else buffered

  unfoldable pub fused_hash_sink_write_positions : FusedHashSink Ctx → List ℕ → FusedHashSink Ctx
  fused_hash_sink_write_positions sink positions =
      write_positions_loop (length positions) sink positions

  -- Positions written one by one.
  unfoldable pub write_each : FusedHashSink Ctx → List ℕ → FusedHashSink Ctx
  write_each sink [] = sink
  write_each sink (pos ∷ positions) = write_each (fused_hash_sink_write_pos sink pos) positions

  -- `fused_try_hash_literal_equal_key_group_after_key`.
  unfoldable pub fused_try_hash_literal_group :
      Stage5InputView → List Stage5Run → FusedHashSink Ctx → Option (FusedHashSink Ctx)
  fused_try_hash_literal_group view runs sink =
      if (length runs == 0) || ltb 32 (length runs) then none else elim (literal_positions runs) [
        | none ↦ none
        | some positions ↦
            some (write_each sink (insertion_sort (suffix_less_after_key view) positions))
      ]

  -- `fused_try_hash_two_equal_key_runs_after_key`.
  unfoldable pub fused_try_hash_two_runs :
      Stage5InputView → List ℕ → List Stage5Run → FusedHashSink Ctx → Option (FusedHashSink Ctx)
  fused_try_hash_two_runs view arena [] sink = none
  fused_try_hash_two_runs view arena (left ∷ []) sink = none
  fused_try_hash_two_runs view arena (left ∷ right ∷ []) sink = some (
      write_each sink (
        merge_loop (suffix_less_after_key view) (stage5_run_count left + stage5_run_count right)
          (fused_positions arena left) (fused_positions arena right)))
  fused_try_hash_two_runs view arena (left ∷ right ∷ next ∷ runs) sink = none

  -- A group: its first run and the others.
  unfoldable pub hash_group :
      Stage5InputView → List ℕ → Stage5Run → List Stage5Run → FusedHashSink Ctx → FusedHashSink Ctx
  hash_group view arena run [] sink =
      if stage5_run_is_literal run
      then fused_hash_sink_write_pos sink (stage5_run_begin run)
      else fused_hash_sink_write_positions sink
          (take (stage5_run_count run) (drop (stage5_run_begin run) arena))
  hash_group view arena run (next ∷ others) sink =
      let runs = run ∷ next ∷ others in
      elim (fused_try_hash_literal_group view runs sink) [
        | some written ↦ written
        | none ↦ elim (fused_try_hash_two_runs view arena runs sink) [
          | some written ↦ written
          | none ↦
              fused_hash_sink_write_positions sink
                (merge_equal_key_runs_after_key view (fused_segments arena runs))
        ]
      ]

  -- The loop over the groups, with a round for each run at most.
  unfoldable pub hash_sorted_runs :
      ℕ → Stage5InputView → List ℕ → List Stage5Run → FusedHashSink Ctx → FusedHashSink Ctx
  hash_sorted_runs zero view arena runs sink = sink
  hash_sorted_runs (suc fuel) view arena [] sink = sink
  hash_sorted_runs (suc fuel) view arena (run ∷ runs) sink =
      let group = same_key_runs run.key runs in
      hash_sorted_runs fuel view arena group.1 (hash_group view arena run group.0 sink)

  module _ {Hash : Type 0} (start : Ctx) (final : Ctx → Hash) where
    -- The hash where the call returns true.
    unfoldable pub write_fused_runs_to_hash :
        Stage5InputView → FusedStage5Scratch → List Stage5Run → Option Hash
    write_fused_runs_to_hash view scratch radix_tmp =
        let sorted = (radix_sort_runs_by_stored_key scratch.runs radix_tmp).0 in
        let sink =
          hash_sorted_runs (length sorted) view scratch.arena_positions sorted
            (fused_hash_sink_init start) in
        if not (sink.positions == view.logical_len)
        then none
        else some (final (fused_hash_sink_flush sink).ctx)

    -- The whole fused form, on arguments that are not null: `scratch` and `radix_tmp` are what the
    -- last call left.
    unfoldable pub stage_v114_hash_compact_fused_raw :
        ((ℕ → ℕ → Bool) → List ℕ → List ℕ)
        → Bool
        → Stage4InputView
        → FusedStage5Scratch
        → List Stage5Run
        → Option Hash
    stage_v114_hash_compact_fused_raw std_sort count1_singletons view scratch radix_tmp =
        elim (fused_emission std_sort count1_singletons view scratch) [
          | none ↦ none
          | some filled ↦ write_fused_runs_to_hash (fused_stage5_view view) filled radix_tmp
        ]
