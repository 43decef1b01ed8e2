-- ===== src/Stage/Tail.antt =====
-- The two stages one after the other: the compact encoder and the last stage with trusted
-- descriptors, as tools/replay/bench_stage5.cpp runs them.
use Prim.Native.Nat.{max}
use dirtybird_c_miner.Base.{
  ℕ, ◌-◌, ◌*◌, ◌++◌, replicate, Bool, false, ◌||◌, List, length, Option, none, some, ltb, ◌==◌,
  if◌then◌else◌,
}
use dirtybird_c_miner.Stage.{Stage4InputView, Output, descriptor_bytes}
use dirtybird_c_miner.Stage.Encode.{stage_v114_encode_compact_raw}
use dirtybird_c_miner.Stage.Parse.{Stage5InputView, parse_stage4_input}
use dirtybird_c_miner.Stage.Runs.{Stage5Run}
use dirtybird_c_miner.Stage.Groups.{positions_bytes, stage_v114_sa_build_descriptor_trusted}

-- The arguments as a view, where the pointers are not null.
unfoldable pub stage_v114_sa_build_descriptor_trusted_raw :
    List Stage5Run → Stage5InputView → ℕ → Option (List ℕ)
stage_v114_sa_build_descriptor_trusted_raw radix_tmp view out_cap =
    if (view.logical_len == 0) || ltb view.data_len view.logical_len
    then none
    else stage_v114_sa_build_descriptor_trusted false radix_tmp view out_cap

-- What the encoder's buffers are to the last stage: `arena` holds the entries as bytes.
abbrev pub handed_over : Stage4InputView → List ℕ → Output → Stage5InputView
handed_over view arena output = record {
  logical_len = view.logical_len;
  data_len = view.data_len;
  int_len = output.arena_entries * 4;
  desc_len = length output.records * 8;
  bytes = view.bytes;
  int_arena = positions_bytes arena;
  desc = descriptor_bytes output.records;
}

-- The sample's input is `stage4_input` and its expected result has `expected_size` bytes; the parser
-- there makes the checks of `parse_stage4_input`. The vector `desc` had `desc_size` bytes, `arena`
-- the given entries, and `out` had `out_size` bytes.
unfoldable pub run_one_compact_tail :
    ((ℕ → ℕ → Bool) → List ℕ → List ℕ)
    → Bool
    → List Stage5Run
    → List ℕ
    → ℕ
    → ℕ
    → List ℕ
    → ℕ
    → Option (List ℕ)
run_one_compact_tail std_sort count1_singletons radix_tmp stage4_input expected_size desc_size arena
      out_size =
    elim (parse_stage4_input stage4_input) [
      | none ↦ none
      | some view ↦
          let resized = arena ++ replicate (view.logical_len - length arena) 0 in
          elim (stage_v114_encode_compact_raw std_sort count1_singletons view
            (max desc_size (view.logical_len * 8)) (length resized * 4) resized) [
              | none ↦ none
              | some output ↦ elim output.int_arena [
                | none ↦ none
                | some written ↦
                    stage_v114_sa_build_descriptor_trusted_raw radix_tmp
                      (handed_over view written output) (max out_size expected_size)
              ]
            ]
    ]
