-- ===== src/Stage/Encode.antt =====
-- The first stage of src/v114_stubs.cpp: `stage_v114_encode` and its two raw forms.
use dirtybird_c_miner.Base.{
  ℕ, zero, suc, ◌+◌, ◌-◌, ◌*◌, Bool, true, false, not, ◌&&◌, ◌||◌, List, [], ◌++◌, length,
  replicate, get_or, Option, none, some, bit_and, ltb, leb, ◌==◌, ◌<<<◌, ◌>>>◌, if◌then◌else◌,
}
use dirtybird_c_miner.Stage.{
  descriptor_arena_index_count, Stage4InputView, descriptor_bytes, Output, Limits,
  init_identity_arena,
}
use dirtybird_c_miner.Stage.Parse.{parse_stage4_input}
use dirtybird_c_miner.Stage.Emit.{emit_direct_records, emit_compact_literal_records}
use dirtybird_c_miner.Stage.Fused.{
  FusedStage5Scratch, emit_full_group_run_compact_fused, emit_fused_literal_records,
}
use dirtybird_c_miner.Stage.Run.{emit_full_group_run, emit_full_group_run_compact}

-- The loop over the groups 1 to `full_groups`: a run ends at a flagged group and at the last one.
unfoldable pub group_runs :
    {S : Type 0} → (ℕ → ℕ → S → Option S) → List ℕ → ℕ → ℕ → ℕ → ℕ → S → Option S
group_runs emit flags full_groups zero group run_start state = some state
group_runs emit flags full_groups (suc left) group run_start state =
    elim (not (get_or flags group 0 == 0) || (group == full_groups)) [
      | true ↦ elim (emit run_start group state) [
        | none ↦ none
        | some next ↦ group_runs emit flags full_groups left (group + 1) group next
      ]
      | false ↦ group_runs emit flags full_groups left (group + 1) run_start state
    ]

-- Nothing written yet.
abbrev pub empty_output : Option (List ℕ) → Output
empty_output int_arena = record { records = []; int_arena = int_arena; arena_entries = 0 }

-- The checks of the arguments that all raw forms make.
unfoldable pub raw_view_ok : Stage4InputView → Bool
raw_view_ok view =
    not (
      (view.logical_len == 0)
      || ltb descriptor_arena_index_count view.logical_len
      || ltb view.data_len view.logical_len)
    && not (leb view.flag_len (view.logical_len >>> 8))

-- The two buffered forms also ask for eight bytes of room for each position.
unfoldable pub raw_input_ok : Stage4InputView → ℕ → Bool
raw_input_ok view desc_cap = raw_view_ok view && not (ltb desc_cap (view.logical_len * 8))

module _ (std_sort : (ℕ → ℕ → Bool) → List ℕ → List ℕ) where
  -- The body of `stage_v114_encode` behind the parser and of `stage_v114_encode_with_arena_raw`
  -- behind its checks.
  unfoldable pub encode_view : Limits → Stage4InputView → Option (List ℕ) → Option Output
  encode_view limits view int_arena =
      let full_groups = view.logical_len >>> 8 in
      elim (group_runs (emit_full_group_run std_sort limits view) view.flags full_groups full_groups
        1 0 (empty_output int_arena)) [
          | none ↦ none
          | some output ↦
              some (
                emit_direct_records view (full_groups <<< 8) (bit_and view.logical_len 0xff) output)
        ]

  -- The bytes written to `out`, with `out_cap` bytes of room.
  unfoldable pub stage_v114_encode : List ℕ → ℕ → Option (List ℕ)
  stage_v114_encode input out_cap = elim (parse_stage4_input input) [
    | none ↦ none
    | some view ↦
        if ltb out_cap (view.logical_len * 8)
        then none
        else elim (encode_view
            (record { out_cap = out_cap; int_arena_cap = 0; count1_singletons = false }) view
            none) [ none ↦ none | some output ↦ some (descriptor_bytes output.records) ]
  ]

  -- The records and the arena, from the arguments as a view. The arena's buffer is `int_arena`.
  unfoldable pub stage_v114_encode_with_arena_raw : Stage4InputView → ℕ → ℕ → List ℕ → Option Output
  stage_v114_encode_with_arena_raw view desc_cap int_arena_cap int_arena =
      if not (raw_input_ok view desc_cap)
      then none
      else elim (init_identity_arena int_arena_cap int_arena view.logical_len) [
        | none ↦ none
        | some arena ↦
            encode_view
              (record {
                out_cap = desc_cap;
                int_arena_cap = int_arena_cap;
                count1_singletons = false;
              })
              view (some arena)
      ]

  -- The compact form, with the flag `count1_singletons` of the environment.
  unfoldable pub stage_v114_encode_compact_raw :
      Bool → Stage4InputView → ℕ → ℕ → List ℕ → Option Output
  stage_v114_encode_compact_raw count1_singletons view desc_cap int_arena_cap int_arena =
      let limits : Limits = record {
        out_cap = desc_cap;
        int_arena_cap = int_arena_cap;
        count1_singletons = count1_singletons;
      } in
      let full_groups = view.logical_len >>> 8 in
      if not (raw_input_ok view desc_cap)
      then none
      else elim (group_runs (emit_full_group_run_compact std_sort limits view) view.flags
          full_groups full_groups 1 0 (empty_output (some int_arena))) [
            | none ↦ none
            | some output ↦
                emit_compact_literal_records limits view (full_groups <<< 8)
                  (bit_and view.logical_len 0xff) output
          ]

  -- What `stage_v114_hash_compact_fused_raw` puts in its scratch area, before it hashes: the area's
  -- arena is first brought to at least `logical_len` + 8 entries.
  unfoldable pub fused_emission :
      Bool → Stage4InputView → FusedStage5Scratch → Option FusedStage5Scratch
  fused_emission count1_singletons view scratch =
      let size = length scratch.arena_positions in
      let full_groups = view.logical_len >>> 8 in
      let cleared : FusedStage5Scratch = record {
        arena_positions = scratch.arena_positions ++ replicate (view.logical_len + 8 - size) 0;
        arena_len = 0;
        runs = [];
      } in
      if not (raw_view_ok view)
      then none
      else elim (group_runs (emit_full_group_run_compact_fused std_sort count1_singletons view)
          view.flags full_groups full_groups 1 0 cleared) [
            | none ↦ none
            | some next ↦
                emit_fused_literal_records count1_singletons view (full_groups <<< 8)
                  (bit_and view.logical_len 0xff) next
          ]
