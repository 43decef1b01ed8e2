-- ===== src/Stage/Emission.antt =====
-- `stage_v114_hash_compact_fused_raw` fills its scratch area as `stage_v114_encode_compact_raw` fills
-- its buffers.
use dirtybird_c_miner.Base.{
  ℕ, ◌+◌, ◌-◌, ◌*◌, ◌≤◌, ◌≡◌, refl, subst, Bool, true, List, [], ◌++◌, length, length-append,
  length-replicate, replicate, some, bit_and, bit_and_255, ◌<<<◌, ◌>>>◌, arith,
}
use dirtybird_c_miner.Stage.{Stage4InputView, Limits}
use dirtybird_c_miner.Stage.Run.{emit_full_group_run_compact}
use dirtybird_c_miner.Stage.Fused.{FusedStage5Scratch, emit_full_group_run_compact_fused}
use dirtybird_c_miner.Stage.Encode.{
  empty_output, raw_view_ok, raw_input_ok, stage_v114_encode_compact_raw, fused_emission,
}
use dirtybird_c_miner.Stage.Finishes.{KeepsLength, raw_input_ok_lem}
use dirtybird_c_miner.Stage.Both.{Both, group_runs-Both}
use dirtybird_c_miner.Stage.Simulates.{Simulates}
use dirtybird_c_miner.Stage.Refinement.{run-Simulates, emit_literals-Simulates}

raw_input-raw_view :
    (view : Stage4InputView) (desc_cap : ℕ)
    → raw_input_ok view desc_cap ≡ true
    → raw_view_ok view ≡ true
unfolding raw_input_ok
raw_input-raw_view view desc_cap ok = ground (arith, ok)

-- On a view that passes the checks, with room for the records and an arena of at least `logical_len`
-- entries, the fused first stage refines the buffered one: both return true, the scratch area holds
-- for each record, in order, a run with the record's word and with its key in the order of its
-- bytes, and the two arenas have as many entries in use and the same positions in them, whatever
-- the scratch area held before, for both values of the flag for single positions.
pub fused_emission_lem :
    (std_sort : (ℕ → ℕ → Bool) → List ℕ → List ℕ) (count1_singletons : Bool)
    (view : Stage4InputView) (desc_cap int_arena_cap : ℕ) (int_arena : List ℕ)
    (scratch : FusedStage5Scratch)
    → KeepsLength std_sort
    → raw_input_ok view desc_cap ≡ true
    → view.logical_len * 4 ≤ int_arena_cap
    → view.logical_len ≤ length int_arena
    → Both
        (Simulates view.logical_len view.logical_len)
        (stage_v114_encode_compact_raw std_sort count1_singletons view desc_cap int_arena_cap
          int_arena)
        (fused_emission std_sort count1_singletons view scratch)
unfolding stage_v114_encode_compact_raw fused_emission
fused_emission_lem std_sort count1_singletons view desc_cap int_arena_cap int_arena scratch lengths
      ok arena_room long =
    let limits : Limits = record {
      out_cap = desc_cap;
      int_arena_cap = int_arena_cap;
      count1_singletons = count1_singletons;
    } in
    let L = view.logical_len in
    let (small, room) = raw_input_ok_lem view desc_cap ok in
    let full = L >>> 8 in
    let more = L + 8 - length scratch.arena_positions in
    let cleared : FusedStage5Scratch = record {
      arena_positions = scratch.arena_positions ++ replicate more 0;
      arena_len = 0;
      runs = [];
    } in
    let start : Simulates L 0 (empty_output (some int_arena)) cleared = record {
      arena = int_arena;
      there = refl;
      few = omega arith;
      used = omega arith;
      same_len = refl;
      same_runs = refl;
      room = long;
      room' = omega (
        arith,
        length-append scratch.arena_positions (replicate more 0),
        length-replicate {A = ℕ} more 0,
      );
      agree = λ i h. absurd (omega arith);
    } in
    let (a, b, runs, runs', q) =
      group_runs-Both (Simulates L) (emit_full_group_run_compact std_sort limits view)
        (emit_full_group_run_compact_fused std_sort count1_singletons view) view.flags full
        (λ first group output scratch before last sim.
          run-Simulates limits L room arena_room small std_sort view first group output scratch
            lengths before (omega arith) sim)
        full 1 0 (empty_output (some int_arena)) cleared (omega arith) (omega arith)
        (λ z. omega (arith, z)) start in
    let rest = bit_and L 0xff in
    let (c, d, tail, tail', q') =
      emit_literals-Simulates limits L room arena_room small view (full <<< 8) rest (full * 256) a b
        (omega (arith, bit_and_255 L)) q in
    (
      c,
      d,
      ground (arith, ok, runs, tail),
      ground (arith, raw_input-raw_view view desc_cap ok, runs', tail'),
      subst (λ m. Simulates L m c d) (omega (arith, bit_and_255 L)) q',
    )
