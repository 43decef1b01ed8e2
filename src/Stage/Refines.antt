-- ===== src/Stage/Refines.antt =====
-- The fused first stage writes what the buffered one does.
use dirtybird_c_miner.Base.{
  ℕ, ◌+◌, ◌*◌, ◌≤◌, ◌≡◌, refl, sym, ap, ◌∙◌, true, false, ◌||◌, List, [], ◌∷◌, ◌++◌, length,
  length-append, get_or, some, ltb, ◌<<<◌, arith,
}
use dirtybird_c_miner.Stage.{descriptor_arena_index_count, Descriptor, Output, Limits}
use dirtybird_c_miner.Stage.Emit.{append_compact_arena_positions_fixed, write_compact_order_group}
use dirtybird_c_miner.Stage.Room.{write_record-Succeeds}
use dirtybird_c_miner.Stage.Runs.{make_stage5_run}
use dirtybird_c_miner.Stage.Fused.{FusedStage5Scratch, store_from, append_fused_order_group}
use dirtybird_c_miner.Stage.Both.{Both}
use dirtybird_c_miner.Stage.Simulates.{
  length-store_from, store_from-AgreeBelow, write_arena_all-store_from, map-append, run_of,
  Simulates,
}

module _ (limits : Limits) (bound : ℕ) (room : bound * 8 ≤ limits.out_cap)
    (arena_room : bound * 4 ≤ limits.int_arena_cap)
    (small : bound ≤ descriptor_arena_index_count) where
  -- A record that the buffer has room for.
  abbrev with_record : Output → ℕ → ℕ → Output
  with_record output key packed = record output {
    records = output.records ++ record { key = key; packed = packed } ∷ [];
  }

  pub single-Simulates :
      (n key : ℕ) (members : List ℕ) (output : Output) (scratch : FusedStage5Scratch)
      → length members ≡ 1
      → limits.count1_singletons ≡ false
      → n + length members ≤ bound
      → Simulates bound n output scratch
      → Both
          (Simulates bound (n + length members))
          (write_compact_order_group limits key members output)
          (append_fused_order_group limits.count1_singletons key members scratch)
  unfolding write_compact_order_group append_fused_order_group make_stage5_run
  single-Simulates n key members output scratch one off fits sim =
      let word = get_or members 0 0 in
      let more : Descriptor = record { key = key; packed = word } in
      (
        with_record output key word,
        record scratch { runs = scratch.runs ++ run_of more ∷ [] },
        ground (
          arith,
          one,
          off,
          write_record-Succeeds limits output key word (omega (arith, sim.few)),
        ),
        ground (arith, one, off),
        record {
          arena = sim.arena;
          there = sim.there;
          few = omega (arith, sim.few, length-append output.records (more ∷ []));
          used = omega (arith, sim.used);
          same_len = sim.same_len;
          same_runs =
              ap (λ l. l ++ run_of more ∷ []) sim.same_runs
              ∙ sym (map-append output.records (more ∷ []));
          room = sim.room;
          room' = sim.room';
          agree = sim.agree;
        },
      )

  pub listed-Simulates :
      (n key : ℕ) (members : List ℕ) (output : Output) (scratch : FusedStage5Scratch)
      → 1 ≤ length members
      → (ltb 1 (length members) || limits.count1_singletons) ≡ true
      → n + length members ≤ bound
      → Simulates bound n output scratch
      → Both
          (Simulates bound (n + length members))
          (write_compact_order_group limits key members output)
          (append_fused_order_group limits.count1_singletons key members scratch)
  unfolding write_compact_order_group append_fused_order_group make_stage5_run
      append_compact_arena_positions_fixed
  listed-Simulates n key members output scratch nonempty listed fits sim =
      let entries = output.arena_entries in
      let word = (length members <<< 17) + entries in
      let more : Descriptor = record { key = key; packed = word } in
      let filled : Output = record output {
        int_arena = some (store_from sim.arena entries members);
        arena_entries = entries + length members;
      } in
      let stored =
        write_arena_all-store_from limits.int_arena_cap entries sim.arena members
          (omega (arith, sim.used)) in
      let len = sim.same_len in
      let used = sim.used in
      let there = sim.there in
      let room' = sim.room' in
      (
        with_record filled key word,
        record {
          arena_positions = store_from scratch.arena_positions entries members;
          arena_len = entries + length members;
          runs = scratch.runs ++ run_of more ∷ [];
        },
        ground (
          arith,
          listed,
          there,
          stored,
          small,
          used,
          write_record-Succeeds limits filled key word (omega (arith, sim.few)),
        ),
        ground (arith, listed, nonempty, len, small, used, room'),
        record {
          arena = store_from sim.arena entries members;
          there = refl;
          few = omega (arith, sim.few, length-append output.records (more ∷ []));
          used = omega (arith, sim.used);
          same_len = refl;
          same_runs =
              ap (λ l. l ++ run_of more ∷ []) sim.same_runs
              ∙ sym (map-append output.records (more ∷ []));
          room = omega (arith, sim.room, length-store_from sim.arena entries members);
          room' =
              omega (arith, sim.room', length-store_from scratch.arena_positions entries members);
          agree =
              store_from-AgreeBelow members entries scratch.arena_positions sim.arena
                (omega (arith, sim.room', sim.used)) (omega (arith, sim.room, sim.used)) sim.agree;
        },
      )
