-- ===== src/Stage/Refinement.antt =====
-- The whole fused first stage against the buffered one.
use dirtybird_c_miner.Base.{
  ℕ, zero, suc, ◌+◌, ◌-◌, ◌*◌, ◌≤◌, ◌<◌, ◌≡◌, refl, ◌∙◌, subst, Bool, ◌||◌, inl, inr, List, [], ◌∷◌,
  length, none, some, ltb, leb, ◌==◌, ==_iff, ◌<<<◌, Bool-cases, arith,
}
use dirtybird_c_miner.Stage.{
  descriptor_arena_index_count, stage4_short_run_max, Stage4InputView, has_load24_padding,
  load24_fast, Output, Limits, write_record, write_arena_all,
}
use dirtybird_c_miner.Stage.Order.{suffix_less, sort_stage4_suffix_order_small, chunk_ends}
use dirtybird_c_miner.Stage.Emit.{
  append_compact_arena_positions_fixed, write_compact_order_group, literal_packed,
  emit_compact_literal_records,
}
use dirtybird_c_miner.Stage.Rounds.{rounds, write_round, run_fixed}
use dirtybird_c_miner.Stage.Run.{emit_full_group_run_compact, emit_full_group_run_compact_short}
use dirtybird_c_miner.Stage.Fused.{
  FusedStage5Scratch, append_fused_order_group, emit_fused_literal_records,
  emit_full_group_run_compact_fused, emit_full_group_run_compact_fused_short,
}
use dirtybird_c_miner.Stage.Room.{length-chunk_ends}
use dirtybird_c_miner.Stage.Paths.{rounds_eq}
use dirtybird_c_miner.Stage.Dispatch.{short_eq}
use dirtybird_c_miner.Stage.Finishes.{KeepsLength}
use dirtybird_c_miner.Stage.Compacts.{small_length}
use dirtybird_c_miner.Stage.Both.{Both, rounds-Both}
use dirtybird_c_miner.Stage.Simulates.{Simulates}
use dirtybird_c_miner.Stage.Refines.{single-Simulates, listed-Simulates}

-- A single position goes the way of a group of one.
pub literal_eq :
    (limits : Limits) (key pos : ℕ) (output : Output)
    → (elim (literal_packed limits pos output) [
      | none ↦ none
      | some found ↦ write_record limits found.1 key found.0
    ])
      ≡ write_compact_order_group limits key (pos ∷ []) output
unfolding literal_packed write_compact_order_group append_compact_arena_positions_fixed
    write_arena_all
literal_eq limits key pos output = elim (Bool-cases limits.count1_singletons) [
  | inr off ↦ ground (arith, off)
  | inl on ↦ ground (arith, on)
]

module _ (limits : Limits) (bound : ℕ) (room : bound * 8 ≤ limits.out_cap)
    (arena_room : bound * 4 ≤ limits.int_arena_cap)
    (small : bound ≤ descriptor_arena_index_count) where
  group-Simulates :
      (n key : ℕ) (members : List ℕ) (output : Output) (scratch : FusedStage5Scratch)
      → 1 ≤ length members
      → n + length members ≤ bound
      → Simulates bound n output scratch
      → Both
          (Simulates bound (n + length members))
          (write_compact_order_group limits key members output)
          (append_fused_order_group limits.count1_singletons key members scratch)
  group-Simulates n key members output scratch nonempty fits sim =
      elim (Bool-cases (ltb 1 (length members) || limits.count1_singletons)) [
        | inl listed ↦
            listed-Simulates limits bound room arena_room small n key members output scratch
              nonempty listed fits sim
        | inr single ↦
            single-Simulates limits bound room arena_room small n key members output scratch
              (ground (arith, single)) (ground (arith, single)) fits sim
      ]

  pub emit_literals-Simulates :
      (view : Stage4InputView) (pos count n : ℕ) (output : Output) (scratch : FusedStage5Scratch)
      → n + count ≤ bound
      → Simulates bound n output scratch
      → Both
          (Simulates bound (n + count))
          (emit_compact_literal_records limits view pos count output)
          (emit_fused_literal_records limits.count1_singletons view pos count scratch)
  unfolding emit_compact_literal_records emit_fused_literal_records
  emit_literals-Simulates view pos zero n output scratch fits sim =
      (output, scratch, refl, refl, subst (λ m. Simulates bound m output scratch) (omega arith) sim)
  emit_literals-Simulates view pos (suc count) n output scratch fits sim =
      let key = load24_fast view pos (has_load24_padding view) in
      let (a, b, ok, ok', q) =
        group-Simulates n key (pos ∷ []) output scratch (omega arith) (omega arith) sim in
      let (c, d, done, done', q') =
        emit_literals-Simulates view (pos + 1) count (n + 1) a b (omega arith) q in
      (
        c,
        d,
        ground (arith, literal_eq limits key pos output, ok, done),
        ground (arith, ok', done'),
        subst (λ m. Simulates bound m c d) (omega arith) q',
      )

  compact_rounds-Simulates :
      (view : Stage4InputView) (start group : ℕ) (order : List ℕ) (output : Output)
      (scratch : FusedStage5Scratch)
      → start < group
      → group * 256 ≤ bound
      → length order ≡ group - start
      → Simulates bound (start * 256) output scratch
      → Both
          (Simulates bound (group * 256))
          (rounds
            (write_round (write_compact_order_group limits) view (has_load24_padding view))
            view
            255
            order
            output)
          (rounds
            (write_round
              (append_fused_order_group limits.count1_singletons)
              view
              (has_load24_padding view))
            view
            255
            order
            scratch)
  compact_rounds-Simulates view start group order output scratch before inside len sim =
      let (a, b, ok, ok', q) =
        rounds-Both (write_compact_order_group limits)
          (append_fused_order_group limits.count1_singletons) (Simulates bound) bound
          group-Simulates view (has_load24_padding view) (group - start) 255 (start * 256) order
          output scratch len (omega arith) sim in
      (a, b, ok, ok', subst (λ m. Simulates bound m a b) (omega arith) q)

  -- A run of groups within the bound.
  pub run-Simulates :
      (std_sort : (ℕ → ℕ → Bool) → List ℕ → List ℕ) (view : Stage4InputView) (start group : ℕ)
      (output : Output) (scratch : FusedStage5Scratch)
      → KeepsLength std_sort
      → start < group
      → group * 256 ≤ bound
      → Simulates bound (start * 256) output scratch
      → Both
          (Simulates bound (group * 256))
          (emit_full_group_run_compact std_sort limits view start group output)
          (emit_full_group_run_compact_fused std_sort limits.count1_singletons view start group
            scratch)
  unfolding emit_full_group_run_compact emit_full_group_run_compact_short
      emit_full_group_run_compact_fused emit_full_group_run_compact_fused_short run_fixed
  run-Simulates std_sort view start group output scratch lengths before inside sim =
      let ends = chunk_ends (start <<< 8) 0 (group - start) in
      let len = length-chunk_ends (start <<< 8) 0 (group - start) in
      elim (Bool-cases (group - start == 1)) [
        | inl e ↦
            let one : group - start ≡ 1 = (==_iff (group - start) 1).0 e in
            let (a, b, ok, ok', q) =
              emit_literals-Simulates view (start <<< 8) 256 (start * 256) output scratch
                (omega (arith, one)) sim in
            (
              a,
              b,
              ground (arith, e, ok),
              ground (arith, e, ok'),
              subst (λ m. Simulates bound m a b) (omega (arith, one)) q,
            )
        | inr e ↦ elim (Bool-cases (leb (group - start) stage4_short_run_max)) [
          | inl few ↦
              let two : 2 ≤ group - start = ground (arith, e) in
              let most : group - start ≤ 25 = ground (arith, few) in
              let (a, b, ok, ok', q) =
                compact_rounds-Simulates view start group (sort_stage4_suffix_order_small view ends)
                  output scratch before inside (small_length view ends ∙ len) sim in
              (
                a,
                b,
                ground (
                  arith,
                  e,
                  few,
                  short_eq (write_compact_order_group limits) view start group output two most,
                  ok,
                ),
                ground (
                  arith,
                  e,
                  few,
                  short_eq (append_fused_order_group limits.count1_singletons) view start group
                      scratch two most,
                  ok',
                ),
                q,
              )
          | inr many ↦
              let order = std_sort (suffix_less view) ends in
              let padded = has_load24_padding view in
              let (a, b, ok, ok', q) =
                compact_rounds-Simulates view start group order output scratch before inside
                  (lengths (suffix_less view) ends ∙ len) sim in
              (
                a,
                b,
                ground (arith, e, many, small, rounds_eq limits view padded 255 order output, ok),
                ground (arith, e, many, small, ok'),
                q,
              )
        ]
      ]
