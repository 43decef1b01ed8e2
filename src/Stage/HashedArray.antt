-- ===== src/Stage/HashedArray.antt =====
-- The fused form of both stages hashes the suffix array of the text.
use mathlib.Core.List.{map, Perm}
use mathlib.Core.List.Perm
use dirtybird_c_miner.Base.{
  ℕ, ◌*◌, ◌≤◌, ◌<◌, ◌≡◌, refl, sym, ap, ◌∙◌, subst, Bool, true, List, [], ◌∷◌, length, length-Perm,
  length-replicate, replicate, get_or, some, All, All-map, All-zip, Ordered, arith,
}
use dirtybird_c_miner.Stage.{Stage4InputView, identity_from, Output, Descriptor}
use dirtybird_c_miner.Stage.Distinct.{length-identity_from, all_strictly}
use dirtybird_c_miner.Stage.Lex.{below}
use dirtybird_c_miner.Stage.Emit.{Group}
use dirtybird_c_miner.Stage.Encode.{raw_view_ok}
use dirtybird_c_miner.Stage.Runs.{Stage5Run}
use dirtybird_c_miner.Stage.AfterKey.{suffix_less_after_key, compare_suffixes_after_key}
use dirtybird_c_miner.Stage.Merge.{run_positions}
use dirtybird_c_miner.Stage.Memcmp.{text_of}
use dirtybird_c_miner.Stage.Resolved.{IsText, Sorted}
use dirtybird_c_miner.Stage.StdSort.{IsSort}
use dirtybird_c_miner.Stage.Finishes.{KeepsLength}
use dirtybird_c_miner.Stage.Fused.{FusedStage5Scratch}
use dirtybird_c_miner.Stage.Simulates.{AgreeBelow, run_of}
use dirtybird_c_miner.Stage.Emission.{fused_emission_lem}
use dirtybird_c_miner.Stage.ReadBack.{same_run}
use dirtybird_c_miner.Stage.Groups.{positions_bytes}
use dirtybird_c_miner.Stage.Words.{IsInArena}
use dirtybird_c_miner.Stage.GroupOrder.{IsRun}
use dirtybird_c_miner.Stage.Built.{trusted_runs-InRoom, length-positions_bytes}
use dirtybird_c_miner.Stage.Collected.{InOrder}
use dirtybird_c_miner.Stage.Encoded.{stage_v114_encode_compact_raw-Encodes}
use dirtybird_c_miner.Stage.Tail.{handed_over}
use dirtybird_c_miner.Stage.SuffixArray.{
  InOrder-handed_over, keys_small, raw_view_ok_lem, raw_view-raw_input, positions_bytes-IsBytes,
  handed_over_lem,
}
use dirtybird_c_miner.Stage.HashSink.{fused_stage5_view, stage_v114_hash_compact_fused_raw}
use dirtybird_c_miner.Stage.SinkLaws.{IsStreaming}
use dirtybird_c_miner.Stage.HashGroups.{stored}
use dirtybird_c_miner.Stage.FusedReads.{AllStored-agree, AllStored-Agrees}
use dirtybird_c_miner.Stage.FusedHash.{write_fused_runs_to_hash_lem}

map-stored-same_run :
    (records : List Descriptor) → map run_of records ≡ map stored (map same_run records)
map-stored-same_run [] = refl
map-stored-same_run (r ∷ records) = ap (λ l. run_of r ∷ l) (map-stored-same_run records)

All-InOrder :
    (view : Stage4InputView) (arena : List ℕ) (output : Output) (groups : List Group)
    → All (InOrder view) groups
    → All (InOrder (text_of (handed_over view arena output))) groups
All-InOrder view arena output groups each =
    All-map (InOrder view) (InOrder (text_of (handed_over view arena output))) groups
      (InOrder-handed_over view arena output) each

same_less :
    (view : Stage4InputView) (arena : List ℕ) (output : Output)
    → suffix_less_after_key (fused_stage5_view view)
      ≡ suffix_less_after_key (handed_over view arena output)
unfolding suffix_less_after_key compare_suffixes_after_key
same_less view arena output = refl

module _ {Ctx Hash : Type 0} (update : Ctx → List ℕ → Ctx) (streaming : IsStreaming update)
    (start : Ctx) (final : Ctx → Hash) where
  -- The fused form of both stages hashes the suffix array: for every text that passes the checks and
  -- that zero bytes follow, for all flags of groups, for both values of the flag for single
  -- positions, and whatever earlier calls left in the scratch areas, the call returns true, and the
  -- hash is that of the words of all positions of the text, each exactly once, in the strict
  -- dictionary order of the suffixes. Of `std::sort` only what it documents is used, and of the hash
  -- that its updates may be joined and that an empty update changes nothing.
  pub stage_v114_hash_compact_fused_raw_lem :
      (std_sort : (ℕ → ℕ → Bool) → List ℕ → List ℕ) (count1_singletons : Bool)
      (view : Stage4InputView) (scratch : FusedStage5Scratch) (radix_tmp : List Stage5Run)
      → IsSort std_sort
      → KeepsLength std_sort
      → raw_view_ok view ≡ true
      → All (λ x. x < 256) view.bytes
      → length view.bytes ≡ view.data_len
      → ((p : ℕ) → view.logical_len ≤ p → get_or view.bytes p 0 ≡ 0)
      → (positions : List ℕ) × (stage_v114_hash_compact_fused_raw update start final std_sort
            count1_singletons view scratch radix_tmp
          ≡ some (final (update start (positions_bytes positions))))
        × Ordered (below view) positions
        × Perm positions (identity_from 0 view.logical_len)
  unfolding stage_v114_hash_compact_fused_raw
  stage_v114_hash_compact_fused_raw_lem std_sort count1_singletons view scratch radix_tmp sorts
        lengths ok bytes whole padded =
      let L = view.logical_len in
      let (some_text, small, short) = raw_view_ok_lem view ok in
      let text : L ≤ length view.bytes = omega (arith, whole) in
      let room : L ≤ length (replicate {A = ℕ} L 0) = omega (arith, length-replicate {A = ℕ} L 0) in
      let input = raw_view-raw_input view (L * 8) ok (omega arith) in
      let (output, encoded, (groups, holds, each, perm)) =
        stage_v114_encode_compact_raw-Encodes std_sort count1_singletons view (L * 8) (L * 4)
          (replicate L 0) sorts text input (omega arith) room in
      let (output', filled, encoded', emitted, sim) =
        fused_emission_lem std_sort count1_singletons view (L * 8) (L * 4) (replicate L 0) scratch
          lengths input (omega arith) room in
      let same_output : output ≡ output' = cc in
      let arena = filled.arena_positions in
      let view' = handed_over view arena output in
      let good : IsText view' = (bytes, whole, short) in
      let used = output.arena_entries in
      let held = holds.used in
      let wide : L ≤ length arena = sim.room' in
      let arena_there : output.int_arena ≡ some holds.arena = holds.there in
      let arena_there' : output.int_arena ≡ some sim.arena =
        ap (λ (o : Output). o.int_arena) same_output ∙ sim.there in
      let same_arena : sim.arena ≡ holds.arena = cc in
      let agree : AgreeBelow used arena holds.arena = λ i less.
        sim.agree i (subst (λ (o : Output). i < o.arena_entries) same_output less)
        ∙ ap (λ l. get_or l i 0) same_arena in
      let stored' =
        AllStored-agree used arena holds.arena groups output.records agree holds.stored in
      let (read, runs, flat) =
        handed_over_lem view arena output groups (L * 4) good (omega arith) padded (omega arith)
          held each stored' perm (omega arith) in
      let inside =
        (trusted_runs-InRoom view' (L * 4) (map same_run output.records)
          (omega (arith, length-positions_bytes arena)) read).0 in
      let each' =
        All-zip (λ run. Sorted view' run.key good (run_positions view' run)) (IsInArena view')
          (IsRun view' good) (map same_run output.records) (λ r s a. (s, a)) runs inside in
      let agrees =
        AllStored-Agrees view' arena refl (text_of view') (omega arith)
          (keys_small view' bytes whole) used groups output.records (omega arith) (omega arith)
          (All-InOrder view arena output groups each) stored' in
      let counted = length-Perm perm ∙ length-identity_from 0 L in
      let (positions, hashed, up, all) =
        write_fused_runs_to_hash_lem update streaming start final (fused_stage5_view view) view'
          good filled (map same_run output.records) radix_tmp (same_less view arena output)
          (sym (ap length flat ∙ counted)) padded (positions_bytes-IsBytes arena)
          (sim.same_runs
            ∙ ap (λ (o : Output). map run_of o.records) (sym same_output)
            ∙ map-stored-same_run output.records)
          each' agrees in
      let all' = Perm.trans {l₁ = positions} (subst (Perm positions) flat all) perm in
      (positions, ground (arith, emitted, hashed), all_strictly view text positions all' up, all')
