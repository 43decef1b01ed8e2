-- ===== src/Stage/SuffixArray.antt =====
-- The two stages together write the suffix array of the text.
use mathlib.Core.List.{map, Perm}
use mathlib.Core.List.Perm
use dirtybird_c_miner.Base.{
  ◌-◌, replicate, length-append, length-replicate, ◌++◌, ℕ, ◌+◌, ◌*◌, ◌/◌, ◌^◌, ◌≤◌, ◌<◌, ◌≡◌, refl,
  sym, ◌∙◌, subst, Bool, true, List, [], ◌∷◌, length, length-Perm, get_or, some, All, All-map,
  Ordered, max, arith,
}
use dirtybird_c_miner.Stage.{
  descriptor_arena_index_count, Stage4InputView, load24_padded, identity_from, Output, write_u32_le,
}
use dirtybird_c_miner.Stage.Distinct.{length-identity_from, all_strictly}
use dirtybird_c_miner.Stage.Parse.{Stage5InputView, parse_stage4_input}
use dirtybird_c_miner.Stage.Accepted.{IsView, parse_stage4_input-IsView}
use dirtybird_c_miner.Stage.Lex.{below}
use dirtybird_c_miner.Stage.Emit.{Group}
use dirtybird_c_miner.Stage.Encode.{raw_view_ok, raw_input_ok}
use dirtybird_c_miner.Stage.Runs.{Stage5Run}
use dirtybird_c_miner.Stage.Merge.{run_positions, flatten, segments_of}
use dirtybird_c_miner.Stage.Memcmp.{text_of}
use dirtybird_c_miner.Stage.KeyOrder.{load24_padded_lem, get_or-byte}
use dirtybird_c_miner.Stage.Resolved.{not_after, InGroup, IsText, Sorted}
use dirtybird_c_miner.Stage.KeyBefore.{IsPadded, below-not_after}
use dirtybird_c_miner.Stage.StdSort.{IsSort}
use dirtybird_c_miner.Stage.Descriptors.{trusted_runs}
use dirtybird_c_miner.Stage.ReadBack.{IsReadable, same_run, trusted_runs-descriptor_bytes}
use dirtybird_c_miner.Stage.Groups.{positions_bytes}
use dirtybird_c_miner.Stage.Built.{
  length-positions_bytes, stage_v114_sa_build_descriptor_trusted_lem,
}
use dirtybird_c_miner.Stage.Collected.{members_of, InOrder}
use dirtybird_c_miner.Stage.Holds.{AllStored}
use dirtybird_c_miner.Stage.Encoded.{stage_v114_encode_compact_raw-Encodes}
use dirtybird_c_miner.Stage.ReadRuns.{AllStored-AllRead, AllStored-All}
use dirtybird_c_miner.Stage.Tail.{
  stage_v114_sa_build_descriptor_trusted_raw, handed_over, run_one_compact_tail,
}

module _ (view : Stage4InputView) (arena : List ℕ) (output : Output) where
  -- The last stage sees the same text.
  pub InOrder-handed_over :
      (g : Group) → InOrder view g → InOrder (text_of (handed_over view arena output)) g
  unfolding load24_padded
  InOrder-handed_over g h = h

  Ordered-not_after :
      (good : IsText (handed_over view arena output))
      (padded : IsPadded (handed_over view arena output)) (positions : List ℕ)
      → Ordered (below view) positions
      → Ordered (not_after (handed_over view arena output)) positions
  Ordered-not_after good padded [] up = tt
  Ordered-not_after good padded (x ∷ positions) up = (
    All-map (λ y. below view x y ≡ true) (λ y. not_after (handed_over view arena output) x y ≡ true)
        positions (λ y less. below-not_after (handed_over view arena output) good padded x y less)
        up.0,
    Ordered-not_after good padded positions up.1,
  )

pub keys_small :
    (view : Stage5InputView)
    → All (λ x. x < 256) view.bytes
    → length view.bytes ≡ view.data_len
    → (p : ℕ) → load24_padded (text_of view) p < 2 ^ 32
keys_small view bytes whole p = omega (
  arith,
  load24_padded_lem (text_of view) whole (λ q. get_or-byte view.bytes q bytes) p,
  get_or-byte view.bytes p bytes,
  get_or-byte view.bytes (p + 1) bytes,
  get_or-byte view.bytes (p + 2) bytes,
)

pub raw_view_ok_lem :
    (view : Stage4InputView)
    → raw_view_ok view ≡ true
    → (0 < view.logical_len)
      × (view.logical_len ≤ descriptor_arena_index_count)
      × (view.logical_len ≤ view.data_len)
unfolding raw_view_ok
raw_view_ok_lem view ok = (ground (arith, ok), ground (arith, ok), ground (arith, ok))

pub raw_view-raw_input :
    (view : Stage4InputView) (cap : ℕ)
    → raw_view_ok view ≡ true
    → view.logical_len * 8 ≤ cap
    → raw_input_ok view cap ≡ true
unfolding raw_input_ok
raw_view-raw_input view cap ok room = ground (arith, ok)

pub positions_bytes-IsBytes : (xs : List ℕ) → All (λ x. x < 256) (positions_bytes xs)
unfolding positions_bytes write_u32_le
positions_bytes-IsBytes [] = tt
positions_bytes-IsBytes (x ∷ xs) =
    (omega arith, (omega arith, (omega arith, (omega arith, positions_bytes-IsBytes xs))))

-- What the last stage reads of the groups in the buffers.
pub handed_over_lem :
    (view : Stage4InputView) (arena : List ℕ) (output : Output) (groups : List Group) (out_size : ℕ)
    (good : IsText (handed_over view arena output))
    → view.logical_len ≤ 2 ^ 17
    → IsPadded (handed_over view arena output)
    → output.arena_entries ≤ length arena
    → output.arena_entries ≤ view.logical_len
    → All (InOrder view) groups
    → AllStored arena output.arena_entries groups output.records
    → Perm (members_of groups) (identity_from 0 view.logical_len)
    → view.logical_len * 4 ≤ out_size
    → let view' = handed_over view arena output in
      let runs = map same_run output.records in
      (trusted_runs view' out_size ≡ some runs)
      × All (λ run. Sorted view' run.key good (run_positions view' run)) runs
      × (flatten (segments_of view' runs) ≡ members_of groups)
handed_over_lem view arena output groups out_size good small padded long held each stored perm
      room =
    let view' = handed_over view arena output in
    let used = output.arena_entries in
    let keys = keys_small view' good.0 good.1 in
    let each' =
      All-map (InOrder view) (InOrder (text_of view')) groups
        (InOrder-handed_over view arena output) each in
    let (readable, sum, flat) =
      AllStored-AllRead view' arena refl (text_of view') small keys used groups output.records long
        (omega arith) each' stored in
    let runs =
      AllStored-All view' arena refl (text_of view') small keys
        (λ key members. Sorted view' key good members) used groups output.records long (omega arith)
        each'
        (λ g h. (
          All-map (λ p. (p < view.logical_len) × (load24_padded (text_of view') p ≡ g.key))
              (InGroup view' g.key) g.members (λ p hp. (omega (arith, hp.0), hp.1)) h.0,
          Ordered-not_after view arena output good padded g.members h.1,
        ))
        stored in
    let entries : used * 4 / 4 ≡ used = omega arith in
    let counted = length-Perm perm ∙ length-identity_from 0 view.logical_len in
    let read =
      trusted_runs-descriptor_bytes view' output.records out_size small
        (subst (λ (n : ℕ). All (IsReadable view.logical_len n) output.records) (sym entries)
          readable)
        (sum ∙ counted) refl refl (omega arith) room in
    (read, runs, flat)

-- What the parser lets through passes the checks of the raw forms.
IsView-raw_view_ok :
    (input : List ℕ) (view : Stage4InputView) → IsView input view → raw_view_ok view ≡ true
unfolding raw_view_ok
IsView-raw_view_ok input view v =
    let some_text = v.some_position in
    let small = v.few in
    let short = v.text in
    let flag_each = v.flag_each in ground (arith, some_text, small, short, flag_each)

-- The two stages as tools/replay/bench_stage5.cpp runs them write the suffix array: for every input
-- that the parser accepts, with zero bytes behind its text, for all flags of groups, for both values
-- of the flag for single positions, for all sizes and contents of the buffers, and with room for
-- four bytes a position in the result or in what the sample expects, the call returns true, and what
-- it writes are the words of all positions of the text, each exactly once, in the strict dictionary
-- order of the suffixes. Of `std::sort` only what it documents is used.
pub run_one_compact_tail_lem :
    (std_sort : (ℕ → ℕ → Bool) → List ℕ → List ℕ) (count1_singletons : Bool)
    (radix_tmp : List Stage5Run) (input : List ℕ) (view : Stage4InputView)
    (expected_size desc_size : ℕ) (arena : List ℕ) (out_size : ℕ)
    → IsSort std_sort
    → parse_stage4_input input ≡ some view
    → All (λ x. x < 256) view.bytes
    → ((p : ℕ) → view.logical_len ≤ p → get_or view.bytes p 0 ≡ 0)
    → view.logical_len * 4 ≤ max out_size expected_size
    → (positions : List ℕ) × (run_one_compact_tail std_sort count1_singletons radix_tmp input
          expected_size desc_size arena out_size
        ≡ some (positions_bytes positions))
      × Ordered (below view) positions
      × Perm positions (identity_from 0 view.logical_len)
unfolding run_one_compact_tail stage_v114_sa_build_descriptor_trusted_raw
run_one_compact_tail_lem std_sort count1_singletons radix_tmp input view expected_size desc_size
      arena out_size sorts parsed bytes padded room =
    let v = parse_stage4_input-IsView input view parsed in
    let whole = v.all_bytes in
    let ok = IsView-raw_view_ok input view v in
    let (some_text, small, short) = raw_view_ok_lem view ok in
    let text : view.logical_len ≤ length view.bytes = omega (arith, whole) in
    let cap = max desc_size (view.logical_len * 8) in
    let more = replicate {A = ℕ} (view.logical_len - length arena) 0 in
    let resized = arena ++ more in
    let long : view.logical_len ≤ length resized = omega (
      arith,
      length-append arena more,
      length-replicate {A = ℕ} (view.logical_len - length arena) 0,
    ) in
    let (output, encoded, (groups, holds, each, perm)) =
      stage_v114_encode_compact_raw-Encodes std_sort count1_singletons view cap (length resized * 4)
        resized sorts text (raw_view-raw_input view cap ok (omega arith)) (omega arith) long in
    let out_cap = max out_size expected_size in
    let view' = handed_over view holds.arena output in
    let good : IsText view' = (bytes, whole, short) in
    let held = holds.used in
    let wide = holds.room in
    let (read, runs, flat) =
      handed_over_lem view holds.arena output groups out_cap good small padded (omega arith) held
        each holds.stored perm room in
    let (positions, built, up, all) =
      stage_v114_sa_build_descriptor_trusted_lem view' good radix_tmp (map same_run output.records)
        out_cap padded (positions_bytes-IsBytes holds.arena)
        (omega (arith, length-positions_bytes holds.arena)) read runs in
    let all' = Perm.trans {l₁ = positions} (subst (Perm positions) flat all) perm in
    (
      positions,
      ground (arith, parsed, encoded, holds.there, some_text, short, built),
      all_strictly view text positions all' up,
      all',
    )
