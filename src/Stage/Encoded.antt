-- ===== src/Stage/Encoded.antt =====
-- What `stage_v114_encode_compact_raw` leaves in its buffers: every position once, in groups with one
-- key, each in the order of the suffixes.
use mathlib.Core.List.{Perm}
use mathlib.Core.List.Perm
use dirtybird_c_miner.Base.{
  ℕ, zero, suc, ◌+◌, ◌-◌, ◌*◌, ◌≤◌, ◌<◌, ◌≡◌, refl, sym, ap, ◌∙◌, subst, Bool, true, inl, inr, List,
  [], ◌∷◌, ◌++◌, length, some, All, All-append, bit_and, bit_and_255, ◌==◌, ==_iff, ◌>>>◌,
  Bool-cases, arith,
}
use dirtybird_c_miner.Stage.{
  descriptor_arena_index_count, Stage4InputView, has_load24_padding, load24_fast, identity_from,
  Output, Limits,
}
use dirtybird_c_miner.Stage.Order.{sort_stage4_suffix_order_small, chunk_ends}
use dirtybird_c_miner.Stage.Lex.{HasText}
use dirtybird_c_miner.Stage.Induced.{
  sort_stage4_suffix_order_small-Ordered, sort_stage4_suffix_order_small-All,
}
use dirtybird_c_miner.Stage.Emit.{
  Group, emit_compact_literal_records, write_compact_order_group, write_sorted_group,
}
use dirtybird_c_miner.Stage.Rounds.{rounds, write_round}
use dirtybird_c_miner.Stage.Run.{emit_full_group_run_compact}
use dirtybird_c_miner.Stage.Encode.{empty_output, raw_input_ok, stage_v114_encode_compact_raw}
use dirtybird_c_miner.Stage.Room.{Succeeds, length-chunk_ends}
use dirtybird_c_miner.Stage.Progress.{group_runs-Succeeds}
use dirtybird_c_miner.Stage.Finishes.{raw_input_ok_lem}
use dirtybird_c_miner.Stage.Compacts.{small_length}
use dirtybird_c_miner.Stage.Paths.{rounds_eq}
use dirtybird_c_miner.Stage.StdSort.{IsSort}
use dirtybird_c_miner.Stage.Dispatch.{emit_full_group_run_compact_lem}
use dirtybird_c_miner.Stage.Both.{rounds-Both}
use dirtybird_c_miner.Stage.Refinement.{literal_eq}
use dirtybird_c_miner.Stage.Covered.{
  identity_from-append, visited, visited-Perm, visited-chunk_ends,
}
use dirtybird_c_miner.Stage.Collected.{
  collect, members_of, members_of-append, load24_fast_lem, InOrder, rounds-Collects,
}
use dirtybird_c_miner.Stage.Holds.{Holds, group-Holds}

-- The buffers hold the positions below `n`, each once, in groups in the order of their suffixes.
abbrev pub Encodes : Stage4InputView → ℕ → Output → Type 0
Encodes view n output =
    (groups : List Group) × Holds view.logical_len n output groups
    × All (InOrder view) groups
    × Perm (members_of groups) (identity_from 0 n)

identity_from-last : (pos : ℕ) → identity_from 0 pos ++ (pos ∷ []) ≡ identity_from 0 (pos + 1)
unfolding identity_from
identity_from-last pos =
    let at : 0 + pos ≡ pos = omega arith in
    subst (λ (b : ℕ). identity_from 0 pos ++ (b ∷ []) ≡ identity_from 0 (pos + 1)) at
      (identity_from-append 0 pos 1)

nothing_yet : Perm [] (identity_from 0 (0 * 256))
unfolding identity_from
nothing_yet = Perm.rfl

module _ (limits : Limits) (view : Stage4InputView) (text : HasText view)
    (room : view.logical_len * 8 ≤ limits.out_cap)
    (arena_room : view.logical_len * 4 ≤ limits.int_arena_cap)
    (small : view.logical_len ≤ descriptor_arena_index_count) where
  literals-Encodes :
      (pos count : ℕ) (output : Output)
      → pos + count ≤ view.logical_len
      → Encodes view pos output
      → Succeeds
          (Encodes view (pos + count))
          (emit_compact_literal_records limits view pos count output)
  unfolding emit_compact_literal_records
  literals-Encodes pos zero output fits h =
      (output, refl, subst (λ (m : ℕ). Encodes view m output) (omega arith) h)
  literals-Encodes pos (suc count) output fits (groups, holds, each, perm) =
      let key = load24_fast view pos (has_load24_padding view) in
      let g : Group = record { key = key; members = pos ∷ [] } in
      let here = sym (load24_fast_lem view pos (omega arith)) in
      let (next, groups', ok, ok', holds') =
        group-Holds limits view.logical_len room arena_room small pos key (pos ∷ []) output groups
          (omega arith) (omega arith) holds in
      let same : groups' ≡ groups ++ g ∷ [] = cc in
      let grown =
        subst (λ l. Perm l (identity_from 0 (pos + 1))) (sym (members_of-append groups (g ∷ [])))
          (subst (Perm (members_of groups ++ (pos ∷ []))) (identity_from-last pos)
            (Perm.append perm Perm.rfl)) in
      let (last, done, h') = literals-Encodes (pos + 1) count next (omega arith) (
        groups ++ g ∷ [],
        subst (Holds view.logical_len (pos + 1) next) same holds',
        All-append (InOrder view) groups (g ∷ []) each
            ((((omega arith, here), tt), (tt, tt), omega arith), tt),
        grown,
      ) in
      (
        last,
        ground (arith, literal_eq limits key pos output, ok, done),
        subst (λ (m : ℕ). Encodes view m last) (omega arith) h',
      )

  rounds-Encodes :
      (start group : ℕ) (output : Output)
      → start < group
      → group * 256 ≤ view.logical_len
      → Encodes view (start * 256) output
      → let order =
          sort_stage4_suffix_order_small view (chunk_ends (start * 256) 0 (group - start)) in
        Succeeds (Encodes view (group * 256)) (
          rounds
            (write_round (write_sorted_group limits) view (has_load24_padding view))
            view
            255
            order
            output)
  rounds-Encodes start group output before inside (groups, holds, each, perm) =
      let count = group - start in
      let ends = chunk_ends (start * 256) 0 count in
      let order = sort_stage4_suffix_order_small view ends in
      let padded = has_load24_padding view in
      let (next, groups', ok, ok', holds') =
        rounds-Both (write_compact_order_group limits) collect (Holds view.logical_len)
          view.logical_len (group-Holds limits view.logical_len room arena_room small) view padded
          count 255 (start * 256) order output groups
          (small_length view ends ∙ length-chunk_ends (start * 256) 0 count) (omega arith) holds in
      let (up, perm') =
        sort_stage4_suffix_order_small-Ordered view text (start * 256) count (omega arith) in
      let (new, collected, each', all) =
        rounds-Collects view text 255 order groups
          (sort_stage4_suffix_order_small-All view text (start * 256) count (omega arith)) up
          (omega (arith, small_length view ends, length-chunk_ends (start * 256) 0 count)) in
      let same : groups' ≡ groups ++ new = cc in
      let size : start * 256 + (255 + 1) * count ≡ group * 256 = omega arith in
      let size' : start * 256 + count * 256 ≡ group * 256 = omega arith in
      let from : start * 256 + 0 * 256 ≡ 0 + start * 256 = omega arith in
      let covered : Perm (members_of new) (identity_from (0 + start * 256) (count * 256)) =
        Perm.trans all (
          Perm.trans (visited-Perm 255 perm') (
            subst (λ (b : ℕ). Perm (visited 255 ends) (identity_from b (count * 256))) from
              (visited-chunk_ends (start * 256) 0 count))) in
      (
        next,
        sym (rounds_eq limits view padded 255 order output) ∙ ok,
        (
          groups ++ new,
          subst (λ (m : ℕ). Holds view.logical_len m next (groups ++ new)) size
              (subst (Holds view.logical_len (start * 256 + (255 + 1) * count) next) same holds'),
          All-append (InOrder view) groups new each each',
          subst (λ l. Perm l (identity_from 0 (group * 256))) (sym (members_of-append groups new))
              (subst (Perm (members_of groups ++ members_of new))
                (identity_from-append 0 (start * 256) (count * 256) ∙ ap (identity_from 0) size')
                (Perm.append perm covered)),
        ),
      )

  -- A run of groups within the text, by whichever handler.
  run-Encodes :
      (std_sort : (ℕ → ℕ → Bool) → List ℕ → List ℕ) (start group : ℕ) (output : Output)
      → IsSort std_sort
      → start < group
      → group * 256 ≤ view.logical_len
      → Encodes view (start * 256) output
      → Succeeds
          (Encodes view (group * 256))
          (emit_full_group_run_compact std_sort limits view start group output)
  unfolding emit_full_group_run_compact
  run-Encodes std_sort start group output sorts before inside h =
      elim (Bool-cases (group - start == 1)) [
        | inl e ↦
            let one : group - start ≡ 1 = (==_iff (group - start) 1).0 e in
            let (next, ok, h') = literals-Encodes (start * 256) 256 output (omega arith) h in
            (
              next,
              ground (arith, e, ok),
              subst (λ (m : ℕ). Encodes view m next) (omega (arith, one)) h',
            )
        | inr e ↦
            let two : start + 2 ≤ group = ground (arith, e) in
            let order =
              sort_stage4_suffix_order_small view (chunk_ends (start * 256) 0 (group - start)) in
            let (up, perm) =
              sort_stage4_suffix_order_small-Ordered view text (start * 256) (group - start)
                (omega arith) in
            let (next, ok, h') = rounds-Encodes start group output before inside h in
            (
              next,
              emit_full_group_run_compact_lem std_sort limits view start group output order sorts
                    text two (omega arith) inside up perm
                  ∙ ok,
              h',
            )
      ]

-- On every view that passes the checks of the raw forms, with its text there and room in the arena,
-- `stage_v114_encode_compact_raw` returns true, and its records and its arena hold every position
-- of the text exactly once: each record stands for positions with the record's key, and these are in
-- the dictionary order of their suffixes. This is so for both values of the flag for single
-- positions, for all flags of groups, and whatever `std::sort` does beyond what it documents.
pub stage_v114_encode_compact_raw-Encodes :
    (std_sort : (ℕ → ℕ → Bool) → List ℕ → List ℕ) (count1_singletons : Bool)
    (view : Stage4InputView) (desc_cap int_arena_cap : ℕ) (int_arena : List ℕ)
    → IsSort std_sort
    → view.logical_len ≤ length view.bytes
    → raw_input_ok view desc_cap ≡ true
    → view.logical_len * 4 ≤ int_arena_cap
    → view.logical_len ≤ length int_arena
    → Succeeds (Encodes view view.logical_len) (
        stage_v114_encode_compact_raw std_sort count1_singletons view desc_cap int_arena_cap
          int_arena)
unfolding stage_v114_encode_compact_raw
stage_v114_encode_compact_raw-Encodes std_sort count1_singletons view desc_cap int_arena_cap
      int_arena sorts text ok arena_room long =
    let limits : Limits = record {
      out_cap = desc_cap;
      int_arena_cap = int_arena_cap;
      count1_singletons = count1_singletons;
    } in
    let (small, room) = raw_input_ok_lem view desc_cap ok in
    let full = view.logical_len >>> 8 in
    let start : Holds view.logical_len 0 (empty_output (some int_arena)) [] = record {
      arena = int_arena;
      there = refl;
      few = omega arith;
      used = omega arith;
      room = long;
      stored = tt;
    } in
    let (next, runs, h) =
      group_runs-Succeeds (Encodes view) (emit_full_group_run_compact std_sort limits view)
        view.flags full
        (λ first group output before last h.
          run-Encodes limits view text room arena_room small std_sort first group output sorts
            before (omega arith) h)
        full 1 0 (empty_output (some int_arena)) (omega arith) (omega arith) (λ z. omega (arith, z))
        ([], start, tt, nothing_yet) in
    let (last, tail, h') =
      literals-Encodes limits view text room arena_room small (full * 256)
        (bit_and view.logical_len 0xff) next (omega (arith, bit_and_255 view.logical_len)) h in
    (
      last,
      ground (arith, ok, runs, tail),
      subst (λ (m : ℕ). Encodes view m last) (omega (arith, bit_and_255 view.logical_len)) h',
    )
