-- ===== src/Stage/Packed.antt =====
-- The compact writers of src/v114_stubs.cpp always finish where the buffers have room.
use dirtybird_c_miner.Base.{
  ℕ, zero, suc, ◌+◌, ◌*◌, ◌≤◌, ◌≡◌, refl, ap, subst, Bool, ◌||◌, inl, inr, List, [], ◌∷◌, ◌++◌,
  length, length-append, get_or, set, some, All, ltb, ◌<<<◌, Bool-cases, arith,
}
use dirtybird_c_miner.Stage.{
  descriptor_arena_index_count, Stage4InputView, has_load24_padding, load24_fast, Descriptor,
  Output, Limits, write_record, write_arena_pos,
}
use dirtybird_c_miner.Stage.Emit.{
  literal_packed, emit_compact_literal_records, Group, key_groups,
  append_compact_arena_positions_fixed, write_compact_order_group,
}
use dirtybird_c_miner.Stage.Rounds.{write_groups, write_round}
use dirtybird_c_miner.Stage.Room.{
  Succeeds, members_total, key_groups_total, write_record-Succeeds, write_arena_all-Succeeds,
}

-- At most `n` records and `n` arena entries in use, in an arena that is there.
abbrev pub Packed : ℕ → Output → Type 0
Packed n output =
    (length output.records ≤ n)
    × (output.arena_entries ≤ n)
    × ((arena : List ℕ) × (output.int_arena ≡ some arena))

module _ (limits : Limits) (bound : ℕ) (room : bound * 8 ≤ limits.out_cap)
    (arena_room : bound * 4 ≤ limits.int_arena_cap)
    (small : bound ≤ descriptor_arena_index_count) where
  write_record-Packed :
      (n m key packed : ℕ) (output : Output)
      → length output.records + 1 ≤ n + m
      → output.arena_entries ≤ n + m
      → n + m ≤ bound
      → (arena : List ℕ) → output.int_arena ≡ some arena
      → Succeeds (Packed (n + m)) (write_record limits output key packed)
  write_record-Packed n m key packed output few entries fits arena e =
      let more : Descriptor = record { key = key; packed = packed } in
      (
        record output { records = output.records ++ more ∷ [] },
        write_record-Succeeds limits output key packed (omega arith),
        (omega (arith, length-append output.records (more ∷ [])), entries, (arena, e)),
      )

  append_fixed_lem :
      (n : ℕ) (members : List ℕ) (output : Output) (arena : List ℕ)
      → output.arena_entries ≤ n
      → n + length members ≤ bound
      → output.int_arena ≡ some arena
      → (written : List ℕ) × (append_compact_arena_positions_fixed limits members output
          ≡ some (record output {
            int_arena = some written;
            arena_entries = output.arena_entries + length members;
          }))
  unfolding append_compact_arena_positions_fixed
  append_fixed_lem n members output arena entries fits e =
      let (written, ok) =
        write_arena_all-Succeeds limits arena output.arena_entries members (omega arith) in
      (written, ground (arith, e, ok, small))

  pub write_compact_order_group-Packed :
      (n key : ℕ) (members : List ℕ) (output : Output)
      → 1 ≤ length members
      → n + length members ≤ bound
      → Packed n output
      → Succeeds (Packed (n + length members)) (write_compact_order_group limits key members output)
  unfolding write_compact_order_group
  write_compact_order_group-Packed n key members output some_one fits (few, entries, (arena, e)) =
      elim (Bool-cases (ltb 1 (length members) || limits.count1_singletons)) [
        | inl listed ↦
            let (written, ok) = append_fixed_lem n members output arena entries fits e in
            let (next, done, p) =
              write_record-Packed n (length members) key
                ((length members <<< 17) + output.arena_entries)
                (record output {
                  int_arena = some written;
                  arena_entries = output.arena_entries + length members;
                })
                (omega arith) (omega arith) fits written refl in
            (next, ground (arith, listed, ok, done), p)
        | inr single ↦
            let (next, done, p) =
              write_record-Packed n (length members) key (get_or members 0 0) output (omega arith)
                (omega arith) fits arena e in
            (next, ground (arith, single, done), p)
      ]

  write_groups-Packed :
      (groups : List Group) (n : ℕ) (output : Output)
      → All (λ (g : Group). 1 ≤ length g.members) groups
      → n + members_total groups ≤ bound
      → Packed n output
      → Succeeds
          (Packed (n + members_total groups))
          (write_groups (write_compact_order_group limits) groups output)
  unfolding write_groups
  write_groups-Packed [] n output each fits p =
      (output, refl, subst (λ m. Packed m output) (omega arith) p)
  write_groups-Packed (g ∷ groups) n output each fits p =
      let (next, ok, q) =
        write_compact_order_group-Packed n g.key g.members output each.0 (omega arith) p in
      let (last, done, q') =
        write_groups-Packed groups (n + length g.members) next each.1 (omega arith) q in
      (last, ground (arith, ok, done), subst (λ m. Packed m last) (omega arith) q')

  pub write_round-Packed :
      (view : Stage4InputView) (padded : Bool) (rel n : ℕ) (order : List ℕ) (output : Output)
      → n + length order ≤ bound
      → Packed n output
      → Succeeds
          (Packed (n + length order))
          (write_round (write_compact_order_group limits) view padded rel order output)
  unfolding write_round
  write_round-Packed view padded rel n order output fits p =
      let key_of = λ (pos : ℕ). load24_fast view pos padded in
      let (sum, each) = key_groups_total key_of order in
      let (next, ok, q) =
        write_groups-Packed (key_groups key_of order) n output each (omega (arith, sum)) p in
      (next, ok, subst (λ m. Packed (n + m) next) sum q)

  literal_packed-Packed :
      (n pos : ℕ) (output : Output)
      → n + 1 ≤ bound
      → Packed n output
      → (word : ℕ) × (next : Output) × (literal_packed limits pos output ≡ some (word, next))
        × (next.records ≡ output.records)
        × (next.arena_entries ≤ n + 1)
        × ((arena : List ℕ) × (next.int_arena ≡ some arena))
  unfolding literal_packed write_arena_pos
  literal_packed-Packed n pos output fits (few, entries, (arena, e)) =
      elim (Bool-cases limits.count1_singletons) [
        | inl on ↦ (
          0x00020000 + output.arena_entries,
          record output {
            int_arena = some (set arena output.arena_entries pos);
            arena_entries = output.arena_entries + 1;
          },
          ground (arith, on, e, small),
          refl,
          omega arith,
          (set arena output.arena_entries pos, refl),
        )
        | inr off ↦ (pos, output, ground (arith, off), refl, omega arith, (arena, e))
      ]

  pub emit_compact_literal_records-Packed :
      (view : Stage4InputView) (pos count n : ℕ) (output : Output)
      → n + count ≤ bound
      → Packed n output
      → Succeeds (Packed (n + count)) (emit_compact_literal_records limits view pos count output)
  unfolding emit_compact_literal_records
  emit_compact_literal_records-Packed view pos zero n output fits p =
      (output, refl, subst (λ m. Packed m output) (omega arith) p)
  emit_compact_literal_records-Packed view pos (suc count) n output fits p =
      let (word, found, e, same, entries, (arena, e')) =
        literal_packed-Packed n pos output (omega arith) p in
      let (next, ok, q) =
        write_record-Packed n 1 (load24_fast view pos (has_load24_padding view)) word found
          (omega (arith, ap length same, p.0)) entries (omega arith) arena e' in
      let (last, done, q') =
        emit_compact_literal_records-Packed view (pos + 1) count (n + 1) next (omega arith) q in
      (last, ground (arith, e, ok, done), subst (λ m. Packed m last) (omega arith) q')
