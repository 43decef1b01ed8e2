-- ===== src/Stage/Emit.antt =====
-- What src/v114_stubs.cpp writes for single positions and for groups of positions with one key.
use dirtybird_c_miner.Base.{
  ℕ, zero, suc, ◌+◌, ◌-◌, true, false, ◌||◌, List, [], ◌∷◌, ◌++◌, length, get_or, Option, none,
  some, ltb, leb, ◌==◌, ◌<<<◌, if◌then◌else◌,
}
use dirtybird_c_miner.Stage.{
  descriptor_arena_index_count, Stage4InputView, load24_padded, has_load24_padding, load24_fast,
  Output, Limits, write_record, write_arena_pos, write_arena_all,
}

-- The positions from `pos` on, each as a record that points at its own arena entry.
unfoldable pub emit_direct_records : Stage4InputView → ℕ → ℕ → Output → Output
emit_direct_records view pos zero output = output
emit_direct_records view pos (suc left) output =
    emit_direct_records view (pos + 1) left (record output {
      records =
          output.records ++ record { key = load24_padded view pos; packed = 0x00020000 + pos } ∷ [];
    })

-- The word that stands for a single position, and the arena behind it.
unfoldable pub literal_packed : Limits → ℕ → Output → Option (ℕ × Output)
literal_packed limits pos output =
    if limits.count1_singletons
    then elim output.int_arena [
      | none ↦ none
      | some int_arena ↦
          if leb descriptor_arena_index_count output.arena_entries
          then none
          else elim (write_arena_pos limits.int_arena_cap int_arena output.arena_entries pos) [
            | none ↦ none
            | some written ↦ some (
              0x00020000 + output.arena_entries,
              record output { int_arena = some written; arena_entries = output.arena_entries + 1 },
            )
          ]
    ]
    else some (pos, output)

-- `emit_compact_literal_records`, from position `pos` on.
unfoldable pub emit_compact_literal_records :
    Limits → Stage4InputView → ℕ → ℕ → Output → Option Output
emit_compact_literal_records limits view pos zero output = some output
emit_compact_literal_records limits view pos (suc left) output =
    elim (literal_packed limits pos output) [
      | none ↦ none
      | some found ↦
          elim (write_record limits found.1 (load24_fast view pos (has_load24_padding view))
            found.0) [
              | none ↦ none
              | some next ↦ emit_compact_literal_records limits view (pos + 1) left next
            ]
    ]

-- A run of neighbours in an order that have one key.
pub record Group : Type 0 where
  pub key : ℕ
  pub members : List ℕ

-- The scan for the end of a group: the group that is open, then the positions behind it.
unfoldable pub groups_from : (ℕ → ℕ) → ℕ → List ℕ → List ℕ → List Group
groups_from key_of key members [] = record { key = key; members = members } ∷ []
groups_from key_of key members (pos ∷ order) = elim (key_of pos == key) [
  | true ↦ groups_from key_of key (members ++ pos ∷ []) order
  | false ↦
      record { key = key; members = members } ∷ groups_from key_of (key_of pos) (pos ∷ []) order
]

unfoldable pub key_groups : (ℕ → ℕ) → List ℕ → List Group
key_groups key_of [] = []
key_groups key_of (pos ∷ order) = groups_from key_of (key_of pos) (pos ∷ []) order

-- `append_compact_arena_positions` on the positions of one group.
unfoldable pub append_compact_arena_positions : Limits → List ℕ → Output → Option Output
append_compact_arena_positions limits members output = elim output.int_arena [
  | none ↦ none
  | some int_arena ↦
      if ltb descriptor_arena_index_count output.arena_entries
        || ltb (descriptor_arena_index_count - output.arena_entries) (length members)
      then none
      else elim (write_arena_all limits.int_arena_cap int_arena output.arena_entries members) [
        | none ↦ none
        | some written ↦ some (record output {
          int_arena = some written;
          arena_entries = output.arena_entries + length members;
        })
      ]
]

-- The same for an order in a fixed array.
unfoldable pub append_compact_arena_positions_fixed : Limits → List ℕ → Output → Option Output
append_compact_arena_positions_fixed limits members output = elim output.int_arena [
  | none ↦ none
  | some int_arena ↦
      if ltb descriptor_arena_index_count output.arena_entries
        || ltb (descriptor_arena_index_count - output.arena_entries) (length members)
      then none
      else elim (write_arena_all limits.int_arena_cap int_arena output.arena_entries members) [
        | none ↦ none
        | some written ↦ some (record output {
          int_arena = some written;
          arena_entries = output.arena_entries + length members;
        })
      ]
]

unfoldable pub write_compact_order_group : Limits → ℕ → List ℕ → Output → Option Output
write_compact_order_group limits key members output =
    if ltb 1 (length members) || limits.count1_singletons
    then elim (append_compact_arena_positions_fixed limits members output) [
      | none ↦ none
      | some next ↦ write_record limits next key ((length members <<< 17) + output.arena_entries)
    ]
    else write_record limits output key (get_or members 0 0)

-- The body of the general loop, where the source has no function of its own.
unfoldable pub write_sorted_group : Limits → ℕ → List ℕ → Output → Option Output
write_sorted_group limits key members output =
    if ltb 1 (length members) || limits.count1_singletons
    then elim (append_compact_arena_positions limits members output) [
      | none ↦ none
      | some next ↦ write_record limits next key ((length members <<< 17) + output.arena_entries)
    ]
    else write_record limits output key (get_or members 0 0)

-- The records of a round of `emit_full_group_run`, whose positions stand in the arena from entry
-- `arena_index` on.
unfoldable pub write_full_groups : Limits → ℕ → List Group → Output → Option Output
write_full_groups limits arena_index [] output = some output
write_full_groups limits arena_index (g ∷ groups) output =
    elim (write_record limits output g.key ((length g.members <<< 17) + arena_index)) [
      | none ↦ none
      | some next ↦ write_full_groups limits (arena_index + length g.members) groups next
    ]
