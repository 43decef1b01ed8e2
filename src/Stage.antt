-- ===== src/Stage.antt =====
-- The replay stages of src/v114_stubs.cpp: the views of their inputs, the keys of positions, and the
-- records and the arena that the first stage writes.
--
-- A position is below 2 ^ 17 on every path (the length check of `parse_stage4_input`), so the
-- sums of positions below do not wrap. A buffer that a function fills is the list of what has been
-- written to it; a call that returns false is `none`, and its callers then report the length 0.
pub mod Order
pub mod Insertion
pub mod Lex
pub mod StdSort
pub mod Induced
pub mod FirstOrder
pub mod Emit
pub mod Rounds
pub mod Run
pub mod Paths
pub mod Dispatch
pub mod Parse
pub mod Encode
pub mod Room
pub mod Progress
pub mod Finishes
pub mod Packed
pub mod Compacts
pub mod Runs
pub mod Fused
pub mod Both
pub mod Simulates
pub mod Refines
pub mod Refinement
pub mod Emission
pub mod AfterKey
pub mod Memcmp
pub mod Be64
pub mod KeyOrder
pub mod Merge
pub mod Merged
pub mod Resolved
pub mod KeyGroup
pub mod Descriptors
pub mod ReadBack
pub mod Accepted
pub mod Groups
pub mod Words
pub mod KeyBefore
pub mod GroupOrder
pub mod Grouped
pub mod Covered
pub mod Collected
pub mod Holds
pub mod Encoded
pub mod Built
pub mod Tail
pub mod ReadRuns
pub mod Distinct
pub mod SuffixArray
pub mod HashSink
pub mod SinkLaws
pub mod HashGroups
pub mod FusedReads
pub mod FusedHash
pub mod HashedArray
pub mod Libsais
pub mod RunSort
pub mod RunOrder
mod Tests
mod SortTests
use dirtybird_c_miner.Base.{
  ℕ, zero, suc, ◌+◌, ◌-◌, ◌*◌, Bool, true, false, ◌&&◌, ◌||◌, List, [], ◌∷◌, ◌++◌, length, take,
  drop, set, get_or, Option, none, some, bit_and, bit_or, u8, u32, ◌<<<◌, ◌>>>◌, ltb, leb, ◌==◌,
  if◌then◌else◌,
}

abbrev pub descriptor_arena_index_count : ℕ
descriptor_arena_index_count = 0x20000

abbrev pub stage4_max_group_count : ℕ
stage4_max_group_count = descriptor_arena_index_count >>> 8

abbrev pub stage4_short_run_max : ℕ
stage4_short_run_max = 25

-- `Stage4InputView`, with the arrays that its pointers lead to.
pub record Stage4InputView : Type 0 where
  pub logical_len : ℕ
  pub data_len : ℕ
  pub flag_len : ℕ
  pub flags : List ℕ
  pub bytes : List ℕ

-- `view.data[pos]`.
abbrev pub byte_at : Stage4InputView → ℕ → ℕ
byte_at view pos = get_or view.bytes pos 0

unfoldable pub load24_padded : Stage4InputView → ℕ → ℕ
load24_padded view pos =
    let v0 = if ltb pos view.data_len then byte_at view pos else 0 in
    let v1 = if ltb (pos + 1) view.data_len then bit_or v0 (byte_at view (pos + 1) <<< 8) else v0 in
    if ltb (pos + 2) view.data_len then bit_or v1 (byte_at view (pos + 2) <<< 16) else v1

unfoldable pub load24_unchecked : Stage4InputView → ℕ → ℕ
load24_unchecked view pos =
    bit_or (bit_or (byte_at view pos) (byte_at view (pos + 1) <<< 8))
      (byte_at view (pos + 2) <<< 16)

unfoldable pub has_load24_padding : Stage4InputView → Bool
has_load24_padding view = leb (view.logical_len + 2) view.data_len

unfoldable pub load24_fast : Stage4InputView → ℕ → Bool → ℕ
load24_fast view pos padded = if padded then load24_unchecked view pos else load24_padded view pos

unfoldable pub read_u32_le : List ℕ → ℕ
read_u32_le bytes =
    bit_or (bit_or (bit_or (get_or bytes 0 0) (get_or bytes 1 0 <<< 8)) (get_or bytes 2 0 <<< 16))
      (u32 (get_or bytes 3 0 <<< 24))

unfoldable pub write_u32_le : ℕ → List ℕ
write_u32_le v = u8 v ∷ u8 (v >>> 8) ∷ u8 (v >>> 16) ∷ u8 (v >>> 24) ∷ []

-- One record of the descriptor stream.
pub record Descriptor : Type 0 where
  pub key : ℕ
  pub packed : ℕ

unfoldable pub descriptor_bytes : List Descriptor → List ℕ
descriptor_bytes [] = []
descriptor_bytes (r ∷ records) =
    write_u32_le r.key ++ (write_u32_le r.packed ++ descriptor_bytes records)

-- What a call writes to: the records so far, the arena's entries of four bytes, which is none for
-- the pointer `nullptr`, and the arena entries in use.
pub record Output : Type 0 where
  pub records : List Descriptor
  pub int_arena : Option (List ℕ)
  pub arena_entries : ℕ

-- The sizes in bytes of the buffers, and the run's flag.
pub record Limits : Type 0 where
  pub out_cap : ℕ
  pub int_arena_cap : ℕ
  pub count1_singletons : Bool

-- `write_record`.
unfoldable pub write_record : Limits → Output → ℕ → ℕ → Option Output
write_record limits output key packed =
    let off = length output.records * 8 in
    if ltb limits.out_cap off || ltb (limits.out_cap - off) 8
    then none
    else some
        (record output { records = output.records ++ record { key = key; packed = packed } ∷ [] })

-- `write_arena_pos`, with the arena's capacity in bytes.
unfoldable pub write_arena_pos : ℕ → List ℕ → ℕ → ℕ → Option (List ℕ)
write_arena_pos int_arena_cap int_arena index pos =
    let off = index * 4 in
    if ltb int_arena_cap off || ltb (int_arena_cap - off) 4
    then none
    else some (set int_arena index pos)

-- The entries `index`, `index` + 1, … set to the positions, until a write is refused.
unfoldable pub write_arena_all : ℕ → List ℕ → ℕ → List ℕ → Option (List ℕ)
write_arena_all int_arena_cap int_arena index [] = some int_arena
write_arena_all int_arena_cap int_arena index (pos ∷ positions) =
    elim (write_arena_pos int_arena_cap int_arena index pos) [
      | none ↦ none
      | some written ↦ write_arena_all int_arena_cap written (index + 1) positions
    ]

-- The first entries of an arena are the positions themselves.
unfoldable pub identity_from : ℕ → ℕ → List ℕ
identity_from pos zero = []
identity_from pos (suc n) = pos ∷ identity_from (suc pos) n

-- `init_identity_arena`, on a buffer of at least `int_arena_cap` bytes.
unfoldable pub init_identity_arena : ℕ → List ℕ → ℕ → Option (List ℕ)
unfolding identity_from
init_identity_arena int_arena_cap int_arena logical_len =
    if ltb int_arena_cap (logical_len * 4)
    then none
    else some (identity_from 0 logical_len ++ drop logical_len int_arena)
