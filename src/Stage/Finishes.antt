-- ===== src/Stage/Finishes.antt =====
-- `stage_v114_encode` and `stage_v114_encode_with_arena_raw` give a result on every input they accept.
use dirtybird_c_miner.Base.{
  ℕ, ◌*◌, ◌≤◌, ◌≡◌, refl, sym, subst, Bool, true, false, ◌⊎◌, inl, inr, List, [], ◌∷◌, ◌++◌, length,
  drop, Option, none, some, bit_and, bit_and_255, ◌<<<◌, ◌>>>◌, arith,
}
use dirtybird_c_miner.Stage.{
  Stage4InputView, Descriptor, descriptor_bytes, write_u32_le, Output, Limits, identity_from,
  init_identity_arena, descriptor_arena_index_count,
}
use dirtybird_c_miner.Stage.Parse.{parse_stage4_input}
use dirtybird_c_miner.Stage.Emit.{emit_direct_records}
use dirtybird_c_miner.Stage.Run.{emit_full_group_run}
use dirtybird_c_miner.Stage.Encode.{
  empty_output, encode_view, stage_v114_encode, raw_view_ok, raw_input_ok,
  stage_v114_encode_with_arena_raw,
}
use dirtybird_c_miner.Stage.Room.{Succeeds, length-emit_direct_records}
use dirtybird_c_miner.Stage.Progress.{group_runs-Succeeds, Filled, emit_full_group_run-Filled}

length-descriptor_bytes :
    (records : List Descriptor) → length (descriptor_bytes records) ≡ length records * 8
unfolding descriptor_bytes write_u32_le
length-descriptor_bytes [] = refl
length-descriptor_bytes (r ∷ records) = omega (arith, length-descriptor_bytes records)

pub raw_input_ok_lem :
    (view : Stage4InputView) (desc_cap : ℕ)
    → raw_input_ok view desc_cap ≡ true
    → (view.logical_len ≤ descriptor_arena_index_count) × (view.logical_len * 8 ≤ desc_cap)
unfolding raw_input_ok raw_view_ok
raw_input_ok_lem view desc_cap ok = (ground (arith, ok), ground (arith, ok))

-- What the standard documents of `std::sort` on the number of the entries.
abbrev pub KeepsLength : ((ℕ → ℕ → Bool) → List ℕ → List ℕ) → Type 0
KeepsLength sort =
    (precedes : ℕ → ℕ → Bool) (order : List ℕ) → length (sort precedes order) ≡ length order

module _ (std_sort : (ℕ → ℕ → Bool) → List ℕ → List ℕ) (lengths : KeepsLength std_sort) where
  encode_view-Filled :
      (limits : Limits) (view : Stage4InputView) (int_arena : Option (List ℕ))
      (room : view.logical_len * 8 ≤ limits.out_cap)
      → ((int_arena ≡ none) ⊎ (view.logical_len * 4 ≤ limits.int_arena_cap))
      → Succeeds
          (Filled limits view room view.logical_len)
          (encode_view std_sort limits view int_arena)
  unfolding encode_view
  encode_view-Filled limits view int_arena room arena =
      let full = view.logical_len >>> 8 in
      let (next, ok, p) =
        group_runs-Succeeds (Filled limits view room) (emit_full_group_run std_sort limits view)
          view.flags full
          (λ start group output before last p.
            emit_full_group_run-Filled limits view room std_sort start group output lengths before
              (omega arith) p)
          full 1 0 (empty_output int_arena) (omega arith) (omega arith) (λ z. omega (arith, z))
          (omega arith, arena) in
      let count = bit_and view.logical_len 0xff in
      let (l, a) = length-emit_direct_records view (full <<< 8) count next in
      (
        emit_direct_records view (full <<< 8) count next,
        ground (arith, ok),
        (
          omega (arith, l, p.0, bit_and_255 view.logical_len),
          subst (λ w. (w ≡ none) ⊎ (view.logical_len * 4 ≤ limits.int_arena_cap)) (sym a) p.1,
        ),
      )

-- On every input that the parser accepts and with eight bytes of room for each position,
-- `stage_v114_encode` ends and returns true: no write is refused, and it fills at most those bytes.
-- Of `std::sort` only that it keeps the number of the entries is used.
pub stage_v114_encode_lem :
    (std_sort : (ℕ → ℕ → Bool) → List ℕ → List ℕ) (input : List ℕ) (view : Stage4InputView)
    (out_cap : ℕ)
    → KeepsLength std_sort
    → parse_stage4_input input ≡ some view
    → view.logical_len * 8 ≤ out_cap
    → (out : List ℕ) × (stage_v114_encode std_sort input out_cap ≡ some out)
      × (length out ≤ view.logical_len * 8)
unfolding stage_v114_encode
stage_v114_encode_lem std_sort input view out_cap lengths parsed room =
    let limits : Limits = record {
      out_cap = out_cap;
      int_arena_cap = 0;
      count1_singletons = false;
    } in
    let (output, ok, p) = encode_view-Filled std_sort lengths limits view none room (inl refl) in
    (
      descriptor_bytes output.records,
      ground (arith, parsed, ok),
      omega (arith, p.0, length-descriptor_bytes output.records),
    )

-- `stage_v114_encode_with_arena_raw`, on a view that passes its checks and with four bytes of arena
-- for each position, ends and returns true as well, with at most one record for each position.
pub stage_v114_encode_with_arena_raw_lem :
    (std_sort : (ℕ → ℕ → Bool) → List ℕ → List ℕ) (view : Stage4InputView)
    (desc_cap int_arena_cap : ℕ) (int_arena : List ℕ)
    → KeepsLength std_sort
    → raw_input_ok view desc_cap ≡ true
    → view.logical_len * 4 ≤ int_arena_cap
    → (output : Output) × (stage_v114_encode_with_arena_raw std_sort view desc_cap int_arena_cap
          int_arena
        ≡ some output)
      × (length output.records ≤ view.logical_len)
unfolding stage_v114_encode_with_arena_raw init_identity_arena
stage_v114_encode_with_arena_raw_lem std_sort view desc_cap int_arena_cap int_arena lengths ok
      arena_room =
    let limits : Limits = record {
      out_cap = desc_cap;
      int_arena_cap = int_arena_cap;
      count1_singletons = false;
    } in
    let (small, room) = raw_input_ok_lem view desc_cap ok in
    let arena = identity_from 0 view.logical_len ++ drop view.logical_len int_arena in
    let (output, done, p) =
      encode_view-Filled std_sort lengths limits view (some arena) room (inr arena_room) in
    (output, ground (arith, ok, arena_room, done), p.0)
