-- ===== src/Stage/Room.antt =====
-- What the writers of src/v114_stubs.cpp need: where their buffers have room, no write is refused.
use mathlib.Core.List.{map}
use dirtybird_c_miner.Base.{
  ℕ, zero, suc, ◌+◌, ◌-◌, ◌*◌, ◌≤◌, ◌≡◌, refl, ap, ◌∙◌, Bool, inl, inr, List, [], ◌∷◌, ◌++◌, length,
  length-append, length-reverse, set, total, Option, some, All, ◌==◌, ◌<<<◌, Bool-cases, arith,
}
use dirtybird_c_miner.Stage.{
  Stage4InputView, load24_padded, Descriptor, Output, Limits, write_record, write_arena_pos,
  write_arena_all,
}
use dirtybird_c_miner.Stage.Order.{
  first_byte_less, shift_in, insert_from, insertion_sort, step_order, chunk_ends,
}
use dirtybird_c_miner.Stage.Emit.{
  emit_direct_records, Group, groups_from, key_groups, write_full_groups,
}

-- The call returns true, with what it has written as described.
abbrev pub Succeeds : (Output → Type 0) → Option Output → Type 0
Succeeds P result = (next : Output) × (result ≡ some next) × P next

pub length-shift_in :
    (precedes : ℕ → ℕ → Bool) (x : ℕ) (xs : List ℕ)
    → length (shift_in precedes x xs) ≡ suc (length xs)
unfolding shift_in
length-shift_in precedes x [] = refl
length-shift_in precedes x (y ∷ xs) = ground (arith, length-shift_in precedes x xs)

length-insert_from :
    (precedes : ℕ → ℕ → Bool) (sorted order : List ℕ)
    → length (insert_from precedes sorted order) ≡ length sorted + length order
unfolding insert_from
length-insert_from precedes sorted [] = omega (arith, length-reverse sorted)
length-insert_from precedes sorted (x ∷ order) = omega (
  arith,
  length-insert_from precedes (shift_in precedes x sorted) order,
  length-shift_in precedes x sorted,
)

pub length-insertion_sort :
    (precedes : ℕ → ℕ → Bool) (order : List ℕ)
    → length (insertion_sort precedes order) ≡ length order
unfolding insertion_sort
length-insertion_sort precedes order = omega (arith, length-insert_from precedes [] order)

length-map : (f : ℕ → ℕ) (xs : List ℕ) → length (map f xs) ≡ length xs
length-map f [] = refl
length-map f (x ∷ xs) = ap suc (length-map f xs)

pub length-step_order :
    (view : Stage4InputView) (order : List ℕ) → length (step_order view order) ≡ length order
unfolding step_order
length-step_order view order =
    length-insertion_sort (first_byte_less view) (map (λ p. p - 1) order)
    ∙ length-map (λ p. p - 1) order

pub length-chunk_ends : (base chunk count : ℕ) → length (chunk_ends base chunk count) ≡ count
unfolding chunk_ends
length-chunk_ends base chunk zero = refl
length-chunk_ends base chunk (suc count) = ap suc (length-chunk_ends base (suc chunk) count)

-- The groups of an order hold all its entries, and each holds at least one.
abbrev pub members_total : List Group → ℕ
members_total groups = total (λ (g : Group). length g.members) groups

groups_from_total :
    (key_of : ℕ → ℕ) (key : ℕ) (members order : List ℕ)
    → 1 ≤ length members
    → (members_total (groups_from key_of key members order) ≡ length members + length order)
      × All (λ g. 1 ≤ length g.members) (groups_from key_of key members order)
unfolding groups_from
groups_from_total key_of key members [] h = (omega arith, (h, tt))
groups_from_total key_of key members (x ∷ order) h =
    let more = length-append members (x ∷ []) in
    elim (Bool-cases (key_of x == key)) [
      | inl e ↦
          let rest = groups_from_total key_of key (members ++ x ∷ []) order (omega (arith, more)) in
          rw (e, groups_from) (omega (arith, rest.0, more), rest.1)
      | inr e ↦
          let rest = groups_from_total key_of (key_of x) (x ∷ []) order (omega arith) in
          rw (e, groups_from) (omega (arith, rest.0), (h, rest.1))
    ]

pub key_groups_total :
    (key_of : ℕ → ℕ) (order : List ℕ)
    → (members_total (key_groups key_of order) ≡ length order)
      × All (λ g. 1 ≤ length g.members) (key_groups key_of order)
unfolding key_groups
key_groups_total key_of [] = (refl, tt)
key_groups_total key_of (x ∷ order) =
    let rest = groups_from_total key_of (key_of x) (x ∷ []) order (omega arith) in
    (omega (arith, rest.0), rest.1)

count-le-total :
    (groups : List Group)
    → All (λ (g : Group). 1 ≤ length g.members) groups
    → length groups ≤ members_total groups
count-le-total [] h = omega arith
count-le-total (g ∷ groups) h = omega (arith, h.0, count-le-total groups h.1)

-- An order has at most as many groups as entries.
pub length-key_groups :
    (key_of : ℕ → ℕ) (order : List ℕ) → length (key_groups key_of order) ≤ length order
length-key_groups key_of order =
    let (sum, each) = key_groups_total key_of order in
    omega (arith, sum, count-le-total (key_groups key_of order) each)

pub length-emit_direct_records :
    (view : Stage4InputView) (pos count : ℕ) (output : Output)
    → (length (emit_direct_records view pos count output).records ≡ length output.records + count)
      × ((emit_direct_records view pos count output).int_arena ≡ output.int_arena)
unfolding emit_direct_records
length-emit_direct_records view pos zero output = (omega arith, refl)
length-emit_direct_records view pos (suc count) output =
    let more : Descriptor = record { key = load24_padded view pos; packed = 0x00020000 + pos } in
    let (l, a) =
      length-emit_direct_records view (pos + 1) count
        (record output { records = output.records ++ more ∷ [] }) in
    (omega (arith, l, length-append output.records (more ∷ [])), a)

module _ (limits : Limits) where
  pub write_record-Succeeds :
      (output : Output) (key packed : ℕ)
      → (length output.records + 1) * 8 ≤ limits.out_cap
      → write_record limits output key packed
        ≡ some (record output {
          records = output.records ++ record { key = key; packed = packed } ∷ [];
        })
  unfolding write_record
  write_record-Succeeds output key packed room = ground arith

  -- One record for each group.
  pub write_full_groups-Succeeds :
      (arena_index : ℕ) (groups : List Group) (output : Output)
      → (length output.records + length groups) * 8 ≤ limits.out_cap
      → (next : Output) × (write_full_groups limits arena_index groups output ≡ some next)
        × (length next.records ≡ length output.records + length groups)
        × (next.int_arena ≡ output.int_arena)
  unfolding write_full_groups
  write_full_groups-Succeeds arena_index [] output room = (output, refl, omega arith, refl)
  write_full_groups-Succeeds arena_index (g ∷ groups) output room =
      let packed = (length g.members <<< 17) + arena_index in
      let more : Descriptor = record { key = g.key; packed = packed } in
      let written = write_record-Succeeds output g.key packed (omega arith) in
      let len = length-append output.records (more ∷ []) in
      let (next, e, l, a) =
        write_full_groups-Succeeds (arena_index + length g.members) groups
          (record output { records = output.records ++ more ∷ [] }) (omega (arith, len)) in
      (next, ground (arith, written, e), omega (arith, l, len), a)

  pub write_arena_all-Succeeds :
      (int_arena : List ℕ) (index : ℕ) (positions : List ℕ)
      → (index + length positions) * 4 ≤ limits.int_arena_cap
      → (written : List ℕ) × (write_arena_all limits.int_arena_cap int_arena index positions
          ≡ some written)
  unfolding write_arena_all write_arena_pos
  write_arena_all-Succeeds int_arena index [] room = (int_arena, refl)
  write_arena_all-Succeeds int_arena index (x ∷ positions) room =
      let (written, e) =
        write_arena_all-Succeeds (set int_arena index x) (index + 1) positions (omega arith) in
      (written, ground (arith, e))
