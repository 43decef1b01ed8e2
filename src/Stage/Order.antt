-- ===== src/Stage/Order.antt =====
-- The order of suffixes and the arrays of positions that src/v114_stubs.cpp sorts.
use Prim.Native.Nat.{Ordering}
use mathlib.Core.List.{map}
use dirtybird_c_miner.Base.{
  ℕ, zero, suc, ◌+◌, ◌-◌, Bool, true, false, ◌&&◌, List, [], ◌∷◌, reverse, ltb, ◌==◌, ◌<<<◌,
  if◌then◌else◌,
}
use dirtybird_c_miner.Stage.{Stage4InputView, byte_at}

-- The loop of `compare_suffixes` on a stage 4 view: the loop ends within `fuel` rounds where
-- `logical_len` is at most `fuel` more than a position.
unfoldable pub compare_from : Stage4InputView → ℕ → ℕ → ℕ → Ordering
compare_from view zero a b = Ordering.eq
compare_from view (suc fuel) a b =
    let rest = compare_from view fuel (a + 1) (b + 1) in
    let av = byte_at view a in
    let bv = byte_at view b in
    if ltb a view.logical_len && ltb b view.logical_len
    then (if av == bv then rest else if ltb av bv then Ordering.lt else Ordering.gt)
    else if (a == view.logical_len) && (b == view.logical_len)
    then Ordering.eq
    else if a == view.logical_len
    then Ordering.lt
    else Ordering.gt

unfoldable pub compare_suffixes : Stage4InputView → ℕ → ℕ → Ordering
compare_suffixes view a b =
    let loop = compare_from view (view.logical_len + 1) a b in if a == b then Ordering.eq else loop

-- A result below 0.
abbrev pub is_lt : Ordering → Bool
is_lt Ordering.lt = true
is_lt Ordering.eq = false
is_lt Ordering.gt = false

-- The test of the sorts by suffix.
unfoldable pub suffix_less : Stage4InputView → ℕ → ℕ → Bool
suffix_less view a b = is_lt (compare_suffixes view a b)

-- The test of the sorts by first byte: `view.data[order[j - 1]] > key`.
unfoldable pub first_byte_less : Stage4InputView → ℕ → ℕ → Bool
first_byte_less view pos before = ltb (byte_at view pos) (byte_at view before)

-- The inner loop of an insertion: `pos` goes below the entries that it must precede. The sorted
-- entries stand in a list with the highest index first.
unfoldable pub shift_in : (ℕ → ℕ → Bool) → ℕ → List ℕ → List ℕ
shift_in precedes pos [] = pos ∷ []
shift_in precedes pos (x ∷ sorted) =
    if precedes pos x then x ∷ shift_in precedes pos sorted else pos ∷ x ∷ sorted

-- The outer loop, with the entries below index `i` sorted.
unfoldable pub insert_from : (ℕ → ℕ → Bool) → List ℕ → List ℕ → List ℕ
insert_from precedes sorted [] = reverse sorted
insert_from precedes sorted (pos ∷ order) =
    insert_from precedes (shift_in precedes pos sorted) order

unfoldable pub insertion_sort : (ℕ → ℕ → Bool) → List ℕ → List ℕ
insertion_sort precedes order = insert_from precedes [] order

unfoldable pub sort_stage4_suffix_order_small : Stage4InputView → List ℕ → List ℕ
sort_stage4_suffix_order_small view order = insertion_sort (suffix_less view) order

-- The longer runs sort with `std::sort`.
abbrev pub sort_stage4_suffix_order :
    ((ℕ → ℕ → Bool) → List ℕ → List ℕ) → Stage4InputView → List ℕ → List ℕ
sort_stage4_suffix_order std_sort view order = std_sort (suffix_less view) order

-- The last position of each chunk of a run of groups: `base + (chunk << 8) + 255`.
unfoldable pub chunk_ends : ℕ → ℕ → ℕ → List ℕ
chunk_ends base chunk zero = []
chunk_ends base chunk (suc count) = (base + (chunk <<< 8) + 255) ∷ chunk_ends base (suc chunk) count

-- The step between two rounds: all positions move down by one, then they are sorted by first byte.
unfoldable pub step_order : Stage4InputView → List ℕ → List ℕ
step_order view order = insertion_sort (first_byte_less view) (map (λ pos. pos - 1) order)

-- The order after some steps.
unfoldable pub order_after : Stage4InputView → ℕ → List ℕ → List ℕ
order_after view zero order = order
order_after view (suc steps) order = order_after view steps (step_order view order)
