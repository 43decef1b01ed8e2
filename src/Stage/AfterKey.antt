-- ===== src/Stage/AfterKey.antt =====
-- The comparison of suffixes behind their keys (src/v114_stubs.cpp), for positions whose first three
-- bytes are known to be equal.
use Prim.Native.Nat.{Ordering, min}
use dirtybird_c_miner.Base.{
  ℕ, zero, suc, ◌+◌, ◌-◌, Bool, true, false, ◌&&◌, List, get_or, bit_or, ltb, leb, ◌==◌, ◌<<<◌,
  if◌then◌else◌,
}
use dirtybird_c_miner.Stage.Parse.{Stage5InputView}

-- The order of two numbers.
abbrev pub compare_numbers : ℕ → ℕ → Ordering
compare_numbers a_len b_len =
    if a_len == b_len then Ordering.eq else if ltb a_len b_len then Ordering.lt else Ordering.gt

-- `memcmp` of `count` bytes from two offsets of one array.
unfoldable pub memcmp : List ℕ → ℕ → ℕ → ℕ → Ordering
memcmp bytes a b zero = Ordering.eq
memcmp bytes a b (suc count) =
    let av = get_or bytes a 0 in
    let bv = get_or bytes b 0 in
    let rest = memcmp bytes (a + 1) (b + 1) count in
    if av == bv then rest else if ltb av bv then Ordering.lt else Ordering.gt

-- A result that is not 0, or else the lengths decide.
abbrev pub or_lengths : Ordering → ℕ → ℕ → Ordering
or_lengths Ordering.lt a_len b_len = Ordering.lt
or_lengths Ordering.gt a_len b_len = Ordering.gt
or_lengths Ordering.eq a_len b_len = compare_numbers a_len b_len

-- `compare_suffixes` on a stage 5 view.
unfoldable pub compare_stage5_suffixes : Stage5InputView → ℕ → ℕ → Ordering
compare_stage5_suffixes view a b =
    let a_len = view.logical_len - a in
    let b_len = view.logical_len - b in
    if a == b then Ordering.eq else or_lengths (memcmp view.bytes a b (min a_len b_len)) a_len b_len

unfoldable pub load_be64 : List ℕ → ℕ → ℕ
load_be64 bytes p =
    let v0 = get_or bytes p 0 <<< 56 in
    let v1 = bit_or v0 (get_or bytes (p + 1) 0 <<< 48) in
    let v2 = bit_or v1 (get_or bytes (p + 2) 0 <<< 40) in
    let v3 = bit_or v2 (get_or bytes (p + 3) 0 <<< 32) in
    let v4 = bit_or v3 (get_or bytes (p + 4) 0 <<< 24) in
    let v5 = bit_or v4 (get_or bytes (p + 5) 0 <<< 16) in
    let v6 = bit_or v5 (get_or bytes (p + 6) 0 <<< 8) in bit_or v6 (get_or bytes (p + 7) 0)

unfoldable pub compare_suffixes_after_key : Stage5InputView → ℕ → ℕ → Ordering
compare_suffixes_after_key view a b =
    let a_len = view.logical_len - a in
    let b_len = view.logical_len - b in
    let common_with_key = min a_len b_len in
    let common = common_with_key - 3 in
    let av = load_be64 view.bytes (a + 3) in
    let bv = load_be64 view.bytes (b + 3) in
    let cmp =
      if ltb 8 common
      then memcmp view.bytes (a + 3 + 8) (b + 3 + 8) (common - 8)
      else memcmp view.bytes (a + 3) (b + 3) common in
    if a == b
    then Ordering.eq
    else if leb common_with_key 3
    then compare_numbers a_len b_len
    else if leb 8 common && ltb av bv
    then Ordering.lt
    else if leb 8 common && ltb bv av
    then Ordering.gt
    else or_lengths cmp a_len b_len

-- A result below 0, the positions deciding a result of 0.
abbrev pub lt_or_first : Ordering → ℕ → ℕ → Bool
lt_or_first Ordering.lt a b = true
lt_or_first Ordering.gt a b = false
lt_or_first Ordering.eq a b = ltb a b

unfoldable pub suffix_less_after_key : Stage5InputView → ℕ → ℕ → Bool
suffix_less_after_key view a b = lt_or_first (compare_suffixes_after_key view a b) a b
