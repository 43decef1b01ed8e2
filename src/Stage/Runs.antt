-- ===== src/Stage/Runs.antt =====
-- The runs of positions that the last stage of src/v114_stubs.cpp sorts by key.
use Prim.Native.Nat.{Ordering}
use dirtybird_c_miner.Base.{
  ℕ, zero, suc, ◌+◌, ◌*◌, Bool, List, get_or, bit_and, bit_or, ltb, ◌==◌, ◌<<<◌, ◌>>>◌,
  if◌then◌else◌,
}

-- `compare_key3`, from byte `i` on, with `left` more bytes to compare.
unfoldable pub compare_bytes : ℕ → ℕ → ℕ → ℕ → Ordering
compare_bytes zero i a b = Ordering.eq
compare_bytes (suc left) i a b =
    let av = bit_and (a >>> (i * 8)) 0xff in
    let bv = bit_and (b >>> (i * 8)) 0xff in
    let rest = compare_bytes left (i + 1) a b in
    if av == bv then rest else if ltb av bv then Ordering.lt else Ordering.gt

unfoldable pub compare_key3 : ℕ → ℕ → Ordering
compare_key3 a b = compare_bytes 3 0 a b

unfoldable pub stage5_radix_order_key : ℕ → ℕ
stage5_radix_order_key key =
    bit_or (bit_or (bit_and key 0x0000ff <<< 16) (bit_and key 0x00ff00))
      (bit_and key 0xff0000 >>> 16)

pub record Stage5Run : Type 0 where
  pub key : ℕ
  pub packed : ℕ

unfoldable pub make_stage5_run : ℕ → ℕ → ℕ → Bool → Stage5Run
make_stage5_run key begin count scratch = record {
  key = key;
  packed = if scratch then begin else (count <<< 17) + begin;
}

unfoldable pub stage5_run_encoded_count : Stage5Run → ℕ
stage5_run_encoded_count run = run.packed >>> 17

unfoldable pub stage5_run_is_literal : Stage5Run → Bool
stage5_run_is_literal run = stage5_run_encoded_count run == 0

unfoldable pub stage5_run_begin : Stage5Run → ℕ
stage5_run_begin run = bit_and run.packed 0x1ffff

unfoldable pub stage5_run_count : Stage5Run → ℕ
stage5_run_count run = let count = stage5_run_encoded_count run in if count == 0 then 1 else count

-- `fused_run_pos`: the position of a run at index `rel`, from the arena's entries.
unfoldable pub fused_run_pos : List ℕ → Stage5Run → ℕ → ℕ
fused_run_pos arena_positions run rel =
    let begin = stage5_run_begin run in
    if stage5_run_is_literal run then begin else get_or arena_positions (begin + rel) 0
