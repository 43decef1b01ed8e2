-- ===== src/Stage/ReadBack.antt =====
-- The last stage reads the records that the first one writes.
use mathlib.Core.List.{map}
use dirtybird_c_miner.Base.{
  ℕ, ◌+◌, ◌*◌, ◌/◌, ◌%◌, ◌^◌, ◌≤◌, ◌<◌, ◌≡◌, refl, ap, ap₂, ◌∙◌, List, [], ◌∷◌, ◌++◌, length, drop,
  total, some, All, bit_and, bit_or, bit_or_under, bit_and_131071, ◌⊎◌, max, u8, u32, ◌>>>◌, inl,
  inr, arith,
}
use dirtybird_c_miner.Stage.{read_u32_le, write_u32_le, Descriptor, descriptor_bytes}
use dirtybird_c_miner.Stage.Runs.{Stage5Run, make_stage5_run}
use dirtybird_c_miner.Stage.Parse.{Stage5InputView}
use dirtybird_c_miner.Stage.Descriptors.{read_run, read_runs, trusted_runs}

-- A word written to a buffer is read back.
pub read_u32_le-write_u32_le :
    (v : ℕ) (rest : List ℕ) → v < 2 ^ 32 → read_u32_le (write_u32_le v ++ rest) ≡ v
unfolding read_u32_le write_u32_le
read_u32_le-write_u32_le v rest small =
    let b0 = u8 v in
    let b1 = u8 (v >>> 8) in
    let b2 = u8 (v >>> 16) in
    let b3 = u8 (v >>> 24) in
    let top : u32 (b3 * 2 ^ 24) ≡ b3 * 2 ^ 24 = omega arith in
    let two : bit_or b0 (b1 * 2 ^ 8) ≡ b0 + 256 * b1 =
      bit_or_under 8 b0 b1 (omega arith) ∙ (omega arith) in
    let three : bit_or (bit_or b0 (b1 * 2 ^ 8)) (b2 * 2 ^ 16) ≡ b0 + 256 * b1 + 65536 * b2 =
      ap (λ t. bit_or t (b2 * 2 ^ 16)) two
      ∙ bit_or_under 16 (b0 + 256 * b1) b2 (omega arith)
      ∙ (omega arith) in
    ap₂ bit_or three top
    ∙ bit_or_under 24 (b0 + 256 * b1 + 65536 * b2) b3 (omega arith)
    ∙ (omega arith)

-- The positions that a record stands for.
abbrev pub positions_in : Descriptor → ℕ
positions_in r = max 1 (r.packed / 2 ^ 17)

-- A record of two 32-bit words that names a position of the text or entries of the arena.
abbrev pub IsReadable : ℕ → ℕ → Descriptor → Type 0
IsReadable logical_len arena_count r =
    (r.key < 2 ^ 32)
    × (r.packed < 2 ^ 32)
    × ((r.packed < logical_len)
        ⊎ ((1 ≤ r.packed / 2 ^ 17) × (r.packed % 2 ^ 17 + r.packed / 2 ^ 17 ≤ arena_count)))

-- The run of a record.
abbrev pub same_run : Descriptor → Stage5Run
same_run r = record { key = r.key; packed = r.packed }

drop-write_u32_le : (v : ℕ) (rest : List ℕ) → drop 4 (write_u32_le v ++ rest) ≡ rest
unfolding write_u32_le
drop-write_u32_le v rest = refl

drop_both : (v w : ℕ) (rest : List ℕ) → drop 8 (write_u32_le v ++ (write_u32_le w ++ rest)) ≡ rest
unfolding write_u32_le
drop_both v w rest = refl

module _ (logical_len arena_count : ℕ) (small : logical_len ≤ 2 ^ 17) where
  read_run_lem :
      (r : Descriptor) (t : ℕ)
      → IsReadable logical_len arena_count r
      → t + positions_in r ≤ logical_len
      → read_run logical_len arena_count r.key r.packed t ≡ some (same_run r, t + positions_in r)
  unfolding read_run make_stage5_run
  read_run_lem r t (hk, hp, inl literal) room =
      let mask = bit_and_131071 r.packed in
      let none_counted : r.packed / 2 ^ 17 ≡ 0 = omega arith in
      let index : bit_and r.packed 131071 ≡ r.packed = omega (arith, mask) in
      ground (arith, index, none_counted, literal, room)
  read_run_lem r t (hk, hp, inr (counted, within)) room =
      let mask = bit_and_131071 r.packed in
      let word : r.packed / 2 ^ 17 * 2 ^ 17 + bit_and r.packed 131071 ≡ r.packed =
        omega (arith, mask) in
      ground (arith, mask, word, counted, within, room)

  read_runs_lem :
      (records : List Descriptor) (t : ℕ)
      → All (IsReadable logical_len arena_count) records
      → t + total positions_in records ≤ logical_len
      → read_runs logical_len arena_count (length records) (descriptor_bytes records) t
        ≡ some (map same_run records, t + total positions_in records)
  unfolding read_runs descriptor_bytes
  read_runs_lem [] t h room = λ i. some ([], zero_more i)
    where
      zero_more : t ≡ t + 0
      zero_more = omega arith
  read_runs_lem (r ∷ records) t h room =
      let key =
        read_u32_le-write_u32_le r.key (write_u32_le r.packed ++ descriptor_bytes records) h.0.0 in
      let packed = read_u32_le-write_u32_le r.packed (descriptor_bytes records) h.0.1 in
      let run = read_run_lem r t h.0 (omega arith) in
      let rest = read_runs_lem records (t + positions_in r) h.1 (omega arith) in
      let count : t + positions_in r + total positions_in records
          ≡ t + total positions_in (r ∷ records) =
        omega arith in
      let second = drop-write_u32_le r.key (write_u32_le r.packed ++ descriptor_bytes records) in
      let behind = drop_both r.key r.packed (descriptor_bytes records) in
      ground (arith, key, second, behind, packed, run, rest, count)

-- The last stage reads back what the first one writes: where each record has two 32-bit words and
-- names a position of the text or entries of the arena, and the records stand for exactly the
-- positions of the text, the trusted reader accepts the bytes and returns the records' words in
-- order, as runs.
pub trusted_runs-descriptor_bytes :
    (view : Stage5InputView) (records : List Descriptor) (out_cap : ℕ)
    → view.logical_len ≤ 2 ^ 17
    → All (IsReadable view.logical_len (view.int_len / 4)) records
    → total positions_in records ≡ view.logical_len
    → view.desc ≡ descriptor_bytes records
    → view.desc_len ≡ length records * 8
    → view.int_len % 4 ≡ 0
    → view.logical_len * 4 ≤ out_cap
    → trusted_runs view out_cap ≡ some (map same_run records)
unfolding trusted_runs
trusted_runs-descriptor_bytes view records out_cap small good all bytes len words room =
    let n : view.desc_len / 8 ≡ length records = omega (arith, len) in
    let whole : view.desc_len % 8 ≡ 0 = omega (arith, len) in
    let read =
      ap₂ (λ k d. read_runs view.logical_len (view.int_len / 4) k d 0) n bytes
      ∙ read_runs_lem view.logical_len (view.int_len / 4) small records 0 good
          (omega (arith, all)) in
    ground (arith, read, whole, words, room, all)
