-- ===== src/Stage/Parse.antt =====
-- The headers of the stages' inputs (src/v114_stubs.cpp).
use dirtybird_c_miner.Base.{
  ℕ, ◌+◌, not, ◌||◌, List, [], ◌∷◌, ◌++◌, length, take, drop, Option, none, some, ltb, leb, ◌==◌,
  ◌>>>◌, if◌then◌else◌,
}
use dirtybird_c_miner.Text.Chars.{codes, str_eq}
use dirtybird_c_miner.Stage.{Stage4InputView, descriptor_arena_index_count, read_u32_le}

abbrev pub stage4_magic : List ℕ
stage4_magic = codes "DLS4IN" ++ 0 ∷ 0 ∷ []

abbrev pub stage5_magic : List ℕ
stage5_magic = codes "DLS5IN" ++ 0 ∷ 0 ∷ []

abbrev pub header_size : ℕ
header_size = 28

-- The 32-bit field of a header at a byte offset.
abbrev pub field_at : List ℕ → ℕ → ℕ
field_at bytes offset = read_u32_le (drop offset bytes)

unfoldable pub parse_stage4_input : List ℕ → Option Stage4InputView
parse_stage4_input bytes =
    let version = field_at bytes 8 in
    let logical_len = field_at bytes 12 in
    let data_len = field_at bytes 16 in
    let flag_len = field_at bytes 20 in
    if ltb (length bytes) header_size
    then none
    else if not (str_eq (take 8 bytes) stage4_magic)
    then none
    else if not (version == 1)
    then none
    else if (logical_len == 0)
        || ltb descriptor_arena_index_count logical_len
        || ltb data_len logical_len
    then none
    else if not (header_size + flag_len + data_len == length bytes)
    then none
    else if leb flag_len (logical_len >>> 8)
    then none
    else some (record {
      logical_len = logical_len;
      data_len = data_len;
      flag_len = flag_len;
      flags = take flag_len (drop header_size bytes);
      bytes = drop (header_size + flag_len) bytes;
    })

-- `Stage5InputView`, with the arrays that its pointers lead to.
pub record Stage5InputView : Type 0 where
  pub logical_len : ℕ
  pub data_len : ℕ
  pub int_len : ℕ
  pub desc_len : ℕ
  pub bytes : List ℕ
  pub int_arena : List ℕ
  pub desc : List ℕ

unfoldable pub parse_stage5_input : List ℕ → Option Stage5InputView
parse_stage5_input bytes =
    let version = field_at bytes 8 in
    let logical_len = field_at bytes 12 in
    let data_len = field_at bytes 16 in
    let int_len = field_at bytes 20 in
    let desc_len = field_at bytes 24 in
    if ltb (length bytes) header_size
    then none
    else if not (str_eq (take 8 bytes) stage5_magic)
    then none
    else if not (version == 1)
    then none
    else if (logical_len == 0) || ltb data_len logical_len
    then none
    else if not (header_size + data_len + int_len + desc_len == length bytes)
    then none
    else some (record {
      logical_len = logical_len;
      data_len = data_len;
      int_len = int_len;
      desc_len = desc_len;
      bytes = take data_len (drop header_size bytes);
      int_arena = take int_len (drop (header_size + data_len) bytes);
      desc = drop (header_size + data_len + int_len) bytes;
    })
