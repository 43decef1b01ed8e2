-- ===== src/Stage/Tests.antt =====
-- Runs of the stages at concrete inputs.
use mathlib.Core.List.{Perm, map}
use dirtybird_c_miner.Base.{
  ℕ, ◌-◌, ◌*◌, ◌≤◌, ◌≡◌, refl, true, false, List, [], ◌∷◌, ◌++◌, length, replicate, some, All,
  ◌<<<◌, Ordered, arith,
}
use dirtybird_c_miner.Text.Chars.{str_eq}
use dirtybird_c_miner.Stage.{
  Descriptor, descriptor_bytes, load24_padded, Stage4InputView, Limits, has_load24_padding,
  read_u32_le,
}
use dirtybird_c_miner.Stage.Order.{
  sort_stage4_suffix_order_small, sort_stage4_suffix_order, chunk_ends, order_after, insertion_sort,
  insert_from, shift_in, suffix_less, compare_suffixes, compare_from,
}
use dirtybird_c_miner.Stage.Lex.{below, lex_compare, suffix}
use dirtybird_c_miner.Stage.Induced.{sort_stage4_suffix_order_small-Ordered}
use dirtybird_c_miner.Stage.FirstOrder.{order_after_chunks-Ordered}
use dirtybird_c_miner.Stage.Runs.{
  Stage5Run, stage5_run_count, stage5_run_encoded_count, stage5_run_begin, stage5_run_is_literal,
}
use dirtybird_c_miner.Stage.AfterKey.{compare_suffixes_after_key}
use dirtybird_c_miner.Stage.Memcmp.{text_of}
use dirtybird_c_miner.Stage.KeyOrder.{compare_suffixes_after_key_lem}
use dirtybird_c_miner.Stage.Merge.{
  segments_of, run_positions, positions_from, stage5_run_pos, flatten, write_equal_key_group,
}
use dirtybird_c_miner.Stage.Descriptors.{trusted_runs}
use dirtybird_c_miner.Stage.ReadBack.{same_run, trusted_runs-descriptor_bytes}
use dirtybird_c_miner.Stage.Accepted.{IsView, parse_stage4_input-IsView}
use dirtybird_c_miner.Stage.Resolved.{IsText, Sorted, not_after}
use dirtybird_c_miner.Stage.KeyGroup.{write_equal_key_group_lem}
use dirtybird_c_miner.Stage.Parse.{Stage5InputView, parse_stage4_input, stage4_magic}
use dirtybird_c_miner.Stage.Emit.{write_sorted_group}
use dirtybird_c_miner.Stage.Rounds.{rounds, write_round}
use dirtybird_c_miner.Stage.Run.{emit_full_group_run_compact}
use dirtybird_c_miner.Stage.Encode.{
  raw_view_ok, raw_input_ok, empty_output, stage_v114_encode, stage_v114_encode_compact_raw,
  fused_emission,
}
use dirtybird_c_miner.Stage.Room.{length-insertion_sort}
use dirtybird_c_miner.Stage.Finishes.{stage_v114_encode_lem}
use dirtybird_c_miner.Stage.Both.{Both}
use dirtybird_c_miner.Stage.Simulates.{Simulates}
use dirtybird_c_miner.Stage.Emission.{fused_emission_lem}
use dirtybird_c_miner.Stage.StdSort.{insertion_sort-IsSort}
use dirtybird_c_miner.Stage.Dispatch.{emit_full_group_run_compact_lem}

-- Two groups and a rest, the bytes of the second half below those of the first.
abbrev two_groups : Stage4InputView
two_groups = record {
  logical_len = 520;
  data_len = 522;
  flag_len = 3;
  flags = 0 ∷ 0 ∷ 1 ∷ [];
  bytes = replicate 300 7 ++ replicate 222 3;
}

abbrev roomy : Limits
roomy = record { out_cap = 4160; int_arena_cap = 2080; count1_singletons = false }

two_ends_sorted : sort_stage4_suffix_order_small two_groups (chunk_ends 0 0 2) ≡ 511 ∷ 255 ∷ []
unfolding sort_stage4_suffix_order_small insertion_sort insert_from chunk_ends shift_in suffix_less
    compare_suffixes compare_from
two_ends_sorted = refl

order_after_chunks-Ordered_example :
    let ends = chunk_ends 0 0 2 in
    let after = λ (start : List ℕ). order_after two_groups 200 start in
    let short = after (sort_stage4_suffix_order_small two_groups ends) in
    let long = after (sort_stage4_suffix_order insertion_sort two_groups ends) in
    (Ordered (below two_groups) short × Perm short (map (λ p. p - 200) ends))
    × (Ordered (below two_groups) long × Perm long (map (λ p. p - 200) ends))
order_after_chunks-Ordered_example =
    order_after_chunks-Ordered insertion_sort two_groups 0 2 200 insertion_sort-IsSort (omega arith)
      (omega arith) (omega arith)

emit_full_group_run_compact_lem_example :
    emit_full_group_run_compact insertion_sort roomy two_groups 0 2 (empty_output (some []))
    ≡ rounds
        (write_round (write_sorted_group roomy) two_groups (has_load24_padding two_groups))
        two_groups
        255
        (sort_stage4_suffix_order_small two_groups (chunk_ends 0 0 2))
        (empty_output (some []))
emit_full_group_run_compact_lem_example =
    emit_full_group_run_compact_lem insertion_sort roomy two_groups 0 2 (empty_output (some []))
      (sort_stage4_suffix_order_small two_groups (chunk_ends 0 0 2)) insertion_sort-IsSort
      (omega arith) (omega arith) (omega arith) (omega arith)
      (sort_stage4_suffix_order_small-Ordered two_groups (omega arith) 0 2 (omega arith)).0
      (sort_stage4_suffix_order_small-Ordered two_groups (omega arith) 0 2 (omega arith)).1

-- An input with one group and two more positions.
abbrev one_group : Stage4InputView
one_group = record {
  logical_len = 258;
  data_len = 258;
  flag_len = 2;
  flags = 0 ∷ 1 ∷ [];
  bytes = replicate 258 9;
}

abbrev one_group_input : List ℕ
one_group_input =
    stage4_magic
    ++ (1
        ∷ 0
        ∷ 0
        ∷ 0
        ∷ 2
        ∷ 1
        ∷ 0
        ∷ 0
        ∷ 2
        ∷ 1
        ∷ 0
        ∷ 0
        ∷ 2
        ∷ 0
        ∷ 0
        ∷ 0
        ∷ 0
        ∷ 0
        ∷ 0
        ∷ 0
        ∷ 0
        ∷ 1
        ∷ replicate 258 9)

one_group_accepted : parse_stage4_input one_group_input ≡ some one_group
unfolding parse_stage4_input read_u32_le str_eq
one_group_accepted = refl

parse_stage4_input-IsView_example : IsView one_group_input one_group
parse_stage4_input-IsView_example =
    parse_stage4_input-IsView one_group_input one_group one_group_accepted

stage_v114_encode_lem_example :
    (out : List ℕ) × (stage_v114_encode insertion_sort one_group_input 2064 ≡ some out)
    × (length out ≤ 258 * 8)
stage_v114_encode_lem_example =
    stage_v114_encode_lem insertion_sort one_group_input one_group 2064 length-insertion_sort
      one_group_accepted (omega arith)

two_groups_checked : raw_input_ok two_groups 4160 ≡ true
unfolding raw_input_ok raw_view_ok
two_groups_checked = refl

fused_emission_lem_example :
    Both
      (Simulates 520 520)
      (stage_v114_encode_compact_raw insertion_sort false two_groups 4160 2080 (replicate 520 0))
      (fused_emission insertion_sort false two_groups
        (record { arena_positions = 4 ∷ []; arena_len = 1; runs = [] }))
fused_emission_lem_example =
    fused_emission_lem insertion_sort false two_groups 4160 2080 (replicate 520 0)
      (record { arena_positions = 4 ∷ []; arena_len = 1; runs = [] }) length-insertion_sort
      two_groups_checked (omega arith) (omega arith)

-- A text of six equal bytes, with one arena run and two literals for its first four positions.
abbrev sevens : Stage5InputView
sevens = record {
  logical_len = 6;
  data_len = 8;
  int_len = 8;
  desc_len = 0;
  bytes = replicate 6 7 ++ replicate 2 0;
  int_arena = 3 ∷ 0 ∷ 0 ∷ 0 ∷ 1 ∷ 0 ∷ 0 ∷ 0 ∷ [];
  desc = [];
}

abbrev sevens_runs : List Stage5Run
sevens_runs =
    record { key = 460551; packed = 2 <<< 17 }
    ∷ record { key = 460551; packed = 2 }
    ∷ record { key = 460551; packed = 0 }
    ∷ []

sevens_good : IsText sevens
sevens_good = (omega arith, refl, omega arith)

sevens_in_order : All (Sorted sevens 460551 sevens_good) (segments_of sevens sevens_runs)
unfolding segments_of run_positions positions_from stage5_run_pos stage5_run_count
    stage5_run_encoded_count stage5_run_begin stage5_run_is_literal read_u32_le load24_padded
sevens_in_order = (
  (((omega arith, refl), ((omega arith, refl), tt)), ((refl, tt), (tt, tt))),
  ((((omega arith, refl), tt), (tt, tt)), ((((omega arith, refl), tt), (tt, tt)), tt)),
)

write_equal_key_group_lem_example :
    Ordered (not_after sevens) (write_equal_key_group sevens sevens_runs)
    × Perm (write_equal_key_group sevens sevens_runs) (flatten (segments_of sevens sevens_runs))
write_equal_key_group_lem_example =
    write_equal_key_group_lem sevens 460551 sevens_runs sevens_good sevens_in_order

sevens_key : load24_padded (text_of sevens) 1 ≡ load24_padded (text_of sevens) 3
unfolding load24_padded
sevens_key = refl

compare_suffixes_after_key_lem_example :
    compare_suffixes_after_key sevens 1 3
    ≡ lex_compare (suffix (text_of sevens) 1) (suffix (text_of sevens) 3)
compare_suffixes_after_key_lem_example =
    compare_suffixes_after_key_lem sevens 1 3 (omega arith) refl (omega arith) (omega arith)
      (omega arith) sevens_key

-- An arena run of two positions and four literals.
abbrev six_records : List Descriptor
six_records =
    record { key = 9; packed = 2 <<< 17 }
    ∷ record { key = 8; packed = 1 }
    ∷ record { key = 7; packed = 2 }
    ∷ record { key = 6; packed = 4 }
    ∷ record { key = 5; packed = 5 }
    ∷ []

abbrev six_view : Stage5InputView
six_view = record {
  logical_len = 6;
  data_len = 8;
  int_len = 8;
  desc_len = 40;
  bytes = replicate 8 7;
  int_arena = 3 ∷ 0 ∷ 0 ∷ 0 ∷ 0 ∷ 0 ∷ 0 ∷ 0 ∷ [];
  desc = descriptor_bytes six_records;
}

trusted_runs-descriptor_bytes_example : trusted_runs six_view 24 ≡ some (map same_run six_records)
trusted_runs-descriptor_bytes_example =
    trusted_runs-descriptor_bytes six_view six_records 24 (omega arith) (omega arith) refl refl refl
      refl (omega arith)
