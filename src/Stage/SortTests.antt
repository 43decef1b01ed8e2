-- ===== src/Stage/SortTests.antt =====
-- The sorts of runs and both stages at concrete inputs.
use mathlib.Core.List.{Perm, map, append_assoc, append-nil}
use dirtybird_c_miner.Base.{
  ℕ, zero, suc, ◌+◌, ◌≤◌, ◌<◌, ◌≡◌, ◌≢◌, refl, subst, Option, All-map, true, false, List, [], ◌∷◌,
  ◌++◌, length, get_or, replicate, some, All, ◌<<<◌, Ordered, arith,
}
use dirtybird_c_miner.Radix.Gather.{Pairwise}
use dirtybird_c_miner.Stage.{
  Descriptor, descriptor_bytes, load24_padded, Stage4InputView, identity_from, read_u32_le,
}
use dirtybird_c_miner.Stage.Order.{insertion_sort}
use dirtybird_c_miner.Stage.Lex.{HasText, below, below-total, below-IsTransitive}
use dirtybird_c_miner.Stage.Insertion.{Decides, DecidesAll, insertion_sort-Ordered}
use dirtybird_c_miner.Stage.Runs.{
  Stage5Run, stage5_run_count, stage5_run_encoded_count, stage5_run_begin, stage5_run_is_literal,
}
use dirtybird_c_miner.Stage.RunSort.{radix_sort_runs_by_key, radix_sort_runs_by_stored_key}
use dirtybird_c_miner.Stage.RunOrder.{
  By, ordered_key, low_key, radix_sort_runs_by_key_lem, radix_sort_runs_by_stored_key_lem,
}
use dirtybird_c_miner.Stage.Merge.{
  segments_of, run_positions, positions_from, stage5_run_pos, flatten,
}
use dirtybird_c_miner.Stage.Parse.{Stage5InputView, parse_stage4_input, stage4_magic}
use dirtybird_c_miner.Text.Chars.{str_eq}
use dirtybird_c_miner.Stage.Resolved.{IsText, Sorted, not_after}
use dirtybird_c_miner.Stage.Descriptors.{trusted_runs}
use dirtybird_c_miner.Stage.ReadBack.{same_run, trusted_runs-descriptor_bytes}
use dirtybird_c_miner.Stage.Groups.{positions_bytes, stage_v114_sa_build_descriptor_trusted}
use dirtybird_c_miner.Stage.Built.{stage_v114_sa_build_descriptor_trusted_lem}
use dirtybird_c_miner.Stage.Encode.{raw_view_ok, raw_input_ok, stage_v114_encode_compact_raw}
use dirtybird_c_miner.Stage.Room.{Succeeds, length-insertion_sort}
use dirtybird_c_miner.Stage.StdSort.{insertion_sort-IsSort}
use dirtybird_c_miner.Stage.Encoded.{Encodes, stage_v114_encode_compact_raw-Encodes}
use dirtybird_c_miner.Stage.Tail.{run_one_compact_tail}
use dirtybird_c_miner.Stage.SuffixArray.{run_one_compact_tail_lem}
use dirtybird_c_miner.Stage.HashSink.{stage_v114_hash_compact_fused_raw, fused_stage5_view}
use dirtybird_c_miner.Stage.Libsais.{
  stage_v114_sa_build_libsais, IsSuffixSorter, hash_compact_fused-libsais,
}
use dirtybird_c_miner.Stage.SinkLaws.{IsStreaming}
use dirtybird_c_miner.Stage.HashedArray.{stage_v114_hash_compact_fused_raw_lem}

-- Three runs, two of them with one key.
abbrev three_runs : List Stage5Run
three_runs =
    record { key = 513; packed = 4 }
    ∷ record { key = 258; packed = 1 }
    ∷ record { key = 513; packed = 2 }
    ∷ []

-- The relation of a run to all that stand behind it in `three_runs`.
abbrev StandsBefore : Stage5Run → Stage5Run → Type 0
StandsBefore r s = r.packed ≢ s.packed

three_runs_apart : Pairwise StandsBefore three_runs
three_runs_apart = (
  ((λ e. absurd (omega arith)), ((λ e. absurd (omega arith)), tt)),
  (((λ e. absurd (omega arith)), tt), (tt, tt)),
)

radix_sort_runs_by_key_lem_example :
    Pairwise (By ordered_key StandsBefore) (radix_sort_runs_by_key three_runs []).0
    × Perm (radix_sort_runs_by_key three_runs []).0 three_runs
radix_sort_runs_by_key_lem_example =
    radix_sort_runs_by_key_lem StandsBefore three_runs [] three_runs_apart

radix_sort_runs_by_stored_key_lem_example :
    Pairwise (By low_key StandsBefore) (radix_sort_runs_by_stored_key three_runs three_runs).0
    × Perm (radix_sort_runs_by_stored_key three_runs three_runs).0 three_runs
radix_sort_runs_by_stored_key_lem_example =
    radix_sort_runs_by_stored_key_lem StandsBefore three_runs three_runs three_runs_apart

-- Two groups, a rest, and two zero bytes behind the text.
abbrev padded_groups : Stage4InputView
padded_groups = record {
  logical_len = 520;
  data_len = 522;
  flag_len = 3;
  flags = 0 ∷ 0 ∷ 1 ∷ [];
  bytes = (replicate 300 7 ++ replicate 220 3) ++ replicate 2 0;
}

get_or-zeros : (n p : ℕ) → get_or {A = ℕ} (replicate n 0) p 0 ≡ 0
get_or-zeros zero p = refl
get_or-zeros (suc n) zero = refl
get_or-zeros (suc n) (suc p) = get_or-zeros n p

get_or-zero_tail : (xs : List ℕ) (n p : ℕ) → length xs ≤ p → get_or (xs ++ replicate n 0) p 0 ≡ 0
get_or-zero_tail [] n p h = get_or-zeros n p
get_or-zero_tail (x ∷ xs) n zero h = absurd (omega arith)
get_or-zero_tail (x ∷ xs) n (suc p) h = get_or-zero_tail xs n p (omega arith)

padded_groups_checked : raw_view_ok padded_groups ≡ true
unfolding raw_view_ok
padded_groups_checked = refl

padded_groups_input : raw_input_ok padded_groups 4160 ≡ true
unfolding raw_input_ok raw_view_ok
padded_groups_input = refl

stage_v114_encode_compact_raw-Encodes_example :
    Succeeds
      (Encodes padded_groups 520)
      (stage_v114_encode_compact_raw insertion_sort true padded_groups 4160 2080 (replicate 520 0))
stage_v114_encode_compact_raw-Encodes_example =
    stage_v114_encode_compact_raw-Encodes insertion_sort true padded_groups 4160 2080
      (replicate 520 0) insertion_sort-IsSort (omega arith) padded_groups_input (omega arith)
      (omega arith)

-- The input of that text.
abbrev padded_groups_file : List ℕ
padded_groups_file =
    stage4_magic
    ++ (1 ∷ 0 ∷ 0 ∷ 0 ∷ 8 ∷ 2 ∷ 0 ∷ 0 ∷ 10 ∷ 2 ∷ 0 ∷ 0 ∷ 3 ∷ 0 ∷ 0 ∷ 0 ∷ 0 ∷ 0 ∷ 0 ∷ 0 ∷ [])
    ++ (0 ∷ 0 ∷ 1 ∷ [])
    ++ ((replicate 300 7 ++ replicate 220 3) ++ replicate 2 0)

padded_groups_accepted : parse_stage4_input padded_groups_file ≡ some padded_groups
unfolding parse_stage4_input read_u32_le str_eq
padded_groups_accepted = refl

run_one_compact_tail_lem_example :
    (positions : List ℕ) × (run_one_compact_tail insertion_sort false [] padded_groups_file 2080 0
        [] 0
      ≡ some (positions_bytes positions))
    × Ordered (below padded_groups) positions
    × Perm positions (identity_from 0 520)
run_one_compact_tail_lem_example =
    run_one_compact_tail_lem insertion_sort false [] padded_groups_file padded_groups 2080 0 [] 0
      insertion_sort-IsSort padded_groups_accepted (omega arith)
      (get_or-zero_tail (replicate 300 7 ++ replicate 220 3) 2) (omega arith)

-- A text of six equal bytes: an arena run of two positions and four literals.
abbrev six_sevens_records : List Descriptor
six_sevens_records =
    record { key = 460551; packed = 2 <<< 17 }
    ∷ record { key = 460551; packed = 2 }
    ∷ record { key = 460551; packed = 0 }
    ∷ record { key = 1799; packed = 4 }
    ∷ record { key = 7; packed = 5 }
    ∷ []

abbrev six_sevens : Stage5InputView
six_sevens = record {
  logical_len = 6;
  data_len = 8;
  int_len = 8;
  desc_len = 40;
  bytes = replicate 6 7 ++ replicate 2 0;
  int_arena = 3 ∷ 0 ∷ 0 ∷ 0 ∷ 1 ∷ 0 ∷ 0 ∷ 0 ∷ [];
  desc = descriptor_bytes six_sevens_records;
}

six_sevens_good : IsText six_sevens
six_sevens_good = (omega arith, refl, omega arith)

six_sevens_read : trusted_runs six_sevens 24 ≡ some (map same_run six_sevens_records)
six_sevens_read =
    trusted_runs-descriptor_bytes six_sevens six_sevens_records 24 (omega arith) (omega arith) refl
      refl refl refl (omega arith)

six_sevens_in_order :
    All
      (λ run. Sorted six_sevens run.key six_sevens_good (run_positions six_sevens run))
      (map same_run six_sevens_records)
unfolding run_positions positions_from stage5_run_pos stage5_run_count stage5_run_encoded_count
    stage5_run_begin stage5_run_is_literal read_u32_le load24_padded
six_sevens_in_order = (
  (((omega arith, refl), ((omega arith, refl), tt)), ((refl, tt), (tt, tt))),
  (
    (((omega arith, refl), tt), (tt, tt)),
    (
      (((omega arith, refl), tt), (tt, tt)),
      ((((omega arith, refl), tt), (tt, tt)), ((((omega arith, refl), tt), (tt, tt)), tt)),
    ),
  ),
)

stage_v114_sa_build_descriptor_trusted_lem_example :
    (positions : List ℕ) × (stage_v114_sa_build_descriptor_trusted false [] six_sevens 24
      ≡ some (positions_bytes positions))
    × Ordered (not_after six_sevens) positions
    × Perm positions (flatten (segments_of six_sevens (map same_run six_sevens_records)))
stage_v114_sa_build_descriptor_trusted_lem_example =
    stage_v114_sa_build_descriptor_trusted_lem six_sevens six_sevens_good []
      (map same_run six_sevens_records) 24 (get_or-zero_tail (replicate 6 7) 2) (omega arith)
      (omega arith) six_sevens_read six_sevens_in_order

-- A hash that keeps all it is given.
abbrev keep_all : List ℕ → List ℕ
keep_all bytes = bytes

keep_all-IsStreaming : IsStreaming {Ctx = List ℕ} (◌++◌)
keep_all-IsStreaming = (append_assoc, append-nil)

stage_v114_hash_compact_fused_raw_lem_example :
    (positions : List ℕ) × (stage_v114_hash_compact_fused_raw
        (◌++◌)
        []
        keep_all
        insertion_sort
        true
        padded_groups
        (record { arena_positions = []; arena_len = 0; runs = [] })
        []
      ≡ some (keep_all ([] ++ positions_bytes positions)))
    × Ordered (below padded_groups) positions
    × Perm positions (identity_from 0 520)
stage_v114_hash_compact_fused_raw_lem_example =
    stage_v114_hash_compact_fused_raw_lem (◌++◌) keep_all-IsStreaming [] keep_all insertion_sort
      true padded_groups (record { arena_positions = []; arena_len = 0; runs = [] }) []
      insertion_sort-IsSort length-insertion_sort padded_groups_checked (omega arith) refl
      (get_or-zero_tail (replicate 300 7 ++ replicate 220 3) 2)

-- A sorter of suffixes by insertion.
abbrev text_view : List ℕ → ℕ → Stage4InputView
text_view text n = record { logical_len = n; data_len = n; flag_len = 0; flags = []; bytes = text }

abbrev insertion_sais : List ℕ → ℕ → Option (List ℕ)
insertion_sais text n = some (insertion_sort (below (text_view text n)) (identity_from 0 n))

identity_from-between :
    (a n bound : ℕ) → a + n ≤ bound → All (λ x. (a ≤ x) × (x < bound)) (identity_from a n)
unfolding identity_from
identity_from-between a zero bound h = tt
identity_from-between a (suc n) bound h = (
  (omega arith, omega arith),
  All-map (λ x. (suc a ≤ x) × (x < bound)) (λ x. (a ≤ x) × (x < bound)) (identity_from (suc a) n)
      (λ x hx. (omega (arith, hx.0), hx.1)) (identity_from-between (suc a) n bound (omega arith)),
)

identity_from-DecidesAll :
    (view : Stage4InputView)
    → HasText view
    → (a n : ℕ) → a + n ≤ view.logical_len
    → DecidesAll (below view) (below view) (identity_from a n)
unfolding identity_from
identity_from-DecidesAll view text a zero h = tt
identity_from-DecidesAll view text a (suc n) h = (
  All-map (λ x. (suc a ≤ x) × (x < view.logical_len)) (λ x. Decides (below view) (below view) x a)
      (identity_from (suc a) n)
      (λ x hx. (
        λ less. less,
        below-total view text x a (omega (arith, hx.1)) (omega arith)
            (λ e. absurd (omega (arith, e, hx.0))),
      ))
      (identity_from-between (suc a) n view.logical_len (omega arith)),
  identity_from-DecidesAll view text (suc a) n (omega arith),
)

insertion_sais-IsSuffixSorter : IsSuffixSorter insertion_sais
insertion_sais-IsSuffixSorter view sa text found =
    let ids = identity_from 0 view.logical_len in
    let sorted : insertion_sort (below view) ids ≡ sa = cc in
    subst (λ l. Ordered (below view) l × Perm l ids) sorted
      (insertion_sort-Ordered (below view) (below view) (below-IsTransitive view) ids
        (identity_from-DecidesAll view text 0 view.logical_len (omega arith)))

hash_compact_fused-libsais_example :
    (out : List ℕ) × (stage_v114_sa_build_libsais insertion_sais
        (fused_stage5_view padded_groups)
        2080
      ≡ some out)
    × (stage_v114_hash_compact_fused_raw
          (◌++◌)
          []
          keep_all
          insertion_sort
          false
          padded_groups
          (record { arena_positions = []; arena_len = 0; runs = [] })
          []
        ≡ some (keep_all ([] ++ out)))
hash_compact_fused-libsais_example =
    hash_compact_fused-libsais (◌++◌) keep_all-IsStreaming [] keep_all insertion_sais insertion_sort
      false padded_groups (record { arena_positions = []; arena_len = 0; runs = [] }) [] 2080
      (insertion_sort (below (text_view padded_groups.bytes 520)) (identity_from 0 520))
      insertion_sais-IsSuffixSorter insertion_sort-IsSort length-insertion_sort
      padded_groups_checked (omega arith) refl
      (get_or-zero_tail (replicate 300 7 ++ replicate 220 3) 2) (omega arith) refl
