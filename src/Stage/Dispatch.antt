-- ===== src/Stage/Dispatch.antt =====
-- Every path of `emit_full_group_run_compact` does the rounds from one and the same order.
use mathlib.Core.List.{Perm}
use mathlib.Core.List.Perm
use dirtybird_c_miner.Base.{
  ℕ, ◌+◌, ◌-◌, ◌*◌, ◌≤◌, ◌≡◌, refl, sym, ap, ap₂, ◌∙◌, Bool, inl, inr, List, [], ◌∷◌, length,
  Option, Ordered, Ordered-unique, leb, ◌<<<◌, if◌then◌else◌, Bool-cases, arith,
}
use dirtybird_c_miner.Stage.{
  stage4_max_group_count, stage4_short_run_max, Stage4InputView, has_load24_padding, Output, Limits,
}
use dirtybird_c_miner.Stage.Order.{
  suffix_less, shift_in, insert_from, insertion_sort, sort_stage4_suffix_order_small,
  sort_stage4_suffix_order, chunk_ends,
}
use dirtybird_c_miner.Stage.Lex.{HasText, below, below-IsTransitive, below-IsIrreflexive}
use dirtybird_c_miner.Stage.StdSort.{IsSort}
use dirtybird_c_miner.Stage.Induced.{sort_stage4_suffix_order_small-Ordered}
use dirtybird_c_miner.Stage.FirstOrder.{std_sort-chunk_ends}
use dirtybird_c_miner.Stage.Emit.{write_compact_order_group, write_sorted_group}
use dirtybird_c_miner.Stage.Rounds.{rounds, write_round, run_two, run_fixed, run_short}
use dirtybird_c_miner.Stage.Run.{emit_full_group_run_compact_short, emit_full_group_run_compact}
use dirtybird_c_miner.Stage.Paths.{rounds_eq, two_rounds_eq}

module _ (view : Stage4InputView) (text : HasText view) where
  -- There is one order of the chunks' ends.
  std_sort-eq-small :
      (std_sort : (ℕ → ℕ → Bool) → List ℕ → List ℕ) (base count : ℕ)
      → IsSort std_sort
      → base + count * 256 ≤ view.logical_len
      → std_sort (suffix_less view) (chunk_ends base 0 count)
        ≡ sort_stage4_suffix_order_small view (chunk_ends base 0 count)
  std_sort-eq-small std_sort base count sorts inside =
      let (up, perm) = std_sort-chunk_ends view text std_sort base count sorts inside in
      let (up', perm') = sort_stage4_suffix_order_small-Ordered view text base count inside in
      Ordered-unique (below view) (below-IsIrreflexive view) (below-IsTransitive view)
        (sort_stage4_suffix_order std_sort view (chunk_ends base 0 count))
        (sort_stage4_suffix_order_small view (chunk_ends base 0 count)) up up'
        (Perm.trans perm (Perm.symm perm'))

sort_two :
    (view : Stage4InputView) (a b : ℕ)
    → sort_stage4_suffix_order_small view (a ∷ b ∷ [])
      ≡ (if suffix_less view b a then b ∷ a ∷ [] else a ∷ b ∷ [])
unfolding sort_stage4_suffix_order_small insertion_sort insert_from shift_in
sort_two view a b = elim (Bool-cases (suffix_less view b a)) [
  | inl e ↦ rw e refl
  | inr e ↦ rw e refl
]

chunk_ends_two : (base : ℕ) → chunk_ends base 0 2 ≡ (base + 255) ∷ (base + 511) ∷ []
unfolding chunk_ends
chunk_ends_two base = ap₂ (λ a b. a ∷ b ∷ []) (omega arith) (omega arith)

module _ {S : Type 0} (write : ℕ → List ℕ → S → Option S) (view : Stage4InputView) where
  two_eq :
      (start_group : ℕ) (output : S)
      → run_two write view start_group output ≡ run_fixed write view 2 start_group output
  unfolding run_two run_fixed
  two_eq start_group output =
      let base = start_group <<< 8 in
      let padded = has_load24_padding view in
      rw (chunk_ends_two base, sort_two view (base + 255) (base + 511))
        (elim (Bool-cases (suffix_less view (base + 511) (base + 255))) [
          | inl e ↦ rw e (two_rounds_eq write view padded 255 (base + 511) (base + 255) output)
          | inr e ↦ rw e (two_rounds_eq write view padded 255 (base + 255) (base + 511) output)
        ])

  -- The short runs, whichever handler takes them.
  pub short_eq :
      (start_group end_group : ℕ) (output : S)
      → 2 ≤ end_group - start_group
      → end_group - start_group ≤ 25
      → run_short write view start_group end_group output
        ≡ run_fixed write view (end_group - start_group) start_group output
  unfolding run_short
  short_eq start_group end_group output low high = ground (arith, two_eq start_group output)

compact_eq :
    (std_sort : (ℕ → ℕ → Bool) → List ℕ → List ℕ) (limits : Limits) (view : Stage4InputView)
    (start_group end_group : ℕ) (output : Output)
    → 2 ≤ end_group - start_group
    → end_group - start_group ≤ stage4_max_group_count
    → std_sort (suffix_less view) (chunk_ends (start_group <<< 8) 0 (end_group - start_group))
      ≡ sort_stage4_suffix_order_small view
          (chunk_ends (start_group <<< 8) 0 (end_group - start_group))
    → emit_full_group_run_compact std_sort limits view start_group end_group output
      ≡ rounds
          (write_round (write_compact_order_group limits) view (has_load24_padding view))
          view
          255
          (sort_stage4_suffix_order_small view
            (chunk_ends (start_group <<< 8) 0 (end_group - start_group)))
          output
unfolding emit_full_group_run_compact emit_full_group_run_compact_short run_fixed
compact_eq std_sort limits view start_group end_group output low high sorted =
    let order =
      sort_stage4_suffix_order_small view
        (chunk_ends (start_group <<< 8) 0 (end_group - start_group)) in
    elim (Bool-cases (leb (end_group - start_group) stage4_short_run_max)) [
      | inl e ↦
          let small : end_group - start_group ≤ 25 = ground (arith, e) in
          ground (
            arith,
            e,
            short_eq (write_compact_order_group limits) view start_group end_group output low small,
          )
      | inr e ↦
          ground
            (arith, e, sorted, rounds_eq limits view (has_load24_padding view) 255 order output)
    ]

-- For a run of 2 to 512 full groups that lies within the text, and whatever `std::sort` does beyond
-- what it documents, `emit_full_group_run_compact` returns what the 256 rounds return from any
-- dictionary-ordered arrangement of the ends of the chunks: the handlers for two, for three or four
-- and for up to 25 groups, which sort by insertion or by one exchange, write the same records and
-- the same arena as the general loop and refuse in the same cases.
pub emit_full_group_run_compact_lem :
    (std_sort : (ℕ → ℕ → Bool) → List ℕ → List ℕ) (limits : Limits) (view : Stage4InputView)
    (start_group end_group : ℕ) (output : Output) (order : List ℕ)
    → IsSort std_sort
    → view.logical_len ≤ length view.bytes
    → start_group + 2 ≤ end_group
    → end_group ≤ start_group + 512
    → end_group * 256 ≤ view.logical_len
    → Ordered (below view) order
    → Perm order (chunk_ends (start_group * 256) 0 (end_group - start_group))
    → emit_full_group_run_compact std_sort limits view start_group end_group output
      ≡ rounds
          (write_round (write_sorted_group limits) view (has_load24_padding view))
          view
          255
          order
          output
emit_full_group_run_compact_lem std_sort limits view start_group end_group output order sorts text
      low high inside up perm =
    let base = start_group <<< 8 in
    let count = end_group - start_group in
    let small = sort_stage4_suffix_order_small view (chunk_ends base 0 count) in
    let within : base + count * 256 ≤ view.logical_len = omega arith in
    let (up', perm') = sort_stage4_suffix_order_small-Ordered view text base count within in
    let same : order ≡ small =
      Ordered-unique (below view) (below-IsIrreflexive view) (below-IsTransitive view) order small
        up up' (Perm.trans perm (Perm.symm perm')) in
    compact_eq std_sort limits view start_group end_group output (omega arith) (omega arith)
      (std_sort-eq-small view text std_sort base count sorts within)
    ∙ rounds_eq limits view (has_load24_padding view) 255 small output
    ∙ ap
        (λ l.
          rounds (write_round (write_sorted_group limits) view (has_load24_padding view)) view 255 l
            output)
        (sym same)
