-- ===== src/Stage/Rounds.antt =====
-- The rounds of a run of full groups in src/v114_stubs.cpp: the source repeats these loops for each
-- place that the groups of a round may go to, here the writer `write` on its state.
use dirtybird_c_miner.Base.{
  ℕ, zero, suc, ◌+◌, ◌-◌, Bool, ◌||◌, List, [], ◌∷◌, Option, none, some, ltb, ◌==◌, ◌<<<◌,
  if◌then◌else◌,
}
use dirtybird_c_miner.Stage.{
  stage4_short_run_max, Stage4InputView, byte_at, has_load24_padding, load24_fast,
}
use dirtybird_c_miner.Stage.Order.{
  suffix_less, sort_stage4_suffix_order_small, chunk_ends, step_order,
}
use dirtybird_c_miner.Stage.Emit.{Group, key_groups}

-- The rounds from `rel` down to 0: what a round writes, then the step to the next order.
unfoldable pub rounds :
    {S : Type 0} → (ℕ → List ℕ → S → Option S) → Stage4InputView → ℕ → List ℕ → S → Option S
rounds round view zero order state = round 0 order state
rounds round view (suc rel) order state = elim (round (suc rel) order state) [
  | none ↦ none
  | some next ↦ rounds round view rel (step_order view order) next
]

module _ {S : Type 0} (write : ℕ → List ℕ → S → Option S) where
  -- The groups of a round, one after the other.
  unfoldable pub write_groups : List Group → S → Option S
  write_groups [] state = some state
  write_groups (g ∷ groups) state = elim (write g.key g.members state) [
    | none ↦ none
    | some next ↦ write_groups groups next
  ]

  -- What a round writes.
  unfoldable pub write_round : Stage4InputView → Bool → ℕ → List ℕ → S → Option S
  write_round view padded rel order state =
      write_groups (key_groups (λ pos. load24_fast view pos padded) order) state

  -- What a round over two groups writes.
  unfoldable pub write_two : Stage4InputView → Bool → ℕ → ℕ → S → Option S
  write_two view padded first second state =
      let key0 = load24_fast view first padded in
      let key1 = load24_fast view second padded in
      if key0 == key1
      then write key0 (first ∷ second ∷ []) state
      else elim (write key0 (first ∷ []) state) [
        | none ↦ none
        | some next ↦ write key1 (second ∷ []) next
      ]

  -- The rounds over two groups, from `rel` down to 0.
  unfoldable pub two_rounds : Stage4InputView → Bool → ℕ → ℕ → ℕ → S → Option S
  two_rounds view padded zero first second state = write_two view padded first second state
  two_rounds view padded (suc rel) first second state =
      elim (write_two view padded first second state) [
        | none ↦ none
        | some next ↦
            let swapped = ltb (byte_at view (second - 1)) (byte_at view (first - 1)) in
            two_rounds view padded rel (if swapped then second - 1 else first - 1)
              (if swapped then first - 1 else second - 1) next
      ]

  -- A run of two groups.
  unfoldable pub run_two : Stage4InputView → ℕ → S → Option S
  run_two view start_group state =
      let base = start_group <<< 8 in
      let swapped = suffix_less view (base + 511) (base + 255) in
      two_rounds view (has_load24_padding view) 255 (if swapped then base + 511 else base + 255)
        (if swapped then base + 255 else base + 511) state

  -- A run whose first order comes from `sort_stage4_suffix_order_small`.
  unfoldable pub run_fixed : Stage4InputView → ℕ → ℕ → S → Option S
  run_fixed view group_count start_group state =
      rounds (write_round view (has_load24_padding view)) view 255
        (sort_stage4_suffix_order_small view (chunk_ends (start_group <<< 8) 0 group_count)) state

  -- The choice between the handlers of short runs.
  unfoldable pub run_short : Stage4InputView → ℕ → ℕ → S → Option S
  run_short view start_group end_group state =
      let group_count = end_group - start_group in
      if (group_count == 0) || ltb stage4_short_run_max group_count
      then none
      else if group_count == 2
      then run_two view start_group state
      else if group_count == 3
      then run_fixed view 3 start_group state
      else if group_count == 4
      then run_fixed view 4 start_group state
      else run_fixed view group_count start_group state
