-- ===== src/Stage/KeyGroup.antt =====
-- The three ways to write a group of runs with one key agree on its order.
use mathlib.Core.List.{Perm, append-nil}
use dirtybird_c_miner.Base.{
  ℕ, zero, suc, ◌+◌, ◌≡◌, refl, sym, ap, subst, true, List, [], ◌∷◌, ◌++◌, length, some, All,
  All-map, All-append, Ordered, Bool-cases, Option-cases, inl, inr, arith,
}
use dirtybird_c_miner.Stage.Order.{insertion_sort}
use dirtybird_c_miner.Stage.Insertion.{Decides, DecidesAll, insertion_sort-Ordered}
use dirtybird_c_miner.Stage.Parse.{Stage5InputView}
use dirtybird_c_miner.Stage.Runs.{
  Stage5Run, stage5_run_is_literal, stage5_run_begin, stage5_run_count,
}
use dirtybird_c_miner.Stage.AfterKey.{suffix_less_after_key}
use dirtybird_c_miner.Stage.Merge.{
  stage5_run_pos, positions_from, run_positions, merge_loop, merge_passes, flatten,
  merge_equal_key_runs_after_key, literal_positions, try_write_literal_group, try_write_two_runs,
  segments_of, write_equal_key_group,
}
use dirtybird_c_miner.Stage.Resolved.{
  not_after, not_after-IsTransitive, InGroup, IsText, decides, merged_lem, Sorted, merge_passes_lem,
  flatten-Ordered,
}

pub length-positions_from :
    (view : Stage5InputView) (run : Stage5Run) (rel left : ℕ)
    → length (positions_from view run rel left) ≡ left
unfolding positions_from
length-positions_from view run rel zero = refl
length-positions_from view run rel (suc left) =
    ap suc (length-positions_from view run (suc rel) left)

pub literal_one :
    (view : Stage5InputView) (run : Stage5Run)
    → stage5_run_is_literal run ≡ true
    → run_positions view run ≡ stage5_run_begin run ∷ []
unfolding run_positions stage5_run_count stage5_run_is_literal positions_from stage5_run_pos
literal_one view run e = ground (arith, e)

literal_positions_eq :
    (view : Stage5InputView) (runs : List Stage5Run) (positions : List ℕ)
    → literal_positions runs ≡ some positions
    → positions ≡ flatten (segments_of view runs)
unfolding literal_positions flatten segments_of
literal_positions_eq view [] positions e = cc
literal_positions_eq view (run ∷ runs) positions e = elim (Bool-cases (stage5_run_is_literal run)) [
  | inr no_literal ↦ absurd (ground (arith, e, no_literal))
  | inl literal ↦ elim (Option-cases (literal_positions runs)) [
    | inl gone ↦ absurd (ground (arith, e, literal, gone))
    | inr (rest, there) ↦
        let ih = literal_positions_eq view runs rest there in
        let one = literal_one view run literal in ground (arith, e, literal, there, ih, one)
  ]
]

module _ (view : Stage5InputView) (key : ℕ) (good : IsText view) where
  DecidesAll-of :
      (xs : List ℕ)
      → All (InGroup view key) xs
      → DecidesAll (suffix_less_after_key view) (not_after view) xs
  DecidesAll-of [] h = tt
  DecidesAll-of (y ∷ xs) h = (
    All-map (InGroup view key) (λ x. Decides (suffix_less_after_key view) (not_after view) x y) xs
        (λ x hx. decides view key good x y hx h.0) h.1,
    DecidesAll-of xs h.1,
  )

  Sorted-flatten :
      (segments : List (List ℕ))
      → All (Sorted view key good) segments
      → All (InGroup view key) (flatten segments)
  unfolding flatten
  Sorted-flatten [] h = tt
  Sorted-flatten (segment ∷ segments) h =
      All-append (InGroup view key) segment (flatten segments) h.0.0 (Sorted-flatten segments h.1)

  -- What is written for a group, against all its positions.
  abbrev pub IsResolved : List Stage5Run → List ℕ → Type 0
  IsResolved runs out = Ordered (not_after view) out × Perm out (flatten (segments_of view runs))

  literal_group_lem :
      (runs : List Stage5Run) (out : List ℕ)
      → All (Sorted view key good) (segments_of view runs)
      → try_write_literal_group view runs ≡ some out
      → IsResolved runs out
  unfolding try_write_literal_group
  literal_group_lem runs out h e = elim (Option-cases (literal_positions runs)) [
    | inl gone ↦ absurd (ground (arith, e, gone))
    | inr (positions, there) ↦
        let same = literal_positions_eq view runs positions there in
        let within : All (InGroup view key) positions =
          subst (All (InGroup view key)) (sym same) (Sorted-flatten (segments_of view runs) h) in
        let sorted =
          insertion_sort-Ordered (suffix_less_after_key view) (not_after view)
            (not_after-IsTransitive view) positions (DecidesAll-of positions within) in
        let out_eq : out ≡ insertion_sort (suffix_less_after_key view) positions =
          ground (arith, e, there) in
        subst (IsResolved runs) (sym out_eq) (
          sorted.0,
          subst (Perm (insertion_sort (suffix_less_after_key view) positions)) same sorted.1,
        )
  ]

  two_runs_lem :
      (runs : List Stage5Run) (out : List ℕ)
      → All (Sorted view key good) (segments_of view runs)
      → try_write_two_runs view runs ≡ some out
      → IsResolved runs out
  unfolding try_write_two_runs segments_of flatten run_positions
  two_runs_lem [] out h e = cc
  two_runs_lem (left ∷ []) out h e = cc
  two_runs_lem (left ∷ right ∷ []) out h e =
      let ls = run_positions view left in
      let rs = run_positions view right in
      let fuel = stage5_run_count left + stage5_run_count right in
      let (p, o, q) =
        merged_lem view key good fuel ls rs
          (omega (
            arith,
            length-positions_from view left 0 (stage5_run_count left),
            length-positions_from view right 0 (stage5_run_count right),
          ))
          h.0.0 h.1.0.0 h.0.1 h.1.0.1 in
      let out_eq : out ≡ merge_loop (suffix_less_after_key view) fuel ls rs = cc in
      subst (λ l. Ordered (not_after view) l × Perm l (ls ++ (rs ++ []))) (sym out_eq)
        (
          o,
          subst (λ l. Perm (merge_loop (suffix_less_after_key view) fuel ls rs) (ls ++ l))
              (sym (append-nil rs)) q,
        )
  two_runs_lem (left ∷ right ∷ next ∷ runs) out h e = cc

  merged_runs_lem :
      (runs : List Stage5Run)
      → All (Sorted view key good) (segments_of view runs)
      → IsResolved runs (merge_equal_key_runs_after_key view (segments_of view runs))
  unfolding merge_equal_key_runs_after_key
  merged_runs_lem runs h =
      let segments = segments_of view runs in
      let (sorted, perm, one) =
        merge_passes_lem view key good (length segments) segments (omega arith) h in
      (
        flatten-Ordered view key good (merge_passes view (length segments) segments) one sorted,
        perm,
      )

-- A group of runs with one key, each of them in the order of its suffixes, is written as all their
-- positions, each as often as before, in the dictionary order of the suffixes: no position stands
-- before one with a smaller suffix. This is so whichever path takes the group, the insertion sort of
-- up to 32 literals, the merge of two runs, or the passes that merge neighbours.
pub write_equal_key_group_lem :
    (view : Stage5InputView) (key : ℕ) (runs : List Stage5Run) (good : IsText view)
    → All (Sorted view key good) (segments_of view runs)
    → Ordered (not_after view) (write_equal_key_group view runs)
      × Perm (write_equal_key_group view runs) (flatten (segments_of view runs))
unfolding write_equal_key_group
write_equal_key_group_lem view key runs good h =
    elim (Option-cases (try_write_literal_group view runs)) [
      | inr (out, e) ↦
          subst (IsResolved view key good runs) (sym (ground (arith, e)))
            (literal_group_lem view key good runs out h e)
      | inl none_literal ↦ elim (Option-cases (try_write_two_runs view runs)) [
        | inr (out, e) ↦
            subst (IsResolved view key good runs) (sym (ground (arith, none_literal, e)))
              (two_runs_lem view key good runs out h e)
        | inl none_two ↦
            subst (IsResolved view key good runs) (sym (ground (arith, none_literal, none_two)))
              (merged_runs_lem view key good runs h)
      ]
    ]
