-- ===== src/Stage/HashGroups.antt =====
-- The fused form hashes what the last stage with trusted descriptors writes.
use mathlib.Core.List.{map, append-nil, append_assoc}
use dirtybird_c_miner.Base.{
  ℕ, zero, suc, ◌+◌, ◌^◌, ◌<◌, ◌≡◌, refl, sym, ap, ap₂, ◌∙◌, subst, false, ◌||◌, inl, inr, List, [],
  ◌∷◌, ◌++◌, length, take, drop, All, All-left, All-right, none, some, Option-cases, ltb, ◌==◌,
  ==_iff, Bool-cases, arith,
}
use dirtybird_c_miner.Stage.Order.{insertion_sort}
use dirtybird_c_miner.Stage.Parse.{Stage5InputView}
use dirtybird_c_miner.Stage.Runs.{
  Stage5Run, stage5_run_encoded_count, stage5_run_is_literal, stage5_run_begin, stage5_run_count,
  stage5_radix_order_key,
}
use dirtybird_c_miner.Stage.AfterKey.{suffix_less_after_key}
use dirtybird_c_miner.Stage.Merge.{
  run_positions, merge_loop, merge_sorted_suffix_positions_after_key, merge_pass, merge_passes,
  flatten, merge_equal_key_runs_after_key, literal_positions, try_write_literal_group,
  try_write_two_runs, segments_of, write_equal_key_group,
}
use dirtybird_c_miner.Stage.KeyGroup.{literal_one}
use dirtybird_c_miner.Stage.Groups.{
  positions_bytes, same_key_runs, write_single_run, write_group, write_sorted_runs,
}
use dirtybird_c_miner.Stage.GroupOrder.{positions_bytes-append}
use dirtybird_c_miner.Stage.Grouped.{ordered_key_inj}
use dirtybird_c_miner.Stage.HashSink.{
  FusedHashSink, fused_positions, fused_segments, fused_hash_sink_write_pos,
  fused_hash_sink_write_positions, write_each, fused_try_hash_literal_group,
  fused_try_hash_two_runs, hash_group, hash_sorted_runs,
}
use dirtybird_c_miner.Stage.SinkLaws.{
  IsStreaming, Absorbed, write_pos-Absorbed, write_each-Absorbed, write_positions-Absorbed,
}

-- The run with its key in the order of its bytes.
abbrev pub stored : Stage5Run → Stage5Run
stored run = record { key = stage5_radix_order_key run.key; packed = run.packed }

literal_positions-stored :
    (runs : List Stage5Run) → literal_positions (map stored runs) ≡ literal_positions runs
unfolding literal_positions stage5_run_is_literal stage5_run_begin stage5_run_encoded_count
literal_positions-stored [] = refl
literal_positions-stored (run ∷ runs) = rw (literal_positions-stored runs) refl

pub length-stored : (runs : List Stage5Run) → length (map stored runs) ≡ length runs
length-stored [] = refl
length-stored (run ∷ runs) = ap suc (length-stored runs)

same_key_runs-stored :
    (key : ℕ) (runs : List Stage5Run)
    → key < 2 ^ 24
    → All (λ r. r.key < 2 ^ 24) runs
    → same_key_runs (stage5_radix_order_key key) (map stored runs)
      ≡ (map stored (same_key_runs key runs).0, map stored (same_key_runs key runs).1)
unfolding same_key_runs
same_key_runs-stored key [] hk small = refl
same_key_runs-stored key (run ∷ runs) hk small =
    let rest = same_key_runs-stored key runs hk small.1 in
    elim (Bool-cases (key == run.key)) [
      | inl e ↦
          let same = ap stage5_radix_order_key ((==_iff key run.key).0 e) in
          let e' = (==_iff (stage5_radix_order_key key) (stage5_radix_order_key run.key)).1 same in
          rw (e, e') (ap (λ q. (stored run ∷ q.0, q.1)) rest)
      | inr e ↦
          let inj = ordered_key_inj key run.key hk small.0 in
          let apart : (stage5_radix_order_key key == stage5_radix_order_key run.key) ≡ false =
            elim (Bool-cases (stage5_radix_order_key key == stage5_radix_order_key run.key)) [
              | inl same ↦ absurd (ground (arith, e, same, inj))
              | inr other ↦ other
            ] in
          rw (e, apart) refl
    ]

same_key_runs-append :
    (key : ℕ) (runs : List Stage5Run)
    → (same_key_runs key runs).0 ++ (same_key_runs key runs).1 ≡ runs
unfolding same_key_runs
same_key_runs-append key [] = refl
same_key_runs-append key (run ∷ runs) = elim (Bool-cases (key == run.key)) [
  | inl e ↦ rw e (ap (λ l. run ∷ l) (same_key_runs-append key runs))
  | inr e ↦ rw e refl
]

-- The merges of two views with the same comparison.
module _ (bare view : Stage5InputView)
    (same_less : suffix_less_after_key bare ≡ suffix_less_after_key view) where
  merge_pass_eq : (segments : List (List ℕ)) → merge_pass bare segments ≡ merge_pass view segments
  unfolding merge_pass merge_sorted_suffix_positions_after_key
  merge_pass_eq [] = refl
  merge_pass_eq (segment ∷ []) = refl
  merge_pass_eq (left ∷ right ∷ segments) =
      ap₂ ◌∷◌ (ap (λ less. merge_loop less (length left + length right) left right) same_less)
        (merge_pass_eq segments)

  merge_passes_eq :
      (fuel : ℕ) (segments : List (List ℕ))
      → merge_passes bare fuel segments ≡ merge_passes view fuel segments
  unfolding merge_passes
  merge_passes_eq zero segments = refl
  merge_passes_eq (suc fuel) segments = elim (Bool-cases (ltb 1 (length segments))) [
    | inl e ↦
        rw (e, merge_passes)
          (merge_passes_eq fuel (merge_pass bare segments)
            ∙ ap (merge_passes view fuel) (merge_pass_eq segments))
    | inr e ↦ rw (e, merge_passes) refl
  ]

  merge_equal_eq :
      (segments : List (List ℕ))
      → merge_equal_key_runs_after_key bare segments ≡ merge_equal_key_runs_after_key view segments
  unfolding merge_equal_key_runs_after_key
  merge_equal_eq segments = ap flatten (merge_passes_eq (length segments) segments)

-- The fused form reads the same positions of a run, from the entries of its arena.
abbrev pub Agrees : List ℕ → Stage5InputView → Stage5Run → Type 0
Agrees arena view run =
    (fused_positions arena (stored run) ≡ run_positions view run)
    × (stage5_run_is_literal run ≡ false
        → take (stage5_run_count run) (drop (stage5_run_begin run) arena) ≡ run_positions view run)

fused_segments-stored :
    (arena : List ℕ) (view : Stage5InputView) (runs : List Stage5Run)
    → All (Agrees arena view) runs
    → fused_segments arena (map stored runs) ≡ segments_of view runs
unfolding fused_segments segments_of
fused_segments-stored arena view [] h = refl
fused_segments-stored arena view (run ∷ runs) h =
    ap₂ ◌∷◌ h.0.0 (fused_segments-stored arena view runs h.1)

pub is_literal-stored :
    (run : Stage5Run) → stage5_run_is_literal (stored run) ≡ stage5_run_is_literal run
unfolding stage5_run_is_literal stage5_run_encoded_count
is_literal-stored run = refl

pub begin-stored : (run : Stage5Run) → stage5_run_begin (stored run) ≡ stage5_run_begin run
unfolding stage5_run_begin
begin-stored run = refl

pub count-stored : (run : Stage5Run) → stage5_run_count (stored run) ≡ stage5_run_count run
unfolding stage5_run_count stage5_run_encoded_count
count-stored run = refl

module _ {Ctx : Type 0} (update : Ctx → List ℕ → Ctx) (streaming : IsStreaming update) (start : Ctx)
    (arena : List ℕ) (bare view : Stage5InputView)
    (same_less : suffix_less_after_key bare ≡ suffix_less_after_key view) where
  -- The positions of a group.
  abbrev group_positions : Stage5Run → List Stage5Run → List ℕ
  group_positions run [] = run_positions view run
  group_positions run (next ∷ others) = write_equal_key_group view (run ∷ next ∷ others)

  abbrev Absorbs : FusedHashSink Ctx → List ℕ → Type 0
  Absorbs = Absorbed update streaming start

  hash_group-single :
      (run : Stage5Run) (sink : FusedHashSink Ctx) (before : List ℕ)
      → Agrees arena view run
      → Absorbs sink before
      → Absorbs
          (hash_group update bare arena (stored run) [] sink)
          (before ++ run_positions view run)
  unfolding hash_group
  hash_group-single run sink before agrees h = elim (Bool-cases (stage5_run_is_literal run)) [
    | inl e ↦
        let eq : hash_group update bare arena (stored run) [] sink
            ≡ fused_hash_sink_write_pos update sink (stage5_run_begin run) =
          rw (is_literal-stored run, e, begin-stored run) refl in
        subst (λ w. Absorbs w (before ++ run_positions view run)) (sym eq)
          (rw (literal_one view run e)
            (write_pos-Absorbed update streaming start sink before (stage5_run_begin run) h))
    | inr e ↦
        let slice = take (stage5_run_count run) (drop (stage5_run_begin run) arena) in
        let eq : hash_group update bare arena (stored run) [] sink
            ≡ fused_hash_sink_write_positions update sink slice =
          rw (is_literal-stored run, e, begin-stored run, count-stored run) refl in
        subst (λ w. Absorbs w (before ++ run_positions view run)) (sym eq)
          (subst (λ l. Absorbs (fused_hash_sink_write_positions update sink slice) (before ++ l))
            (agrees.1 e) (write_positions-Absorbed update streaming start sink before slice h))
  ]

  literal_group_eq :
      (runs : List Stage5Run) (sink : FusedHashSink Ctx)
      → fused_try_hash_literal_group update bare (map stored runs) sink
        ≡ (elim (try_write_literal_group view runs) [
          | none ↦ none
          | some positions ↦ some (write_each update sink positions)
        ])
  unfolding fused_try_hash_literal_group try_write_literal_group
  literal_group_eq runs sink =
      rw (length-stored runs, literal_positions-stored runs)
        (elim (Bool-cases ((length runs == 0) || ltb 32 (length runs))) [
          | inl e ↦ rw e refl
          | inr e ↦ elim (Option-cases (literal_positions runs)) [
            | inl gone ↦ rw (e, gone) refl
            | inr (positions, there) ↦
                rw (e, there)
                  (ap (λ less. some (write_each update sink (insertion_sort less positions)))
                    same_less)
          ]
        ])

  two_runs_eq :
      (runs : List Stage5Run) (sink : FusedHashSink Ctx)
      → All (Agrees arena view) runs
      → fused_try_hash_two_runs update bare arena (map stored runs) sink
        ≡ (elim (try_write_two_runs view runs) [
          | none ↦ none
          | some positions ↦ some (write_each update sink positions)
        ])
  unfolding fused_try_hash_two_runs try_write_two_runs stage5_run_count stage5_run_encoded_count
  two_runs_eq [] sink h = refl
  two_runs_eq (left ∷ []) sink h = refl
  two_runs_eq (left ∷ right ∷ []) sink h = rw (h.0.0, h.1.0.0, same_less) refl
  two_runs_eq (left ∷ right ∷ next ∷ runs) sink h = refl

  hash_group-Absorbed :
      (run : Stage5Run) (others : List Stage5Run) (sink : FusedHashSink Ctx) (before : List ℕ)
      → All (Agrees arena view) (run ∷ others)
      → Absorbs sink before
      → Absorbs
          (hash_group update bare arena (stored run) (map stored others) sink)
          (before ++ group_positions run others)
  unfolding hash_group write_equal_key_group
  hash_group-Absorbed run [] sink before agrees h = hash_group-single run sink before agrees.0 h
  hash_group-Absorbed run (next ∷ others) sink before agrees h =
      let runs = run ∷ next ∷ others in
      let literal = literal_group_eq runs sink in
      let two = two_runs_eq runs sink agrees in
      let W = λ (s : FusedHashSink Ctx).
        hash_group update bare arena (stored run) (map stored (next ∷ others)) s in
      let finish =
        λ (w : FusedHashSink Ctx) (ps : List ℕ) (eq : W sink ≡ w)
            (eq' : write_equal_key_group view runs ≡ ps) (a : Absorbs w (before ++ ps)).
          subst (λ v. Absorbs v (before ++ write_equal_key_group view runs)) (sym eq)
            (subst (λ l. Absorbs w (before ++ l)) (sym eq') a) in
      let each = λ (ps : List ℕ). write_each-Absorbed update streaming start ps sink before h in
      elim (Option-cases (try_write_literal_group view runs)) [
        | inr (ps, e) ↦
            let eq : W sink ≡ write_each update sink ps = ground (arith, literal, e) in
            let eq' : write_equal_key_group view runs ≡ ps = ground (arith, e) in
            finish (write_each update sink ps) ps eq eq' (each ps)
        | inl none_literal ↦ elim (Option-cases (try_write_two_runs view runs)) [
          | inr (ps, e) ↦
              let eq : W sink ≡ write_each update sink ps =
                ground (arith, literal, none_literal, two, e) in
              let eq' : write_equal_key_group view runs ≡ ps = ground (arith, none_literal, e) in
              finish (write_each update sink ps) ps eq eq' (each ps)
          | inl none_two ↦
              let merged = merge_equal_key_runs_after_key view (segments_of view runs) in
              let same = ap (fused_hash_sink_write_positions update sink) (
                merge_equal_eq bare view same_less (fused_segments arena (map stored runs))
                ∙ ap (merge_equal_key_runs_after_key view)
                    (fused_segments-stored arena view runs agrees)) in
              let eq : W sink ≡ fused_hash_sink_write_positions update sink merged =
                ground (arith, literal, none_literal, two, none_two, same) in
              let eq' : write_equal_key_group view runs ≡ merged =
                ground (arith, none_literal, none_two) in
              finish (fused_hash_sink_write_positions update sink merged) merged eq eq'
                (write_positions-Absorbed update streaming start sink before merged h)
        ]
      ]

  group_bytes :
      (run : Stage5Run) (others : List Stage5Run)
      → write_single_run view run ≡ positions_bytes (run_positions view run)
      → write_group view run others ≡ positions_bytes (group_positions run others)
  unfolding write_group
  group_bytes run [] single = single
  group_bytes run (next ∷ others) single = refl

  pub hash_sorted_runs-Absorbed :
      (fuel : ℕ) (runs : List Stage5Run) (sink : FusedHashSink Ctx) (before : List ℕ)
      → All (Agrees arena view) runs
      → All (λ r. r.key < 2 ^ 24) runs
      → All (λ r. write_single_run view r ≡ positions_bytes (run_positions view r)) runs
      → Absorbs sink before
      → (positions : List ℕ) × (write_sorted_runs fuel view runs ≡ positions_bytes positions)
        × Absorbs
            (hash_sorted_runs update fuel bare arena (map stored runs) sink)
            (before ++ positions)
  unfolding hash_sorted_runs write_sorted_runs positions_bytes
  hash_sorted_runs-Absorbed zero runs sink before agrees small single h =
      ([], refl, subst (Absorbs sink) (sym (append-nil before)) h)
  hash_sorted_runs-Absorbed (suc fuel) [] sink before agrees small single h =
      ([], refl, subst (Absorbs sink) (sym (append-nil before)) h)
  hash_sorted_runs-Absorbed (suc fuel) (run ∷ runs) sink before agrees small single h =
      let others = (same_key_runs run.key runs).0 in
      let later = (same_key_runs run.key runs).1 in
      let split = same_key_runs-stored run.key runs small.0 small.1 in
      let whole = same_key_runs-append run.key runs in
      let agrees' = subst (All (Agrees arena view)) (sym whole) agrees.1 in
      let small' = subst (All (λ r. r.key < 2 ^ 24)) (sym whole) small.1 in
      let single' =
        subst (All (λ r. write_single_run view r ≡ positions_bytes (run_positions view r)))
          (sym whole) single.1 in
      let next = hash_group update bare arena (stored run) (map stored others) sink in
      let (ps, out, h') =
        hash_sorted_runs-Absorbed fuel later next (before ++ group_positions run others)
          (All-right (Agrees arena view) others later agrees')
          (All-right (λ r. r.key < 2 ^ 24) others later small')
          (All-right (λ r. write_single_run view r ≡ positions_bytes (run_positions view r)) others
            later single')
          (hash_group-Absorbed run others sink before
            (agrees.0, All-left (Agrees arena view) others later agrees') h) in
      (
        group_positions run others ++ ps,
        ap₂ ◌++◌ (group_bytes run others single.0) out
            ∙ sym (positions_bytes-append (group_positions run others) ps),
        subst
            (λ (g : List Stage5Run × List Stage5Run).
              Absorbs
                (hash_sorted_runs update fuel bare arena g.1
                  (hash_group update bare arena (stored run) g.0 sink))
                (before ++ (group_positions run others ++ ps)))
            (sym split)
            (subst (Absorbs (hash_sorted_runs update fuel bare arena (map stored later) next))
              (append_assoc before (group_positions run others) ps) h'),
      )
