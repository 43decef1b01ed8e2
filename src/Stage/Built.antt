-- ===== src/Stage/Built.antt =====
-- The whole last stage with trusted descriptors, from the runs that the checks let through.
use mathlib.Core.Logic.{∥∥₁_elim}
use mathlib.Core.HLevel.{×_prop, →_prop}
use native.Mathlib.Bridge.{le_prop}
use native.Mathlib.Nat.{ℕ_set}
use mathlib.Core.List.{Perm, Permᴰ, Perm-prop}
use mathlib.Core.List.Perm
use dirtybird_c_miner.Base.{
  ℕ, zero, suc, ◌+◌, ◌*◌, ◌/◌, ◌≤◌, ◌≡◌, refl, sym, ap, ap₂, ◌∙◌, subst, Bool, true, false, inl,
  inr, List, [], ◌∷◌, ◌++◌, drop, length, length-append, length-Perm, total, All, All-map, All-zip,
  All-IsProp, All-in_any_order, Ordered, some, Option-cases, bit_and_131071, arith,
}
use dirtybird_c_miner.Radix.Gather.{Pairwise-map, Pairwise-of}
use dirtybird_c_miner.Stage.{read_u32_le, write_u32_le}
use dirtybird_c_miner.Stage.Parse.{Stage5InputView}
use dirtybird_c_miner.Stage.Runs.{
  Stage5Run, make_stage5_run, stage5_run_is_literal, stage5_run_begin, stage5_run_encoded_count,
  stage5_run_count,
}
use dirtybird_c_miner.Stage.Covered.{swap_front}
use dirtybird_c_miner.Stage.Merge.{run_positions, flatten, segments_of}
use dirtybird_c_miner.Stage.KeyGroup.{length-positions_from}
use dirtybird_c_miner.Stage.Resolved.{not_after, InGroup, IsText, Sorted}
use dirtybird_c_miner.Stage.KeyBefore.{IsPadded}
use dirtybird_c_miner.Stage.Descriptors.{read_run, read_runs, trusted_runs}
use dirtybird_c_miner.Stage.RunSort.{radix_sort_runs_by_key}
use dirtybird_c_miner.Stage.RunOrder.{By, ordered_key, radix_sort_runs_by_key_lem}
use dirtybird_c_miner.Stage.Groups.{
  positions_bytes, write_sorted_runs, stage_v114_sa_build_descriptor_trusted,
}
use dirtybird_c_miner.Stage.Words.{IsInArena, IsArena}
use dirtybird_c_miner.Stage.GroupOrder.{IsRun}
use dirtybird_c_miner.Stage.Grouped.{KeyLe, write_sorted_runs_lem}

-- What the checks on the records ensure of the runs.
abbrev InRoom : ℕ → Stage5Run → Type 0
InRoom arena_count run =
    stage5_run_is_literal run ≡ false → stage5_run_begin run + stage5_run_count run ≤ arena_count

read_run-InRoom :
    (logical_len arena_count key packed t : ℕ) (run : Stage5Run) (t' : ℕ)
    → read_run logical_len arena_count key packed t ≡ some (run, t')
    → InRoom arena_count run × (t' ≡ t + stage5_run_count run)
unfolding read_run make_stage5_run stage5_run_is_literal stage5_run_count stage5_run_begin
    stage5_run_encoded_count
read_run-InRoom logical_len arena_count key packed t run t' e =
    let mask = bit_and_131071 packed in
    let mask' = bit_and_131071 run.packed in
    (λ literal. ground (arith, e, mask, mask', literal), ground (arith, e, mask, mask'))

read_runs-InRoom :
    (logical_len arena_count left : ℕ) (bytes : List ℕ) (t : ℕ) (runs : List Stage5Run) (t' : ℕ)
    → read_runs logical_len arena_count left bytes t ≡ some (runs, t')
    → All (InRoom arena_count) runs × (t' ≡ t + total stage5_run_count runs)
unfolding read_runs
read_runs-InRoom logical_len arena_count zero bytes t [] t' e = (tt, ground (arith, e))
read_runs-InRoom logical_len arena_count zero bytes t (run ∷ runs) t' e = absurd (ground (arith, e))
read_runs-InRoom logical_len arena_count (suc left) bytes t runs t' e =
    let read =
      read_run logical_len arena_count (read_u32_le bytes) (read_u32_le (drop 4 bytes)) t in
    elim (Option-cases read) [
      | inl gone ↦ absurd (ground (arith, e, gone))
      | inr ((run, u), there) ↦
          let (here, step) = read_run-InRoom logical_len arena_count _ _ t run u there in
          elim (Option-cases (read_runs logical_len arena_count left (drop 8 bytes) u)) [
            | inl gone ↦ absurd (ground (arith, e, there, gone))
            | inr ((more, v), there') ↦
                let (rest, sum) =
                  read_runs-InRoom logical_len arena_count left (drop 8 bytes) u more v there' in
                let runs_eq : runs ≡ run ∷ more = ground (arith, e, there, there') in
                let v_eq : t' ≡ v = ground (arith, e, there, there') in
                (
                  subst (All (InRoom arena_count)) (sym runs_eq) (here, rest),
                  subst (λ rs. t' ≡ t + total stage5_run_count rs) (sym runs_eq)
                      (omega (arith, v_eq, sum, step)),
                )
          ]
    ]

-- The runs that the checks let through are in the arena and have as many positions as the text.
pub trusted_runs-InRoom :
    (view : Stage5InputView) (out_cap : ℕ) (runs : List Stage5Run)
    → view.int_len ≤ length view.int_arena
    → trusted_runs view out_cap ≡ some runs
    → All (IsInArena view) runs × (total stage5_run_count runs ≡ view.logical_len)
unfolding trusted_runs
trusted_runs-InRoom view out_cap runs whole e =
    let read = read_runs view.logical_len (view.int_len / 4) (view.desc_len / 8) view.desc 0 in
    elim (Option-cases read) [
      | inl gone ↦ absurd (ground (arith, e, gone))
      | inr ((found, t), there) ↦
          let (inside, sum) =
            read_runs-InRoom view.logical_len (view.int_len / 4) (view.desc_len / 8) view.desc 0
              found t there in
          let same : found ≡ runs = ground (arith, e, there) in
          let full : t ≡ view.logical_len = ground (arith, e, there) in
          subst (λ rs. All (IsInArena view) rs × (total stage5_run_count rs ≡ view.logical_len))
            same
            (
              All-map (InRoom (view.int_len / 4)) (IsInArena view) found
                  (λ r room literal. omega (arith, room literal)) inside,
              omega (arith, sum, full),
            )
    ]

length-segments_of :
    (view : Stage5InputView) (runs : List Stage5Run)
    → length (flatten (segments_of view runs)) ≡ total stage5_run_count runs
unfolding flatten segments_of run_positions
length-segments_of view [] = refl
length-segments_of view (run ∷ runs) = omega (
  arith,
  length-append (run_positions view run) (flatten (segments_of view runs)),
  length-positions_from view run 0 (stage5_run_count run),
  length-segments_of view runs,
)

pub length-positions_bytes : (ps : List ℕ) → length (positions_bytes ps) ≡ length ps * 4
unfolding positions_bytes write_u32_le
length-positions_bytes [] = refl
length-positions_bytes (p ∷ ps) = omega (arith, length-positions_bytes ps)

module _ (view : Stage5InputView) where
  segments-Permᴰ :
      {xs ys : List Stage5Run}
      → Permᴰ xs ys
      → Perm (flatten (segments_of view xs)) (flatten (segments_of view ys))
  unfolding flatten segments_of
  segments-Permᴰ Permᴰ.nil = Perm.rfl
  segments-Permᴰ (Permᴰ.cons {a} {b} {l₁} {l₂} e p) =
      subst
        (λ r.
          Perm (run_positions view a ++ flatten (segments_of view l₁))
            (run_positions view r ++ flatten (segments_of view l₂)))
        e (Perm.append_left (run_positions view a) (segments-Permᴰ p))
  segments-Permᴰ (Permᴰ.swap {a} {b} {a'} {b'} {l} e f) =
      let pa = run_positions view a in
      let pb = run_positions view b in
      let rest = flatten (segments_of view l) in
      subst
        (λ (q : Stage5Run × Stage5Run).
          Perm (pa ++ (pb ++ rest)) (run_positions view q.0 ++ (run_positions view q.1 ++ rest)))
        (ap₂ (λ u v. (u, v)) f e) (swap_front pa pb rest)
  segments-Permᴰ (Permᴰ.trans p q) = Perm.trans (segments-Permᴰ p) (segments-Permᴰ q)

  pub segments-Perm :
      {xs ys : List Stage5Run}
      → Perm xs ys
      → Perm (flatten (segments_of view xs)) (flatten (segments_of view ys))
  segments-Perm p = ∥∥₁_elim p Perm-prop segments-Permᴰ

Ordered-IsProp : (less : ℕ → ℕ → Bool) (xs : List ℕ) → IsProp (Ordered less xs)
Ordered-IsProp less [] = hlevel
Ordered-IsProp less (x ∷ xs) =
    ×_prop (All-IsProp (λ y. less x y ≡ true) (λ y. hlevel) xs) (Ordered-IsProp less xs)

pub IsRun-IsProp :
    (view : Stage5InputView) (good : IsText view) (run : Stage5Run) → IsProp (IsRun view good run)
IsRun-IsProp view good run =
    ×_prop
      (×_prop
        (All-IsProp (InGroup view run.key) (λ p. ×_prop le_prop (ℕ_set _ _))
          (run_positions view run))
        (Ordered-IsProp (not_after view) (run_positions view run)))
      (→_prop le_prop)

-- Take a text followed by zero bytes, and records that pass the checks, whose runs each hold
-- positions with the run's key in the order of their suffixes. Then the call returns true, and the
-- words that it writes are all the positions of the runs, each as often as before, in the
-- dictionary order of the suffixes: no position stands before one with a smaller suffix. This is so
-- whatever the scratch vector held, and for groups of one run and of several.
pub stage_v114_sa_build_descriptor_trusted_lem :
    (view : Stage5InputView) (good : IsText view) (radix_tmp runs : List Stage5Run) (out_cap : ℕ)
    → IsPadded view
    → IsArena view
    → view.int_len ≤ length view.int_arena
    → trusted_runs view out_cap ≡ some runs
    → All (λ run. Sorted view run.key good (run_positions view run)) runs
    → (positions : List ℕ) × (stage_v114_sa_build_descriptor_trusted false radix_tmp view out_cap
        ≡ some (positions_bytes positions))
      × Ordered (not_after view) positions
      × Perm positions (flatten (segments_of view runs))
unfolding stage_v114_sa_build_descriptor_trusted
stage_v114_sa_build_descriptor_trusted_lem view good radix_tmp runs out_cap padded bytes whole e h =
    let any = λ (r s : Stage5Run). Unit {0} in
    let sorted = (radix_sort_runs_by_key runs radix_tmp).0 in
    let (by_key, perm) =
      radix_sort_runs_by_key_lem any runs radix_tmp (Pairwise-of any runs (λ r s. tt)) in
    let (inside, sum) = trusted_runs-InRoom view out_cap runs whole e in
    let each : All (IsRun view good) runs =
      All-zip (λ run. Sorted view run.key good (run_positions view run)) (IsInArena view)
        (IsRun view good) runs (λ r s a. (s, a)) h inside in
    let pairs =
      Pairwise-map (By ordered_key any) KeyLe sorted
        (λ r s by. elim by [ inl less ↦ omega arith | inr same ↦ omega (arith, same.0) ]) by_key in
    let (positions, out, ordered, perm') =
      write_sorted_runs_lem view good (length sorted) sorted (omega arith) bytes padded pairs
        (All-in_any_order (IsRun view good) (IsRun-IsProp view good) (Perm.symm perm) each) in
    let all = Perm.trans perm' (segments-Perm view perm) in
    let len : length (write_sorted_runs (length sorted) view sorted) ≡ view.logical_len * 4 =
      ap length out
      ∙ omega (
        arith,
        length-positions_bytes positions,
        length-Perm all,
        length-segments_of view runs,
        sum,
      ) in
    (positions, ground (arith, e, len, out), ordered, all)
