-- ===== src/Stage/Grouped.antt =====
-- All groups, one after the other: the runs in the order of their keys give the order of the
-- suffixes.
use mathlib.Core.List.{Perm, append_assoc}
use mathlib.Core.List.Perm
use mathlib.Core.HLevel.{×_prop}
use native.Mathlib.Bridge.{le_prop}
use native.Mathlib.Nat.{ℕ_set}
use dirtybird_c_miner.Base.{
  ℕ, zero, suc, ◌^◌, ◌≤◌, ◌<◌, ◌≡◌, ◌≢◌, refl, sym, ap, ap₂, ◌∙◌, subst, true, inl, inr, List, [],
  ◌∷◌, ◌++◌, length, length-append, All, All-left, All-right, All-map, All-zip, All-in_any_order,
  Ordered-append_all, ◌==◌, ==_iff, Bool-cases, arith,
}
use dirtybird_c_miner.Radix.Gather.{Pairwise}
use dirtybird_c_miner.Stage.{load24_padded}
use dirtybird_c_miner.Stage.Parse.{Stage5InputView}
use dirtybird_c_miner.Stage.Runs.{Stage5Run, stage5_run_count, stage5_radix_order_key}
use dirtybird_c_miner.Stage.Memcmp.{text_of}
use dirtybird_c_miner.Stage.KeyOrder.{load24_padded_lem, get_or-byte}
use dirtybird_c_miner.Stage.Merge.{positions_from, run_positions, flatten, segments_of}
use dirtybird_c_miner.Stage.Resolved.{not_after, InGroup, IsText}
use dirtybird_c_miner.Stage.KeyBefore.{IsPadded, key_lt-below, below-not_after}
use dirtybird_c_miner.Stage.RunOrder.{ordered_key, stage5_radix_order_key_lem}
use dirtybird_c_miner.Stage.Groups.{positions_bytes, same_key_runs, write_sorted_runs}
use dirtybird_c_miner.Stage.Words.{IsArena}
use dirtybird_c_miner.Stage.GroupOrder.{
  IsRun, Above, IsWritten, positions_bytes-append, segments-All, write_group_lem,
}

Pairwise-right {ℓ κ} :
    {A : Type ℓ} (R : A → A → Type κ) (xs ys : List A) → Pairwise R (xs ++ ys) → Pairwise R ys
Pairwise-right R [] ys h = h
Pairwise-right R (x ∷ xs) ys h = Pairwise-right R xs ys h.1

pub flatten-segments_of-append :
    (view : Stage5InputView) (xs ys : List Stage5Run)
    → flatten (segments_of view (xs ++ ys))
      ≡ flatten (segments_of view xs) ++ flatten (segments_of view ys)
unfolding flatten segments_of
flatten-segments_of-append view [] ys = refl
flatten-segments_of-append view (run ∷ xs) ys =
    simp (flatten-segments_of-append view xs ys, append_assoc)

-- The order of the keys' bytes.
abbrev pub KeyLe : Stage5Run → Stage5Run → Type 0
KeyLe r s = ordered_key r ≤ ordered_key s

pub ordered_key_inj :
    (j k : ℕ)
    → j < 2 ^ 24
    → k < 2 ^ 24
    → stage5_radix_order_key j ≡ stage5_radix_order_key k
    → j ≡ k
ordered_key_inj j k hj hk e =
    omega (arith, stage5_radix_order_key_lem j, stage5_radix_order_key_lem k)

count_pos : (run : Stage5Run) → 0 < stage5_run_count run
unfolding stage5_run_count
count_pos run = ground arith

module _ (view : Stage5InputView) (good : IsText view) where
  key_small :
      (run : Stage5Run) (key count : ℕ)
      → 0 < count
      → All (InGroup view key) (positions_from view run 0 count)
      → key < 2 ^ 24
  unfolding positions_from
  key_small run key zero some_left h = absurd (omega arith)
  key_small run key (suc count) some_left h =
      let small = λ (q : ℕ). get_or-byte view.bytes q good.0 in
      let spelled = load24_padded_lem (text_of view) good.1 small in
      omega (arith, h.0.1, spelled _, small _)

  pub IsRun-key : (run : Stage5Run) → IsRun view good run → run.key < 2 ^ 24
  unfolding run_positions
  IsRun-key run h = key_small run run.key (stage5_run_count run) (count_pos run) h.0.0

  -- The group and the runs behind it, from runs in the order of their keys.
  same_key_runs_lem :
      (key : ℕ) (runs : List Stage5Run)
      → key < 2 ^ 24
      → All (λ r. r.key < 2 ^ 24) runs
      → All (λ r. stage5_radix_order_key key ≤ ordered_key r) runs
      → Pairwise KeyLe runs
      → ((same_key_runs key runs).0 ++ (same_key_runs key runs).1 ≡ runs)
        × All (λ r. r.key ≡ key) (same_key_runs key runs).0
        × All (λ r. stage5_radix_order_key key < ordered_key r) (same_key_runs key runs).1
  unfolding same_key_runs
  same_key_runs_lem key [] hk small above pairs = (refl, tt, tt)
  same_key_runs_lem key (run ∷ runs) hk small above pairs = elim (Bool-cases (key == run.key)) [
    | inl e ↦
        let (whole, same, later) = same_key_runs_lem key runs hk small.1 above.1 pairs.1 in
        rw e (ap (λ l. run ∷ l) whole, (sym ((==_iff key run.key).0 e), same), later)
    | inr e ↦
        let apart : key ≢ run.key = λ q. absurd (ground (arith, e, q)) in
        let inj = ordered_key_inj key run.key hk small.0 in
        let less : stage5_radix_order_key key < ordered_key run =
          ground (arith, above.0, inj, apart) in
        rw e (
          refl,
          tt,
          (
            less,
            All-map (KeyLe run) (λ r. stage5_radix_order_key key < ordered_key r) runs
                (λ r le. omega (arith, less)) pairs.0,
          ),
        )
  ]

  Above-group :
      (key : ℕ) (runs : List Stage5Run)
      → All (IsRun view good) runs
      → All (λ r. stage5_radix_order_key key < ordered_key r) runs
      → All (Above view key) (flatten (segments_of view runs))
  Above-group key runs h above = segments-All view good (Above view key) runs (
      All-zip (IsRun view good) (λ r. stage5_radix_order_key key < ordered_key r)
        (λ r. All (Above view key) (run_positions view r)) runs
        (λ r hr less.
          All-map (InGroup view r.key) (Above view key) (run_positions view r)
            (λ p hp.
              subst (λ (k : ℕ). stage5_radix_order_key key < stage5_radix_order_key k) (sym hp.1)
                less)
            hr.0.0)
        h above)

  within_group :
      (key : ℕ) (runs : List Stage5Run)
      → All (IsRun view good) runs
      → All (λ r. r.key ≡ key) runs
      → All (InGroup view key) (flatten (segments_of view runs))
  within_group key runs h same = segments-All view good (InGroup view key) runs (
      All-zip (IsRun view good) (λ r. r.key ≡ key)
        (λ r. All (InGroup view key) (run_positions view r)) runs
        (λ r hr e. subst (λ (k : ℕ). All (InGroup view k) (run_positions view r)) e hr.0.0) h same)

  -- Positions with a key, and behind them positions above it.
  key_then-Above :
      (key : ℕ) (xs ys : List ℕ)
      → IsPadded view
      → All (InGroup view key) xs
      → All (Above view key) ys
      → All (λ x. All (λ y. not_after view x y ≡ true) ys) xs
  key_then-Above key xs ys padded hx hy =
      All-map (InGroup view key) (λ x. All (λ y. not_after view x y ≡ true) ys) xs
        (λ x px.
          All-map (Above view key) (λ y. not_after view x y ≡ true) ys
            (λ y py. below-not_after view good padded x y (
              key_lt-below view good padded x y (
                subst
                  (λ (k : ℕ).
                    stage5_radix_order_key k
                    < stage5_radix_order_key (load24_padded (text_of view) y))
                  (sym px.1) py)))
            hy)
        hx

  pub write_sorted_runs_lem :
      (fuel : ℕ) (runs : List Stage5Run)
      → length runs ≤ fuel
      → IsArena view
      → IsPadded view
      → Pairwise KeyLe runs
      → All (IsRun view good) runs
      → IsWritten view good runs (write_sorted_runs fuel view runs)
  unfolding write_sorted_runs positions_bytes flatten segments_of
  write_sorted_runs_lem zero [] few bytes padded pairs h = ([], refl, tt, Perm.rfl)
  write_sorted_runs_lem zero (run ∷ runs) few bytes padded pairs h = absurd (omega arith)
  write_sorted_runs_lem (suc fuel) [] few bytes padded pairs h = ([], refl, tt, Perm.rfl)
  write_sorted_runs_lem (suc fuel) (run ∷ runs) few bytes padded pairs h =
      let others = (same_key_runs run.key runs).0 in
      let later = (same_key_runs run.key runs).1 in
      let (whole, same, above) =
        same_key_runs_lem run.key runs (IsRun-key run h.0)
          (All-map (IsRun view good) (λ r. r.key < 2 ^ 24) runs IsRun-key h.1) pairs.0 pairs.1 in
      let both : All (IsRun view good) (others ++ later) =
        subst (All (IsRun view good)) (sym whole) h.1 in
      let group : All (IsRun view good) (run ∷ others) =
        (h.0, All-left (IsRun view good) others later both) in
      let rest = All-right (IsRun view good) others later both in
      let ordered =
        Pairwise-right KeyLe others later (subst (Pairwise KeyLe) (sym whole) pairs.1) in
      let len = length-append others later in
      let (ps, out, op, perm) = write_group_lem view good run others bytes group same in
      let (qs, out', oq, perm') =
        write_sorted_runs_lem fuel later (omega (arith, ap length whole, len)) bytes padded ordered
          rest in
      let key_ps =
        All-in_any_order (InGroup view run.key) (λ p. ×_prop le_prop (ℕ_set _ _)) (Perm.symm perm)
          (within_group run.key (run ∷ others) group (refl, same)) in
      let above_qs =
        All-in_any_order (Above view run.key) (λ p. le_prop) (Perm.symm perm')
          (Above-group run.key later rest above) in
      (
        ps ++ qs,
        ap₂ ◌++◌ out out' ∙ sym (positions_bytes-append ps qs),
        Ordered-append_all (not_after view) ps qs op oq
            (key_then-Above run.key ps qs padded key_ps above_qs),
        subst (Perm (ps ++ qs))
            (sym (flatten-segments_of-append view (run ∷ others) later)
              ∙ ap (λ l. flatten (segments_of view (run ∷ l))) whole)
            (Perm.append perm perm'),
      )
