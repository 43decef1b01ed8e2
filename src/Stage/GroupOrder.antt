-- ===== src/Stage/GroupOrder.antt =====
-- The groups of the sorted runs are written in the order of the suffixes.
use mathlib.Core.List.{Perm, append-nil, append_assoc}
use mathlib.Core.List.Perm
use dirtybird_c_miner.Base.{
  ℕ, ◌<◌, ◌≡◌, refl, sym, subst, List, [], ◌∷◌, ◌++◌, All, All-append, Ordered,
}
use dirtybird_c_miner.Stage.{load24_padded}
use dirtybird_c_miner.Stage.Parse.{Stage5InputView}
use dirtybird_c_miner.Stage.Runs.{Stage5Run, stage5_radix_order_key}
use dirtybird_c_miner.Stage.Memcmp.{text_of}
use dirtybird_c_miner.Stage.Merge.{run_positions, flatten, segments_of, write_equal_key_group}
use dirtybird_c_miner.Stage.Resolved.{not_after, IsText, Sorted}
use dirtybird_c_miner.Stage.KeyGroup.{write_equal_key_group_lem}
use dirtybird_c_miner.Stage.Groups.{positions_bytes, write_group}
use dirtybird_c_miner.Stage.Words.{IsInArena, IsArena, write_single_run_lem}

pub positions_bytes-append :
    (xs ys : List ℕ) → positions_bytes (xs ++ ys) ≡ positions_bytes xs ++ positions_bytes ys
unfolding positions_bytes
positions_bytes-append [] ys = refl
positions_bytes-append (x ∷ xs) ys = simp (positions_bytes-append xs ys, append_assoc)

-- The key of a run is that of its positions, which are in order, and they are in the arena.
abbrev pub IsRun : (view : Stage5InputView) → IsText view → Stage5Run → Type 0
IsRun view good run = Sorted view run.key good (run_positions view run) × IsInArena view run

-- Positions of the text behind all those with a key.
abbrev pub Above : Stage5InputView → ℕ → ℕ → Type 0
Above view key p =
    stage5_radix_order_key key < stage5_radix_order_key (load24_padded (text_of view) p)

module _ (view : Stage5InputView) (good : IsText view) where
  -- What has been written for runs, against their positions.
  abbrev pub IsWritten : List Stage5Run → List ℕ → Type 0
  IsWritten runs out =
      (positions : List ℕ) × (out ≡ positions_bytes positions)
      × Ordered (not_after view) positions
      × Perm positions (flatten (segments_of view runs))

  in_group :
      (key : ℕ) (runs : List Stage5Run)
      → All (IsRun view good) runs
      → All (λ r. r.key ≡ key) runs
      → All (Sorted view key good) (segments_of view runs)
  unfolding segments_of
  in_group key [] h k = tt
  in_group key (run ∷ runs) h k = (
    subst (λ (c : ℕ). Sorted view c good (run_positions view run)) k.0 h.0.0,
    in_group key runs h.1 k.1,
  )

  pub segments-All {κ} :
      (P : ℕ → Type κ) (runs : List Stage5Run)
      → All (λ r. All P (run_positions view r)) runs
      → All P (flatten (segments_of view runs))
  unfolding flatten segments_of
  segments-All P [] h = tt
  segments-All P (run ∷ runs) h =
      All-append P (run_positions view run) (flatten (segments_of view runs)) h.0
        (segments-All P runs h.1)

  pub write_group_lem :
      (run : Stage5Run) (others : List Stage5Run)
      → IsArena view
      → All (IsRun view good) (run ∷ others)
      → All (λ r. r.key ≡ run.key) others
      → IsWritten (run ∷ others) (write_group view run others)
  unfolding write_group segments_of flatten
  write_group_lem run [] bytes h k = (
    run_positions view run,
    write_single_run_lem view run bytes h.0.1,
    h.0.0.1,
    subst (Perm (run_positions view run)) (sym (append-nil (run_positions view run))) Perm.rfl,
  )
  write_group_lem run (next ∷ others) bytes h k =
      let runs = run ∷ next ∷ others in
      let (ordered, perm) =
        write_equal_key_group_lem view run.key runs good (in_group run.key runs h (refl, k)) in
      (write_equal_key_group view runs, refl, ordered, perm)
