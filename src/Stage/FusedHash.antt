-- ===== src/Stage/FusedHash.antt =====
-- The fused form hashes the suffix array.
use mathlib.Core.HLevel.{×_prop, →_prop}
use native.Mathlib.Bridge.{le_prop}
use native.Mathlib.Nat.{ℕ_set}
use mathlib.Core.List.{map, Perm, is_set}
use mathlib.Core.List.Perm
use dirtybird_c_miner.Base.{
  ℕ, ◌%◌, ◌^◌, ◌<◌, ◌≡◌, refl, sym, ap, ap₂, ◌∙◌, subst, not, List, [], ◌∷◌, length, length-Perm,
  none, some, if◌then◌else◌, All, All-map, All-in_any_order, Ordered, inl, inr, ◌==◌, arith,
}
use dirtybird_c_miner.Radix.Gather.{Pairwise, Pairwise-map, Pairwise-of}
use dirtybird_c_miner.Stage.Parse.{Stage5InputView}
use dirtybird_c_miner.Stage.Runs.{Stage5Run, stage5_radix_order_key}
use dirtybird_c_miner.Stage.AfterKey.{suffix_less_after_key}
use dirtybird_c_miner.Stage.Merge.{run_positions, flatten, segments_of}
use dirtybird_c_miner.Stage.Resolved.{IsText, not_after}
use dirtybird_c_miner.Stage.KeyBefore.{IsPadded}
use dirtybird_c_miner.Stage.Fused.{FusedStage5Scratch}
use dirtybird_c_miner.Stage.RunSort.{radix_sort_runs_by_stored_key}
use dirtybird_c_miner.Stage.RunOrder.{
  By, low_key, stage5_radix_order_key_lem, radix_sort_runs_by_stored_key_lem,
}
use dirtybird_c_miner.Stage.Groups.{positions_bytes, write_single_run}
use dirtybird_c_miner.Stage.Words.{IsArena, write_single_run_lem}
use dirtybird_c_miner.Stage.GroupOrder.{IsRun}
use dirtybird_c_miner.Stage.Grouped.{KeyLe, IsRun-key, write_sorted_runs_lem}
use dirtybird_c_miner.Stage.Built.{length-positions_bytes, segments-Perm, IsRun-IsProp}
use dirtybird_c_miner.Stage.HashSink.{
  fused_hash_sink_init, fused_hash_sink_flush, hash_sorted_runs, write_fused_runs_to_hash,
}
use dirtybird_c_miner.Stage.SinkLaws.{IsStreaming, init-Absorbed, flush-Absorbed}
use dirtybird_c_miner.Stage.HashGroups.{stored, length-stored, Agrees, hash_sorted_runs-Absorbed}

order_key_twice : (k : ℕ) → stage5_radix_order_key (stage5_radix_order_key k) ≡ k % 2 ^ 24
order_key_twice k =
    omega
      (arith, stage5_radix_order_key_lem k, stage5_radix_order_key_lem (stage5_radix_order_key k))

order_key_small : (k : ℕ) → stage5_radix_order_key k < 2 ^ 24
order_key_small k = omega (arith, stage5_radix_order_key_lem k)

abbrev IsSmall : Stage5Run → Type 0
IsSmall run = run.key < 2 ^ 24

stored_twice : (runs : List Stage5Run) → All IsSmall runs → map stored (map stored runs) ≡ runs
stored_twice [] h = refl
stored_twice (run ∷ runs) h =
    let back : stage5_radix_order_key (stage5_radix_order_key run.key) ≡ run.key =
      omega (arith, order_key_twice run.key, h.0) in
    ap₂ ◌∷◌ (λ i. record { key = back i; packed = run.packed }) (stored_twice runs h.1)

stored-IsSmall : (runs : List Stage5Run) → All IsSmall (map stored runs)
stored-IsSmall [] = tt
stored-IsSmall (run ∷ runs) = (order_key_small run.key, stored-IsSmall runs)

All-stored {κ} :
    (P : Stage5Run → Type κ) (runs : List Stage5Run)
    → All (λ r. P (stored r)) runs
    → All P (map stored runs)
All-stored P [] h = tt
All-stored P (run ∷ runs) h = (h.0, All-stored P runs h.1)

Pairwise-stored :
    (runs : List Stage5Run)
    → Pairwise (λ r s. KeyLe (stored r) (stored s)) runs
    → Pairwise KeyLe (map stored runs)
Pairwise-stored [] h = tt
Pairwise-stored (run ∷ runs) h =
    (All-stored (KeyLe (stored run)) runs h.0, Pairwise-stored runs h.1)

By-KeyLe : (r s : Stage5Run) → By low_key (λ a b. Unit {0}) r s → KeyLe (stored r) (stored s)
By-KeyLe r s by =
    let er = order_key_twice r.key in
    let es = order_key_twice s.key in
    elim by [ inl less ↦ omega arith | inr same ↦ omega (arith, same.0) ]

-- The runs in the order of the stored keys, with the keys of the text.
resorted :
    (raw tmp : List Stage5Run)
    → All IsSmall raw
    → (runs : List Stage5Run) × ((radix_sort_runs_by_stored_key (map stored raw) tmp).0
        ≡ map stored runs)
      × Perm runs raw
      × Pairwise KeyLe runs
resorted raw tmp small =
    let any = λ (r s : Stage5Run). Unit {0} in
    let out = (radix_sort_runs_by_stored_key (map stored raw) tmp).0 in
    let (by_key, perm) =
      radix_sort_runs_by_stored_key_lem any (map stored raw) tmp
        (Pairwise-of any (map stored raw) (λ r s. tt)) in
    let small' = All-in_any_order IsSmall (λ r. le_prop) (Perm.symm perm) (stored-IsSmall raw) in
    (
      map stored out,
      sym (stored_twice out small'),
      subst (Perm (map stored out)) (stored_twice raw small) (Perm.map stored perm),
      Pairwise-stored out
          (Pairwise-map (By low_key any) (λ r s. KeyLe (stored r) (stored s)) out By-KeyLe by_key),
    )

Agrees-IsProp :
    (arena : List ℕ) (view : Stage5InputView) (run : Stage5Run) → IsProp (Agrees arena view run)
Agrees-IsProp arena view run = ×_prop (is_set ℕ_set _ _) (→_prop (is_set ℕ_set _ _))

-- The loop over the sorted runs of the fused form, from runs of the scratch area.
module _ {Ctx Hash : Type 0} (update : Ctx → List ℕ → Ctx) (streaming : IsStreaming update)
    (start : Ctx) (final : Ctx → Hash) where
  pub write_fused_runs_to_hash_lem :
      (bare view : Stage5InputView) (good : IsText view) (scratch : FusedStage5Scratch)
      (raw radix_tmp : List Stage5Run)
      → suffix_less_after_key bare ≡ suffix_less_after_key view
      → bare.logical_len ≡ length (flatten (segments_of view raw))
      → IsPadded view
      → IsArena view
      → scratch.runs ≡ map stored raw
      → All (IsRun view good) raw
      → All (Agrees scratch.arena_positions view) raw
      → (positions : List ℕ) × (write_fused_runs_to_hash update start final bare scratch radix_tmp
          ≡ some (final (update start (positions_bytes positions))))
        × Ordered (not_after view) positions
        × Perm positions (flatten (segments_of view raw))
  unfolding write_fused_runs_to_hash fused_hash_sink_init
  write_fused_runs_to_hash_lem bare view good scratch raw radix_tmp same_less size padded bytes
        same_runs each agrees =
      let arena = scratch.arena_positions in
      let (runs, sorted, perm, pairs) =
        resorted raw radix_tmp (All-map (IsRun view good) IsSmall raw (IsRun-key view good) each) in
      let each' =
        All-in_any_order (IsRun view good) (IsRun-IsProp view good) (Perm.symm perm) each in
      let agrees' =
        All-in_any_order (Agrees arena view) (Agrees-IsProp arena view) (Perm.symm perm) agrees in
      let (qs, out, ordered, all) =
        write_sorted_runs_lem view good (length (map stored runs)) runs
          (omega (arith, length-stored runs)) bytes padded pairs each' in
      let (ps, out', absorbed) =
        hash_sorted_runs-Absorbed update streaming start arena bare view same_less
          (length (map stored runs)) runs (fused_hash_sink_init start) [] agrees'
          (All-map (IsRun view good) IsSmall runs (IsRun-key view good) each')
          (All-map (IsRun view good)
            (λ r. write_single_run view r ≡ positions_bytes (run_positions view r)) runs
            (λ r h. write_single_run_lem view r bytes h.1) each')
          (init-Absorbed update streaming start) in
      let sink =
        hash_sorted_runs update (length (map stored runs)) bare arena (map stored runs)
          (fused_hash_sink_init start) in
      let whole = Perm.trans all (segments-Perm view perm) in
      let same : positions_bytes ps ≡ positions_bytes qs = sym out' ∙ out in
      let count : sink.positions ≡ bare.logical_len = omega (
        arith,
        absorbed.4,
        ap length same,
        length-positions_bytes ps,
        length-positions_bytes qs,
        length-Perm whole,
        size,
      ) in
      let hashed =
        flush-Absorbed update streaming start sink ps absorbed ∙ ap (update start) same in
      let input = ap (λ rs. (radix_sort_runs_by_stored_key rs radix_tmp).0) same_runs ∙ sorted in
      (
        qs,
        ap
              (λ (rs : List Stage5Run).
                if not (
                  (hash_sorted_runs update (length rs) bare arena rs
                    (fused_hash_sink_init start)).positions
                  == bare.logical_len)
                then none
                else some (
                    final
                      (fused_hash_sink_flush update (
                        hash_sorted_runs update (length rs) bare arena rs
                          (fused_hash_sink_init start))).ctx))
              input
            ∙ ground (arith, count, hashed),
        ordered,
        whole,
      )
