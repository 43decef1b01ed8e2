-- ===== src/Stage/FusedReads.antt =====
-- The fused form reads from its scratch area the positions that were stored there.
use mathlib.Core.List.{map}
use dirtybird_c_miner.Base.{
  ℕ, zero, suc, ◌+◌, ◌*◌, ◌^◌, ◌≤◌, ◌<◌, ◌≡◌, refl, sym, ap, ap₂, ◌∙◌, subst, true, false, inl, inr,
  List, [], ◌∷◌, length, take, drop, drop-get_or, get_or, All, arith,
}
use dirtybird_c_miner.Stage.{Stage4InputView, load24_padded, Descriptor}
use dirtybird_c_miner.Stage.Parse.{Stage5InputView}
use dirtybird_c_miner.Stage.Emit.{Group}
use dirtybird_c_miner.Stage.Runs.{
  Stage5Run, stage5_run_is_literal, stage5_run_begin, stage5_run_count, fused_run_pos,
}
use dirtybird_c_miner.Stage.Merge.{run_positions}
use dirtybird_c_miner.Stage.ReadBack.{same_run}
use dirtybird_c_miner.Stage.KeyGroup.{literal_one}
use dirtybird_c_miner.Stage.Simulates.{AgreeBelow}
use dirtybird_c_miner.Stage.Collected.{InOrder}
use dirtybird_c_miner.Stage.Holds.{entries_from, Stored, AllStored}
use dirtybird_c_miner.Stage.ReadRuns.{
  Stored-IsRead, literal_word, begin_listed, listed_word, count_listed,
}
use dirtybird_c_miner.Stage.Groups.{positions_bytes}
use dirtybird_c_miner.Stage.HashSink.{fused_positions_from, fused_positions}
use dirtybird_c_miner.Stage.HashGroups.{
  stored, Agrees, is_literal-stored, begin-stored, count-stored,
}

entries_from-agree :
    (used index count : ℕ) (xs ys : List ℕ)
    → index + count ≤ used
    → AgreeBelow used xs ys
    → entries_from xs index count ≡ entries_from ys index count
entries_from-agree used index zero xs ys fits agree = refl
entries_from-agree used index (suc count) xs ys fits agree =
    ap₂ ◌∷◌ (agree index (omega arith))
      (entries_from-agree used (suc index) count xs ys (omega arith) agree)

-- Records that stand for groups do so in every arena with the same entries in use.
pub AllStored-agree :
    (used : ℕ) (xs ys : List ℕ) (groups : List Group) (records : List Descriptor)
    → AgreeBelow used xs ys
    → AllStored ys used groups records
    → AllStored xs used groups records
AllStored-agree used xs ys [] [] agree h = tt
AllStored-agree used xs ys [] (r ∷ records) agree h = absurd h
AllStored-agree used xs ys (g ∷ groups) [] agree h = absurd h
AllStored-agree used xs ys (g ∷ groups) (r ∷ records) agree ((key, inl literal), h) =
    ((key, inl literal), AllStored-agree used xs ys groups records agree h)
AllStored-agree used xs ys (g ∷ groups) (r ∷ records) agree
      ((key, inr (index, some_one, within, word, same)), h) =
    (
      (
        key,
        inr (
          index,
          some_one,
          within,
          word,
          entries_from-agree used index (length g.members) xs ys within agree ∙ same,
        ),
      ),
      AllStored-agree used xs ys groups records agree h,
    )

fused_positions_from-entries_from :
    (arena : List ℕ) (run : Stage5Run) (rel left : ℕ)
    → stage5_run_is_literal run ≡ false
    → fused_positions_from arena run rel left ≡ entries_from arena (stage5_run_begin run + rel) left
unfolding fused_positions_from fused_run_pos
fused_positions_from-entries_from arena run rel zero e = refl
fused_positions_from-entries_from arena run rel (suc left) e =
    let next : stage5_run_begin run + suc rel ≡ suc (stage5_run_begin run + rel) = omega arith in
    rw e (
      ap (λ l. get_or arena (stage5_run_begin run + rel) 0 ∷ l)
        (fused_positions_from-entries_from arena run (suc rel) left e
          ∙ ap (λ (k : ℕ). entries_from arena k left) next))

take-entries_from :
    (arena : List ℕ) (index count : ℕ)
    → index + count ≤ length arena
    → take count (drop index arena) ≡ entries_from arena index count
take-entries_from arena index zero h = refl
take-entries_from arena index (suc count) h =
    ap (take (suc count)) (drop-get_or arena index 0 (omega arith))
    ∙ ap (λ l. get_or arena index 0 ∷ l) (take-entries_from arena (suc index) count (omega arith))

-- A run that is a position alone.
fused_literal :
    (arena : List ℕ) (run : Stage5Run)
    → stage5_run_is_literal run ≡ true
    → fused_positions arena run ≡ stage5_run_begin run ∷ []
unfolding fused_positions fused_positions_from fused_run_pos stage5_run_count stage5_run_is_literal
fused_literal arena run e = ground (arith, e)

module _ (view : Stage5InputView) (arena : List ℕ) (there : view.int_arena ≡ positions_bytes arena)
    (text : Stage4InputView) (small : text.logical_len ≤ 2 ^ 17)
    (keys : (p : ℕ) → load24_padded text p < 2 ^ 32) where
  arena-Agrees :
      (run : Stage5Run) (index count : ℕ)
      → stage5_run_is_literal run ≡ false
      → stage5_run_begin run ≡ index
      → stage5_run_count run ≡ count
      → index + count ≤ length arena
      → entries_from arena index count ≡ run_positions view run
      → Agrees arena view run
  unfolding fused_positions
  arena-Agrees run index count e begin counted inside same =
      let start : stage5_run_begin run + 0 ≡ index = omega (arith, begin) in
      (
        ap (fused_positions_from arena (stored run) 0) (count-stored run)
            ∙ fused_positions_from-entries_from arena (stored run) 0 (stage5_run_count run)
                (is_literal-stored run ∙ e)
            ∙ ap (λ (k : ℕ). entries_from arena (k + 0) (stage5_run_count run)) (begin-stored run)
            ∙ ap₂ (entries_from arena) start counted
            ∙ same,
        λ plain.
            take-entries_from arena (stage5_run_begin run) (stage5_run_count run)
              (omega (arith, begin, counted))
            ∙ ap₂ (entries_from arena) begin counted
            ∙ same,
      )

  Stored-Agrees :
      (used : ℕ) (g : Group) (r : Descriptor)
      → used ≤ length arena
      → used ≤ 2 ^ 17
      → InOrder text g
      → Stored arena used g r
      → Agrees arena view (same_run r)
  Stored-Agrees used g r long few h (key, inl literal) =
      let within : All (λ p. (p < text.logical_len) × (load24_padded text p ≡ g.key))
          (r.packed ∷ []) =
        subst (All (λ p. (p < text.logical_len) × (load24_padded text p ≡ g.key))) literal h.0 in
      let lone = literal_word r.packed r.key (omega (arith, within.0.0)) in
      (
        fused_literal arena (stored (same_run r)) (is_literal-stored (same_run r) ∙ lone)
            ∙ ap (λ (p : ℕ). p ∷ []) (begin-stored (same_run r))
            ∙ sym (literal_one view (same_run r) lone),
        λ plain. absurd (ground (arith, plain, lone)),
      )
  Stored-Agrees used g r long few h (key, inr (index, some_one, within, word, same)) =
      let count = length g.members in
      let (readable, counted, positions) =
        Stored-IsRead view arena there text small keys used g r long few h
          (key, inr (index, some_one, within, word, same)) in
      let run =
        λ (packed : ℕ). (let s : Stage5Run = record { key = r.key; packed = packed } in s) in
      let eq : same_run r ≡ run (count * 2 ^ 17 + index) = ap run word in
      arena-Agrees (same_run r) index count
        (ap stage5_run_is_literal eq ∙ listed_word count index r.key some_one (omega arith))
        (ap stage5_run_begin eq ∙ begin_listed count index r.key (omega arith))
        (ap stage5_run_count eq ∙ count_listed count index r.key some_one (omega arith))
        (omega arith) (same ∙ sym positions)

  pub AllStored-Agrees :
      (used : ℕ) (groups : List Group) (records : List Descriptor)
      → used ≤ length arena
      → used ≤ 2 ^ 17
      → All (InOrder text) groups
      → AllStored arena used groups records
      → All (Agrees arena view) (map same_run records)
  AllStored-Agrees used [] [] long few h s = tt
  AllStored-Agrees used [] (r ∷ records) long few h s = absurd s
  AllStored-Agrees used (g ∷ groups) [] long few h s = absurd s
  AllStored-Agrees used (g ∷ groups) (r ∷ records) long few h s = (
    Stored-Agrees used g r long few h.0 s.0,
    AllStored-Agrees used groups records long few h.1 s.1,
  )
