-- ===== src/Stage/FirstOrder.antt =====
-- The first order of a run of groups, by either sort of src/v114_stubs.cpp, and the orders of the
-- rounds from there on.
use mathlib.Core.HLevel.{×_prop}
use native.Mathlib.Bridge.{le_prop}
use mathlib.Core.List.{Perm, map}
use mathlib.Core.List.Perm
use dirtybird_c_miner.Base.{
  ℕ, zero, suc, ◌+◌, ◌-◌, ◌*◌, ◌≤◌, ◌<◌, ◌≡◌, ◌≢◌, sym, ap, Bool, false, not, ltb, ◌==◌, ==_iff,
  Bool-cases, inl, inr, All-in_any_order, ◌∙◌, true, List, [], ◌∷◌, All, All-zip, All-map, Ordered,
  length, arith,
}
use dirtybird_c_miner.Stage.{Stage4InputView}
use dirtybird_c_miner.Stage.Order.{
  suffix_less, sort_stage4_suffix_order_small, sort_stage4_suffix_order, chunk_ends, order_after,
}
use dirtybird_c_miner.Stage.Lex.{
  HasText, below, below-IsTransitive, below-IsIrreflexive, below-total, suffix_less-below,
}
use dirtybird_c_miner.Stage.StdSort.{IsStrictWeak, IsSort}
use dirtybird_c_miner.Stage.Distinct.{Apart, Apart-Perm, strictly}
use dirtybird_c_miner.Stage.Induced.{
  Movable, order_after-Ordered, chunk_ends-All, chunk_ends-later,
  sort_stage4_suffix_order_small-Ordered,
}

module _ (view : Stage4InputView) (text : HasText view) where
  chunk_ends-Apart : (base chunk count : ℕ) → Apart (chunk_ends base chunk count)
  unfolding chunk_ends
  chunk_ends-Apart base chunk zero = tt
  chunk_ends-Apart base chunk (suc count) =
      let y = base + chunk * 256 + 255 in
      (
        All-map (λ x. y < x) (λ x. y ≢ x) (chunk_ends base (suc chunk) count)
            (λ x later e. absurd (omega arith))
            (chunk_ends-later view text base (suc chunk) count y (omega arith)),
        chunk_ends-Apart base (suc chunk) count,
      )

  -- The comparison of suffixes as a test for `std::sort`.
  not_below :
      (x y : ℕ)
      → x < view.logical_len
      → y < view.logical_len
      → suffix_less view x y ≡ false
      → x ≢ y
      → below view y x ≡ true
  not_below x y hx hy e apart =
      below-total view text x y (omega arith) (omega arith) apart
        (sym (suffix_less-below view text x y (omega arith) (omega arith)) ∙ e)

  suffix_less-negative :
      (x y z : ℕ)
      → x < view.logical_len
      → y < view.logical_len
      → z < view.logical_len
      → suffix_less view x y ≡ false
      → suffix_less view y z ≡ false
      → suffix_less view x z ≡ false
  suffix_less-negative x y z hx hy hz xy yz = elim (Bool-cases (x == y)) [
    | inl e ↦ ap (λ w. suffix_less view w z) ((==_iff x y).0 e) ∙ yz
    | inr e ↦ elim (Bool-cases (y == z)) [
      | inl e' ↦ ap (suffix_less view x) (sym ((==_iff y z).0 e')) ∙ xy
      | inr e' ↦
          let yx = not_below x y hx hy xy (λ same. absurd (ground (arith, e, same))) in
          let zy = not_below y z hy hz yz (λ same. absurd (ground (arith, e', same))) in
          let zx = below-IsTransitive view z y x zy yx in
          suffix_less-below view text x z (omega arith) (omega arith)
          ∙ (elim (Bool-cases (below view x z)) [
            | inl xz ↦
                let loop = below-IsTransitive view x z x xz zx in
                let never = below-IsIrreflexive view x in absurd (cc)
            | inr xz ↦ xz
          ])
    ]
  ]

  suffix_less-IsStrictWeak : IsStrictWeak (λ x. ltb x view.logical_len) (suffix_less view)
  suffix_less-IsStrictWeak =
      let L = view.logical_len in
      let same = suffix_less-below view text in
      record {
        irreflexive = λ x hx.
            let lx : x ≤ L = ground (arith, hx) in same x x lx lx ∙ below-IsIrreflexive view x;
        transitive = λ x y z hx hy hz xy yz.
            let lx : x ≤ L = ground (arith, hx) in
            let ly : y ≤ L = ground (arith, hy) in
            let lz : z ≤ L = ground (arith, hz) in
            same x z lx lz
            ∙ below-IsTransitive view x y z (sym (same x y lx ly) ∙ xy) (sym (same y z ly lz) ∙ yz);
        incomparable = λ x y z hx hy hz xy yz.
            suffix_less-negative x y z (ground (arith, hx)) (ground (arith, hy))
              (ground (arith, hz)) xy yz;
      }

  -- `std::sort` gives the ends of the chunks the order that the insertion sort gives them.
  pub std_sort-chunk_ends :
      (std_sort : (ℕ → ℕ → Bool) → List ℕ → List ℕ) (base count : ℕ)
      → IsSort std_sort
      → base + count * 256 ≤ view.logical_len
      → let order = sort_stage4_suffix_order std_sort view (chunk_ends base 0 count) in
        Ordered (below view) order × Perm order (chunk_ends base 0 count)
  std_sort-chunk_ends std_sort base count sorts inside =
      let ends = chunk_ends base 0 count in
      let movable = chunk_ends-All view text base 0 count (omega arith) in
      let (up, perm) =
        sorts (λ x. ltb x view.logical_len) (suffix_less view) ends
          (All-map (Movable view text 255) (λ x. ltb x view.logical_len ≡ true) ends
            (λ x h. let less = h.1 in ground (arith, less)) movable)
          suffix_less-IsStrictWeak in
      let order = std_sort (suffix_less view) ends in
      let within : All (λ x. x < view.logical_len) order =
        All-in_any_order (λ x. x < view.logical_len) (λ x. le_prop) (Perm.symm perm)
          (All-map (Movable view text 255) (λ x. x < view.logical_len) ends (λ x h. h.1) movable) in
      (
        strictly view text order within
            (Apart-Perm (Perm.symm perm) (chunk_ends-Apart base 0 count)) (bare order within up),
        perm,
      )
    where
      pairs :
          (x : ℕ) (ys : List ℕ)
          → x < view.logical_len
          → All (λ y. y < view.logical_len) ys
          → All (λ y. not (suffix_less view y x) ≡ true) ys
          → All (λ y. not (below view y x) ≡ true) ys
      pairs x ys hx within h =
          All-zip (λ y. y < view.logical_len) (λ y. not (suffix_less view y x) ≡ true)
            (λ y. not (below view y x) ≡ true) ys
            (λ y hy e.
              ap not (sym (suffix_less-below view text y x (omega arith) (omega arith))) ∙ e)
            within h

      bare :
          (xs : List ℕ)
          → All (λ x. x < view.logical_len) xs
          → Ordered (λ x y. not (suffix_less view y x)) xs
          → Ordered (λ x y. not (below view y x)) xs
      bare [] within h = tt
      bare (x ∷ xs) within h = (pairs x xs within.0 within.1 h.0, bare xs within.1 h.1)

  -- The order of the positions that the rounds keep, from a first order of the chunks' ends on.
  order_after_ends-Ordered :
      (base count steps : ℕ) (start : List ℕ)
      → base + count * 256 ≤ view.logical_len
      → steps ≤ 255
      → Ordered (below view) start
      → Perm start (chunk_ends base 0 count)
      → let order = order_after view steps start in
        Ordered (below view) order × Perm order (map (λ p. p - steps) (chunk_ends base 0 count))
  order_after_ends-Ordered base count steps start inside small up perm =
      let ends = chunk_ends base 0 count in
      let far =
        All-in_any_order (Movable view text steps) (λ x. ×_prop le_prop le_prop) (Perm.symm perm)
          (All-map (Movable view text 255) (Movable view text steps) ends
            (λ x h. (omega arith, h.1)) (chunk_ends-All view text base 0 count (omega arith))) in
      let (up', perm') = order_after-Ordered view text steps start far up in
      (up', Perm.trans perm' (Perm.map (λ p. p - steps) perm))

-- In every round of a run of 256-byte groups that lies within the text, the order that the stage
-- keeps holds exactly the positions that have moved that far down from the ends of the chunks, in
-- the dictionary order of their suffixes, although only the first round compares suffixes and each
-- later one sorts by a single byte. This is so from both first orders: that of the insertion sort,
-- which the stage takes for short runs, and that of `std::sort`, of which only what it documents is
-- used.
pub order_after_chunks-Ordered :
    (std_sort : (ℕ → ℕ → Bool) → List ℕ → List ℕ) (view : Stage4InputView) (base count steps : ℕ)
    → IsSort std_sort
    → view.logical_len ≤ length view.bytes
    → base + count * 256 ≤ view.logical_len
    → steps ≤ 255
    → let ends = chunk_ends base 0 count in
      let after = λ (start : List ℕ). order_after view steps start in
      let short = after (sort_stage4_suffix_order_small view ends) in
      let long = after (sort_stage4_suffix_order std_sort view ends) in
      (Ordered (below view) short × Perm short (map (λ p. p - steps) ends))
      × (Ordered (below view) long × Perm long (map (λ p. p - steps) ends))
order_after_chunks-Ordered std_sort view base count steps sorts text inside small =
    let (up, perm) = sort_stage4_suffix_order_small-Ordered view text base count inside in
    let (up', perm') = std_sort-chunk_ends view text std_sort base count sorts inside in
    (
      order_after_ends-Ordered view text base count steps _ inside small up perm,
      order_after_ends-Ordered view text base count steps _ inside small up' perm',
    )
