-- ===== src/Stage/Induced.antt =====
-- Induced sorting: sorting by first byte keeps positions in the order of their suffixes when the
-- positions behind them already were.
use mathlib.Core.List.{Perm, map}
use mathlib.Core.List.Perm
use dirtybird_c_miner.Base.{
  ℕ, zero, suc, ◌+◌, ◌-◌, ◌*◌, ◌≤◌, ◌<◌, ◌≡◌, refl, sym, ap₂, ◌∙◌, subst, true, List, [], ◌∷◌, All,
  All-zip, All-map, Ordered, arith,
}
use dirtybird_c_miner.Stage.{Stage4InputView}
use dirtybird_c_miner.Stage.Order.{
  suffix_less, first_byte_less, sort_stage4_suffix_order_small, chunk_ends, step_order, order_after,
}
use dirtybird_c_miner.Stage.Insertion.{
  Decides, DecidesAll, insertion_sort-Ordered, insertion_sort-All,
}
use dirtybird_c_miner.Stage.Lex.{
  HasText, below, below-IsTransitive, below-total, suffix-cons, suffix_less-below,
}

All-mapped {κ} :
    (P : ℕ → Type κ) (f : ℕ → ℕ) (xs : List ℕ) → All (λ x. P (f x)) xs → All P (map f xs)
All-mapped P f [] h = tt
All-mapped P f (x ∷ xs) h = (h.0, All-mapped P f xs h.1)

map-same : (xs : List ℕ) → map (λ x. x - 0) xs ≡ xs
map-same [] = refl
map-same (x ∷ xs) = ap₂ ◌∷◌ (omega arith) (map-same xs)

map-steps :
    (steps : ℕ) (xs : List ℕ)
    → map (λ p. p - steps) (map (λ p. p - 1) xs) ≡ map (λ p. p - suc steps) xs
map-steps steps [] = refl
map-steps steps (x ∷ xs) = ap₂ ◌∷◌ (omega arith) (map-steps steps xs)

module _ (view : Stage4InputView) (text : HasText view) where
  -- Positions that a step may move down.
  abbrev pub Movable : ℕ → ℕ → Type 0
  Movable steps pos = (steps ≤ pos) × (pos < view.logical_len)

  first_byte_less-Decides :
      (x y : ℕ)
      → x < view.logical_len
      → y < view.logical_len
      → below view (y + 1) (x + 1) ≡ true
      → Decides (first_byte_less view) (below view) x y
  unfolding first_byte_less
  first_byte_less-Decides x y hx hy tails =
      rw (suffix-cons view text x hx, suffix-cons view text y hy)
        ((λ e. ground (arith, e, tails)), (λ e. ground (arith, e, tails)))

  moved-Decides :
      (y : ℕ) (order : List ℕ)
      → Movable 1 y
      → All (Movable 1) order
      → All (λ x. below view y x ≡ true) order
      → All (λ x. Decides (first_byte_less view) (below view) x (y - 1)) (map (λ p. p - 1) order)
  moved-Decides y order hy h up =
      All-mapped (λ x. Decides (first_byte_less view) (below view) x (y - 1)) (λ p. p - 1) order
        (All-zip (Movable 1) (λ x. below view y x ≡ true)
          (λ x. Decides (first_byte_less view) (below view) (x - 1) (y - 1)) order
          (λ x hx less.
            let ex : x - 1 + 1 ≡ x = omega arith in
            let ey : y - 1 + 1 ≡ y = omega arith in
            first_byte_less-Decides (x - 1) (y - 1) (omega arith) (omega arith)
              (ap₂ (below view) ey ex ∙ less))
          h up)

  moved-DecidesAll :
      (order : List ℕ)
      → All (Movable 1) order
      → Ordered (below view) order
      → DecidesAll (first_byte_less view) (below view) (map (λ p. p - 1) order)
  moved-DecidesAll [] h o = tt
  moved-DecidesAll (y ∷ order) h o =
      (moved-Decides y order h.0 h.1 o.0, moved-DecidesAll order h.1 o.1)

  suffix_less-Decides :
      (x y : ℕ)
      → y < x
      → x < view.logical_len
      → y < view.logical_len
      → Decides (suffix_less view) (below view) x y
  suffix_less-Decides x y apart hx hy =
      rw (suffix_less-below view text x y (omega arith) (omega arith)) (
        λ e. e,
        λ e. below-total view text x y (omega arith) (omega arith) (λ p. omega (arith, p)) e,
      )

  -- One step: the moved positions, in the order of their suffixes.
  pub step_order-Ordered :
      (order : List ℕ)
      → All (Movable 1) order
      → Ordered (below view) order
      → Ordered (below view) (step_order view order)
        × Perm (step_order view order) (map (λ p. p - 1) order)
  unfolding step_order
  step_order-Ordered order h o =
      insertion_sort-Ordered (first_byte_less view) (below view) (below-IsTransitive view)
        (map (λ p. p - 1) order) (moved-DecidesAll order h o)

  pub step_order-All :
      (steps : ℕ) (order : List ℕ)
      → All (Movable (suc steps)) order
      → All (Movable steps) (step_order view order)
  unfolding step_order
  step_order-All steps order h =
      insertion_sort-All (first_byte_less view) (below view) (Movable steps)
        (map (λ p. p - 1) order)
        (All-mapped (Movable steps) (λ p. p - 1) order
          (All-map (Movable (suc steps)) (λ x. Movable steps (x - 1)) order
            (λ x hx. (omega arith, omega arith)) h))

  pub order_after-Ordered :
      (steps : ℕ) (order : List ℕ)
      → All (Movable steps) order
      → Ordered (below view) order
      → Ordered (below view) (order_after view steps order)
        × Perm (order_after view steps order) (map (λ p. p - steps) order)
  unfolding order_after
  order_after-Ordered zero order h o =
      (o, subst (λ l. Perm order l) (sym (map-same order)) Perm.rfl)
  order_after-Ordered (suc steps) order h o =
      let moved =
        All-map (Movable (suc steps)) (Movable 1) order (λ x hx. (omega arith, omega arith)) h in
      let (step_up, step_perm) = step_order-Ordered order moved o in
      let (up, perm) =
        order_after-Ordered steps (step_order view order) (step_order-All steps order h) step_up in
      (
        up,
        Perm.trans perm (
            subst (λ l. Perm (map (λ p. p - steps) (step_order view order)) l)
              (map-steps steps order) (Perm.map (λ p. p - steps) step_perm)),
      )

  -- The ends of the chunks of a run of groups within the text are sorted by suffix at first.
  pub chunk_ends-All :
      (base chunk count : ℕ)
      → base + chunk * 256 + count * 256 ≤ view.logical_len
      → All (Movable 255) (chunk_ends base chunk count)
  unfolding chunk_ends
  chunk_ends-All base chunk zero h = tt
  chunk_ends-All base chunk (suc count) h =
      ((omega arith, omega arith), chunk_ends-All base (suc chunk) count (omega arith))

  pub chunk_ends-later :
      (base chunk count first : ℕ)
      → first < base + chunk * 256 + 255
      → All (λ x. first < x) (chunk_ends base chunk count)
  unfolding chunk_ends
  chunk_ends-later base chunk zero first h = tt
  chunk_ends-later base chunk (suc count) first h =
      (omega arith, chunk_ends-later base (suc chunk) count first (omega arith))

  pub chunk_ends-DecidesAll :
      (base chunk count : ℕ)
      → base + chunk * 256 + count * 256 ≤ view.logical_len
      → DecidesAll (suffix_less view) (below view) (chunk_ends base chunk count)
  unfolding chunk_ends
  chunk_ends-DecidesAll base chunk zero h = tt
  chunk_ends-DecidesAll base chunk (suc count) h =
      let y = base + chunk * 256 + 255 in
      (
        All-zip (λ x. y < x) (Movable 255) (λ x. Decides (suffix_less view) (below view) x y)
            (chunk_ends base (suc chunk) count)
            (λ x later hx. suffix_less-Decides x y (omega arith) (omega arith) (omega arith))
            (chunk_ends-later base (suc chunk) count y (omega arith))
            (chunk_ends-All base (suc chunk) count (omega arith)),
        chunk_ends-DecidesAll base (suc chunk) count (omega arith),
      )

  -- The first order of a run: the ends of its chunks, in the order of their suffixes.
  pub sort_stage4_suffix_order_small-Ordered :
      (base count : ℕ)
      → base + count * 256 ≤ view.logical_len
      → Ordered (below view) (sort_stage4_suffix_order_small view (chunk_ends base 0 count))
        × Perm
            (sort_stage4_suffix_order_small view (chunk_ends base 0 count))
            (chunk_ends base 0 count)
  unfolding sort_stage4_suffix_order_small
  sort_stage4_suffix_order_small-Ordered base count h =
      insertion_sort-Ordered (suffix_less view) (below view) (below-IsTransitive view)
        (chunk_ends base 0 count) (chunk_ends-DecidesAll base 0 count (omega arith))

  pub sort_stage4_suffix_order_small-All :
      (base count : ℕ)
      → base + count * 256 ≤ view.logical_len
      → All (Movable 255) (sort_stage4_suffix_order_small view (chunk_ends base 0 count))
  unfolding sort_stage4_suffix_order_small
  sort_stage4_suffix_order_small-All base count h =
      insertion_sort-All (suffix_less view) (below view) (Movable 255) (chunk_ends base 0 count)
        (chunk_ends-All base 0 count (omega arith))
