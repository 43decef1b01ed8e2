-- ===== src/Stage/Merged.antt =====
-- Merging keeps the entries and their order, for every test that decides the wanted order.
use mathlib.Core.List.{Perm, perm_middle, append-nil}
use mathlib.Core.List.Perm
use dirtybird_c_miner.Base.{
  ℕ, zero, suc, ◌+◌, ◌≤◌, ◌≡◌, sym, subst, Bool, true, false, List, [], ◌∷◌, ◌++◌, length, All,
  All-map, Ordered, IsTransitive, Bool-cases, inl, inr, arith,
}
use dirtybird_c_miner.Stage.Merge.{merge_loop}

module _ {κ} (precedes less : ℕ → ℕ → Bool) (P : ℕ → Type κ) (transitive : IsTransitive less)
    (decides : (x y : ℕ)
      → P x
      → P y
      → (precedes x y ≡ true → less x y ≡ true) × (precedes x y ≡ false → less y x ≡ true)) where
  pub merge_loop-Perm :
      (fuel : ℕ) (left right : List ℕ)
      → length left + length right ≤ fuel
      → Perm (merge_loop precedes fuel left right) (left ++ right)
  unfolding merge_loop
  merge_loop-Perm fuel [] right enough = Perm.rfl
  merge_loop-Perm fuel (l ∷ left) [] enough =
      subst (λ xs. Perm (l ∷ left) xs) (sym (append-nil (l ∷ left))) Perm.rfl
  merge_loop-Perm zero (l ∷ left) (r ∷ right) enough = absurd (omega arith)
  merge_loop-Perm (suc fuel) (l ∷ left) (r ∷ right) enough = elim (Bool-cases (precedes l r)) [
    | inl e ↦ rw (e, merge_loop) (Perm.cons l (merge_loop-Perm fuel left (r ∷ right) (omega arith)))
    | inr e ↦
        rw (e, merge_loop)
          (Perm.trans (Perm.cons r (merge_loop-Perm fuel (l ∷ left) right (omega arith)))
            (Perm.symm (perm_middle (l ∷ left) right)))
  ]

  merge_loop-All {ν} :
      (Q : ℕ → Type ν) (fuel : ℕ) (left right : List ℕ)
      → All Q left
      → All Q right
      → All Q (merge_loop precedes fuel left right)
  unfolding merge_loop
  merge_loop-All Q fuel [] right hl hr = hr
  merge_loop-All Q fuel (l ∷ left) [] hl hr = hl
  merge_loop-All Q zero (l ∷ left) (r ∷ right) hl hr = tt
  merge_loop-All Q (suc fuel) (l ∷ left) (r ∷ right) hl hr = elim (Bool-cases (precedes l r)) [
    | inl e ↦ rw (e, merge_loop) (hl.0, merge_loop-All Q fuel left (r ∷ right) hl.1 hr)
    | inr e ↦ rw (e, merge_loop) (hr.0, merge_loop-All Q fuel (l ∷ left) right hl hr.1)
  ]

  below_rest :
      (x y : ℕ) (ys : List ℕ)
      → less x y ≡ true
      → All (λ z. less y z ≡ true) ys
      → All (λ z. less x z ≡ true) (y ∷ ys)
  below_rest x y ys h above = (
    h,
    All-map (λ z. less y z ≡ true) (λ z. less x z ≡ true) ys (λ z up. transitive x y z h up) above,
  )

  pub merge_loop-Ordered :
      (fuel : ℕ) (left right : List ℕ)
      → All P left
      → All P right
      → Ordered less left
      → Ordered less right
      → Ordered less (merge_loop precedes fuel left right)
  unfolding merge_loop
  merge_loop-Ordered fuel [] right pl pr ol or = or
  merge_loop-Ordered fuel (l ∷ left) [] pl pr ol or = ol
  merge_loop-Ordered zero (l ∷ left) (r ∷ right) pl pr ol or = tt
  merge_loop-Ordered (suc fuel) (l ∷ left) (r ∷ right) pl pr ol or =
      let (first, second) = decides l r pl.0 pr.0 in
      elim (Bool-cases (precedes l r)) [
        | inl e ↦
            rw (e, merge_loop)
              (
                merge_loop-All (λ z. less l z ≡ true) fuel left (r ∷ right) ol.0
                    (below_rest l r right (first e) or.0),
                merge_loop-Ordered fuel left (r ∷ right) pl.1 pr ol.1 or,
              )
        | inr e ↦
            rw (e, merge_loop)
              (
                merge_loop-All (λ z. less r z ≡ true) fuel (l ∷ left) right
                    (below_rest r l left (second e) ol.0) or.0,
                merge_loop-Ordered fuel (l ∷ left) right pl pr.1 ol or.1,
              )
      ]

  pub merge_loop-P :
      (fuel : ℕ) (left right : List ℕ)
      → All P left
      → All P right
      → All P (merge_loop precedes fuel left right)
  merge_loop-P = merge_loop-All P
