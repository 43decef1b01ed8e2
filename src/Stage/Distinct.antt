-- ===== src/Stage/Distinct.antt =====
-- Positions that are a rearrangement of 0, 1, … are all different, so that an order without a position
-- behind one with a larger suffix is strict.
use mathlib.Core.Logic.{∥∥₁_elim}
use mathlib.Core.HLevel.{¬_prop, ×_prop}
use mathlib.Core.List.{Perm, Permᴰ}
use mathlib.Core.List.Perm
use dirtybird_c_miner.Base.{
  ℕ, zero, suc, ◌+◌, ◌≤◌, ◌<◌, ◌≡◌, ◌≢◌, refl, sym, ap, subst, true, not, List, [], ◌∷◌, length,
  All, All-map, All-zip, All-IsProp, All-in_any_order, Ordered, arith,
}
use dirtybird_c_miner.Radix.Gather.{Pairwise}
use dirtybird_c_miner.Stage.{Stage4InputView, identity_from}
use dirtybird_c_miner.Stage.Lex.{HasText, below, below-total}
use native.Mathlib.Bridge.{le_prop}

-- No number stands twice.
abbrev pub Apart : List ℕ → Type 0
Apart = Pairwise (λ x y. x ≢ y)

Apart-Permᴰ : {xs ys : List ℕ} → Permᴰ xs ys → Apart xs → Apart ys
Apart-Permᴰ Permᴰ.nil h = h
Apart-Permᴰ (Permᴰ.cons {a} {b} {l₁} {l₂} e p) h = (
  subst (λ (x : ℕ). All (λ y. x ≢ y) l₂) e (All-in_any_order (λ y. a ≢ y) (λ y. ¬_prop) ∣ p ∣₁ h.0),
  Apart-Permᴰ p h.1,
)
Apart-Permᴰ (Permᴰ.swap {a} {b} {a'} {b'} {l} e f) h =
    subst (λ (x : ℕ). Apart (x ∷ b' ∷ l)) f
      (subst (λ (x : ℕ). Apart (b ∷ x ∷ l)) e ((λ same. h.0.0 (sym same), h.1.0), (h.0.1, h.1.1)))
Apart-Permᴰ (Permᴰ.trans p q) h = Apart-Permᴰ q (Apart-Permᴰ p h)

Apart-IsProp : (xs : List ℕ) → IsProp (Apart xs)
Apart-IsProp [] = hlevel
Apart-IsProp (x ∷ xs) = ×_prop (All-IsProp (λ y. x ≢ y) (λ y. ¬_prop) xs) (Apart-IsProp xs)

pub Apart-Perm : {xs ys : List ℕ} → Perm xs ys → Apart xs → Apart ys
Apart-Perm {xs} {ys} p h = ∥∥₁_elim p (Apart-IsProp ys) (λ q. Apart-Permᴰ q h)

identity_from-All : (a b n : ℕ) → b ≤ a → All (λ y. b ≤ y) (identity_from a n)
unfolding identity_from
identity_from-All a b zero h = tt
identity_from-All a b (suc n) h = (h, identity_from-All (suc a) b n (omega arith))

identity_from-below : (a n bound : ℕ) → a + n ≤ bound → All (λ y. y < bound) (identity_from a n)
unfolding identity_from
identity_from-below a zero bound h = tt
identity_from-below a (suc n) bound h =
    (omega arith, identity_from-below (suc a) n bound (omega arith))

identity_from-Apart : (a n : ℕ) → Apart (identity_from a n)
unfolding identity_from
identity_from-Apart a zero = tt
identity_from-Apart a (suc n) = (
  All-map (λ y. suc a ≤ y) (λ y. a ≢ y) (identity_from (suc a) n) (λ y h e. absurd (omega arith))
      (identity_from-All (suc a) (suc a) n (omega arith)),
  identity_from-Apart (suc a) n,
)

pub length-identity_from : (a n : ℕ) → length (identity_from a n) ≡ n
unfolding identity_from
length-identity_from a zero = refl
length-identity_from a (suc n) = ap suc (length-identity_from (suc a) n)

-- All positions in an order where none comes after a larger suffix are strictly in order.
pub strictly :
    (view : Stage4InputView)
    → HasText view
    → (positions : List ℕ) → All (λ p. p < view.logical_len) positions
    → Apart positions
    → Ordered (λ x y. not (below view y x)) positions
    → Ordered (below view) positions
strictly view text [] h apart up = tt
strictly view text (x ∷ positions) h apart up = (
  All-zip (λ y. (y < view.logical_len) × (x ≢ y)) (λ y. not (below view y x) ≡ true)
      (λ y. below view x y ≡ true) positions
      (λ y hy le.
        below-total view text y x (omega arith) (omega arith) (λ e. hy.1 (sym e))
          (ground (arith, le)))
      (All-zip (λ y. y < view.logical_len) (λ y. x ≢ y) (λ y. (y < view.logical_len) × (x ≢ y))
        positions (λ y a b. (a, b)) h.1 apart.0)
      up.0,
  strictly view text positions h.1 apart.1 up.1,
)

-- The same from the whole text in any order.
pub all_strictly :
    (view : Stage4InputView)
    → HasText view
    → (positions : List ℕ) → Perm positions (identity_from 0 view.logical_len)
    → Ordered (λ x y. not (below view y x)) positions
    → Ordered (below view) positions
all_strictly view text positions perm up =
    strictly view text positions
      (All-in_any_order (λ y. y < view.logical_len) (λ y. le_prop) (Perm.symm perm)
        (identity_from-below 0 view.logical_len view.logical_len (omega arith)))
      (Apart-Perm (Perm.symm perm) (identity_from-Apart 0 view.logical_len)) up
