-- ===== src/Stage/StdSort.antt =====
-- What `std::sort` documents, and the insertion sort of src/v114_stubs.cpp as one that does so.
use mathlib.Core.List.{Perm}
use dirtybird_c_miner.Base.{
  ℕ, ◌≡◌, Bool, true, false, not, ◌&&◌, List, [], ◌∷◌, All, All-map, Ordered, IsTransitive,
  Bool-cases, inl, inr, arith,
}
use dirtybird_c_miner.Stage.Order.{insertion_sort}
use dirtybird_c_miner.Stage.Insertion.{Decides, DecidesAll, insertion_sort-Ordered}

-- A test that is a strict weak order on the entries that satisfy `inside`.
pub record IsStrictWeak (inside : ℕ → Bool) (precedes : ℕ → ℕ → Bool) : Type 0 where
  pub irreflexive : (x : ℕ) → inside x ≡ true → precedes x x ≡ false
  pub transitive :
      (x y z : ℕ)
      → inside x ≡ true
      → inside y ≡ true
      → inside z ≡ true
      → precedes x y ≡ true
      → precedes y z ≡ true
      → precedes x z ≡ true
  pub incomparable :
      (x y z : ℕ)
      → inside x ≡ true
      → inside y ≡ true
      → inside z ≡ true
      → precedes x y ≡ false
      → precedes y z ≡ false
      → precedes x z ≡ false

-- What `std::sort` documents: where its test is a strict weak order on the entries, it gives a
-- permutation of them in which no entry precedes one before it. Nothing is said of the order of
-- entries neither of which precedes the other.
abbrev pub IsSort : ((ℕ → ℕ → Bool) → List ℕ → List ℕ) → Type 0
IsSort sort =
    (inside : ℕ → Bool) (precedes : ℕ → ℕ → Bool) (order : List ℕ)
    → All (λ x. inside x ≡ true) order
    → IsStrictWeak inside precedes
    → Ordered (λ x y. not (precedes y x)) (sort precedes order) × Perm (sort precedes order) order

-- An order on all numbers that is the wanted one on the entries.
abbrev not_before : (ℕ → Bool) → (ℕ → ℕ → Bool) → ℕ → ℕ → Bool
not_before inside precedes x y = inside x && inside y && not (precedes y x)

module _ (inside : ℕ → Bool) (precedes : ℕ → ℕ → Bool) (weak : IsStrictWeak inside precedes) where
  not_before-IsTransitive : IsTransitive (not_before inside precedes)
  not_before-IsTransitive x y z h k =
      let hx : inside x ≡ true = ground (arith, h) in
      let hy : inside y ≡ true = ground (arith, h) in
      let hz : inside z ≡ true = ground (arith, k) in
      let yx : precedes y x ≡ false = ground (arith, h) in
      let zy : precedes z y ≡ false = ground (arith, k) in
      let zx = weak.incomparable z y x hz hy hx zy yx in ground (arith, hx, hz, zx)

  never_both :
      (x y : ℕ) → inside x ≡ true → inside y ≡ true → precedes x y ≡ true → precedes y x ≡ false
  never_both x y hx hy e = elim (Bool-cases (precedes y x)) [
    | inl both ↦
        let loop = weak.transitive x y x hx hy hx e both in
        let never = weak.irreflexive x hx in absurd (cc)
    | inr e' ↦ e'
  ]

  weak-Decides :
      (x y : ℕ)
      → inside x ≡ true
      → inside y ≡ true
      → Decides precedes (not_before inside precedes) x y
  weak-Decides x y hx hy = (
    λ e. let other = never_both x y hx hy e in ground (arith, hx, hy, other),
    λ e. ground (arith, hx, hy, e),
  )

  weak-DecidesAll :
      (order : List ℕ)
      → All (λ x. inside x ≡ true) order
      → DecidesAll precedes (not_before inside precedes) order
  weak-DecidesAll [] h = tt
  weak-DecidesAll (y ∷ order) h = (
    All-map (λ x. inside x ≡ true) (λ x. Decides precedes (not_before inside precedes) x y) order
        (λ x hx. weak-Decides x y hx h.0) h.1,
    weak-DecidesAll order h.1,
  )

  Ordered-bare :
      (order : List ℕ)
      → Ordered (not_before inside precedes) order
      → Ordered (λ x y. not (precedes y x)) order
  Ordered-bare [] h = tt
  Ordered-bare (x ∷ order) h = (
    All-map (λ y. not_before inside precedes x y ≡ true) (λ y. not (precedes y x) ≡ true) order
        (λ y hy. ground (arith, hy)) h.0,
    Ordered-bare order h.1,
  )

-- The insertion sort of the short runs is such a sort.
pub insertion_sort-IsSort : IsSort insertion_sort
insertion_sort-IsSort inside precedes order all weak =
    let (up, perm) =
      insertion_sort-Ordered precedes (not_before inside precedes)
        (not_before-IsTransitive inside precedes weak) order
        (weak-DecidesAll inside precedes weak order all) in
    (Ordered-bare inside precedes weak (insertion_sort precedes order) up, perm)
