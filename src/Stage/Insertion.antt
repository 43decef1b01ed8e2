-- ===== src/Stage/Insertion.antt =====
-- The insertion loops of src/v114_stubs.cpp sort, for every test that decides the wanted order.
use mathlib.Core.List.{Perm, reverse, reverse-cons, append-nil, perm_middle}
use mathlib.Core.List.Perm
use dirtybird_c_miner.Base.{
  ℕ, ◌≡◌, sym, subst, Bool, true, false, List, [], ◌∷◌, ◌++◌, All, All-reverse, All-map, All-zip,
  All-of, reverse-perm, refl, Ordered, Ordered-append, IsTransitive, Bool-cases, inl, inr,
}
use dirtybird_c_miner.Stage.Order.{shift_in, insert_from, insertion_sort}

module _ (precedes less : ℕ → ℕ → Bool) where
  -- The test puts the new entry `x` and the earlier entry `y` in the wanted order.
  abbrev pub Decides : ℕ → ℕ → Type 0
  Decides x y = (precedes x y ≡ true → less x y ≡ true) × (precedes x y ≡ false → less y x ≡ true)

  -- The test decides every pair of entries, the later one against the earlier one.
  abbrev pub DecidesAll : List ℕ → Type 0
  DecidesAll [] = Unit
  DecidesAll (y ∷ order) = All (λ x. Decides x y) order × DecidesAll order

  -- Highest first.
  abbrev Descending : List ℕ → Type 0
  Descending [] = Unit
  Descending (x ∷ xs) = All (λ y. less y x ≡ true) xs × Descending xs

  pub shift_in-Perm : (x : ℕ) (sorted : List ℕ) → Perm (shift_in precedes x sorted) (x ∷ sorted)
  unfolding shift_in
  shift_in-Perm x [] = Perm.rfl
  shift_in-Perm x (y ∷ sorted) = elim (Bool-cases (precedes x y)) [
    | inl e ↦ rw e (Perm.trans (Perm.cons y (shift_in-Perm x sorted)) (Perm.swap x y sorted))
    | inr e ↦ rw e Perm.rfl
  ]

  shift_in-All {κ} :
      (P : ℕ → Type κ) (x : ℕ) (sorted : List ℕ)
      → P x
      → All P sorted
      → All P (shift_in precedes x sorted)
  unfolding shift_in
  shift_in-All P x [] p h = (p, tt)
  shift_in-All P x (y ∷ sorted) p h = elim (Bool-cases (precedes x y)) [
    | inl e ↦ rw e (h.0, shift_in-All P x sorted p h.1)
    | inr e ↦ rw e (p, h)
  ]

  insert_from-All {κ} :
      (P : ℕ → Type κ) (sorted order : List ℕ)
      → All P sorted
      → All P order
      → All P (insert_from precedes sorted order)
  unfolding insert_from
  insert_from-All P sorted [] h k = All-reverse P sorted h
  insert_from-All P sorted (x ∷ order) h k =
      insert_from-All P (shift_in precedes x sorted) order (shift_in-All P x sorted k.0 h) k.1

  pub insertion_sort-All {κ} :
      (P : ℕ → Type κ) (order : List ℕ) → All P order → All P (insertion_sort precedes order)
  unfolding insertion_sort
  insertion_sort-All P order h = insert_from-All P [] order tt h

  module _ (transitive : IsTransitive less) where
    shift_in-Descending :
        (x : ℕ) (sorted : List ℕ)
        → All (Decides x) sorted
        → Descending sorted
        → Descending (shift_in precedes x sorted)
    unfolding shift_in
    shift_in-Descending x [] d h = (tt, tt)
    shift_in-Descending x (y ∷ sorted) d h = elim (Bool-cases (precedes x y)) [
      | inl e ↦ rw e (
        shift_in-All (λ z. less z y ≡ true) x sorted (d.0.0 e) h.0,
        shift_in-Descending x sorted d.1 h.1,
      )
      | inr e ↦ rw e (
        (
          d.0.1 e,
          All-map (λ z. less z y ≡ true) (λ z. less z x ≡ true) sorted
              (λ z below. transitive z y x below (d.0.1 e)) h.0,
        ),
        h,
      )
    ]

    insert_from-Descending :
        (sorted order : List ℕ)
        → All (λ x. All (Decides x) sorted) order
        → DecidesAll order
        → Descending sorted
        → (result : List ℕ) × Descending result
          × (insert_from precedes sorted order ≡ reverse result)
          × Perm result (sorted ++ order)
    unfolding insert_from
    insert_from-Descending sorted [] d e h =
        (sorted, h, refl, subst (λ l. Perm sorted l) (sym (append-nil sorted)) Perm.rfl)
    insert_from-Descending sorted (x ∷ order) d e h =
        let placed = shift_in precedes x sorted in
        let (result, down, ends, perm) =
          insert_from-Descending placed order
            (All-zip (λ y. All (Decides y) sorted) (λ y. Decides y x) (λ y. All (Decides y) placed)
              order (λ y old new. shift_in-All (Decides y) x sorted new old) d.1 e.0)
            e.1 (shift_in-Descending x sorted d.0 h) in
        (
          result,
          down,
          ends,
          Perm.trans perm (
              Perm.trans (Perm.append_right order (shift_in-Perm x sorted))
                (Perm.symm (perm_middle sorted order))),
        )

    Descending-reverse : (xs : List ℕ) → Descending xs → Ordered less (reverse xs)
    Descending-reverse [] h = tt
    Descending-reverse (x ∷ xs) h = rw (reverse-cons x xs) (
        Ordered-append less (reverse xs) x (Descending-reverse xs h.1)
          (All-reverse (λ y. less y x ≡ true) xs h.0))

    -- The insertion sort orders the entries wherever its test decides every pair of them.
    pub insertion_sort-Ordered :
        (order : List ℕ)
        → DecidesAll order
        → Ordered less (insertion_sort precedes order) × Perm (insertion_sort precedes order) order
    unfolding insertion_sort
    insertion_sort-Ordered order d =
        let (result, down, ends, perm) =
          insert_from-Descending [] order (All-of (λ x. tt) order) d tt in
        rw ends (Descending-reverse result down, Perm.trans (reverse-perm result) perm)
