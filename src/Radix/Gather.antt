-- ===== src/Radix/Gather.antt =====
-- The entries of a list, bucket after bucket.
use mathlib.Core.List.{Perm, perm_middle}
use mathlib.Core.List.Perm
use dirtybird_c_miner.Base.{
  ℕ, zero, suc, ◌+◌, ◌≤◌, ◌<◌, ◌≡◌, ◌≢◌, refl, ap, ◌⊎◌, inl, inr, List, [], ◌∷◌, ◌++◌, All,
  All-append, All-map, All-of, All-zip, ◌==◌, ==_iff, if◌then◌else◌, Bool-cases, arith,
}

-- Every entry stands in the relation to all the later ones.
abbrev pub Pairwise {ℓ κ} : {A : Type ℓ} → (A → A → Type κ) → List A → Type κ
Pairwise R [] = Unit
Pairwise R (x ∷ xs) = All (R x) xs × Pairwise R xs

pub Pairwise-map {ℓ κ μ} :
    {A : Type ℓ} (R : A → A → Type κ) (S : A → A → Type μ) (xs : List A)
    → ((x y : A) → R x y → S x y)
    → Pairwise R xs
    → Pairwise S xs
Pairwise-map R S [] f h = tt
Pairwise-map R S (x ∷ xs) f h = (All-map (R x) (S x) xs (f x) h.0, Pairwise-map R S xs f h.1)

pub Pairwise-of {ℓ κ} :
    {A : Type ℓ} (R : A → A → Type κ) (xs : List A) → ((x y : A) → R x y) → Pairwise R xs
Pairwise-of R [] f = tt
Pairwise-of R (x ∷ xs) f = (All-of (f x) xs, Pairwise-of R xs f)

pub Pairwise-append {ℓ κ} :
    {A : Type ℓ} (R : A → A → Type κ) (xs ys : List A)
    → Pairwise R xs
    → Pairwise R ys
    → All (λ x. All (R x) ys) xs
    → Pairwise R (xs ++ ys)
Pairwise-append R [] ys hx hy across = hy
Pairwise-append R (x ∷ xs) ys hx hy across =
    (All-append (R x) xs ys hx.0 across.0, Pairwise-append R xs ys hx.1 hy across.1)

module _ {ℓ} {A : Type ℓ} (bucket : A → ℕ) where
  -- The entries of one bucket, in order.
  unfoldable pub only : ℕ → List A → List A
  only i [] = []
  only i (x ∷ xs) = let rest = only i xs in if bucket x == i then x ∷ rest else rest

  -- The entries of `n` buckets from bucket `i` on.
  unfoldable pub gather : ℕ → ℕ → List A → List A
  gather i zero xs = []
  gather i (suc n) xs = only i xs ++ gather (suc i) n xs

  pub only-append : (i : ℕ) (xs ys : List A) → only i (xs ++ ys) ≡ only i xs ++ only i ys
  unfolding only
  only-append i [] ys = refl
  only-append i (x ∷ xs) ys = elim (Bool-cases (bucket x == i)) [
    | inl e ↦ rw e (ap (λ l. x ∷ l) (only-append i xs ys))
    | inr e ↦ rw e (only-append i xs ys)
  ]

  pub only-in : (i : ℕ) (x : A) → bucket x ≡ i → only i (x ∷ []) ≡ x ∷ []
  unfolding only
  only-in i x h = rw ((==_iff (bucket x) i).1 h) refl

  pub only-out : (i : ℕ) (x : A) (xs : List A) → bucket x ≢ i → only i (x ∷ xs) ≡ only i xs
  unfolding only
  only-out i x xs h = elim (Bool-cases (bucket x == i)) [
    | inl e ↦ absurd (h ((==_iff (bucket x) i).0 e))
    | inr e ↦ rw e refl
  ]

  -- Entries of earlier buckets are not gathered.
  gather-out : (i n : ℕ) (x : A) (xs : List A) → bucket x < i → gather i n (x ∷ xs) ≡ gather i n xs
  unfolding gather
  gather-out i zero x xs h = refl
  gather-out i (suc n) x xs h =
      rw (only-out i x xs (λ e. absurd (omega arith)))
        (ap (λ l. only i xs ++ l) (gather-out (suc i) n x xs (omega arith)))

  gather-cons :
      (i n : ℕ) (x : A) (xs : List A)
      → i ≤ bucket x
      → bucket x < i + n
      → Perm (gather i n (x ∷ xs)) (x ∷ gather i n xs)
  unfolding gather only
  gather-cons i zero x xs low high = absurd (omega arith)
  gather-cons i (suc n) x xs low high = elim (Bool-cases (bucket x == i)) [
    | inl e ↦
        let here : bucket x ≡ i = (==_iff (bucket x) i).0 e in
        rw e (rw (gather-out (suc i) n x xs (omega arith)) Perm.rfl)
    | inr e ↦
        let later : suc i ≤ bucket x = ground (arith, e) in
        rw e (
          Perm.trans (Perm.append_left (only i xs) (gather-cons (suc i) n x xs later (omega arith)))
            (perm_middle (only i xs) (gather (suc i) n xs)))
  ]

  gather-nil : (i n : ℕ) → gather i n [] ≡ []
  unfolding gather only
  gather-nil i zero = refl
  gather-nil i (suc n) = gather-nil (suc i) n

  pub gather-Perm : (n : ℕ) (xs : List A) → All (λ x. bucket x < n) xs → Perm (gather 0 n xs) xs
  gather-Perm n [] h = rw (gather-nil 0 n) Perm.rfl
  gather-Perm n (x ∷ xs) h =
      Perm.trans (gather-cons 0 n x xs (omega arith) (omega (arith, h.0)))
        (Perm.cons x (gather-Perm n xs h.1))

  module _ {κ} (R : A → A → Type κ) where
    -- The order by bucket, and within a bucket the earlier order.
    abbrev pub Refined : A → A → Type κ
    Refined x y = (bucket x < bucket y) ⊎ ((bucket x ≡ bucket y) × R x y)

    only-All {μ} : (P : A → Type μ) (i : ℕ) (xs : List A) → All P xs → All P (only i xs)
    unfolding only
    only-All P i [] h = tt
    only-All P i (x ∷ xs) h = elim (Bool-cases (bucket x == i)) [
      | inl e ↦ rw e (h.0, only-All P i xs h.1)
      | inr e ↦ rw e (only-All P i xs h.1)
    ]

    only-bucket : (i : ℕ) (xs : List A) → All (λ x. bucket x ≡ i) (only i xs)
    unfolding only
    only-bucket i [] = tt
    only-bucket i (x ∷ xs) = elim (Bool-cases (bucket x == i)) [
      | inl e ↦ rw e ((==_iff (bucket x) i).0 e, only-bucket i xs)
      | inr e ↦ rw e (only-bucket i xs)
    ]

    gather-bucket : (i n : ℕ) (xs : List A) → All (λ x. i ≤ bucket x) (gather i n xs)
    unfolding gather
    gather-bucket i zero xs = tt
    gather-bucket i (suc n) xs =
        All-append (λ x. i ≤ bucket x) (only i xs) (gather (suc i) n xs)
          (All-map (λ x. bucket x ≡ i) (λ x. i ≤ bucket x) (only i xs) (λ x e. omega arith)
            (only-bucket i xs))
          (All-map (λ x. suc i ≤ bucket x) (λ x. i ≤ bucket x) (gather (suc i) n xs)
            (λ x e. omega arith) (gather-bucket (suc i) n xs))

    only-Pairwise : (i : ℕ) (xs : List A) → Pairwise R xs → Pairwise R (only i xs)
    unfolding only
    only-Pairwise i [] h = tt
    only-Pairwise i (x ∷ xs) h = elim (Bool-cases (bucket x == i)) [
      | inl e ↦ rw e (only-All (R x) i xs h.0, only-Pairwise i xs h.1)
      | inr e ↦ rw e (only-Pairwise i xs h.1)
    ]

    refine_bucket :
        (i : ℕ) (xs : List A) → All (λ x. bucket x ≡ i) xs → Pairwise R xs → Pairwise Refined xs
    refine_bucket i [] b h = tt
    refine_bucket i (x ∷ xs) b h = (
      All-zip (λ y. bucket y ≡ i) (R x) (Refined x) xs (λ y e r. inr (omega (arith, b.0), r)) b.1
          h.0,
      refine_bucket i xs b.1 h.1,
    )

    pub gather-Refined : (i n : ℕ) (xs : List A) → Pairwise R xs → Pairwise Refined (gather i n xs)
    unfolding gather
    gather-Refined i zero xs h = tt
    gather-Refined i (suc n) xs h =
        Pairwise-append Refined (only i xs) (gather (suc i) n xs)
          (refine_bucket i (only i xs) (only-bucket i xs) (only-Pairwise i xs h))
          (gather-Refined (suc i) n xs h)
          (All-map (λ x. bucket x ≡ i) (λ x. All (Refined x) (gather (suc i) n xs)) (only i xs)
            (λ x e.
              All-map (λ y. suc i ≤ bucket y) (Refined x) (gather (suc i) n xs)
                (λ y later. inl (omega arith)) (gather-bucket (suc i) n xs))
            (only-bucket i xs))
