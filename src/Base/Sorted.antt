-- ===== src/Base/Sorted.antt =====
-- Lists of numbers in the order of a Boolean test, and why a list has one ordered permutation.
use Prim.Native.Nat.{ℕ}
use mathlib.Core.Path.{◌≡◌, sym, ap₂, subst}
use mathlib.Core.Logic.Or
use mathlib.Core.Bool.{Bool, true, false}
use mathlib.Core.List.{
  List, [], ◌∷◌, ◌++◌, Mem, Perm, mem-cons, mem-cons_self, mem-cons_of_mem, not-mem-nil,
}
use mathlib.Core.List.Perm
use dirtybird_c_miner.Base.Lists.{All, All-append}

-- Every entry comes before all the later ones.
abbrev pub Ordered : (ℕ → ℕ → Bool) → List ℕ → Type 0
Ordered less [] = Unit
Ordered less (x ∷ xs) = All (λ y. less x y ≡ true) xs × Ordered less xs

abbrev pub IsTransitive : (ℕ → ℕ → Bool) → Type 0
IsTransitive less = (x y z : ℕ) → less x y ≡ true → less y z ≡ true → less x z ≡ true

-- No number comes before itself.
abbrev pub IsIrreflexive : (ℕ → ℕ → Bool) → Type 0
IsIrreflexive less = (x : ℕ) → less x x ≡ false

pub All-at :
    (test : ℕ → Bool) (x : ℕ) (xs : List ℕ) → All (λ y. test y ≡ true) xs → Mem x xs → test x ≡ true
All-at test x [] h m = absurd (not-mem-nil m)
All-at test x (y ∷ ys) h m =
    Or.elim (hlevel) (mem-cons.0 m) (λ e. subst (λ z. test z ≡ true) (sym e) h.0)
      (λ later. All-at test x ys h.1 later)

pub All-by_mem :
    (test : ℕ → Bool) (xs : List ℕ)
    → ((x : ℕ) → Mem x xs → test x ≡ true)
    → All (λ y. test y ≡ true) xs
All-by_mem test [] h = tt
All-by_mem test (y ∷ ys) h =
    (h y mem-cons_self, All-by_mem test ys (λ x m. h x (mem-cons_of_mem y m)))

pub All-Perm :
    (test : ℕ → Bool) {xs ys : List ℕ}
    → Perm xs ys
    → All (λ y. test y ≡ true) xs
    → All (λ y. test y ≡ true) ys
All-Perm test {xs} {ys} p h = All-by_mem test ys (λ x m. All-at test x xs h ((Perm.mem_iff p).1 m))

module _ (less : ℕ → ℕ → Bool) where
  pub Ordered-append :
      (xs : List ℕ) (y : ℕ)
      → Ordered less xs
      → All (λ x. less x y ≡ true) xs
      → Ordered less (xs ++ y ∷ [])
  Ordered-append [] y h below = (tt, tt)
  Ordered-append (x ∷ xs) y h below = (
    All-append (λ z. less x z ≡ true) xs (y ∷ []) h.0 (below.0, tt),
    Ordered-append xs y h.1 below.1,
  )

module _ (less : ℕ → ℕ → Bool) (irreflexive : IsIrreflexive less)
    (transitive : IsTransitive less) where
  heads_eq :
      (a b : ℕ) (xs ys : List ℕ)
      → Ordered less (a ∷ xs)
      → Ordered less (b ∷ ys)
      → Perm (a ∷ xs) (b ∷ ys)
      → a ≡ b
  heads_eq a b xs ys hx hy p =
      Or.elim (hlevel) (mem-cons.0 ((Perm.mem_iff p).0 mem-cons_self)) (λ e. e)
        (λ in_ys.
          Or.elim (hlevel) (mem-cons.0 ((Perm.mem_iff p).1 mem-cons_self)) (λ e. sym e)
            (λ in_xs.
              let up : less a b ≡ true = All-at (less a) b xs hx.0 in_xs in
              let down : less b a ≡ true = All-at (less b) a ys hy.0 in_ys in
              let loop = transitive a b a up down in let never = irreflexive a in absurd (cc)))

  -- Two ordered lists with the same entries are one list.
  pub Ordered-unique : (xs ys : List ℕ) → Ordered less xs → Ordered less ys → Perm xs ys → xs ≡ ys
  Ordered-unique [] ys hx hy p = Perm.nil-eq p
  Ordered-unique (x ∷ xs) [] hx hy p = Perm.eq-nil p
  Ordered-unique (x ∷ xs) (y ∷ ys) hx hy p =
      let heads = heads_eq x y xs ys hx hy p in
      ap₂ ◌∷◌ heads (
        Ordered-unique xs ys hx.1 hy.1
          (Perm.cons_inv (Perm.trans p (Perm.symm (Perm.cons' heads Perm.rfl)))))

module _ (less : ℕ → ℕ → Bool) where
  -- One list behind another, where all of the first come before all of the second.
  pub Ordered-append_all :
      (xs ys : List ℕ)
      → Ordered less xs
      → Ordered less ys
      → All (λ x. All (λ y. less x y ≡ true) ys) xs
      → Ordered less (xs ++ ys)
  Ordered-append_all [] ys hx hy across = hy
  Ordered-append_all (x ∷ xs) ys hx hy across = (
    All-append (λ y. less x y ≡ true) xs ys hx.0 across.0,
    Ordered-append_all xs ys hx.1 hy across.1,
  )
