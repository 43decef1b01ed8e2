-- ===== src/Stage/Covered.antt =====
-- The 256 rounds of a run go over every position of its chunks once.
use mathlib.Core.List.{Perm, map, append_assoc, perm_append_comm}
use mathlib.Core.List.Perm
use dirtybird_c_miner.Base.{
  ℕ, zero, suc, ◌+◌, ◌-◌, ◌*◌, ◌≡◌, refl, sym, ap, ap₂, ◌∙◌, subst, List, [], ◌∷◌, ◌++◌, arith,
}
use dirtybird_c_miner.Stage.{identity_from}
use dirtybird_c_miner.Stage.Order.{chunk_ends}

pub swap_front {ℓ} :
    {A : Type ℓ} (xs ys rest : List A) → Perm (xs ++ (ys ++ rest)) (ys ++ (xs ++ rest))
swap_front xs ys rest =
    subst (λ l. Perm l (ys ++ (xs ++ rest))) (append_assoc xs ys rest)
      (subst (Perm (xs ++ ys ++ rest)) (append_assoc ys xs rest)
        (Perm.append_right rest (perm_append_comm xs ys)))

pub identity_from-append :
    (a n m : ℕ) → identity_from a n ++ identity_from (a + n) m ≡ identity_from a (n + m)
unfolding identity_from
identity_from-append a zero m =
    let start : a + 0 ≡ a = omega arith in
    let size : m ≡ 0 + m = omega arith in ap₂ identity_from start size
identity_from-append a (suc n) m =
    let start : a + suc n ≡ suc a + n = omega arith in
    let size : suc (n + m) ≡ suc n + m = omega arith in
    ap (λ l. a ∷ (identity_from (suc a) n ++ l)) (ap (λ (k : ℕ). identity_from k m) start)
    ∙ ap (λ l. a ∷ l) (identity_from-append (suc a) n m)
    ∙ ap (identity_from a) size

-- The positions that the rounds go over, from an order on.
unfoldable pub visited : ℕ → List ℕ → List ℕ
visited zero order = order
visited (suc rel) order = order ++ visited rel (map (λ p. p - 1) order)

pub visited-Perm : (rel : ℕ) {xs ys : List ℕ} → Perm xs ys → Perm (visited rel xs) (visited rel ys)
unfolding visited
visited-Perm zero p = p
visited-Perm (suc rel) p = Perm.append p (visited-Perm rel (Perm.map (λ x. x - 1) p))

-- One chunk downwards.
abbrev column : ℕ → ℕ → List ℕ
column zero p = p ∷ []
column (suc rel) p = p ∷ column rel (p - 1)

visited-nil : (rel : ℕ) → visited rel [] ≡ []
unfolding visited
visited-nil zero = refl
visited-nil (suc rel) = visited-nil rel

visited-cons :
    (rel p : ℕ) (order : List ℕ)
    → Perm (visited rel (p ∷ order)) (column rel p ++ visited rel order)
unfolding visited
visited-cons zero p order = Perm.rfl
visited-cons (suc rel) p order =
    let moved = map (λ x. x - 1) order in
    Perm.cons p (
      Perm.trans (Perm.append_left order (visited-cons rel (p - 1) moved))
        (swap_front order (column rel (p - 1)) (visited rel moved)))

column_lem : (rel base : ℕ) → Perm (column rel (base + rel)) (identity_from base (suc rel))
unfolding identity_from
column_lem zero base =
    let start : base + 0 ≡ base = omega arith in
    subst (λ (b : ℕ). Perm ((base + 0) ∷ []) (b ∷ [])) start Perm.rfl
column_lem (suc rel) base =
    let next : base + suc rel - 1 ≡ base + rel = omega arith in
    let size : suc rel + 1 ≡ suc (suc rel) = omega arith in
    let low = identity_from base (suc rel) in
    subst (Perm (column (suc rel) (base + suc rel)))
      (identity_from-append base (suc rel) 1 ∙ ap (identity_from base) size)
      (Perm.trans
        (Perm.cons (base + suc rel)
          (subst (λ (b : ℕ). Perm (column rel b) low) (sym next) (column_lem rel base)))
        (perm_append_comm ((base + suc rel) ∷ []) low))

-- From the ends of the chunks, each position of the chunks.
pub visited-chunk_ends :
    (base chunk count : ℕ)
    → Perm
        (visited 255 (chunk_ends base chunk count))
        (identity_from (base + chunk * 256) (count * 256))
unfolding chunk_ends identity_from
visited-chunk_ends base chunk zero = subst (λ l. Perm l []) (sym (visited-nil 255)) Perm.rfl
visited-chunk_ends base chunk (suc count) =
    let first = base + chunk * 256 in
    let next : base + suc chunk * 256 ≡ first + 256 = omega arith in
    let size : 256 + count * 256 ≡ suc count * 256 = omega arith in
    let rest =
      subst
        (λ (b : ℕ).
          Perm (visited 255 (chunk_ends base (suc chunk) count)) (identity_from b (count * 256)))
        next (visited-chunk_ends base (suc chunk) count) in
    subst (Perm (visited 255 (chunk_ends base chunk (suc count))))
      (identity_from-append first 256 (count * 256) ∙ ap (identity_from first) size)
      (Perm.trans (visited-cons 255 (first + 255) (chunk_ends base (suc chunk) count))
        (Perm.append (column_lem 255 first) rest))
