-- ===== src/Stage/Lex.antt =====
-- The comparison of suffixes is the dictionary order of unsigned bytes.
use Prim.Native.Nat.{Ordering}
use dirtybird_c_miner.Base.{
  ℕ, zero, suc, ◌+◌, ◌≤◌, ◌<◌, ◌≡◌, ◌≢◌, refl, sym, ap, ◌∙◌, Bool, true, false, List, [], ◌∷◌,
  length, take, drop, drop-get_or, drop-eq-nil, length-take, length-drop, get_or-take, ltb, ◌==◌,
  if◌then◌else◌, arith, Bool-cases, inl, inr, ◌⊎◌, ==_iff, IsTransitive, IsIrreflexive,
}
use dirtybird_c_miner.Stage.{Stage4InputView, byte_at}
use dirtybird_c_miner.Stage.Order.{compare_from, compare_suffixes, is_lt, suffix_less}

-- The dictionary order: a proper prefix comes first.
abbrev pub lex_compare : List ℕ → List ℕ → Ordering
lex_compare [] [] = Ordering.eq
lex_compare [] (y ∷ ys) = Ordering.lt
lex_compare (x ∷ xs) [] = Ordering.gt
lex_compare (x ∷ xs) (y ∷ ys) =
    if x == y then lex_compare xs ys else if ltb x y then Ordering.lt else Ordering.gt

abbrev pub lex_less : List ℕ → List ℕ → Bool
lex_less xs ys = is_lt (lex_compare xs ys)

pub lex_less_trans :
    (xs ys zs : List ℕ) → lex_less xs ys ≡ true → lex_less ys zs ≡ true → lex_less xs zs ≡ true
lex_less_trans [] [] zs h k = cc
lex_less_trans [] (y ∷ ys) [] h k = cc
lex_less_trans [] (y ∷ ys) (z ∷ zs) h k = refl
lex_less_trans (x ∷ xs) [] zs h k = cc
lex_less_trans (x ∷ xs) (y ∷ ys) [] h k = cc
lex_less_trans (x ∷ xs) (y ∷ ys) (z ∷ zs) h k = ground (arith, lex_less_trans xs ys zs)

pub lex_less_irrefl : (xs : List ℕ) → lex_less xs xs ≡ false
lex_less_irrefl [] = refl
lex_less_irrefl (x ∷ xs) = ground (arith, lex_less_irrefl xs)

-- Strings of different lengths are never equal in the order.
pub lex_less-total :
    (xs ys : List ℕ) → length xs ≢ length ys → lex_less xs ys ≡ false → lex_less ys xs ≡ true
lex_less-total [] [] h k = absurd (h refl)
lex_less-total [] (y ∷ ys) h k = cc
lex_less-total (x ∷ xs) [] h k = refl
lex_less-total (x ∷ xs) (y ∷ ys) h k =
    let rest = lex_less-total xs ys (λ e. h (ap suc e)) in ground (arith, rest)

add_one : (n : ℕ) → n + 1 ≡ suc n
add_one n = omega arith

pub lex_compare_refl : (xs : List ℕ) → lex_compare xs xs ≡ Ordering.eq
lex_compare_refl [] = refl
lex_compare_refl (x ∷ xs) = ground (arith, lex_compare_refl xs)

-- The suffix of the text that starts at a position.
abbrev pub suffix : Stage4InputView → ℕ → List ℕ
suffix view pos = drop pos (take view.logical_len view.bytes)

-- The text is there.
abbrev pub HasText : Stage4InputView → Type 0
HasText view = view.logical_len ≤ length view.bytes

-- The dictionary order of the suffixes at two positions.
abbrev pub below : Stage4InputView → ℕ → ℕ → Bool
below view a b = lex_less (suffix view a) (suffix view b)

pub below-IsTransitive : (view : Stage4InputView) → IsTransitive (below view)
below-IsTransitive view a b c = lex_less_trans (suffix view a) (suffix view b) (suffix view c)

pub below-IsIrreflexive : (view : Stage4InputView) → IsIrreflexive (below view)
below-IsIrreflexive view a = lex_less_irrefl (suffix view a)

module _ (view : Stage4InputView) (text : HasText view) where
  pub suffix-cons :
      (pos : ℕ)
      → pos < view.logical_len
      → suffix view pos ≡ byte_at view pos ∷ suffix view (pos + 1)
  suffix-cons pos h =
      drop-get_or (take view.logical_len view.bytes) pos 0
        (omega (arith, length-take view.logical_len view.bytes text))
      ∙ ap (λ b. b ∷ drop (suc pos) (take view.logical_len view.bytes))
          (get_or-take view.logical_len view.bytes pos 0 h)
      ∙ ap (λ n. byte_at view pos ∷ drop n (take view.logical_len view.bytes)) (sym (add_one pos))

  suffix-nil : suffix view view.logical_len ≡ []
  suffix-nil =
      drop-eq-nil view.logical_len (take view.logical_len view.bytes)
        (omega (arith, length-take view.logical_len view.bytes text))

  pub length-suffix :
      (pos : ℕ) → pos ≤ view.logical_len → length (suffix view pos) + pos ≡ view.logical_len
  length-suffix pos h = omega (
    arith,
    length-drop pos (take view.logical_len view.bytes),
    length-take view.logical_len view.bytes text,
  )

  inside_or_end :
      (pos : ℕ) → pos ≤ view.logical_len → (pos < view.logical_len) ⊎ (pos ≡ view.logical_len)
  inside_or_end pos h = elim (Bool-cases (ltb pos view.logical_len)) [
    | inl e ↦ inl (ground arith)
    | inr e ↦ inr (ground arith)
  ]

  compare_from_lem :
      (fuel a b : ℕ)
      → a ≤ view.logical_len
      → b ≤ view.logical_len
      → view.logical_len < a + fuel
      → compare_from view fuel a b ≡ lex_compare (suffix view a) (suffix view b)
  unfolding compare_from
  compare_from_lem zero a b ha hb enough = absurd (omega arith)
  compare_from_lem (suc fuel) a b ha hb enough = elim (inside_or_end a ha) [
    | inl a_in ↦ elim (inside_or_end b hb) [
      | inl b_in ↦
          let rest =
            compare_from_lem fuel (a + 1) (b + 1) (omega arith) (omega arith) (omega arith) in
          rw (suffix-cons a a_in, suffix-cons b b_in) (ground (arith, rest))
      | inr b_end ↦ rw (suffix-cons a a_in, b_end, suffix-nil) (ground arith)
    ]
    | inr a_end ↦ elim (inside_or_end b hb) [
      | inl b_in ↦ rw (suffix-cons b b_in, a_end, suffix-nil) (ground arith)
      | inr b_end ↦ rw (a_end, b_end, suffix-nil) (ground arith)
    ]
  ]

  -- Within the text, the comparison of two suffixes is their dictionary order.
  pub compare_suffixes-lex_compare :
      (a b : ℕ)
      → a ≤ view.logical_len
      → b ≤ view.logical_len
      → compare_suffixes view a b ≡ lex_compare (suffix view a) (suffix view b)
  unfolding compare_suffixes
  compare_suffixes-lex_compare a b ha hb = elim (Bool-cases (a == b)) [
    | inl e ↦ rw ((==_iff a b).0 e) (rw (lex_compare_refl (suffix view b)) (ground arith))
    | inr e ↦ rw e (compare_from_lem (view.logical_len + 1) a b ha hb (omega arith))
  ]

  pub suffix_less-below :
      (a b : ℕ)
      → a ≤ view.logical_len
      → b ≤ view.logical_len
      → suffix_less view a b ≡ below view a b
  unfolding suffix_less
  suffix_less-below a b ha hb = ap is_lt (compare_suffixes-lex_compare a b ha hb)

  pub below-total :
      (a b : ℕ)
      → a ≤ view.logical_len
      → b ≤ view.logical_len
      → a ≢ b
      → below view a b ≡ false
      → below view b a ≡ true
  below-total a b ha hb apart =
      lex_less-total (suffix view a) (suffix view b)
        (λ e. apart (omega (arith, length-suffix a ha, length-suffix b hb)))
