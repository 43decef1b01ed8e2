-- ===== src/Stage/Memcmp.antt =====
-- Byte comparisons and lengths against the dictionary order of suffixes.
use Prim.Native.Nat.{Ordering, min}
use dirtybird_c_miner.Base.{
  ℕ, zero, suc, ◌+◌, ◌-◌, ◌≤◌, ◌≡◌, refl, ap, ap₂, ◌∙◌, ◌⊎◌, inl, inr, List, [], ◌∷◌, length, leb,
  Bool-cases, arith,
}
use dirtybird_c_miner.Stage.{Stage4InputView}
use dirtybird_c_miner.Stage.Lex.{lex_compare, suffix, suffix-cons, length-suffix}
use dirtybird_c_miner.Stage.Parse.{Stage5InputView}
use dirtybird_c_miner.Stage.AfterKey.{compare_numbers, memcmp, or_lengths}

-- The text of a stage 5 view, as a stage 4 view.
abbrev pub text_of : Stage5InputView → Stage4InputView
text_of view = record {
  logical_len = view.logical_len;
  data_len = view.data_len;
  flag_len = 0;
  flags = [];
  bytes = view.bytes;
}

-- The first difference, or else `otherwise`.
abbrev pub or_else : Ordering → Ordering → Ordering
or_else Ordering.lt otherwise = Ordering.lt
or_else Ordering.gt otherwise = Ordering.gt
or_else Ordering.eq otherwise = otherwise

-- What is left of one text when the other has ended.
lex_compare-lengths :
    (xs ys : List ℕ)
    → (xs ≡ []) ⊎ (ys ≡ [])
    → lex_compare xs ys ≡ compare_numbers (length xs) (length ys)
lex_compare-lengths [] [] h = refl
lex_compare-lengths [] (y ∷ ys) h = ground arith
lex_compare-lengths (x ∷ xs) [] h = ground arith
lex_compare-lengths (x ∷ xs) (y ∷ ys) (inl e) = cc
lex_compare-lengths (x ∷ xs) (y ∷ ys) (inr e) = cc

nil_of_length : (xs : List ℕ) → length xs ≡ 0 → xs ≡ []
nil_of_length [] h = refl
nil_of_length (x ∷ xs) h = absurd (omega arith)

compare_numbers-minus :
    (n x y : ℕ) → n ≤ x → n ≤ y → compare_numbers (x - n) (y - n) ≡ compare_numbers x y
compare_numbers-minus n x y hx hy = ground arith

or_else_lengths : (c : Ordering) (m n : ℕ) → or_else c (compare_numbers m n) ≡ or_lengths c m n
or_else_lengths Ordering.lt m n = refl
or_else_lengths Ordering.eq m n = refl
or_else_lengths Ordering.gt m n = refl

pub or_lengths-minus :
    (c : Ordering) (n x y : ℕ) → n ≤ x → n ≤ y → or_lengths c (x - n) (y - n) ≡ or_lengths c x y
or_lengths-minus Ordering.lt n x y hx hy = refl
or_lengths-minus Ordering.gt n x y hx hy = refl
or_lengths-minus Ordering.eq n x y hx hy = compare_numbers-minus n x y hx hy

pub memcmp-append :
    (bytes : List ℕ) (m n a b : ℕ)
    → memcmp bytes a b (m + n) ≡ or_else (memcmp bytes a b m) (memcmp bytes (a + m) (b + m) n)
unfolding memcmp
memcmp-append bytes zero n a b = (λ i. memcmp bytes (ea i) (eb i) (en i))
  where
    ea : a ≡ a + 0
    ea = omega arith

    eb : b ≡ b + 0
    eb = omega arith

    en : 0 + n ≡ n
    en = omega arith
memcmp-append bytes (suc m) n a b =
    let rest = memcmp-append bytes m n (a + 1) (b + 1) in
    let count : suc m + n ≡ suc (m + n) = omega arith in
    let ea : a + 1 + m ≡ a + suc m = omega arith in
    let eb : b + 1 + m ≡ b + suc m = omega arith in
    let moved =
      rest ∙ ap₂ (λ x y. or_else (memcmp bytes (a + 1) (b + 1) m) (memcmp bytes x y n)) ea eb in
    ap (memcmp bytes a b) count ∙ ground (arith, moved)

module _ (view : Stage5InputView) (text : view.logical_len ≤ length view.bytes) where
  abbrev tail : ℕ → List ℕ
  tail = suffix (text_of view)

  -- Bytes compared are bytes off both texts.
  pub lex_compare-memcmp :
      (count a b : ℕ)
      → a + count ≤ view.logical_len
      → b + count ≤ view.logical_len
      → lex_compare (tail a) (tail b)
        ≡ or_else (memcmp view.bytes a b count) (lex_compare (tail (a + count)) (tail (b + count)))
  unfolding memcmp
  lex_compare-memcmp zero a b ha hb =
      ap₂ (λ x y. lex_compare (tail x) (tail y)) (omega arith) (omega arith)
  lex_compare-memcmp (suc count) a b ha hb =
      let rest = lex_compare-memcmp count (a + 1) (b + 1) (omega arith) (omega arith) in
      let ea : a + 1 + count ≡ a + suc count = omega arith in
      let eb : b + 1 + count ≡ b + suc count = omega arith in
      let rest' =
        rest
        ∙ ap₂
            (λ x y.
              or_else (memcmp view.bytes (a + 1) (b + 1) count) (lex_compare (tail x) (tail y)))
            ea eb in
      rw
        (
          suffix-cons (text_of view) text a (omega arith),
          suffix-cons (text_of view) text b (omega arith),
        )
        (ground (arith, rest'))

  -- When the bytes of the shorter text are used up, the lengths decide.
  pub lex_compare-common :
      (a b : ℕ)
      → a ≤ view.logical_len
      → b ≤ view.logical_len
      → lex_compare (tail a) (tail b)
        ≡ or_lengths
            (memcmp view.bytes a b (min (view.logical_len - a) (view.logical_len - b)))
            (view.logical_len - a)
            (view.logical_len - b)
  lex_compare-common a b ha hb =
      let n = min (view.logical_len - a) (view.logical_len - b) in
      let la = length-suffix (text_of view) text (a + n) (omega arith) in
      let lb = length-suffix (text_of view) text (b + n) (omega arith) in
      let ended : (tail (a + n) ≡ []) ⊎ (tail (b + n) ≡ []) =
        elim (Bool-cases (leb (view.logical_len - a) (view.logical_len - b))) [
          | inl e ↦ inl (nil_of_length (tail (a + n)) (ground (arith, e, la)))
          | inr e ↦ inr (nil_of_length (tail (b + n)) (ground (arith, e, lb)))
        ] in
      let ra : length (tail (a + n)) ≡ view.logical_len - a - n = omega (arith, la) in
      let rb : length (tail (b + n)) ≡ view.logical_len - b - n = omega (arith, lb) in
      lex_compare-memcmp n a b (omega arith) (omega arith)
      ∙ ap (or_else (memcmp view.bytes a b n)) (
          lex_compare-lengths (tail (a + n)) (tail (b + n)) ended
          ∙ ap₂ compare_numbers ra rb
          ∙ compare_numbers-minus n (view.logical_len - a) (view.logical_len - b) (omega arith)
              (omega arith))
      ∙ or_else_lengths (memcmp view.bytes a b n) (view.logical_len - a) (view.logical_len - b)
