-- ===== src/Stage/KeyBefore.antt =====
-- A smaller key in the order of its bytes means a smaller suffix, where the bytes behind the text
-- are zero.
use Prim.Native.Nat.{Ordering}
use dirtybird_c_miner.Base.{
  ℕ, zero, suc, ◌+◌, ◌≤◌, ◌<◌, ◌≡◌, ◌≢◌, refl, sym, ap, ap₂, ◌∙◌, inl, inr, true, List, [], ◌∷◌,
  length, take, get_or, length-take, drop-eq-nil, ltb, Bool-cases, arith,
}
use dirtybird_c_miner.Stage.{load24_padded}
use dirtybird_c_miner.Stage.Lex.{
  lex_compare, suffix, suffix-cons, below, lex_less_trans, lex_less_irrefl,
}
use dirtybird_c_miner.Stage.Parse.{Stage5InputView}
use dirtybird_c_miner.Stage.AfterKey.{memcmp, compare_numbers}
use dirtybird_c_miner.Stage.Memcmp.{text_of}
use dirtybird_c_miner.Stage.Be64.{value, compare_numbers-value}
use dirtybird_c_miner.Stage.KeyOrder.{load24_padded_lem, get_or-byte}
use dirtybird_c_miner.Stage.Runs.{stage5_radix_order_key}
use dirtybird_c_miner.Stage.RunOrder.{stage5_radix_order_key_lem}
use dirtybird_c_miner.Stage.Resolved.{IsText, not_after}

-- The bytes behind the text are zero.
abbrev pub IsPadded : Stage5InputView → Type 0
IsPadded view = (p : ℕ) → view.logical_len ≤ p → get_or view.bytes p 0 ≡ 0

compare_numbers-lt : (a b : ℕ) → a < b → compare_numbers a b ≡ Ordering.lt
compare_numbers-lt a b h = ground arith

lex_compare-nil : (xs : List ℕ) → lex_compare xs [] ≢ Ordering.lt
lex_compare-nil [] e = cc
lex_compare-nil (x ∷ xs) e = cc

module _ (view : Stage5InputView) (good : IsText view) (padded : IsPadded view) where
  suffix-past : (p : ℕ) → view.logical_len ≤ p → suffix (text_of view) p ≡ []
  suffix-past p h =
      drop-eq-nil p (take view.logical_len view.bytes)
        (omega (arith, length-take view.logical_len view.bytes (omega (arith, good.1, good.2))))

  memcmp-lt :
      (n a b : ℕ)
      → memcmp view.bytes a b n ≡ Ordering.lt
      → lex_compare (suffix (text_of view) a) (suffix (text_of view) b) ≡ Ordering.lt
  unfolding memcmp
  memcmp-lt zero a b e = cc
  memcmp-lt (suc n) a b e =
      let text : view.logical_len ≤ length view.bytes = omega (arith, good.1, good.2) in
      let rest = memcmp-lt n (a + 1) (b + 1) in
      let cons = suffix-cons (text_of view) text in
      elim (Bool-cases (ltb a view.logical_len)) [
        | inl ea ↦ elim (Bool-cases (ltb b view.logical_len)) [
          | inl eb ↦
              let ca = cons a (ground (arith, ea)) in
              let cb = cons b (ground (arith, eb)) in rw (ca, cb) (ground (arith, e, rest))
          | inr eb ↦
              let end : view.logical_len ≤ b = ground (arith, eb) in
              let zero_there = padded b end in
              let gone = suffix-past (b + 1) (omega arith) in
              let never = lex_compare-nil (suffix (text_of view) (a + 1)) in
              let rest' = λ (q : memcmp view.bytes (a + 1) (b + 1) n ≡ Ordering.lt).
                sym (ap (lex_compare (suffix (text_of view) (a + 1))) gone) ∙ rest q in
              absurd (ground (arith, e, zero_there, never, rest'))
        ]
        | inr ea ↦
            let end : view.logical_len ≤ a = ground (arith, ea) in
            let za = padded a end in
            let gone = suffix-past a end in
            let gone' = suffix-past (a + 1) (omega arith) in
            elim (Bool-cases (ltb b view.logical_len)) [
              | inl eb ↦ rw (gone, cons b (ground (arith, eb))) refl
              | inr eb ↦
                  let end' : view.logical_len ≤ b = ground (arith, eb) in
                  let zb = padded b end' in
                  let both = ap₂ lex_compare gone' (suffix-past (b + 1) (omega arith)) in
                  let rest' =
                    λ (q : memcmp view.bytes (a + 1) (b + 1) n ≡ Ordering.lt). sym both ∙ rest q in
                  absurd (ground (arith, e, za, zb, rest'))
            ]
      ]

  ordered_key-value :
      (p : ℕ) → stage5_radix_order_key (load24_padded (text_of view) p) ≡ value view.bytes 3 p
  ordered_key-value p =
      let small = λ (q : ℕ). get_or-byte view.bytes q good.0 in
      let key = load24_padded_lem (text_of view) good.1 small p in
      let s0 = small p in
      let s1 = small (p + 1) in
      let s2 = small (p + 2) in
      let e2 : p + 1 + 1 ≡ p + 2 = omega arith in
      let g2 = ap (λ (q : ℕ). get_or view.bytes q 0) e2 in
      stage5_radix_order_key_lem (load24_padded (text_of view) p) ∙ (omega arith)

  pub key_lt-below :
      (x y : ℕ)
      → stage5_radix_order_key (load24_padded (text_of view) x)
        < stage5_radix_order_key (load24_padded (text_of view) y)
      → below (text_of view) x y ≡ true
  key_lt-below x y h =
      let small = λ (q : ℕ). get_or-byte view.bytes q good.0 in
      let less =
        compare_numbers-lt (value view.bytes 3 x) (value view.bytes 3 y)
          (omega (arith, ordered_key-value x, ordered_key-value y)) in
      let first = sym (compare_numbers-value view.bytes small 3 x y) ∙ less in
      let whole = memcmp-lt 3 x y first in ground (arith, whole)

  pub below-not_after : (x y : ℕ) → below (text_of view) x y ≡ true → not_after view x y ≡ true
  below-not_after x y h =
      let circle =
        lex_less_trans (suffix (text_of view) x) (suffix (text_of view) y)
          (suffix (text_of view) x) in
      let never = lex_less_irrefl (suffix (text_of view) x) in ground (arith, h, circle, never)
