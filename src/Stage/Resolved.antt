-- ===== src/Stage/Resolved.antt =====
-- A group of runs with one key comes out in the order of the suffixes, by whichever path.
use mathlib.Core.List.{Perm, append-nil, append_assoc}
use mathlib.Core.List.Perm
use Prim.Native.Nat.{Ordering}
use dirtybird_c_miner.Base.{
  ℕ, zero, suc, ◌+◌, ◌≤◌, ◌<◌, ◌≡◌, refl, sym, ap, ◌∙◌, subst, Bool, true, false, not, List, [],
  ◌∷◌, ◌++◌, length, All, Ordered, IsTransitive, ltb, Bool-cases, inl, inr, arith,
}
use dirtybird_c_miner.Stage.{load24_padded}
use dirtybird_c_miner.Stage.Order.{is_lt}
use dirtybird_c_miner.Stage.Lex.{
  lex_compare, lex_less, lex_less_trans, lex_less_irrefl, suffix, below, length-suffix,
}
use dirtybird_c_miner.Stage.Parse.{Stage5InputView}
use dirtybird_c_miner.Stage.AfterKey.{lt_or_first, suffix_less_after_key}
use dirtybird_c_miner.Stage.Memcmp.{text_of}
use dirtybird_c_miner.Stage.KeyOrder.{compare_suffixes_after_key_lem}
use dirtybird_c_miner.Stage.Merge.{
  merge_loop, merge_sorted_suffix_positions_after_key, merge_pass, merge_passes, flatten,
}
use dirtybird_c_miner.Stage.Merged.{merge_loop-Perm, merge_loop-Ordered, merge_loop-P}

-- The suffix of the later position is not the smaller one.
abbrev pub not_after : Stage5InputView → ℕ → ℕ → Bool
not_after view x y = not (below (text_of view) y x)

lex_less_cotrans :
    (xs ys zs : List ℕ) → lex_less ys xs ≡ false → lex_less zs ys ≡ false → lex_less zs xs ≡ false
lex_less_cotrans [] [] [] h k = refl
lex_less_cotrans [] [] (z ∷ zs) h k = refl
lex_less_cotrans [] (y ∷ ys) [] h k = cc
lex_less_cotrans [] (y ∷ ys) (z ∷ zs) h k = refl
lex_less_cotrans (x ∷ xs) [] zs h k = cc
lex_less_cotrans (x ∷ xs) (y ∷ ys) [] h k = cc
lex_less_cotrans (x ∷ xs) (y ∷ ys) (z ∷ zs) h k = ground (arith, lex_less_cotrans xs ys zs)

pub not_after-IsTransitive : (view : Stage5InputView) → IsTransitive (not_after view)
not_after-IsTransitive view x y z h k =
    let cotrans =
      lex_less_cotrans (suffix (text_of view) x) (suffix (text_of view) y)
        (suffix (text_of view) z) in
    ground (arith, h, k, cotrans)

lex_eq_length : (xs ys : List ℕ) → lex_compare xs ys ≡ Ordering.eq → length xs ≡ length ys
lex_eq_length [] [] e = refl
lex_eq_length [] (y ∷ ys) e = cc
lex_eq_length (x ∷ xs) [] e = cc
lex_eq_length (x ∷ xs) (y ∷ ys) e = ground (arith, e, lex_eq_length xs ys)

settle : (c : Ordering) (x y : ℕ) → (c ≡ Ordering.eq → x ≡ y) → lt_or_first c x y ≡ is_lt c
settle Ordering.lt x y h = refl
settle Ordering.gt x y h = refl
settle Ordering.eq x y h = let same = h refl in ground (arith, same)

-- Within the text, with one key.
abbrev pub InGroup : Stage5InputView → ℕ → ℕ → Type 0
InGroup view key p = (p ≤ view.logical_len) × (load24_padded (text_of view) p ≡ key)

-- The bytes of the view are bytes, and the text lies within them.
abbrev pub IsText : Stage5InputView → Type 0
IsText view =
    All (λ x. x < 256) view.bytes
    × (length view.bytes ≡ view.data_len)
    × (view.logical_len ≤ view.data_len)

module _ (view : Stage5InputView) (key : ℕ) (good : IsText view) where
  lex_eq_positions :
      (x y : ℕ)
      → x ≤ view.logical_len
      → y ≤ view.logical_len
      → lex_compare (suffix (text_of view) x) (suffix (text_of view) y) ≡ Ordering.eq
      → x ≡ y
  lex_eq_positions x y hx hy e =
      let text : view.logical_len ≤ length view.bytes = omega (arith, good.1, good.2) in
      let len = lex_eq_length (suffix (text_of view) x) (suffix (text_of view) y) e in
      omega
        (arith, len, length-suffix (text_of view) text x hx, length-suffix (text_of view) text y hy)

  suffix_less_after_key-below :
      (x y : ℕ)
      → InGroup view key x
      → InGroup view key y
      → suffix_less_after_key view x y ≡ below (text_of view) x y
  unfolding suffix_less_after_key
  suffix_less_after_key-below x y hx hy =
      let agrees =
        compare_suffixes_after_key_lem view x y good.0 good.1 good.2 hx.0 hy.0 (hx.1 ∙ sym hy.1) in
      ap (λ c. lt_or_first c x y) agrees
      ∙ settle (lex_compare (suffix (text_of view) x) (suffix (text_of view) y)) x y
          (lex_eq_positions x y hx.0 hy.0)

  pub decides :
      (x y : ℕ)
      → InGroup view key x
      → InGroup view key y
      → (suffix_less_after_key view x y ≡ true → not_after view x y ≡ true)
        × (suffix_less_after_key view x y ≡ false → not_after view y x ≡ true)
  decides x y hx hy =
      let same = suffix_less_after_key-below x y hx hy in
      let circle =
        lex_less_trans (suffix (text_of view) x) (suffix (text_of view) y)
          (suffix (text_of view) x) in
      let never = lex_less_irrefl (suffix (text_of view) x) in
      (λ e. ground (arith, e, same, circle, never), λ e. ground (arith, e, same))

  pub merged_lem :
      (fuel : ℕ) (left right : List ℕ)
      → length left + length right ≤ fuel
      → All (InGroup view key) left
      → All (InGroup view key) right
      → Ordered (not_after view) left
      → Ordered (not_after view) right
      → let merged = merge_loop (suffix_less_after_key view) fuel left right in
        All (InGroup view key) merged
        × Ordered (not_after view) merged
        × Perm merged (left ++ right)
  merged_lem fuel left right enough pl pr ol or =
      let precedes = suffix_less_after_key view in
      let less = not_after view in
      let trans = not_after-IsTransitive view in
      (
        merge_loop-P precedes less (InGroup view key) trans decides fuel left right pl pr,
        merge_loop-Ordered precedes less (InGroup view key) trans decides fuel left right pl pr ol
            or,
        merge_loop-Perm precedes less (InGroup view key) trans decides fuel left right enough,
      )

  -- A segment in the order of its suffixes.
  abbrev pub Sorted : List ℕ → Type 0
  Sorted segment = All (InGroup view key) segment × Ordered (not_after view) segment

  merge_pass_lem :
      (segments : List (List ℕ))
      → All Sorted segments
      → All Sorted (merge_pass view segments)
        × Perm (flatten (merge_pass view segments)) (flatten segments)
        × (length (merge_pass view segments) + length (merge_pass view segments)
            ≤ length segments + 1)
  unfolding merge_pass flatten merge_sorted_suffix_positions_after_key
  merge_pass_lem [] h = (tt, Perm.rfl, omega arith)
  merge_pass_lem (segment ∷ []) h = (h, Perm.rfl, omega arith)
  merge_pass_lem (left ∷ right ∷ segments) h =
      let (sorted, perm, few) = merge_pass_lem segments h.1.1 in
      let (p, o, q) =
        merged_lem (length left + length right) left right (omega arith) h.0.0 h.1.0.0 h.0.1
          h.1.0.1 in
      (
        ((p, o), sorted),
        subst
            (λ xs.
              Perm
                (merge_loop (suffix_less_after_key view) (length left + length right) left right
                  ++ flatten (merge_pass view segments))
                xs)
            (append_assoc left right (flatten segments)) (Perm.append q perm),
        omega arith,
      )

  pub merge_passes_lem :
      (fuel : ℕ) (segments : List (List ℕ))
      → length segments ≤ fuel + 1
      → All Sorted segments
      → All Sorted (merge_passes view fuel segments)
        × Perm (flatten (merge_passes view fuel segments)) (flatten segments)
        × (length (merge_passes view fuel segments) ≤ 1)
  unfolding merge_passes
  merge_passes_lem zero segments enough h = (h, Perm.rfl, omega arith)
  merge_passes_lem (suc fuel) segments enough h = elim (Bool-cases (ltb 1 (length segments))) [
    | inl e ↦
        let more : 2 ≤ length segments = ground (arith, e) in
        let (sorted, perm, few) = merge_pass_lem segments h in
        let (sorted', perm', one) =
          merge_passes_lem fuel (merge_pass view segments) (omega arith) sorted in
        rw (e, merge_passes) (sorted', Perm.trans perm' perm, one)
    | inr e ↦ rw (e, merge_passes) (h, Perm.rfl, ground (arith, e))
  ]

  pub flatten-Ordered :
      (segments : List (List ℕ))
      → length segments ≤ 1
      → All Sorted segments
      → Ordered (not_after view) (flatten segments)
  unfolding flatten
  flatten-Ordered [] one h = tt
  flatten-Ordered (segment ∷ []) one h =
      subst (Ordered (not_after view)) (sym (append-nil segment)) h.0.1
  flatten-Ordered (segment ∷ next ∷ segments) one h = absurd (omega arith)
