-- ===== src/Radix/Pass.antt =====
-- A counting pass puts the entries bucket after bucket, each bucket in the earlier order.
use mathlib.Core.Logic.{∥∥₁_elim}
use native.Mathlib.Nat.{ℕ_set}
use mathlib.Core.List.{Permᴰ, Perm, append-nil, append_assoc}
use mathlib.Core.List.Perm
use dirtybird_c_miner.Base.{
  ℕ, zero, suc, ◌+◌, ◌<◌, ◌≡◌, refl, sym, ap, ap₂, ◌∙◌, subst, List, [], ◌∷◌, ◌++◌, length,
  length-append, length-take, length-drop, take, drop, take_append_drop, length-Perm, get_or, set,
  replicate, All, arith, inl, inr, ◌⊎◌,
}
use dirtybird_c_miner.Radix.{count_all, scatter, prefix_sums, counting_pass}
use dirtybird_c_miner.Radix.Gather.{only, only-append, only-in, gather, gather-Perm}
use dirtybird_c_miner.Radix.Blocks.{concat, cursors_of, InProgress, unseen, scatter_lem}

module _ {ℓ} {A : Type ℓ} (bucket : A → ℕ) where
  -- How many entries each bucket has.
  abbrev sizes : ℕ → ℕ → List A → List ℕ
  sizes i zero xs = []
  sizes i (suc n) xs = length (only bucket i xs) ∷ sizes (suc i) n xs

  sizes-nil : (i n : ℕ) → sizes i n [] ≡ replicate n 0
  unfolding only
  sizes-nil i zero = refl
  sizes-nil i (suc n) = ap (λ l. 0 ∷ l) (sizes-nil (suc i) n)

  seen_length :
      (i : ℕ) (seen : List A) (x : A)
      → bucket x ≡ i
      → length (only bucket i (seen ++ x ∷ [])) ≡ length (only bucket i seen) + 1
  seen_length i seen x h =
      ap length (only-append bucket i seen (x ∷ []))
      ∙ length-append (only bucket i seen) (only bucket i (x ∷ []))
      ∙ ap (λ l. length (only bucket i seen) + length l) (only-in bucket i x h)

  unseen_length :
      (i : ℕ) (seen : List A) (x : A)
      → (bucket x < i) ⊎ (i < bucket x)
      → length (only bucket i (seen ++ x ∷ [])) ≡ length (only bucket i seen)
  unseen_length i seen x h = ap length (sym (unseen bucket i x seen (λ e. ground arith)))

  sizes-other :
      (i n : ℕ) (seen : List A) (x : A) → bucket x < i → sizes i n (seen ++ x ∷ []) ≡ sizes i n seen
  sizes-other i zero seen x h = refl
  sizes-other i (suc n) seen x h =
      ap₂ ◌∷◌ (unseen_length i seen x (inl (omega arith)))
        (sizes-other (suc i) n seen x (omega arith))

  sizes-set :
      (i j n : ℕ) (seen : List A) (x : A)
      → bucket x ≡ i + j
      → set (sizes i n seen) j (get_or (sizes i n seen) j 0 + 1) ≡ sizes i n (seen ++ x ∷ [])
  sizes-set i j zero seen x h = refl
  sizes-set i zero (suc n) seen x h =
      ap₂ ◌∷◌ (sym (seen_length i seen x (omega arith)))
        (sym (sizes-other (suc i) n seen x (omega arith)))
  sizes-set i (suc j) (suc n) seen x h =
      ap₂ ◌∷◌ (sym (unseen_length i seen x (inr (omega arith))))
        (sizes-set (suc i) j n seen x (omega arith))

  length-only-Permᴰ :
      (i : ℕ) {xs ys : List A} → Permᴰ xs ys → length (only bucket i xs) ≡ length (only bucket i ys)
  unfolding only
  length-only-Permᴰ i Permᴰ.nil = refl
  length-only-Permᴰ i (Permᴰ.cons {a} {b} e p) = ground (arith, length-only-Permᴰ i p, ap bucket e)
  length-only-Permᴰ i (Permᴰ.swap {a} {b} {a'} {b'} e f) = ground (arith, ap bucket e, ap bucket f)
  length-only-Permᴰ i (Permᴰ.trans p q) = length-only-Permᴰ i p ∙ length-only-Permᴰ i q

  sizes-Perm : (i n : ℕ) {xs ys : List A} → Perm xs ys → sizes i n xs ≡ sizes i n ys
  sizes-Perm i zero p = refl
  sizes-Perm i (suc n) p =
      ap₂ ◌∷◌ (∥∥₁_elim p (ℕ_set _ _) (length-only-Permᴰ i)) (sizes-Perm (suc i) n p)

  count_all_lem :
      (n : ℕ) (seen xs : List A) → count_all bucket (sizes 0 n seen) xs ≡ sizes 0 n (seen ++ xs)
  unfolding count_all
  count_all_lem n seen [] = ap (sizes 0 n) (sym (append-nil seen))
  count_all_lem n seen (x ∷ xs) =
      ap (λ c. count_all bucket c xs) (sizes-set 0 (bucket x) n seen x (omega arith))
      ∙ count_all_lem n (seen ++ x ∷ []) xs
      ∙ ap (sizes 0 n) (append_assoc seen (x ∷ []) xs)

  -- The target cut into blocks of these sizes, all of them empty.
  abbrev cut : ℕ → ℕ → List A → List A → List (List A × List A)
  cut i zero tmp xs = []
  cut i (suc n) tmp xs =
      let size = length (only bucket i xs) in ([], take size tmp) ∷ cut (suc i) n (drop size tmp) xs

  length-cut : (i n : ℕ) (tmp xs : List A) → length (cut i n tmp xs) ≡ n
  length-cut i zero tmp xs = refl
  length-cut i (suc n) tmp xs =
      ap suc (length-cut (suc i) n (drop (length (only bucket i xs)) tmp) xs)

  cut_lem :
      (i n base : ℕ) (tmp xs : List A)
      → length tmp ≡ length (gather bucket i n xs)
      → (concat (cut i n tmp xs) ≡ tmp)
        × (cursors_of base (cut i n tmp xs) ≡ prefix_sums base (sizes i n xs))
        × InProgress bucket i (cut i n tmp xs) [] xs
  unfolding prefix_sums gather only
  cut_lem i zero base [] xs h = (refl, refl, tt)
  cut_lem i zero base (x ∷ tmp) xs h = absurd (omega arith)
  cut_lem i (suc n) base tmp xs h =
      let size = length (only bucket i xs) in
      let whole = length-append (only bucket i xs) (gather bucket (suc i) n xs) in
      let here : length (take size tmp) ≡ size = length-take size tmp (omega (arith, whole)) in
      let there = length-drop size tmp (omega (arith, whole)) in
      let (a, b, c) = cut_lem (suc i) n (base + size) (drop size tmp) xs (omega (arith, whole)) in
      let next : base + 0 + length (take size tmp) ≡ base + size = omega (arith, here) in
      (
        ap (λ l. take size tmp ++ l) a ∙ take_append_drop size tmp,
        ap₂ ◌∷◌ (omega arith)
            (ap (λ (m : ℕ). cursors_of m (cut (suc i) n (drop size tmp) xs)) next ∙ b),
        (refl, here, c),
      )

  -- Entries placed by the sizes of the buckets of any list with the same entries.
  pub scatter-gather :
      (n : ℕ) (tmp counted xs : List A)
      → Perm counted xs
      → All (λ x. bucket x < n) xs
      → length tmp ≡ length xs
      → scatter bucket (prefix_sums 0 (count_all bucket (replicate n 0) counted)) tmp xs
        ≡ gather bucket 0 n xs
  scatter-gather n tmp counted xs perm small same =
      let size : length tmp ≡ length (gather bucket 0 n xs) =
        same ∙ sym (length-Perm (gather-Perm bucket n xs small)) in
      let (whole, cursors, progress) = cut_lem 0 n 0 tmp xs size in
      let counts =
        ap (λ c. count_all bucket c counted) (sym (sizes-nil 0 n))
        ∙ count_all_lem n [] counted
        ∙ sizes-Perm 0 n perm in
      let cuts = length-cut 0 n tmp xs in
      ap (λ c. scatter bucket (prefix_sums 0 c) tmp xs) counts
      ∙ ap₂ (λ c t. scatter bucket c t xs) (sym cursors) (sym whole)
      ∙ scatter_lem bucket (cut 0 n tmp xs) [] xs
          (subst (λ (m : ℕ). All (λ x. bucket x < m) xs) (sym cuts) small) progress
      ∙ ap (λ (m : ℕ). gather bucket 0 m xs) cuts

  -- A pass with a bucket for every entry puts the buckets one after the other, whatever the target
  -- held, and the entries of a bucket in the order in which they were.
  pub counting_pass_lem :
      (n : ℕ) (tmp xs : List A)
      → All (λ x. bucket x < n) xs
      → length tmp ≡ length xs
      → counting_pass bucket n tmp xs ≡ gather bucket 0 n xs
  unfolding counting_pass
  counting_pass_lem n tmp xs small same = scatter-gather n tmp xs xs Perm.rfl small same
