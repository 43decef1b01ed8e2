-- ===== src/Radix/Blocks.antt =====
-- The target of a counting pass as blocks, one to a bucket, each with a filled part and a rest.
use mathlib.Core.List.{append_assoc, append-nil}
use dirtybird_c_miner.Base.{
  ℕ, zero, suc, ◌+◌, ◌<◌, ◌≡◌, ◌≢◌, refl, sym, ap, ap₂, ◌∙◌, subst, List, [], ◌∷◌, ◌++◌, length,
  length-append, get_or, set, set-append, All, arith,
}
use dirtybird_c_miner.Radix.{scatter}
use dirtybird_c_miner.Radix.Gather.{only, only-append, only-in, only-out, gather}

module _ {ℓ} {A : Type ℓ} where
  -- The blocks one after the other.
  abbrev pub concat : List (List A × List A) → List A
  concat [] = []
  concat (b ∷ blocks) = b.0 ++ (b.1 ++ concat blocks)

  -- Where each block is filled up to.
  abbrev pub cursors_of : ℕ → List (List A × List A) → List ℕ
  cursors_of base [] = []
  cursors_of base (b ∷ blocks) =
      (base + length b.0) ∷ cursors_of (base + length b.0 + length b.1) blocks

  abbrev put_here : A → List A × List A → List A × List A
  put_here x (filled, []) = (filled ++ x ∷ [], [])
  put_here x (filled, y ∷ rest) = (filled ++ x ∷ [], rest)

  -- An entry goes into a block.
  abbrev pub put : ℕ → A → List (List A × List A) → List (List A × List A)
  put i x [] = []
  put zero x (b ∷ blocks) = put_here x b ∷ blocks
  put (suc i) x (b ∷ blocks) = b ∷ put i x blocks

  -- A block has room left.
  abbrev pub HasRoom : ℕ → List (List A × List A) → Type 0
  HasRoom i [] = ⊥
  HasRoom zero (b ∷ blocks) = 0 < length b.1
  HasRoom (suc i) (b ∷ blocks) = HasRoom i blocks

  regroup :
      (pre filled rest more : List A)
      → (pre ++ filled ++ rest) ++ more ≡ pre ++ (filled ++ (rest ++ more))
  regroup pre filled rest more = simp (append_assoc)

  pub set-concat :
      (pre : List A) (i : ℕ) (x : A) (blocks : List (List A × List A))
      → HasRoom i blocks
      → set (pre ++ concat blocks) (get_or (cursors_of (length pre) blocks) i 0) x
        ≡ pre ++ concat (put i x blocks)
  set-concat pre i x [] room = absurd room
  set-concat pre zero x ((filled, []) ∷ blocks) room = absurd (omega arith)
  set-concat pre zero x ((filled, y ∷ rest) ∷ blocks) room =
      ap (λ l. set l (length pre + length filled) x)
        (sym (append_assoc pre filled (y ∷ (rest ++ concat blocks))))
      ∙ set-append (pre ++ filled) y (rest ++ concat blocks) (length pre + length filled) x
          (sym (length-append pre filled))
      ∙ append_assoc pre filled (x ∷ (rest ++ concat blocks))
      ∙ ap (λ l. pre ++ l) (sym (append_assoc filled (x ∷ []) (rest ++ concat blocks)))
  set-concat pre (suc i) x ((filled, rest) ∷ blocks) room =
      let whole = pre ++ filled ++ rest in
      let len : length whole ≡ length pre + length filled + length rest =
        omega (arith, length-append (pre ++ filled) rest, length-append pre filled) in
      ap₂ (λ l c. set l (get_or (cursors_of c blocks) i 0) x)
        (sym (regroup pre filled rest (concat blocks))) (sym len)
      ∙ set-concat whole i x blocks room
      ∙ regroup pre filled rest (concat (put i x blocks))

  pub cursors_of-put :
      (base i : ℕ) (x : A) (blocks : List (List A × List A))
      → HasRoom i blocks
      → set (cursors_of base blocks) i (get_or (cursors_of base blocks) i 0 + 1)
        ≡ cursors_of base (put i x blocks)
  cursors_of-put base i x [] room = absurd room
  cursors_of-put base zero x ((filled, []) ∷ blocks) room = absurd (omega arith)
  cursors_of-put base zero x ((filled, y ∷ rest) ∷ blocks) room =
      let len = length-append filled (x ∷ []) in
      ap₂ (λ (a b : ℕ). a ∷ cursors_of b blocks) (omega (arith, len)) (omega (arith, len))
  cursors_of-put base (suc i) x (b ∷ blocks) room =
      ap (λ l. (base + length b.0) ∷ l)
        (cursors_of-put (base + length b.0 + length b.1) i x blocks room)

module _ {ℓ} {A : Type ℓ} (bucket : A → ℕ) where
  -- Block `i` has the entries of bucket `i` met so far, and as many places as there are more to come.
  abbrev pub InProgress : ℕ → List (List A × List A) → List A → List A → Type ℓ
  InProgress i [] seen xs = Unit
  InProgress i (b ∷ blocks) seen xs =
      (b.0 ≡ only bucket i seen)
      × (length b.1 ≡ length (only bucket i xs))
      × InProgress (suc i) blocks seen xs

  pub unseen :
      (i : ℕ) (x : A) (seen : List A)
      → bucket x ≢ i
      → only bucket i seen ≡ only bucket i (seen ++ x ∷ [])
  unfolding only
  unseen i x seen h =
      sym (append-nil (only bucket i seen))
      ∙ ap (λ l. only bucket i seen ++ l) (sym (only-out bucket i x [] h))
      ∙ sym (only-append bucket i seen (x ∷ []))

  one_more :
      (i : ℕ) (x : A) (xs : List A)
      → bucket x ≡ i
      → length (only bucket i (x ∷ xs)) ≡ suc (length (only bucket i xs))
  one_more i x xs h =
      ap length
        (only-append bucket i (x ∷ []) xs ∙ ap (λ l. l ++ only bucket i xs) (only-in bucket i x h))

  InProgress-other :
      (i : ℕ) (blocks : List (List A × List A)) (seen : List A) (x : A) (xs : List A)
      → bucket x < i
      → InProgress i blocks seen (x ∷ xs)
      → InProgress i blocks (seen ++ x ∷ []) xs
  InProgress-other i [] seen x xs h p = tt
  InProgress-other i (b ∷ blocks) seen x xs h p =
      let out = only-out bucket i x xs (λ e. absurd (omega arith)) in
      (
        p.0 ∙ unseen i x seen (λ e. absurd (omega arith)),
        p.1 ∙ ap length out,
        InProgress-other (suc i) blocks seen x xs (omega arith) p.2,
      )

  pub InProgress-put :
      (i j : ℕ) (blocks : List (List A × List A)) (seen : List A) (x : A) (xs : List A)
      → bucket x ≡ i + j
      → InProgress i blocks seen (x ∷ xs)
      → InProgress i (put j x blocks) (seen ++ x ∷ []) xs
  InProgress-put i j [] seen x xs h p = tt
  InProgress-put i zero ((filled, []) ∷ blocks) seen x xs h p =
      absurd (omega (arith, p.1, one_more i x xs (omega arith)))
  InProgress-put i zero ((filled, y ∷ rest) ∷ blocks) seen x xs h p =
      let one = only-in bucket i x (omega arith) in
      (
        ap₂ ◌++◌ p.0 (sym one) ∙ sym (only-append bucket i seen (x ∷ [])),
        omega (arith, p.1, one_more i x xs (omega arith)),
        InProgress-other (suc i) blocks seen x xs (omega arith) p.2,
      )
  InProgress-put i (suc j) (b ∷ blocks) seen x xs h p =
      let out = only-out bucket i x xs (λ e. absurd (omega arith)) in
      (
        p.0 ∙ unseen i x seen (λ e. absurd (omega arith)),
        p.1 ∙ ap length out,
        InProgress-put (suc i) j blocks seen x xs (omega arith) p.2,
      )

  pub InProgress-HasRoom :
      (i j : ℕ) (blocks : List (List A × List A)) (seen : List A) (x : A) (xs : List A)
      → bucket x ≡ i + j
      → j < length blocks
      → InProgress i blocks seen (x ∷ xs)
      → HasRoom j blocks
  InProgress-HasRoom i j [] seen x xs h k p = absurd (omega arith)
  InProgress-HasRoom i zero (b ∷ blocks) seen x xs h k p =
      omega (arith, p.1, one_more i x xs (omega arith))
  InProgress-HasRoom i (suc j) (b ∷ blocks) seen x xs h k p =
      InProgress-HasRoom (suc i) j blocks seen x xs (omega arith) (omega arith) p.2

  nil_of_length : (xs : List A) → length xs ≡ 0 → xs ≡ []
  nil_of_length [] h = refl
  nil_of_length (x ∷ xs) h = absurd (omega arith)

  InProgress-done :
      (i : ℕ) (blocks : List (List A × List A)) (seen : List A)
      → InProgress i blocks seen []
      → concat blocks ≡ gather bucket i (length blocks) seen
  unfolding only gather
  InProgress-done i [] seen p = refl
  InProgress-done i (b ∷ blocks) seen p =
      ap₂ (λ l r. l ++ (r ++ concat blocks)) p.0 (nil_of_length b.1 p.1)
      ∙ ap (λ l. only bucket i seen ++ l) (InProgress-done (suc i) blocks seen p.2)

  length-put :
      (j : ℕ) (x : A) (blocks : List (List A × List A)) → length (put j x blocks) ≡ length blocks
  length-put j x [] = refl
  length-put zero x (b ∷ blocks) = refl
  length-put (suc j) x (b ∷ blocks) = ap suc (length-put j x blocks)

  -- What is left of the loop that places the entries, from blocks in progress.
  pub scatter_lem :
      (blocks : List (List A × List A)) (seen xs : List A)
      → All (λ x. bucket x < length blocks) xs
      → InProgress 0 blocks seen xs
      → scatter bucket (cursors_of 0 blocks) (concat blocks) xs
        ≡ gather bucket 0 (length blocks) (seen ++ xs)
  unfolding scatter
  scatter_lem blocks seen [] small p =
      InProgress-done 0 blocks seen p ∙ ap (gather bucket 0 (length blocks)) (sym (append-nil seen))
  scatter_lem blocks seen (x ∷ xs) small p =
      let b = bucket x in
      let room = InProgress-HasRoom 0 b blocks seen x xs (omega arith) small.0 p in
      let same = length-put b x blocks in
      ap₂ (λ c t. scatter bucket c t xs) (cursors_of-put 0 b x blocks room)
        (set-concat [] b x blocks room)
      ∙ scatter_lem (put b x blocks) (seen ++ x ∷ []) xs
          (subst (λ (n : ℕ). All (λ y. bucket y < n) xs) (sym same) small.1)
          (InProgress-put 0 b blocks seen x xs (omega arith) p)
      ∙ ap₂ (λ (n : ℕ) l. gather bucket 0 n l) same (append_assoc seen (x ∷ []) xs)
