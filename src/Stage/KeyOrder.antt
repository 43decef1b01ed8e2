-- ===== src/Stage/KeyOrder.antt =====
-- Among suffixes with one key, the comparison behind the key is the dictionary order.
use Prim.Native.Nat.{Ordering, min}
use dirtybird_c_miner.Base.{
  ℕ, zero, suc, ◌+◌, ◌-◌, ◌*◌, ◌^◌, ◌≤◌, ◌<◌, ◌≡◌, refl, sym, ap, ap₂, ◌∙◌, inl, inr, List, [], ◌∷◌,
  length, get_or, All, bit_or, bit_or_under, get_or-past, leb, ◌==◌, ==_iff, Bool-cases, arith,
}
use dirtybird_c_miner.Stage.{Stage4InputView, byte_at, load24_padded}
use dirtybird_c_miner.Stage.Lex.{
  lex_compare, lex_compare_refl, suffix, compare_suffixes-lex_compare,
}
use dirtybird_c_miner.Stage.Order.{compare_suffixes}
use dirtybird_c_miner.Stage.Memcmp.{
  text_of, or_else, memcmp-append, or_lengths-minus, lex_compare-memcmp, lex_compare-common,
}
use dirtybird_c_miner.Stage.Be64.{compare_numbers-value, load_be64-value}
use dirtybird_c_miner.Stage.Parse.{Stage5InputView}
use dirtybird_c_miner.Stage.AfterKey.{
  compare_numbers, memcmp, or_lengths, load_be64, compare_stage5_suffixes,
  compare_suffixes_after_key,
}

-- Two positions have the same first three bytes, those behind the end counting as 0.
abbrev pub SameKey : List ℕ → ℕ → ℕ → Type 0
SameKey bytes a b =
    (get_or bytes a 0 ≡ get_or bytes b 0)
    × (get_or bytes (a + 1) 0 ≡ get_or bytes (b + 1) 0)
    × (get_or bytes (a + 2) 0 ≡ get_or bytes (b + 2) 0)

memcmp-SameKey :
    (bytes : List ℕ) (a b count : ℕ)
    → SameKey bytes a b
    → count ≤ 3
    → memcmp bytes a b count ≡ Ordering.eq
unfolding memcmp
memcmp-SameKey bytes a b zero same small = refl
memcmp-SameKey bytes a b (suc zero) same small = ground (arith, same)
memcmp-SameKey bytes a b (suc (suc zero)) same small = ground (arith, same)
memcmp-SameKey bytes a b (suc (suc (suc zero))) same small =
    let ea : a + 1 + 1 ≡ a + 2 = omega arith in
    let eb : b + 1 + 1 ≡ b + 2 = omega arith in
    ground (arith, same, ap (λ (q : ℕ). get_or bytes q 0) ea, ap (λ (q : ℕ). get_or bytes q 0) eb)
memcmp-SameKey bytes a b (suc (suc (suc (suc count)))) same small = absurd (omega arith)

module _ (view : Stage5InputView) (text : view.logical_len ≤ length view.bytes)
    (small : (p : ℕ) → get_or view.bytes p 0 < 256) where
  behind_key :
      (a b : ℕ)
      → a + 4 ≤ view.logical_len
      → b + 4 ≤ view.logical_len
      → SameKey view.bytes a b
      → lex_compare (suffix (text_of view) a) (suffix (text_of view) b)
        ≡ or_lengths
            (memcmp view.bytes
              (a + 3)
              (b + 3)
              (min (view.logical_len - a) (view.logical_len - b) - 3))
            (view.logical_len - a)
            (view.logical_len - b)
  behind_key a b ha hb same =
      let L = view.logical_len in
      let equal = memcmp-SameKey view.bytes a b 3 same (omega arith) in
      let rest = lex_compare (suffix (text_of view) (a + 3)) (suffix (text_of view) (b + 3)) in
      let count : min (L - (a + 3)) (L - (b + 3)) ≡ min (L - a) (L - b) - 3 = omega arith in
      let ea : L - (a + 3) ≡ L - a - 3 = omega arith in
      let eb : L - (b + 3) ≡ L - b - 3 = omega arith in
      let cmp = memcmp view.bytes (a + 3) (b + 3) (min (L - a) (L - b) - 3) in
      lex_compare-memcmp view text 3 a b (omega arith) (omega arith)
      ∙ ap (λ c. or_else c rest) equal
      ∙ lex_compare-common view text (a + 3) (b + 3) (omega arith) (omega arith)
      ∙ ap (λ n. or_lengths (memcmp view.bytes (a + 3) (b + 3) n) (L - (a + 3)) (L - (b + 3))) count
      ∙ ap₂ (or_lengths cmp) ea eb
      ∙ or_lengths-minus cmp 3 (L - a) (L - b) (omega arith) (omega arith)

  first_eight :
      (a b : ℕ)
      → memcmp view.bytes a b 8 ≡ compare_numbers (load_be64 view.bytes a) (load_be64 view.bytes b)
  first_eight a b = sym (
      ap₂ compare_numbers (load_be64-value view.bytes small a) (load_be64-value view.bytes small b)
      ∙ compare_numbers-value view.bytes small 8 a b)

  memcmp_eight :
      (a b count : ℕ)
      → 8 ≤ count
      → memcmp view.bytes a b count
        ≡ or_else
            (compare_numbers (load_be64 view.bytes a) (load_be64 view.bytes b))
            (memcmp view.bytes (a + 8) (b + 8) (count - 8))
  memcmp_eight a b count long =
      let e : count ≡ 8 + (count - 8) = omega arith in
      ap (memcmp view.bytes a b) e
      ∙ memcmp-append view.bytes 8 (count - 8) a b
      ∙ ap (λ c. or_else c (memcmp view.bytes (a + 8) (b + 8) (count - 8))) (first_eight a b)

  -- Positions within the text with the same first three bytes: the comparison behind the key.
  after_key :
      (a b : ℕ)
      → a ≤ view.logical_len
      → b ≤ view.logical_len
      → SameKey view.bytes a b
      → compare_suffixes_after_key view a b
        ≡ lex_compare (suffix (text_of view) a) (suffix (text_of view) b)
  unfolding compare_suffixes_after_key
  after_key a b ha hb same =
      let L = view.logical_len in
      let whole = lex_compare-common view text a b ha hb in
      let key = memcmp-SameKey view.bytes a b in
      elim (Bool-cases (a == b)) [
        | inl e ↦
            let eq : a ≡ b = (==_iff a b).0 e in
            rw eq (ground (arith, lex_compare_refl (suffix (text_of view) b)))
        | inr e ↦ elim (Bool-cases (leb (min (L - a) (L - b)) 3)) [
          | inl few ↦
              let n = min (L - a) (L - b) in
              let equal = memcmp-SameKey view.bytes a b n same (ground (arith, few)) in
              ground (arith, e, few, whole, equal)
          | inr many ↦
              let long : 4 ≤ min (L - a) (L - b) = ground (arith, many) in
              let rest = behind_key a b (omega (arith, long)) (omega (arith, long)) same in
              let common = min (L - a) (L - b) - 3 in
              elim (Bool-cases (leb 8 common)) [
                | inl wide ↦ ground (
                  arith,
                  e,
                  many,
                  wide,
                  rest,
                  memcmp_eight (a + 3) (b + 3) common (ground (arith, wide)),
                )
                | inr narrow ↦ ground (arith, e, many, narrow, rest)
              ]
        ]
      ]

module _ (view : Stage4InputView) (whole : length view.bytes ≡ view.data_len)
    (small : (p : ℕ) → get_or view.bytes p 0 < 256) where
  -- The key of a position spells its first three bytes.
  pub load24_padded_lem :
      (pos : ℕ)
      → load24_padded view pos
        ≡ byte_at view pos + 256 * byte_at view (pos + 1) + 65536 * byte_at view (pos + 2)
  unfolding load24_padded
  load24_padded_lem pos =
      let x0 = byte_at view pos in
      let x1 = byte_at view (pos + 1) in
      let x2 = byte_at view (pos + 2) in
      let h0 = small pos in
      let h1 = small (pos + 1) in
      let two : bit_or x0 (x1 * 2 ^ 8) ≡ x0 + 256 * x1 = bit_or_under 8 x0 x1 h0 ∙ (omega arith) in
      let three : bit_or (bit_or x0 (x1 * 2 ^ 8)) (x2 * 2 ^ 16) ≡ x0 + 256 * x1 + 65536 * x2 =
        ap (λ t. bit_or t (x2 * 2 ^ 16)) two
        ∙ bit_or_under 16 (x0 + 256 * x1) x2 (omega arith)
        ∙ (omega arith) in
      let past = get_or-past view.bytes in
      ground (arith, two, three, past pos 0, past (pos + 1) 0, past (pos + 2) 0, whole)

  SameKey-load24 : (a b : ℕ) → load24_padded view a ≡ load24_padded view b → SameKey view.bytes a b
  SameKey-load24 a b e =
      let sum = sym (load24_padded_lem a) ∙ e ∙ load24_padded_lem b in
      let a0 = small a in
      let a1 = small (a + 1) in
      let a2 = small (a + 2) in
      let b0 = small b in
      let b1 = small (b + 1) in let b2 = small (b + 2) in (omega arith, omega arith, omega arith)

pub get_or-byte : (bytes : List ℕ) (p : ℕ) → All (λ b. b < 256) bytes → get_or bytes p 0 < 256
get_or-byte [] p h = omega arith
get_or-byte (x ∷ bytes) zero h = h.0
get_or-byte (x ∷ bytes) (suc p) h = get_or-byte bytes p h.1

-- At positions within the text that have the same 24-bit key, the comparison behind the key, with
-- its eight bytes at a time, is the dictionary order of the suffixes.
pub compare_suffixes_after_key_lem :
    (view : Stage5InputView) (a b : ℕ)
    → All (λ x. x < 256) view.bytes
    → length view.bytes ≡ view.data_len
    → view.logical_len ≤ view.data_len
    → a ≤ view.logical_len
    → b ≤ view.logical_len
    → load24_padded (text_of view) a ≡ load24_padded (text_of view) b
    → compare_suffixes_after_key view a b
      ≡ lex_compare (suffix (text_of view) a) (suffix (text_of view) b)
compare_suffixes_after_key_lem view a b bytes whole short ha hb key =
    let small = λ (p : ℕ). get_or-byte view.bytes p bytes in
    after_key view (omega arith) small a b ha hb (SameKey-load24 (text_of view) whole small a b key)

-- At positions within the text, the loop of the first stage and the `memcmp` of the last one both
-- give the dictionary order of the suffixes.
pub compare_suffixes_agree :
    (view : Stage5InputView) (a b : ℕ)
    → view.logical_len ≤ length view.bytes
    → a ≤ view.logical_len
    → b ≤ view.logical_len
    → (compare_suffixes (text_of view) a b
        ≡ lex_compare (suffix (text_of view) a) (suffix (text_of view) b))
      × (compare_stage5_suffixes view a b
          ≡ lex_compare (suffix (text_of view) a) (suffix (text_of view) b))
unfolding compare_stage5_suffixes
compare_suffixes_agree view a b text ha hb =
    let common = lex_compare-common view text a b ha hb in
    (
      compare_suffixes-lex_compare (text_of view) text a b ha hb,
      elim (Bool-cases (a == b)) [
        | inl e ↦
            let eq : a ≡ b = (==_iff a b).0 e in
            rw eq (ground (arith, lex_compare_refl (suffix (text_of view) b)))
        | inr e ↦ ground (arith, e, common)
      ],
    )
