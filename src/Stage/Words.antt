-- ===== src/Stage/Words.antt =====
-- Bytes copied from the arena are the positions that it holds, written one after the other.
use mathlib.Core.List.{append-nil}
use dirtybird_c_miner.Base.{
  ℕ, zero, suc, ◌+◌, ◌*◌, ◌^◌, ◌≤◌, ◌<◌, ◌≡◌, refl, sym, ap, ap₂, ◌∙◌, false, inl, inr, List, [],
  ◌∷◌, ◌++◌, length, take, drop, drop-eq-nil, All, bit_or, bit_or_under, length-drop, u32,
  Bool-cases, arith,
}
use dirtybird_c_miner.Stage.{read_u32_le, write_u32_le}
use dirtybird_c_miner.Stage.Parse.{Stage5InputView}
use dirtybird_c_miner.Stage.Runs.{
  Stage5Run, stage5_run_is_literal, stage5_run_begin, stage5_run_count,
}
use dirtybird_c_miner.Stage.Merge.{positions_from, run_positions, stage5_run_pos}
use dirtybird_c_miner.Stage.KeyGroup.{literal_one}
use dirtybird_c_miner.Stage.Groups.{positions_bytes, write_single_run}

-- The words that `count` times four bytes spell.
unfoldable words : ℕ → List ℕ → List ℕ
words zero bytes = []
words (suc count) bytes = read_u32_le bytes ∷ words count (drop 4 bytes)

write_u32_le-read_u32_le :
    (b0 b1 b2 b3 : ℕ) (rest : List ℕ)
    → b0 < 256
    → b1 < 256
    → b2 < 256
    → b3 < 256
    → write_u32_le (read_u32_le (b0 ∷ b1 ∷ b2 ∷ b3 ∷ rest)) ≡ b0 ∷ b1 ∷ b2 ∷ b3 ∷ []
unfolding write_u32_le read_u32_le
write_u32_le-read_u32_le b0 b1 b2 b3 rest h0 h1 h2 h3 =
    let top : u32 (b3 * 2 ^ 24) ≡ b3 * 2 ^ 24 = omega arith in
    let two : bit_or b0 (b1 * 2 ^ 8) ≡ b0 + 256 * b1 =
      bit_or_under 8 b0 b1 (omega arith) ∙ (omega arith) in
    let three : bit_or (bit_or b0 (b1 * 2 ^ 8)) (b2 * 2 ^ 16) ≡ b0 + 256 * b1 + 65536 * b2 =
      ap (λ t. bit_or t (b2 * 2 ^ 16)) two
      ∙ bit_or_under 16 (b0 + 256 * b1) b2 (omega arith)
      ∙ (omega arith) in
    let four =
      ap₂ bit_or three top ∙ bit_or_under 24 (b0 + 256 * b1 + 65536 * b2) b3 (omega arith) in
    ground (arith, four)

take-words :
    (count : ℕ) (bytes : List ℕ)
    → All (λ x. x < 256) bytes
    → count * 4 ≤ length bytes
    → take (count * 4) bytes ≡ positions_bytes (words count bytes)
unfolding positions_bytes words
take-words zero bytes h room = refl
take-words (suc count) [] h room = absurd (omega arith)
take-words (suc count) (b0 ∷ []) h room = absurd (omega arith)
take-words (suc count) (b0 ∷ b1 ∷ []) h room = absurd (omega arith)
take-words (suc count) (b0 ∷ b1 ∷ b2 ∷ []) h room = absurd (omega arith)
take-words (suc count) (b0 ∷ b1 ∷ b2 ∷ b3 ∷ bytes) h room =
    let size : suc count * 4 ≡ suc (suc (suc (suc (count * 4)))) = omega arith in
    ap (λ (n : ℕ). take n (b0 ∷ b1 ∷ b2 ∷ b3 ∷ bytes)) size
    ∙ ap (λ l. b0 ∷ b1 ∷ b2 ∷ b3 ∷ l) (take-words count bytes h.1.1.1.1 (omega arith))
    ∙ ap (λ l. l ++ positions_bytes (words count bytes))
        (sym (write_u32_le-read_u32_le b0 b1 b2 b3 bytes h.0 h.1.0 h.1.1.0 h.1.1.1.0))

-- The entries that a run names are in the arena.
abbrev pub IsInArena : Stage5InputView → Stage5Run → Type 0
IsInArena view run =
    stage5_run_is_literal run ≡ false
    → (stage5_run_begin run + stage5_run_count run) * 4 ≤ length view.int_arena

-- The arena's bytes are bytes.
abbrev pub IsArena : Stage5InputView → Type 0
IsArena view = All (λ x. x < 256) view.int_arena

drop-drop : (m n : ℕ) (xs : List ℕ) → drop m (drop n xs) ≡ drop (n + m) xs
drop-drop m zero xs = let same : m ≡ 0 + m = omega arith in ap (λ (k : ℕ). drop k xs) same
drop-drop m (suc n) [] =
    drop-eq-nil m [] (omega arith) ∙ sym (drop-eq-nil (suc n + m) [] (omega arith))
drop-drop m (suc n) (x ∷ xs) =
    let more : suc (n + m) ≡ suc n + m = omega arith in
    drop-drop m n xs ∙ ap (λ (k : ℕ). drop k (x ∷ xs)) more

module _ (view : Stage5InputView) where
  positions_from-words :
      (run : Stage5Run) (rel left : ℕ)
      → stage5_run_is_literal run ≡ false
      → positions_from view run rel left
        ≡ words left (drop ((stage5_run_begin run + rel) * 4) view.int_arena)
  unfolding positions_from words stage5_run_pos
  positions_from-words run rel zero e = refl
  positions_from-words run rel (suc left) e =
      let at = (stage5_run_begin run + rel) * 4 in
      let next : (stage5_run_begin run + suc rel) * 4 ≡ at + 4 = omega arith in
      rw e (
        ap (λ l. read_u32_le (drop at view.int_arena) ∷ l)
          (positions_from-words run (suc rel) left e
            ∙ ap (words left)
                (ap (λ (k : ℕ). drop k view.int_arena) next ∙ sym (drop-drop 4 at view.int_arena))))

  All-drop : (n : ℕ) (xs : List ℕ) → All (λ x. x < 256) xs → All (λ x. x < 256) (drop n xs)
  All-drop zero xs h = h
  All-drop (suc n) [] h = h
  All-drop (suc n) (x ∷ xs) h = All-drop n xs h.1

  -- A run alone is written as its positions.
  pub write_single_run_lem :
      (run : Stage5Run)
      → IsArena view
      → IsInArena view run
      → write_single_run view run ≡ positions_bytes (run_positions view run)
  unfolding write_single_run run_positions positions_bytes
  write_single_run_lem run bytes room = elim (Bool-cases (stage5_run_is_literal run)) [
    | inl e ↦
        rw (e, literal_one view run e) (sym (append-nil (write_u32_le (stage5_run_begin run))))
    | inr e ↦
        let begin = stage5_run_begin run in
        let count = stage5_run_count run in
        let enough = length-drop (begin * 4) view.int_arena in
        let zero_in : (begin + 0) * 4 ≡ begin * 4 = omega arith in
        let copied =
          take-words count (drop (begin * 4) view.int_arena)
            (All-drop (begin * 4) view.int_arena bytes) (omega (arith, room e, enough)) in
        let same =
          positions_from-words run 0 count e
          ∙ ap (λ (k : ℕ). words count (drop k view.int_arena)) zero_in in
        rw e (copied ∙ ap positions_bytes (sym same))
  ]
