-- ===== src/Stage/Progress.antt =====
-- The full runs and the group loop of src/v114_stubs.cpp always finish where the buffers have room.
use native.Mathlib.Numerals.{unary_clauses}
use native.Mathlib.Nat.{suc-mul, mul-le-mul_right}
use dirtybird_c_miner.Base.{
  ℕ, zero, suc, ◌+◌, ◌-◌, ◌*◌, ◌≤◌, ◌<◌, ◌≡◌, ◌≢◌, refl, sym, ◌∙◌, subst, Bool, not, ◌||◌, ◌⊎◌, inl,
  inr, List, length, get_or, Option, none, some, ◌==◌, ==_iff, ◌<<<◌, Bool-cases, Option-cases,
  arith,
}
use dirtybird_c_miner.Stage.{Stage4InputView, load24_padded, Output, Limits}
use dirtybird_c_miner.Stage.Order.{step_order, suffix_less, chunk_ends}
use dirtybird_c_miner.Stage.Emit.{emit_direct_records, key_groups, write_full_groups}
use dirtybird_c_miner.Stage.Rounds.{rounds}
use dirtybird_c_miner.Stage.Run.{write_full_round, emit_full_group_run}
use dirtybird_c_miner.Stage.Encode.{group_runs}
use dirtybird_c_miner.Stage.Room.{
  Succeeds, length-step_order, length-chunk_ends, length-key_groups, length-emit_direct_records,
  write_full_groups-Succeeds, write_arena_all-Succeeds,
}

pub unroll : (rel count : ℕ) → (suc rel + 1) * count ≡ count + (rel + 1) * count
unroll rel count = simp unary_clauses (omega arith)

-- `P n` says that an output holds what `n` positions may have written.
module _ (P : ℕ → Output → Type 0) where
  pub rounds-Succeeds :
      (view : Stage4InputView) (write : ℕ → List ℕ → Output → Option Output) (count bound : ℕ)
      → ((rel n : ℕ) (order : List ℕ) (output : Output)
          → rel ≤ 255
          → length order ≡ count
          → n + count ≤ bound
          → P n output
          → Succeeds (P (n + count)) (write rel order output))
      → (rel n : ℕ) (order : List ℕ) (output : Output) → rel ≤ 255
      → length order ≡ count
      → n + (rel + 1) * count ≤ bound
      → P n output
      → Succeeds (P (n + (rel + 1) * count)) (rounds write view rel order output)
  unfolding rounds
  rounds-Succeeds view write count bound good zero n order output small len room p =
      let (next, e, q) = good 0 n order output (omega arith) len (omega arith) p in
      (next, e, subst (λ m. P m next) (omega arith) q)
  rounds-Succeeds view write count bound good (suc rel) n order output small len room p =
      let unrolled : (suc rel + 1) * count ≡ count + (rel + 1) * count = unroll rel count in
      let (next, e, q) = good (suc rel) n order output small len (omega (arith, unrolled)) p in
      let (last, e', q') =
        rounds-Succeeds view write count bound good rel (n + count) (step_order view order) next
          (omega arith) (omega (arith, length-step_order view order)) (omega (arith, unrolled)) q in
      (last, ground (arith, e, e'), subst (λ m. P m last) (omega (arith, unrolled)) q')

  pub group_runs-Succeeds :
      (emit : ℕ → ℕ → Output → Option Output) (flags : List ℕ) (full_groups : ℕ)
      → ((start group : ℕ) (output : Output)
          → start < group
          → group ≤ full_groups
          → P (start * 256) output
          → Succeeds (P (group * 256)) (emit start group output))
      → (left group start : ℕ) (output : Output) → start < group
      → group + left ≡ full_groups + 1
      → (left ≡ 0 → start ≡ full_groups)
      → P (start * 256) output
      → Succeeds (P (full_groups * 256)) (group_runs emit flags full_groups left group start output)
  unfolding group_runs
  group_runs-Succeeds emit flags full_groups good zero group start output before ends done p =
      (output, refl, subst (λ m. P (m * 256) output) (done refl) p)
  group_runs-Succeeds emit flags full_groups good (suc left) group start output before ends done p =
      elim (Bool-cases (not (get_or flags group 0 == 0) || (group == full_groups))) [
        | inl e ↦
            let (next, sent, q) = good start group output before (omega arith) p in
            let (last, more, q') =
              group_runs-Succeeds emit flags full_groups good left (group + 1) group next
                (omega arith) (omega arith) (λ z. omega (arith, z)) q in
            (last, ground (arith, e, sent, more), q')
        | inr e ↦
            let (last, more, q') =
              group_runs-Succeeds emit flags full_groups good left (group + 1) start output
                (omega arith) (omega arith) (λ z. ground (arith, e, z)) p in
            (last, ground (arith, e, more), q')
      ]

arena_fits : (rel count : ℕ) → rel ≤ 255 → (255 - rel) * count + count ≤ 256 * count
arena_fits rel count h = omega (
  arith,
  mul-le-mul_right {m = suc (255 - rel)} {n = 256} count (omega arith),
  suc-mul (255 - rel) count,
)

module _ (limits : Limits) (view : Stage4InputView)
    (room : view.logical_len * 8 ≤ limits.out_cap) where
  -- At most `n` records, and an arena for the whole text where there is one.
  abbrev pub Filled : ℕ → Output → Type 0
  Filled n output =
      (length output.records ≤ n)
      × ((output.int_arena ≡ none) ⊎ (view.logical_len * 4 ≤ limits.int_arena_cap))

  write_full_groups-Filled :
      (arena_index n : ℕ) (order : List ℕ) (output : Output)
      → n + length order ≤ view.logical_len
      → Filled n output
      → Succeeds
          (Filled (n + length order))
          (write_full_groups limits arena_index (key_groups (load24_padded view) order) output)
  write_full_groups-Filled arena_index n order output fits (few, arena) =
      let groups = key_groups (load24_padded view) order in
      let short = length-key_groups (load24_padded view) order in
      let (next, e, l, a) =
        write_full_groups-Succeeds limits arena_index groups output
          (omega (arith, short, few, room)) in
      (
        next,
        e,
        (
          omega (arith, l, short, few),
          subst (λ w. (w ≡ none) ⊎ (view.logical_len * 4 ≤ limits.int_arena_cap)) (sym a) arena,
        ),
      )

  write_full_round-Filled :
      (base count rel n : ℕ) (order : List ℕ) (output : Output)
      → base + 256 * count ≤ view.logical_len
      → rel ≤ 255
      → length order ≡ count
      → n + count ≤ view.logical_len
      → Filled n output
      → Succeeds (Filled (n + count)) (write_full_round limits view base count rel order output)
  unfolding write_full_round
  write_full_round-Filled base count rel n order output inside small len fits p =
      let arena_base = base + (255 - rel) * count in
      elim (Option-cases output.int_arena) [
        | inl e ↦
            let (next, written, q) =
              write_full_groups-Filled arena_base n order output (omega (arith, len)) p in
            (next, ground (arith, e, written), subst (λ m. Filled (n + m) next) len q)
        | inr (arena, e) ↦
            let big : view.logical_len * 4 ≤ limits.int_arena_cap = ground (arith, p.1, e) in
            let (stored, kept) =
              write_arena_all-Succeeds limits arena arena_base order
                (omega (arith, arena_fits rel count small, len, big, inside)) in
            let (next, written, q) =
              write_full_groups-Filled arena_base n order
                (record output { int_arena = some stored }) (omega (arith, len)) (p.0, inr big) in
            (next, ground (arith, e, kept, written), subst (λ m. Filled (n + m) next) len q)
      ]

  -- A run of groups within the text.
  pub emit_full_group_run-Filled :
      (std_sort : (ℕ → ℕ → Bool) → List ℕ → List ℕ) (start group : ℕ) (output : Output)
      → ((precedes : ℕ → ℕ → Bool) (order : List ℕ)
          → length (std_sort precedes order) ≡ length order)
      → start < group
      → group * 256 ≤ view.logical_len
      → Filled (start * 256) output
      → Succeeds
          (Filled (group * 256))
          (emit_full_group_run std_sort limits view start group output)
  unfolding emit_full_group_run
  emit_full_group_run-Filled std_sort start group output lengths before inside p =
      let count = group - start in
      let base = start <<< 8 in
      let order = std_sort (suffix_less view) (chunk_ends base 0 count) in
      let len : length order ≡ count =
        lengths (suffix_less view) (chunk_ends base 0 count) ∙ length-chunk_ends base 0 count in
      elim (Bool-cases (group - start == 1)) [
        | inl e ↦
            let direct = emit_direct_records view base 256 output in
            let (l, a) = length-emit_direct_records view base 256 output in
            let fewer : length direct.records ≤ group * 256 =
              omega (arith, l, p.0, (==_iff (group - start) 1).0 e) in
            let counted : length direct.records - length output.records ≡ 256 = omega (arith, l) in
            let within : length direct.records * 8 ≤ limits.out_cap = omega arith in
            (
              direct,
              ground (arith, e, counted, within),
              (
                fewer,
                subst (λ w. (w ≡ none) ⊎ (view.logical_len * 4 ≤ limits.int_arena_cap)) (sym a) p.1,
              ),
            )
        | inr e ↦
            let many : group - start ≢ 1 = λ q. ground (arith, e, q) in
            let (next, ok, q) =
              rounds-Succeeds Filled view (write_full_round limits view base count) count
                view.logical_len
                (λ rel n order output small len fits p.
                  write_full_round-Filled base count rel n order output (omega arith) small len fits
                    p)
                255 (start * 256) order output (omega arith) len (omega arith) p in
            (next, ground (arith, e, many, ok), subst (λ m. Filled m next) (omega arith) q)
      ]
