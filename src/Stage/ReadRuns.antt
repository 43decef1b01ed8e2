-- ===== src/Stage/ReadRuns.antt =====
-- The runs that the last stage reads from the encoder's buffers are the groups that were written.
use mathlib.Core.List.{map}
use dirtybird_c_miner.Base.{
  ℕ, zero, suc, ◌+◌, ◌*◌, ◌^◌, ◌≤◌, ◌<◌, ◌≡◌, refl, sym, ap, ap₂, ◌∙◌, subst, false, true, inl, inr,
  List, [], ◌∷◌, ◌++◌, length, length-append, drop, drop-get_or, get_or, total, All, All-map,
  bit_and_131071, arith,
}
use dirtybird_c_miner.Stage.{Stage4InputView, load24_padded, Descriptor, read_u32_le, write_u32_le}
use dirtybird_c_miner.Stage.Parse.{Stage5InputView}
use dirtybird_c_miner.Stage.Emit.{Group}
use dirtybird_c_miner.Stage.Runs.{
  Stage5Run, stage5_run_encoded_count, stage5_run_is_literal, stage5_run_begin, stage5_run_count,
}
use dirtybird_c_miner.Stage.Merge.{
  stage5_run_pos, positions_from, run_positions, flatten, segments_of,
}
use dirtybird_c_miner.Stage.KeyGroup.{literal_one}
use dirtybird_c_miner.Stage.ReadBack.{read_u32_le-write_u32_le, positions_in, IsReadable, same_run}
use dirtybird_c_miner.Stage.Groups.{positions_bytes}
use dirtybird_c_miner.Stage.Collected.{members_of, InOrder}
use dirtybird_c_miner.Stage.Holds.{entries_from, Stored, AllStored}

drop-positions_bytes :
    (i : ℕ) (arena : List ℕ) → drop (i * 4) (positions_bytes arena) ≡ positions_bytes (drop i arena)
unfolding positions_bytes write_u32_le
drop-positions_bytes zero arena = refl
drop-positions_bytes (suc i) [] =
    let size : suc i * 4 ≡ suc (suc (suc (suc (i * 4)))) = omega arith in
    ap (λ (n : ℕ). drop n (positions_bytes [])) size
drop-positions_bytes (suc i) (x ∷ arena) =
    let size : suc i * 4 ≡ suc (suc (suc (suc (i * 4)))) = omega arith in
    ap (λ (n : ℕ). drop n (positions_bytes (x ∷ arena))) size ∙ drop-positions_bytes i arena

-- An entry of the arena read from its bytes.
read_entry :
    (arena : List ℕ) (i : ℕ)
    → i < length arena
    → get_or arena i 0 < 2 ^ 32
    → read_u32_le (drop (i * 4) (positions_bytes arena)) ≡ get_or arena i 0
unfolding positions_bytes
read_entry arena i inside small =
    ap read_u32_le
      (drop-positions_bytes i arena ∙ ap positions_bytes (drop-get_or arena i 0 inside))
    ∙ read_u32_le-write_u32_le (get_or arena i 0) (positions_bytes (drop (suc i) arena)) small

-- The words of records.
pub literal_word :
    (packed key : ℕ)
    → packed < 2 ^ 17
    → stage5_run_is_literal (record { key = key; packed = packed }) ≡ true
unfolding stage5_run_is_literal stage5_run_encoded_count
literal_word packed key h = ground arith

pub begin_word :
    (packed key : ℕ)
    → packed < 2 ^ 17
    → stage5_run_begin (record { key = key; packed = packed }) ≡ packed
unfolding stage5_run_begin
begin_word packed key h = omega (arith, bit_and_131071 packed)

pub begin_listed :
    (count index key : ℕ)
    → index < 2 ^ 17
    → stage5_run_begin (record { key = key; packed = count * 2 ^ 17 + index }) ≡ index
unfolding stage5_run_begin
begin_listed count index key h = omega (arith, bit_and_131071 (count * 2 ^ 17 + index))

pub listed_word :
    (count index key : ℕ)
    → 1 ≤ count
    → index < 2 ^ 17
    → stage5_run_is_literal (record { key = key; packed = count * 2 ^ 17 + index }) ≡ false
unfolding stage5_run_is_literal stage5_run_encoded_count
listed_word count index key one h = ground arith

pub count_listed :
    (count index key : ℕ)
    → 1 ≤ count
    → index < 2 ^ 17
    → stage5_run_count (record { key = key; packed = count * 2 ^ 17 + index }) ≡ count
unfolding stage5_run_count stage5_run_encoded_count
count_listed count index key one h = ground arith

module _ (view : Stage5InputView) (arena : List ℕ)
    (there : view.int_arena ≡ positions_bytes arena) where
  positions_from-entries_from :
      (run : Stage5Run) (rel left : ℕ)
      → stage5_run_is_literal run ≡ false
      → stage5_run_begin run + rel + left ≤ length arena
      → All (λ p. p < 2 ^ 32) (entries_from arena (stage5_run_begin run + rel) left)
      → positions_from view run rel left ≡ entries_from arena (stage5_run_begin run + rel) left
  unfolding positions_from stage5_run_pos
  positions_from-entries_from run rel zero e room small = refl
  positions_from-entries_from run rel (suc left) e room small =
      let at = stage5_run_begin run + rel in
      let next : stage5_run_begin run + suc rel ≡ suc at = omega arith in
      rw e (
        ap₂ ◌∷◌
          (ap (λ l. read_u32_le (drop (at * 4) l)) there
            ∙ read_entry arena at (omega arith) small.0)
          (positions_from-entries_from run (suc rel) left e (omega arith) (
              subst (λ (k : ℕ). All (λ p. p < 2 ^ 32) (entries_from arena k left)) (sym next)
                small.1)
            ∙ ap (λ (k : ℕ). entries_from arena k left) next))

  module _ (text : Stage4InputView) (small : text.logical_len ≤ 2 ^ 17)
      (keys : (p : ℕ) → load24_padded text p < 2 ^ 32) where
    -- What a record is to the last stage, where it stands for a group.
    abbrev pub IsRead : ℕ → Group → Descriptor → Type 0
    IsRead used g r =
        IsReadable text.logical_len used r
        × (positions_in r ≡ length g.members)
        × (run_positions view (same_run r) ≡ g.members)

    key_lt : (g : Group) → InOrder text g → 1 ≤ length g.members → g.key < 2 ^ 32
    key_lt g h some_one = key_at g.members g.key h.0 some_one
      where
        key_at :
            (members : List ℕ) (key : ℕ)
            → All (λ p. (p < text.logical_len) × (load24_padded text p ≡ key)) members
            → 1 ≤ length members
            → key < 2 ^ 32
        key_at [] key h one = absurd (omega arith)
        key_at (x ∷ members) key h one = omega (arith, h.0.1, keys x)

    literal-IsRead :
        (used key packed : ℕ)
        → packed < text.logical_len
        → load24_padded text packed ≡ key
        → IsRead used
            (record { key = key; members = packed ∷ [] })
            (record { key = key; packed = packed })
    literal-IsRead used key packed inside e =
        let run : Stage5Run = record { key = key; packed = packed } in
        let lone = literal_one view run (literal_word packed key (omega arith)) in
        (
          (omega (arith, e, keys packed), omega arith, inl inside),
          omega arith,
          lone ∙ ap (λ (p : ℕ). p ∷ []) (begin_word packed key (omega arith)),
        )

    arena-IsRead :
        (used index : ℕ) (g : Group)
        → InOrder text g
        → used ≤ length arena
        → used ≤ 2 ^ 17
        → 1 ≤ length g.members
        → index + length g.members ≤ used
        → entries_from arena index (length g.members) ≡ g.members
        → IsRead used g (record { key = g.key; packed = length g.members * 2 ^ 17 + index })
    unfolding run_positions
    arena-IsRead used index g h long few some_one within same =
        let count = length g.members in
        let packed = count * 2 ^ 17 + index in
        let run : Stage5Run = record { key = g.key; packed = packed } in
        let begin : stage5_run_begin run + 0 ≡ index =
          omega (arith, begin_listed count index g.key (omega arith)) in
        let counted = count_listed count index g.key some_one (omega arith) in
        let entries : All (λ p. p < 2 ^ 32) g.members =
          All-map (λ p. (p < text.logical_len) × (load24_padded text p ≡ g.key)) (λ p. p < 2 ^ 32)
            g.members (λ p hp. omega (arith, hp.0)) h.0 in
        let listed =
          positions_from-entries_from run 0 count
            (listed_word count index g.key some_one (omega arith)) (omega arith)
            (subst (λ (k : ℕ). All (λ p. p < 2 ^ 32) (entries_from arena k count)) (sym begin)
              (subst (All (λ p. p < 2 ^ 32)) (sym same) entries)) in
        let few_bits = h.2 in
        (
          (key_lt g h some_one, omega arith, inr (omega arith, omega arith)),
          omega arith,
          ap (positions_from view run 0) counted
              ∙ listed
              ∙ ap (λ (k : ℕ). entries_from arena k count) begin
              ∙ same,
        )

    record_eq :
        (r : Descriptor) (key packed : ℕ)
        → r.key ≡ key
        → r.packed ≡ packed
        → record { key = key; packed = packed } ≡ r
    record_eq r key packed e f = λ i. record { key = sym e i; packed = sym f i }

    pub Stored-IsRead :
        (used : ℕ) (g : Group) (r : Descriptor)
        → used ≤ length arena
        → used ≤ 2 ^ 17
        → InOrder text g
        → Stored arena used g r
        → IsRead used g r
    Stored-IsRead used g r long few h (key, inl literal) =
        let within : All (λ p. (p < text.logical_len) × (load24_padded text p ≡ g.key))
            (r.packed ∷ []) =
          subst (All (λ p. (p < text.logical_len) × (load24_padded text p ≡ g.key))) literal h.0 in
        subst (IsRead used g) (record_eq r g.key r.packed key refl) (
          subst
            (λ l.
              IsRead used (record { key = g.key; members = l })
                (record { key = g.key; packed = r.packed }))
            (sym literal) (literal-IsRead used g.key r.packed within.0.0 within.0.1))
    Stored-IsRead used g r long few h (key, inr (index, some_one, within, word, same)) =
        subst (IsRead used g) (record_eq r g.key (length g.members * 2 ^ 17 + index) key word)
          (arena-IsRead used index g h long few some_one within same)

    -- What the last stage reads from all records.
    abbrev pub AllRead : ℕ → List Group → List Descriptor → Type 0
    AllRead used groups records =
        All (IsReadable text.logical_len used) records
        × (total positions_in records ≡ length (members_of groups))
        × (flatten (segments_of view (map same_run records)) ≡ members_of groups)

    pub AllStored-AllRead :
        (used : ℕ) (groups : List Group) (records : List Descriptor)
        → used ≤ length arena
        → used ≤ 2 ^ 17
        → All (InOrder text) groups
        → AllStored arena used groups records
        → AllRead used groups records
    unfolding flatten segments_of
    AllStored-AllRead used [] [] long few h s = (tt, refl, refl)
    AllStored-AllRead used [] (r ∷ records) long few h s = absurd s
    AllStored-AllRead used (g ∷ groups) [] long few h s = absurd s
    AllStored-AllRead used (g ∷ groups) (r ∷ records) long few h s =
        let (readable, count, positions) = Stored-IsRead used g r long few h.0 s.0 in
        let (all, sum, flat) = AllStored-AllRead used groups records long few h.1 s.1 in
        (
          (readable, all),
          omega (arith, count, sum, length-append g.members (members_of groups)),
          ap₂ ◌++◌ positions flat,
        )

    -- A property of the groups, read from the records.
    pub AllStored-All {κ} :
        (P : ℕ → List ℕ → Type κ) (used : ℕ) (groups : List Group) (records : List Descriptor)
        → used ≤ length arena
        → used ≤ 2 ^ 17
        → All (InOrder text) groups
        → ((g : Group) → InOrder text g → P g.key g.members)
        → AllStored arena used groups records
        → All (λ (run : Stage5Run). P run.key (run_positions view run)) (map same_run records)
    AllStored-All P used [] [] long few h f s = tt
    AllStored-All P used [] (r ∷ records) long few h f s = absurd s
    AllStored-All P used (g ∷ groups) [] long few h f s = absurd s
    AllStored-All P used (g ∷ groups) (r ∷ records) long few h f s =
        let (readable, count, positions) = Stored-IsRead used g r long few h.0 s.0 in
        (
          subst (λ (k : ℕ). P k (run_positions view (same_run r))) (sym s.0.0)
              (subst (P g.key) (sym positions) (f g h.0)),
          AllStored-All P used groups records long few h.1 f s.1,
        )
