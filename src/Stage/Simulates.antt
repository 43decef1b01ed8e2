-- ===== src/Stage/Simulates.antt =====
-- One group in the buffers and in the scratch area: the same words and the same positions.
use mathlib.Core.List.{map}
use dirtybird_c_miner.Base.{
  ℕ, zero, suc, ◌+◌, ◌*◌, ◌≤◌, ◌<◌, ◌≡◌, refl, sym, ap, ◌∙◌, inl, inr, List, [], ◌∷◌, ◌++◌, length,
  length-set, get_or, set, some, ◌==◌, ==_iff, Bool-cases, arith,
}
use dirtybird_c_miner.Stage.{Descriptor, Output, write_arena_pos, write_arena_all}
use dirtybird_c_miner.Stage.Runs.{Stage5Run, stage5_radix_order_key}
use dirtybird_c_miner.Stage.Fused.{FusedStage5Scratch, store_from}

module _ {ℓ} {A : Type ℓ} where
  pub get_or-set_here :
      (xs : List A) (i : ℕ) (v d : A) → i < length xs → get_or (set xs i v) i d ≡ v
  get_or-set_here [] i v d h = absurd (omega arith)
  get_or-set_here (x ∷ xs) zero v d h = refl
  get_or-set_here (x ∷ xs) (suc i) v d h = get_or-set_here xs i v d (omega arith)

  pub get_or-set_other :
      (xs : List A) (i j : ℕ) (v d : A) → j < i → get_or (set xs i v) j d ≡ get_or xs j d
  get_or-set_other [] i j v d h = refl
  get_or-set_other (x ∷ xs) zero j v d h = absurd (omega arith)
  get_or-set_other (x ∷ xs) (suc i) zero v d h = refl
  get_or-set_other (x ∷ xs) (suc i) (suc j) v d h = get_or-set_other xs i j v d (omega arith)

-- Two arenas with the same entries below `n`.
abbrev pub AgreeBelow : ℕ → List ℕ → List ℕ → Type 0
AgreeBelow n xs ys = (i : ℕ) → i < n → get_or xs i 0 ≡ get_or ys i 0

set-AgreeBelow :
    (n v : ℕ) (xs ys : List ℕ)
    → n < length xs
    → n < length ys
    → AgreeBelow n xs ys
    → AgreeBelow (n + 1) (set xs n v) (set ys n v)
set-AgreeBelow n v xs ys hx hy agree i h = elim (Bool-cases (i == n)) [
  | inl e ↦
      let same : i ≡ n = (==_iff i n).0 e in
      rw same (get_or-set_here xs n v 0 hx ∙ sym (get_or-set_here ys n v 0 hy))
  | inr e ↦
      let less : i < n = ground (arith, e) in
      get_or-set_other xs n i v 0 less ∙ agree i less ∙ sym (get_or-set_other ys n i v 0 less)
]

pub length-store_from :
    (xs : List ℕ) (index : ℕ) (members : List ℕ) → length (store_from xs index members) ≡ length xs
unfolding store_from
length-store_from xs index [] = refl
length-store_from xs index (x ∷ members) =
    length-store_from (set xs index x) (index + 1) members ∙ length-set xs index x

pub store_from-AgreeBelow :
    (members : List ℕ) (n : ℕ) (xs ys : List ℕ)
    → n + length members ≤ length xs
    → n + length members ≤ length ys
    → AgreeBelow n xs ys
    → AgreeBelow (n + length members) (store_from xs n members) (store_from ys n members)
unfolding store_from
store_from-AgreeBelow [] n xs ys hx hy agree i h = agree i (omega arith)
store_from-AgreeBelow (x ∷ members) n xs ys hx hy agree i h =
    store_from-AgreeBelow members (n + 1) (set xs n x) (set ys n x)
      (omega (arith, length-set xs n x)) (omega (arith, length-set ys n x))
      (set-AgreeBelow n x xs ys (omega arith) (omega arith) agree) i (omega arith)

pub write_arena_all-store_from :
    (cap index : ℕ) (arena members : List ℕ)
    → (index + length members) * 4 ≤ cap
    → write_arena_all cap arena index members ≡ some (store_from arena index members)
unfolding write_arena_all write_arena_pos store_from
write_arena_all-store_from cap index arena [] room = refl
write_arena_all-store_from cap index arena (x ∷ members) room =
    let rest =
      write_arena_all-store_from cap (index + 1) (set arena index x) members (omega arith) in
    ground (arith, rest)

-- The run of a record: its key in the order of its bytes, and the same word.
abbrev pub run_of : Descriptor → Stage5Run
run_of r = record { key = stage5_radix_order_key r.key; packed = r.packed }

pub map-append : (xs ys : List Descriptor) → map run_of (xs ++ ys) ≡ map run_of xs ++ map run_of ys
map-append [] ys = refl
map-append (x ∷ xs) ys = ap (λ l. run_of x ∷ l) (map-append xs ys)

-- The scratch area holds the runs of the records, and the arenas have the same entries in use.
-- At most `n` records and arena entries are in use, and both arenas have room for `bound`.
pub record Simulates (bound n : ℕ) (output : Output) (scratch : FusedStage5Scratch) : Type 0 where
  pub arena : List ℕ
  pub there : output.int_arena ≡ some arena
  pub few : length output.records ≤ n
  pub used : output.arena_entries ≤ n
  pub same_len : scratch.arena_len ≡ output.arena_entries
  pub same_runs : scratch.runs ≡ map run_of output.records
  pub room : bound ≤ length arena
  pub room' : bound ≤ length scratch.arena_positions
  pub agree : AgreeBelow output.arena_entries scratch.arena_positions arena
