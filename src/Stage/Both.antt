-- ===== src/Stage/Both.antt =====
-- Two writers side by side through the rounds of a run: what holds for each group holds for the run.
use dirtybird_c_miner.Base.{
  ℕ, zero, suc, ◌+◌, ◌*◌, ◌≤◌, ◌<◌, ◌≡◌, refl, subst, Bool, not, ◌||◌, inl, inr, List, [], ◌∷◌,
  length, get_or, Option, some, All, ◌==◌, Bool-cases, arith,
}
use dirtybird_c_miner.Stage.{Stage4InputView, load24_fast}
use dirtybird_c_miner.Stage.Order.{step_order}
use dirtybird_c_miner.Stage.Emit.{Group, key_groups}
use dirtybird_c_miner.Stage.Rounds.{rounds, write_groups, write_round}
use dirtybird_c_miner.Stage.Encode.{group_runs}
use dirtybird_c_miner.Stage.Room.{length-step_order, members_total, key_groups_total}
use dirtybird_c_miner.Stage.Progress.{unroll}

-- Both calls return true, with related results.
abbrev pub Both : {S T : Type 0} → (S → T → Type 0) → Option S → Option T → Type 0
Both {S} {T} Related result result' =
    (s : S) × (t : T) × (result ≡ some s) × (result' ≡ some t) × Related s t

module _ {S T : Type 0} (write : ℕ → List ℕ → S → Option S) (write' : ℕ → List ℕ → T → Option T)
    (Related : ℕ → S → T → Type 0) (bound : ℕ)
    (group : (n key : ℕ) (members : List ℕ) (s : S) (t : T)
      → 1 ≤ length members
      → n + length members ≤ bound
      → Related n s t
      → Both (Related (n + length members)) (write key members s) (write' key members t)) where
  write_groups-Both :
      (groups : List Group) (n : ℕ) (s : S) (t : T)
      → All (λ (g : Group). 1 ≤ length g.members) groups
      → n + members_total groups ≤ bound
      → Related n s t
      → Both
          (Related (n + members_total groups))
          (write_groups write groups s)
          (write_groups write' groups t)
  unfolding write_groups
  write_groups-Both [] n s t each fits r =
      (s, t, refl, refl, subst (λ m. Related m s t) (omega arith) r)
  write_groups-Both (g ∷ groups) n s t each fits r =
      let (a, b, ok, ok', q) = group n g.key g.members s t each.0 (omega arith) r in
      let (c, d, done, done', q') =
        write_groups-Both groups (n + length g.members) a b each.1 (omega arith) q in
      (
        c,
        d,
        ground (arith, ok, done),
        ground (arith, ok', done'),
        subst (λ m. Related m c d) (omega arith) q',
      )

  write_round-Both :
      (view : Stage4InputView) (padded : Bool) (rel n : ℕ) (order : List ℕ) (s : S) (t : T)
      → n + length order ≤ bound
      → Related n s t
      → Both
          (Related (n + length order))
          (write_round write view padded rel order s)
          (write_round write' view padded rel order t)
  unfolding write_round
  write_round-Both view padded rel n order s t fits r =
      let key_of = λ (pos : ℕ). load24_fast view pos padded in
      let (sum, each) = key_groups_total key_of order in
      let (a, b, ok, ok', q) =
        write_groups-Both (key_groups key_of order) n s t each (omega (arith, sum)) r in
      (a, b, ok, ok', subst (λ m. Related (n + m) a b) sum q)

  pub rounds-Both :
      (view : Stage4InputView) (padded : Bool) (count rel n : ℕ) (order : List ℕ) (s : S) (t : T)
      → length order ≡ count
      → n + (rel + 1) * count ≤ bound
      → Related n s t
      → Both
          (Related (n + (rel + 1) * count))
          (rounds (write_round write view padded) view rel order s)
          (rounds (write_round write' view padded) view rel order t)
  unfolding rounds
  rounds-Both view padded count zero n order s t len room r =
      let (a, b, ok, ok', q) =
        write_round-Both view padded 0 n order s t (omega (arith, len, room)) r in
      (a, b, ok, ok', subst (λ m. Related m a b) (omega (arith, len)) q)
  rounds-Both view padded count (suc rel) n order s t len room r =
      let unrolled : (suc rel + 1) * count ≡ count + (rel + 1) * count = unroll rel count in
      let (a, b, ok, ok', q) =
        write_round-Both view padded (suc rel) n order s t (omega (arith, unrolled, len, room)) r in
      let (c, d, done, done', q') =
        rounds-Both view padded count rel (n + length order) (step_order view order) a b
          (omega (arith, length-step_order view order, len)) (omega (arith, unrolled, len, room))
          q in
      (
        c,
        d,
        ground (arith, ok, done),
        ground (arith, ok', done'),
        subst (λ m. Related m c d) (omega (arith, unrolled, len)) q',
      )

module _ {S T : Type 0} (Related : ℕ → S → T → Type 0) where
  pub group_runs-Both :
      (emit : ℕ → ℕ → S → Option S) (emit' : ℕ → ℕ → T → Option T) (flags : List ℕ)
      (full_groups : ℕ)
      → ((start group : ℕ) (s : S) (t : T)
          → start < group
          → group ≤ full_groups
          → Related (start * 256) s t
          → Both (Related (group * 256)) (emit start group s) (emit' start group t))
      → (left group start : ℕ) (s : S) (t : T) → start < group
      → group + left ≡ full_groups + 1
      → (left ≡ 0 → start ≡ full_groups)
      → Related (start * 256) s t
      → Both
          (Related (full_groups * 256))
          (group_runs emit flags full_groups left group start s)
          (group_runs emit' flags full_groups left group start t)
  unfolding group_runs
  group_runs-Both emit emit' flags full_groups good zero group start s t before ends done r =
      (s, t, refl, refl, subst (λ m. Related (m * 256) s t) (done refl) r)
  group_runs-Both emit emit' flags full_groups good (suc left) group start s t before ends done r =
      elim (Bool-cases (not (get_or flags group 0 == 0) || (group == full_groups))) [
        | inl e ↦
            let (a, b, sent, sent', q) = good start group s t before (omega arith) r in
            let (c, d, more, more', q') =
              group_runs-Both emit emit' flags full_groups good left (group + 1) group a b
                (omega arith) (omega arith) (λ z. omega (arith, z)) q in
            (c, d, ground (arith, e, sent, more), ground (arith, e, sent', more'), q')
        | inr e ↦
            let (c, d, more, more', q') =
              group_runs-Both emit emit' flags full_groups good left (group + 1) start s t
                (omega arith) (omega arith) (λ z. ground (arith, e, z)) r in
            (c, d, ground (arith, e, more), ground (arith, e, more'), q')
      ]
