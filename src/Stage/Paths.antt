-- ===== src/Stage/Paths.antt =====
-- The handlers of src/v114_stubs.cpp for two, for three or four and for up to 25 groups against its
-- general loop.
use dirtybird_c_miner.Base.{
  ℕ, zero, suc, ◌-◌, ◌≡◌, refl, Bool, inl, inr, List, [], ◌∷◌, Option, ltb, ◌==◌, if◌then◌else◌,
  Bool-cases, Option-cases, arith,
}
use dirtybird_c_miner.Stage.{Stage4InputView, byte_at, load24_fast, Output, Limits}
use dirtybird_c_miner.Stage.Order.{
  first_byte_less, shift_in, insert_from, insertion_sort, step_order,
}
use dirtybird_c_miner.Stage.Emit.{
  groups_from, key_groups, append_compact_arena_positions, append_compact_arena_positions_fixed,
  write_compact_order_group, write_sorted_group,
}
use dirtybird_c_miner.Stage.Rounds.{rounds, write_groups, write_round, write_two, two_rounds}

append_fixed_eq :
    (limits : Limits) (members : List ℕ) (output : Output)
    → append_compact_arena_positions_fixed limits members output
      ≡ append_compact_arena_positions limits members output
unfolding append_compact_arena_positions_fixed append_compact_arena_positions
append_fixed_eq limits members output = refl

pub write_group_eq :
    (limits : Limits) (key : ℕ) (members : List ℕ) (output : Output)
    → write_compact_order_group limits key members output
      ≡ write_sorted_group limits key members output
unfolding write_compact_order_group write_sorted_group
write_group_eq limits key members output = rw (append_fixed_eq limits members output) refl

pub rounds_eq :
    (limits : Limits) (view : Stage4InputView) (padded : Bool) (rel : ℕ) (order : List ℕ)
    (output : Output)
    → rounds (write_round (write_compact_order_group limits) view padded) view rel order output
      ≡ rounds (write_round (write_sorted_group limits) view padded) view rel order output
rounds_eq limits view padded rel order output = λ i.
    rounds
      (write_round (λ key members output. write_group_eq limits key members output i) view padded)
      view rel order output

step_two_eq :
    (view : Stage4InputView) (a b : ℕ)
    → step_order view (a ∷ b ∷ []) ≡ (
        if ltb (byte_at view (b - 1)) (byte_at view (a - 1))
        then (b - 1) ∷ (a - 1) ∷ []
        else (a - 1) ∷ (b - 1) ∷ [])
unfolding step_order insertion_sort insert_from shift_in first_byte_less
step_two_eq view a b = elim (Bool-cases (ltb (byte_at view (b - 1)) (byte_at view (a - 1)))) [
  | inl e ↦ rw e refl
  | inr e ↦ rw e refl
]

module _ {S : Type 0} (write : ℕ → List ℕ → S → Option S) (view : Stage4InputView)
    (padded : Bool) where
  write_two_eq :
      (rel a b : ℕ) (output : S)
      → write_two write view padded a b output
        ≡ write_round write view padded rel (a ∷ b ∷ []) output
  unfolding write_two write_round key_groups groups_from write_groups
  write_two_eq rel a b output =
      elim (Bool-cases (load24_fast view b padded == load24_fast view a padded)) [
        | inl e ↦ ground (arith, e)
        | inr e ↦ ground (arith, e)
      ]

  pub two_rounds_eq :
      (rel a b : ℕ) (output : S)
      → two_rounds write view padded rel a b output
        ≡ rounds (write_round write view padded) view rel (a ∷ b ∷ []) output
  unfolding two_rounds rounds
  two_rounds_eq zero a b output = write_two_eq 0 a b output
  two_rounds_eq (suc rel) a b output =
      elim (Option-cases (write_two write view padded a b output)) [
        | inl e ↦ ground (arith, e, write_two_eq (suc rel) a b output)
        | inr (next, e) ↦ elim (Bool-cases (ltb (byte_at view (b - 1)) (byte_at view (a - 1)))) [
          | inl s ↦ ground (
            arith,
            e,
            s,
            write_two_eq (suc rel) a b output,
            step_two_eq view a b,
            two_rounds_eq rel (b - 1) (a - 1) next,
          )
          | inr s ↦ ground (
            arith,
            e,
            s,
            write_two_eq (suc rel) a b output,
            step_two_eq view a b,
            two_rounds_eq rel (a - 1) (b - 1) next,
          )
        ]
      ]
