-- ===== src/Stage/Collected.antt =====
-- The groups that the rounds of a run write, without the buffers: each holds positions with one key
-- in the order of their suffixes, and together they hold every position once.
use mathlib.Core.List.{Perm, map, append-nil, append_assoc}
use mathlib.Core.List.Perm
use dirtybird_c_miner.Base.{
  ℕ, zero, suc, ◌+◌, ◌-◌, ◌≤◌, ◌<◌, ◌≡◌, refl, sym, ap, ◌∙◌, subst, Bool, true, inl, inr, List, [],
  ◌∷◌, ◌++◌, length, length-append, Option, some, All, All-append, All-left, All-map, Ordered, ◌==◌,
  ==_iff, Bool-cases, arith,
}
use dirtybird_c_miner.Stage.{
  Stage4InputView, load24_padded, load24_unchecked, has_load24_padding, load24_fast,
}
use dirtybird_c_miner.Stage.Order.{step_order}
use dirtybird_c_miner.Stage.Lex.{HasText, below}
use dirtybird_c_miner.Stage.Induced.{Movable, step_order-Ordered, step_order-All}
use dirtybird_c_miner.Stage.Room.{length-step_order}
use dirtybird_c_miner.Stage.Emit.{Group, groups_from, key_groups}
use dirtybird_c_miner.Stage.Rounds.{rounds, write_groups, write_round}
use dirtybird_c_miner.Stage.Covered.{visited, visited-Perm}

-- A writer that keeps all groups.
abbrev pub collect : ℕ → List ℕ → List Group → Option (List Group)
collect key members groups = some (groups ++ record { key = key; members = members } ∷ [])

-- The positions of groups.
abbrev pub members_of : List Group → List ℕ
members_of [] = []
members_of (g ∷ groups) = g.members ++ members_of groups

pub members_of-append :
    (xs ys : List Group) → members_of (xs ++ ys) ≡ members_of xs ++ members_of ys
members_of-append [] ys = refl
members_of-append (g ∷ xs) ys = simp (members_of-append xs ys, append_assoc)

Ordered-left : (less : ℕ → ℕ → Bool) (xs ys : List ℕ) → Ordered less (xs ++ ys) → Ordered less xs
Ordered-left less [] ys h = tt
Ordered-left less (x ∷ xs) ys h =
    (All-left (λ y. less x y ≡ true) xs ys h.0, Ordered-left less xs ys h.1)

Ordered-right : (less : ℕ → ℕ → Bool) (xs ys : List ℕ) → Ordered less (xs ++ ys) → Ordered less ys
Ordered-right less [] ys h = h
Ordered-right less (x ∷ xs) ys h = Ordered-right less xs ys h.1

pub load24_fast_lem :
    (view : Stage4InputView) (pos : ℕ)
    → pos < view.logical_len
    → load24_fast view pos (has_load24_padding view) ≡ load24_padded view pos
unfolding load24_fast load24_padded load24_unchecked has_load24_padding
load24_fast_lem view pos h = ground arith

module _ (view : Stage4InputView) where
  -- At most 512 positions of the text with one key, in the order of their suffixes.
  abbrev pub InOrder : Group → Type 0
  InOrder g =
      All (λ p. (p < view.logical_len) × (load24_padded view p ≡ g.key)) g.members
      × Ordered (below view) g.members
      × (length g.members ≤ 512)

  groups_from-InOrder :
      (key : ℕ) (members order : List ℕ)
      → All (λ p. (p < view.logical_len) × (load24_padded view p ≡ key)) members
      → All (λ p. p < view.logical_len) order
      → Ordered (below view) (members ++ order)
      → length members + length order ≤ 512
      → let groups =
          groups_from (λ p. load24_fast view p (has_load24_padding view)) key members order in
        All InOrder groups × (members_of groups ≡ members ++ order)
  unfolding groups_from
  groups_from-InOrder key members [] hm ho up few =
      (((hm, subst (Ordered (below view)) (append-nil members) up, omega arith), tt), refl)
  groups_from-InOrder key members (x ∷ order) hm ho up few =
      let key_of = λ (p : ℕ). load24_fast view p (has_load24_padding view) in
      let fast = load24_fast_lem view x ho.0 in
      elim (Bool-cases (key_of x == key)) [
        | inl e ↦
            let same : load24_padded view x ≡ key = sym fast ∙ (==_iff (key_of x) key).0 e in
            let (each, all) =
              groups_from-InOrder key (members ++ x ∷ []) order
                (All-append (λ p. (p < view.logical_len) × (load24_padded view p ≡ key)) members
                  (x ∷ []) hm ((ho.0, same), tt))
                ho.1 (subst (Ordered (below view)) (sym (append_assoc members (x ∷ []) order)) up)
                (omega (arith, length-append members (x ∷ []))) in
            rw (e, groups_from) (each, all ∙ append_assoc members (x ∷ []) order)
        | inr e ↦
            let (each, all) =
              groups_from-InOrder (key_of x) (x ∷ []) order ((ho.0, sym fast), tt) ho.1
                (Ordered-right (below view) members (x ∷ order) up) (omega arith) in
            rw (e, groups_from)
              (
                ((hm, Ordered-left (below view) members (x ∷ order) up, omega arith), each),
                ap (λ l. members ++ l) all,
              )
      ]

  key_groups-InOrder :
      (order : List ℕ)
      → All (λ p. p < view.logical_len) order
      → Ordered (below view) order
      → length order ≤ 512
      → let groups = key_groups (λ p. load24_fast view p (has_load24_padding view)) order in
        All InOrder groups × (members_of groups ≡ order)
  unfolding key_groups
  key_groups-InOrder [] h up few = (tt, refl)
  key_groups-InOrder (x ∷ order) h up few =
      groups_from-InOrder _ (x ∷ []) order ((h.0, sym (load24_fast_lem view x h.0)), tt) h.1 up
        (omega arith)

write_groups-collect :
    (new groups : List Group) → write_groups collect new groups ≡ some (groups ++ new)
unfolding write_groups
write_groups-collect [] groups = ap some (sym (append-nil groups))
write_groups-collect (g ∷ new) groups =
    write_groups-collect new (groups ++ g ∷ []) ∙ ap some (append_assoc groups (g ∷ []) new)

module _ (view : Stage4InputView) (text : HasText view) where
  -- What a run of rounds collects.
  abbrev pub Collects : ℕ → List ℕ → List Group → Type 0
  Collects rel order groups =
      (new : List Group) × (rounds (write_round collect view (has_load24_padding view)) view rel
          order groups
        ≡ some (groups ++ new))
      × All (InOrder view) new
      × Perm (members_of new) (visited rel order)

  inside :
      (rel : ℕ) (order : List ℕ)
      → All (Movable view text rel) order
      → All (λ p. p < view.logical_len) order
  inside rel order h =
      All-map (Movable view text rel) (λ p. p < view.logical_len) order (λ p m. m.1) h

  pub rounds-Collects :
      (rel : ℕ) (order : List ℕ) (groups : List Group)
      → All (Movable view text rel) order
      → Ordered (below view) order
      → length order ≤ 512
      → Collects rel order groups
  unfolding rounds write_round visited
  rounds-Collects zero order groups h up few =
      let key_of = λ (p : ℕ). load24_fast view p (has_load24_padding view) in
      let (each, all) = key_groups-InOrder view order (inside zero order h) up few in
      (
        key_groups key_of order,
        write_groups-collect (key_groups key_of order) groups,
        each,
        subst (λ l. Perm l order) (sym all) Perm.rfl,
      )
  rounds-Collects (suc rel) order groups h up few =
      let key_of = λ (p : ℕ). load24_fast view p (has_load24_padding view) in
      let first = key_groups key_of order in
      let (each, all) = key_groups-InOrder view order (inside (suc rel) order h) up few in
      let one =
        All-map (Movable view text (suc rel)) (Movable view text 1) order
          (λ p m. (omega arith, m.1)) h in
      let (up', perm) = step_order-Ordered view text order one up in
      let (new, e, each', perm') =
        rounds-Collects rel (step_order view order) (groups ++ first)
          (step_order-All view text rel order h) up'
          (omega (arith, length-step_order view order)) in
      let written = write_groups-collect first groups in
      let rest = Perm.trans perm' (visited-Perm rel perm) in
      (
        first ++ new,
        rw (written, rounds) (e ∙ ap some (append_assoc groups first new)),
        All-append (InOrder view) first new each each',
        subst (λ l. Perm l (order ++ visited rel (map (λ p. p - 1) order)))
            (sym (members_of-append first new ∙ ap (λ l. l ++ members_of new) all))
            (Perm.append_left order rest),
      )
