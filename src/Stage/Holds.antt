-- ===== src/Stage/Holds.antt =====
-- The buffers of the first stage against the groups that were written to them.
use dirtybird_c_miner.Base.{
  ℕ, zero, suc, ◌+◌, ◌*◌, ◌^◌, ◌≤◌, ◌<◌, ◌≡◌, refl, sym, ap, ap₂, ◌∙◌, true, false, ◌||◌, inl, inr,
  ◌⊎◌, List, [], ◌∷◌, ◌++◌, length, length-append, length-set, get_or, set, some, Bool-cases, ltb,
  ◌<<<◌, arith,
}
use dirtybird_c_miner.Stage.{descriptor_arena_index_count, Descriptor, Output, Limits}
use dirtybird_c_miner.Stage.Emit.{
  Group, append_compact_arena_positions_fixed, write_compact_order_group,
}
use dirtybird_c_miner.Stage.Fused.{store_from}
use dirtybird_c_miner.Stage.Room.{write_record-Succeeds}
use dirtybird_c_miner.Stage.Both.{Both}
use dirtybird_c_miner.Stage.Simulates.{
  get_or-set_here, get_or-set_other, length-store_from, write_arena_all-store_from,
}
use dirtybird_c_miner.Stage.Collected.{collect}

-- The `count` entries of an arena from an index on.
abbrev pub entries_from : List ℕ → ℕ → ℕ → List ℕ
entries_from arena index zero = []
entries_from arena index (suc count) = get_or arena index 0 ∷ entries_from arena (suc index) count

store_from-below :
    (members : List ℕ) (n j : ℕ) (xs : List ℕ)
    → j < n
    → get_or (store_from xs n members) j 0 ≡ get_or xs j 0
unfolding store_from
store_from-below [] n j xs h = refl
store_from-below (x ∷ members) n j xs h =
    store_from-below members (n + 1) j (set xs n x) (omega arith) ∙ get_or-set_other xs n j x 0 h

entries_from-store_below :
    (count index n : ℕ) (xs members : List ℕ)
    → index + count ≤ n
    → entries_from (store_from xs n members) index count ≡ entries_from xs index count
entries_from-store_below zero index n xs members h = refl
entries_from-store_below (suc count) index n xs members h =
    ap₂ ◌∷◌ (store_from-below members n index xs (omega arith))
      (entries_from-store_below count (suc index) n xs members (omega arith))

entries_from-store_here :
    (members : List ℕ) (n : ℕ) (xs : List ℕ)
    → n + length members ≤ length xs
    → entries_from (store_from xs n members) n (length members) ≡ members
unfolding store_from
entries_from-store_here [] n xs h = refl
entries_from-store_here (x ∷ members) n xs h =
    let next : n + 1 ≡ suc n = omega arith in
    ap₂ ◌∷◌
      (store_from-below members (n + 1) n (set xs n x) (omega arith)
        ∙ get_or-set_here xs n x 0 (omega arith))
      (ap (λ (k : ℕ). entries_from (store_from (set xs n x) (n + 1) members) k (length members))
          (sym next)
        ∙ entries_from-store_here members (n + 1) (set xs n x) (omega (arith, length-set xs n x)))

-- A record that stands for a group: a position alone, or entries of the arena below `used`.
abbrev pub Stored : List ℕ → ℕ → Group → Descriptor → Type 0
Stored arena used g r =
    (r.key ≡ g.key)
    × ((g.members ≡ r.packed ∷ [])
        ⊎ ((index : ℕ) × (1 ≤ length g.members)
            × (index + length g.members ≤ used)
            × (r.packed ≡ length g.members * 2 ^ 17 + index)
            × (entries_from arena index (length g.members) ≡ g.members)))

-- One record for each group.
abbrev pub AllStored : List ℕ → ℕ → List Group → List Descriptor → Type 0
AllStored arena used [] [] = Unit
AllStored arena used [] (r ∷ records) = ⊥
AllStored arena used (g ∷ groups) [] = ⊥
AllStored arena used (g ∷ groups) (r ∷ records) =
    Stored arena used g r × AllStored arena used groups records

AllStored-append :
    (arena : List ℕ) (used : ℕ) (groups : List Group) (records : List Descriptor) (g : Group)
    (r : Descriptor)
    → AllStored arena used groups records
    → Stored arena used g r
    → AllStored arena used (groups ++ g ∷ []) (records ++ r ∷ [])
AllStored-append arena used [] [] g r h s = (s, tt)
AllStored-append arena used [] (r' ∷ records) g r h s = absurd h
AllStored-append arena used (g' ∷ groups) [] g r h s = absurd h
AllStored-append arena used (g' ∷ groups) (r' ∷ records) g r h s =
    (h.0, AllStored-append arena used groups records g r h.1 s)

-- Entries written behind those in use change no record.
AllStored-store_from :
    (arena : List ℕ) (used : ℕ) (members : List ℕ) (groups : List Group) (records : List Descriptor)
    → AllStored arena used groups records
    → AllStored (store_from arena used members) (used + length members) groups records
AllStored-store_from arena used members [] [] h = tt
AllStored-store_from arena used members [] (r ∷ records) h = absurd h
AllStored-store_from arena used members (g ∷ groups) [] h = absurd h
AllStored-store_from arena used members (g ∷ groups) (r ∷ records) ((key, inl literal), h) =
    ((key, inl literal), AllStored-store_from arena used members groups records h)
AllStored-store_from arena used members (g ∷ groups) (r ∷ records)
      ((key, inr (index, some_one, within, word, same)), h) =
    (
      (
        key,
        inr (
          index,
          some_one,
          omega arith,
          word,
          entries_from-store_below (length g.members) index used arena members within ∙ same,
        ),
      ),
      AllStored-store_from arena used members groups records h,
    )

-- The buffers hold the groups, with at most `n` records and arena entries.
pub record Holds (bound n : ℕ) (output : Output) (groups : List Group) : Type 0 where
  pub arena : List ℕ
  pub there : output.int_arena ≡ some arena
  pub few : length output.records ≤ n
  pub used : output.arena_entries ≤ n
  pub room : bound ≤ length arena
  pub stored : AllStored arena output.arena_entries groups output.records

alone : (members : List ℕ) → length members ≡ 1 → members ≡ get_or members 0 0 ∷ []
alone [] h = absurd (omega arith)
alone (x ∷ []) h = refl
alone (x ∷ y ∷ members) h = absurd (omega arith)

module _ (limits : Limits) (bound : ℕ) (room : bound * 8 ≤ limits.out_cap)
    (arena_room : bound * 4 ≤ limits.int_arena_cap)
    (small : bound ≤ descriptor_arena_index_count) where
  -- What one group needs to be held.
  abbrev pub GroupHolds : ℕ → ℕ → List ℕ → Output → List Group → Type 0
  GroupHolds n key members output groups =
      Both (Holds bound (n + length members)) (write_compact_order_group limits key members output)
        (collect key members groups)

  single-Holds :
      (n key : ℕ) (members : List ℕ) (output : Output) (groups : List Group)
      → length members ≡ 1
      → (ltb 1 (length members) || limits.count1_singletons) ≡ false
      → n + length members ≤ bound
      → Holds bound n output groups
      → GroupHolds n key members output groups
  unfolding write_compact_order_group
  single-Holds n key members output groups one plain fits h =
      let word = get_or members 0 0 in
      let r : Descriptor = record { key = key; packed = word } in
      let g : Group = record { key = key; members = members } in
      (
        record output { records = output.records ++ r ∷ [] },
        groups ++ g ∷ [],
        ground (arith, plain, write_record-Succeeds limits output key word (omega (arith, h.few))),
        refl,
        record {
          arena = h.arena;
          there = h.there;
          few = omega (arith, h.few, length-append output.records (r ∷ []));
          used = omega (arith, h.used);
          room = h.room;
          stored =
              AllStored-append h.arena output.arena_entries groups output.records g r h.stored
                (refl, inl (alone members one));
        },
      )

  listed-Holds :
      (n key : ℕ) (members : List ℕ) (output : Output) (groups : List Group)
      → 1 ≤ length members
      → (ltb 1 (length members) || limits.count1_singletons) ≡ true
      → n + length members ≤ bound
      → Holds bound n output groups
      → GroupHolds n key members output groups
  unfolding write_compact_order_group append_compact_arena_positions_fixed
  listed-Holds n key members output groups some_one listed fits h =
      let entries = output.arena_entries in
      let word = (length members <<< 17) + entries in
      let r : Descriptor = record { key = key; packed = word } in
      let g : Group = record { key = key; members = members } in
      let arena = store_from h.arena entries members in
      let next : Output = record output {
        int_arena = some arena;
        arena_entries = entries + length members;
      } in
      let stored =
        write_arena_all-store_from limits.int_arena_cap entries h.arena members
          (omega (arith, h.used)) in
      let written = write_record-Succeeds limits next key word (omega (arith, h.few)) in
      (
        record next { records = output.records ++ r ∷ [] },
        groups ++ g ∷ [],
        ground (arith, listed, h.there, h.used, small, stored, written),
        refl,
        record {
          arena = arena;
          there = refl;
          few = omega (arith, h.few, length-append output.records (r ∷ []));
          used = omega (arith, h.used);
          room = omega (arith, h.room, length-store_from h.arena entries members);
          stored =
              AllStored-append arena (entries + length members) groups output.records g r
                (AllStored-store_from h.arena entries members groups output.records h.stored)
                (
                  refl,
                  inr (
                    entries,
                    some_one,
                    omega arith,
                    refl,
                    entries_from-store_here members entries h.arena (omega (arith, h.used, h.room)),
                  ),
                );
        },
      )

  pub group-Holds :
      (n key : ℕ) (members : List ℕ) (output : Output) (groups : List Group)
      → 1 ≤ length members
      → n + length members ≤ bound
      → Holds bound n output groups
      → GroupHolds n key members output groups
  group-Holds n key members output groups some_one fits h =
      elim (Bool-cases (ltb 1 (length members) || limits.count1_singletons)) [
        | inl listed ↦ listed-Holds n key members output groups some_one listed fits h
        | inr plain ↦ single-Holds n key members output groups (ground (arith, plain)) plain fits h
      ]
