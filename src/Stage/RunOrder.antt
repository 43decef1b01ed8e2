-- ===== src/Stage/RunOrder.antt =====
-- The radix sorts put the runs in the order of their keys, and runs with one key stay in order.
use mathlib.Core.List.{Perm}
use mathlib.Core.List.Perm
use dirtybird_c_miner.Base.{
  ℕ, zero, suc, ◌+◌, ◌*◌, ◌/◌, ◌%◌, ◌^◌, ◌-◌, ◌≤◌, ◌<◌, ◌≡◌, refl, sym, ap, ap₂, ◌∙◌, subst, List,
  [], ◌∷◌, length, All-of, length-append, length-replicate, take, replicate, bit_and, bit_or,
  bit_or_shifted, bit_and_4095, bit_and_255, bit_and_256_times, ◌⊎◌, inl, inr, length-Perm, leb,
  Bool-cases, arith, ◌>>>◌, min,
}
use dirtybird_c_miner.Radix.{count_all, prefix_sums, scatter, counting_pass}
use dirtybird_c_miner.Radix.Gather.{
  gather, gather-Perm, gather-Refined, Pairwise, Pairwise-map, Refined,
}
use dirtybird_c_miner.Radix.Pass.{counting_pass_lem, scatter-gather}
use dirtybird_c_miner.Stage.Runs.{Stage5Run, stage5_radix_order_key}
use dirtybird_c_miner.Stage.RunSort.{
  resize_runs, pass_bucket, radix_pass, radix_sort_runs_by_key, key_byte, scatter_by_four,
  radix_sort_runs_by_stored_key,
}

-- The order key has the three bytes of the key in reverse.
pub stage5_radix_order_key_lem :
    (key : ℕ)
    → stage5_radix_order_key key ≡ key % 256 * 65536 + key / 256 % 256 * 256 + key / 65536 % 256
unfolding stage5_radix_order_key
stage5_radix_order_key_lem key =
    let low = bit_and_255 key in
    let mid = bit_and_256_times key 255 in
    let mid_low = bit_and_255 (key / 256) in
    let high = bit_and_256_times key 65280 in
    let high' = bit_and_256_times (key / 256) 255 in
    let top = bit_and_255 (key / 256 / 256) in
    let l = key % 256 in
    let m = key / 256 % 256 in
    let h = key / 65536 % 256 in
    let mid_eq : bit_and key 65280 ≡ m * 2 ^ 8 = omega arith in
    let high_eq : bit_and key 16711680 / 2 ^ 16 ≡ h = omega arith in
    let two : bit_or (l * 2 ^ 16) (m * 2 ^ 8) ≡ (l * 256 + m) * 2 ^ 8 =
      bit_or_shifted 16 l (m * 2 ^ 8) (omega arith) ∙ (omega arith) in
    ap₂ bit_or (ap₂ bit_or (ap (λ (t : ℕ). t * 2 ^ 16) low) mid_eq ∙ two) high_eq
    ∙ bit_or_shifted 8 (l * 256 + m) h (omega arith)
    ∙ (omega arith)

length-take-min : (n : ℕ) (runs : List Stage5Run) → length (take n runs) ≡ min n (length runs)
length-take-min zero runs = omega arith
length-take-min (suc n) [] = omega arith
length-take-min (suc n) (run ∷ runs) = omega (arith, length-take-min n runs)

length-resize_runs : (n : ℕ) (runs : List Stage5Run) → length (resize_runs n runs) ≡ n
unfolding resize_runs
length-resize_runs n runs =
    let blank : Stage5Run = record { key = 0; packed = 0 } in
    let missing = n - length runs in
    omega (
      arith,
      length-append (take n runs) (replicate missing blank),
      length-replicate {A = Stage5Run} missing blank,
      length-take-min n runs,
    )

-- The order by a number read from a run, and where that is equal an earlier order.
abbrev pub By : (Stage5Run → ℕ) → (Stage5Run → Stage5Run → Type 0) → Stage5Run → Stage5Run → Type 0
By number before r s = (number r < number s) ⊎ ((number r ≡ number s) × before r s)

abbrev pub ordered_key : Stage5Run → ℕ
ordered_key run = stage5_radix_order_key run.key

pass_bucket_lem :
    (pass : ℕ) (run : Stage5Run)
    → pass_bucket pass run ≡ stage5_radix_order_key run.key / 2 ^ (pass * 12) % 4096
unfolding pass_bucket
pass_bucket_lem pass run = bit_and_4095 (stage5_radix_order_key run.key >>> (pass * 12))

pass_bucket_lt : (pass : ℕ) (run : Stage5Run) → pass_bucket pass run < 4096
pass_bucket_lt pass run = omega (arith, pass_bucket_lem pass run)

module _ (before : Stage5Run → Stage5Run → Type 0) where
  -- The order that two stable passes leave.
  abbrev TwoPasses : Stage5Run → Stage5Run → Type 0
  TwoPasses = Refined (pass_bucket 1) (Refined (pass_bucket 0) before)

  TwoPasses-By : (r s : Stage5Run) → TwoPasses r s → By ordered_key before r s
  TwoPasses-By r s h =
      let kr = stage5_radix_order_key_lem r.key in
      let ks = stage5_radix_order_key_lem s.key in
      let low_r = pass_bucket_lem 0 r in
      let low_s = pass_bucket_lem 0 s in
      let high_r = pass_bucket_lem 1 r in
      let high_s = pass_bucket_lem 1 s in
      elim h [
        | inl below ↦ inl (omega arith)
        | inr same ↦ elim same.1 [
          | inl below ↦ inl (omega (arith, same.0))
          | inr both ↦ inr (omega (arith, same.0, both.0), both.1)
        ]
      ]

  -- Two passes over 12 bits each put the runs in the order of the keys' bytes, the first byte first,
  -- each run as often as before, whatever the scratch vector held and however long it was. Runs
  -- with the same key bytes keep every relation that each earlier one had to the later ones.
  pub radix_sort_runs_by_key_lem :
      (runs tmp : List Stage5Run)
      → Pairwise before runs
      → Pairwise (By ordered_key before) (radix_sort_runs_by_key runs tmp).0
        × Perm (radix_sort_runs_by_key runs tmp).0 runs
  unfolding radix_sort_runs_by_key radix_pass
  radix_sort_runs_by_key_lem runs tmp h =
      let first = gather (pass_bucket 0) 0 4096 runs in
      let second = gather (pass_bucket 1) 0 4096 first in
      let small = λ (pass : ℕ) (rs : List Stage5Run).
        All-of {P = λ r. pass_bucket pass r < 4096} (pass_bucket_lt pass) rs in
      let perm : Perm first runs = gather-Perm (pass_bucket 0) 4096 runs (small 0 runs) in
      let perm' : Perm second first = gather-Perm (pass_bucket 1) 4096 first (small 1 first) in
      let first_eq =
        counting_pass_lem (pass_bucket 0) 4096 (resize_runs (length runs) tmp) runs (small 0 runs)
          (length-resize_runs (length runs) tmp) in
      let second_eq =
        ap (λ rs. counting_pass (pass_bucket 1) 4096 runs rs) first_eq
        ∙ counting_pass_lem (pass_bucket 1) 4096 runs first (small 1 first)
            (sym (length-Perm perm)) in
      let passes =
        gather-Refined (pass_bucket 1) (Refined (pass_bucket 0) before) 0 4096 first
          (gather-Refined (pass_bucket 0) before 0 4096 runs h) in
      subst (λ rs. Pairwise (By ordered_key before) rs × Perm rs runs) (sym second_eq)
        (
          Pairwise-map TwoPasses (By ordered_key before) second TwoPasses-By passes,
          Perm.trans perm' perm,
        )

key_byte_lem : (i : ℕ) (run : Stage5Run) → key_byte i run ≡ run.key / 2 ^ (i * 8) % 256
unfolding key_byte
key_byte_lem i run = bit_and_255 (run.key >>> (i * 8))

scatter_by_four_lem :
    (bucket : Stage5Run → ℕ) (runs : List Stage5Run) (counts : List ℕ) (tmp : List Stage5Run)
    → scatter_by_four bucket counts tmp runs ≡ scatter bucket counts tmp runs
unfolding scatter_by_four scatter
scatter_by_four_lem bucket [] counts tmp = refl
scatter_by_four_lem bucket (r0 ∷ []) counts tmp = refl
scatter_by_four_lem bucket (r0 ∷ r1 ∷ []) counts tmp = refl
scatter_by_four_lem bucket (r0 ∷ r1 ∷ r2 ∷ []) counts tmp = refl
scatter_by_four_lem bucket (r0 ∷ r1 ∷ r2 ∷ r3 ∷ runs) counts tmp =
    scatter_by_four_lem bucket runs _ _

-- The low 24 bits of the key.
abbrev pub low_key : Stage5Run → ℕ
low_key run = run.key % 2 ^ 24

module _ (before : Stage5Run → Stage5Run → Type 0) where
  abbrev ThreePasses : Stage5Run → Stage5Run → Type 0
  ThreePasses = Refined (key_byte 2) (Refined (key_byte 1) (Refined (key_byte 0) before))

  ThreePasses-By : (r s : Stage5Run) → ThreePasses r s → By low_key before r s
  ThreePasses-By r s h =
      let r0 = key_byte_lem 0 r in
      let s0 = key_byte_lem 0 s in
      let r1 = key_byte_lem 1 r in
      let s1 = key_byte_lem 1 s in
      let r2 = key_byte_lem 2 r in
      let s2 = key_byte_lem 2 s in
      elim h [
        | inl below ↦ inl (omega arith)
        | inr top ↦ elim top.1 [
          | inl below ↦ inl (omega (arith, top.0))
          | inr mid ↦ elim mid.1 [
            | inl below ↦ inl (omega (arith, top.0, mid.0))
            | inr low ↦ inr (omega (arith, top.0, mid.0, low.0), low.1)
          ]
        ]
      ]

  abbrev IsStored : List Stage5Run → List Stage5Run → Type 0
  IsStored runs out = Pairwise (By low_key before) out × Perm out runs

  stored_step :
      (i : ℕ) (counted tmp runs : List Stage5Run)
      → Perm counted runs
      → length tmp ≡ length runs
      → scatter_by_four
          (key_byte i)
          (prefix_sums 0 (count_all (key_byte i) (replicate 256 0) counted))
          tmp
          runs
        ≡ gather (key_byte i) 0 256 runs
  stored_step i counted tmp runs perm same =
      scatter_by_four_lem (key_byte i) runs _ tmp
      ∙ scatter-gather (key_byte i) 256 tmp counted runs perm
          (All-of {P = λ r. key_byte i r < 256} (λ r. omega (arith, key_byte_lem i r)) runs) same

  short :
      (runs : List Stage5Run)
      → length runs ≤ 1
      → Pairwise before runs
      → Pairwise (By low_key before) runs
  short [] few h = tt
  short (run ∷ []) few h = (tt, tt)
  short (run ∷ next ∷ runs) few h = absurd (omega arith)

  -- Three passes over the bytes of the stored keys, with all counts taken before the first one, put
  -- the runs in the order of the low 24 bits of their keys, each run as often as before, whatever
  -- the scratch vector held. Runs with the same low 24 bits keep every relation that each earlier
  -- one had to the later ones.
  pub radix_sort_runs_by_stored_key_lem :
      (runs tmp : List Stage5Run)
      → Pairwise before runs
      → Pairwise (By low_key before) (radix_sort_runs_by_stored_key runs tmp).0
        × Perm (radix_sort_runs_by_stored_key runs tmp).0 runs
  unfolding radix_sort_runs_by_stored_key
  radix_sort_runs_by_stored_key_lem runs tmp h = elim (Bool-cases (leb (length runs) 1)) [
    | inl few ↦ rw few (short runs (ground (arith, few)) h, Perm.rfl)
    | inr many ↦
        let small = λ (i : ℕ) (rs : List Stage5Run).
          All-of {P = λ r. key_byte i r < 256} (λ r. omega (arith, key_byte_lem i r)) rs in
        let g0 = gather (key_byte 0) 0 256 runs in
        let g1 = gather (key_byte 1) 0 256 g0 in
        let g2 = gather (key_byte 2) 0 256 g1 in
        let p0 : Perm g0 runs = gather-Perm (key_byte 0) 256 runs (small 0 runs) in
        let p1 : Perm g1 runs = Perm.trans (gather-Perm (key_byte 1) 256 g0 (small 1 g0)) p0 in
        let p2 : Perm g2 runs = Perm.trans (gather-Perm (key_byte 2) 256 g1 (small 2 g1)) p1 in
        let counts = λ (i : ℕ). prefix_sums 0 (count_all (key_byte i) (replicate 256 0) runs) in
        let e0 =
          stored_step 0 runs (resize_runs (length runs) tmp) runs Perm.rfl
            (length-resize_runs (length runs) tmp) in
        let e1 =
          ap (scatter_by_four (key_byte 1) (counts 1) runs) e0
          ∙ stored_step 1 runs runs g0 (Perm.symm p0) (sym (length-Perm p0)) in
        let e2 =
          ap₂ (scatter_by_four (key_byte 2) (counts 2)) e0 e1
          ∙ stored_step 2 runs g0 g1 (Perm.symm p1) (length-Perm p0 ∙ sym (length-Perm p1)) in
        let passes =
          gather-Refined (key_byte 2) (Refined (key_byte 1) (Refined (key_byte 0) before)) 0 256 g1
            (gather-Refined (key_byte 1) (Refined (key_byte 0) before) 0 256 g0
              (gather-Refined (key_byte 0) before 0 256 runs h)) in
        rw many (
          subst (IsStored runs) (sym e2)
            (Pairwise-map ThreePasses (By low_key before) g2 ThreePasses-By passes, p2))
  ]
