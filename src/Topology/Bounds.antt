-- ===== src/Topology/Bounds.antt =====
-- Every entry of the order is an id that a 64-bit affinity mask can express.
use dirtybird_c_miner.Base.{
  ℕ, zero, suc, ◌≤◌, ◌<◌, ◌≡◌, refl, true, false, List, [], ◌∷◌, length, length-append, min, All,
  All-append, ltb, ltb→lt, inl, inr, Bool-cases, ℤ, pos, negsuc, int_eq, arith,
}
use dirtybird_c_miner.Topology.{
  DlunaCoreInfo, over_63, count_to, identity, usable, all_usable, max_class, push, push_class,
  push_lower, tiers_of, or_identity, pin_order_from_cores,
}

-- At most 64 entries, each below 64.
abbrev pub Expressible : List ℕ → Type 0
Expressible order = (length order ≤ 64) × All (λ cpu. cpu < 64) order

abbrev Small : ℤ → Type 0
Small (pos cpu) = cpu < 64
Small (negsuc n) = Unit

push-Expressible :
    (order : List ℕ) (cpu : ℤ) → Small cpu → Expressible order → Expressible (push order cpu)
unfolding push
push-Expressible order (negsuc n) small h = h
push-Expressible order (pos cpu) small h = elim (Bool-cases (ltb (length order) 64)) [
  | inl room ↦ rw room (
    omega (arith, length-append order (cpu ∷ []), ltb→lt _ _ room),
    All-append (λ c. c < 64) order (cpu ∷ []) h.1 (small, tt),
  )
  | inr full ↦ rw full h
]

push_class-Expressible :
    (cpu : DlunaCoreInfo → ℤ) (cls : ℕ) (cores : List DlunaCoreInfo) (order : List ℕ)
    → All (λ c. Small (cpu c)) cores
    → Expressible order
    → Expressible (push_class cpu cls cores order)
unfolding push_class
push_class-Expressible cpu cls [] order small h = h
push_class-Expressible cpu cls (core ∷ cores) order small h =
    elim (Bool-cases (int_eq core.efficiency_class (pos cls))) [
      | inl here ↦ rw here (
          push_class-Expressible cpu cls cores (push order (cpu core)) small.1
            (push-Expressible order (cpu core) small.0 h))
      | inr other ↦ rw other (push_class-Expressible cpu cls cores order small.1 h)
    ]

push_lower-Expressible :
    (cls : ℕ) (cores : List DlunaCoreInfo) (order : List ℕ)
    → All (λ c. Small c.primary_cpu) cores
    → All (λ c. Small c.sibling_cpu) cores
    → Expressible order
    → Expressible (push_lower cls cores order)
unfolding push_lower
push_lower-Expressible zero cores order p q h = h
push_lower-Expressible (suc cls) cores order p q h =
    push_lower-Expressible cls cores
      (push_class (λ c. c.sibling_cpu) cls cores (push_class (λ c. c.primary_cpu) cls cores order))
      p q
      (push_class-Expressible (λ c. c.sibling_cpu) cls cores _ q
        (push_class-Expressible (λ c. c.primary_cpu) cls cores order p h))

over_63-Small : (cpu : ℤ) → over_63 cpu ≡ false → Small cpu
over_63-Small (pos n) h = ground arith
over_63-Small (negsuc n) h = tt

usable-Small :
    (core : DlunaCoreInfo) → usable core ≡ true → Small core.primary_cpu × Small core.sibling_cpu
unfolding usable
usable-Small core h =
    (over_63-Small core.primary_cpu (ground arith), over_63-Small core.sibling_cpu (ground arith))

all_usable-Small :
    (cores : List DlunaCoreInfo)
    → all_usable cores ≡ true
    → All (λ c. Small c.primary_cpu) cores × All (λ c. Small c.sibling_cpu) cores
unfolding all_usable
all_usable-Small [] h = (tt, tt)
all_usable-Small (core ∷ cores) h =
    let this = usable-Small core (ground arith) in
    let rest = all_usable-Small cores (ground arith) in ((this.0, rest.0), (this.1, rest.1))

count_to-Expressible : (n : ℕ) → n ≤ 64 → Expressible (count_to n) × (length (count_to n) ≡ n)
count_to-Expressible zero h = ((omega arith, tt), refl)
count_to-Expressible (suc n) h =
    let (ok, len) = count_to-Expressible n (omega arith) in
    let more = length-append (count_to n) (n ∷ []) in
    (
      (
        omega (arith, more, len),
        All-append (λ c. c < 64) (count_to n) (n ∷ []) ok.1 (omega arith, tt),
      ),
      omega (arith, more, len),
    )

identity-Expressible : (nlogical : ℤ) → Expressible (identity nlogical).order
unfolding identity
identity-Expressible (pos n) = (count_to-Expressible (min n 64) (omega arith)).0
identity-Expressible (negsuc n) = (omega arith, tt)

pub tiers_of-Expressible :
    (cores : List DlunaCoreInfo) → all_usable cores ≡ true → Expressible (tiers_of cores)
unfolding tiers_of
tiers_of-Expressible cores h =
    let (p, q) = all_usable-Small cores h in
    push_class-Expressible (λ c. c.sibling_cpu) (max_class 0 cores) cores _ q
      (push_lower-Expressible (max_class 0 cores) cores _ p q (
        push_class-Expressible (λ c. c.primary_cpu) (max_class 0 cores) cores [] p
          (omega arith, tt)))

or_identity-Expressible :
    (order : List ℕ) (nlogical : ℤ)
    → Expressible order
    → Expressible (or_identity order nlogical).order
unfolding or_identity
or_identity-Expressible [] nlogical h = identity-Expressible nlogical
or_identity-Expressible (cpu ∷ rest) nlogical h = h

-- Whatever the detection reports and whatever number of logical CPUs is given, the order has at most
-- 64 entries, and each fits a 64-bit affinity mask.
pub pin_order_from_cores-Expressible :
    (cores : List DlunaCoreInfo) (nlogical : ℤ)
    → Expressible (pin_order_from_cores cores nlogical).order
unfolding pin_order_from_cores
pin_order_from_cores-Expressible [] nlogical = identity-Expressible nlogical
pin_order_from_cores-Expressible (core ∷ cores) nlogical =
    elim (Bool-cases (all_usable (core ∷ cores))) [
      | inr bad ↦ rw bad (identity-Expressible nlogical)
      | inl good ↦
          rw good (or_identity-Expressible _ nlogical (tiers_of-Expressible (core ∷ cores) good))
    ]
