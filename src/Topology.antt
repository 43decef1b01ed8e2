-- ===== src/Topology.antt =====
-- src/cpu_topology.cpp: the order in which mining threads are pinned to logical CPUs.
pub mod Bounds
pub mod Complete
mod Tests
use dirtybird_c_miner.Base.{
  ℕ, zero, suc, ◌+◌, ◌-◌, Bool, true, false, ◌||◌, List, [], ◌∷◌, ◌++◌, length, min, ltb, leb, ◌==◌,
  if◌then◌else◌, ℤ, pos, negsuc, int_eq,
}

-- `DlunaCoreInfo`. A CPU id below zero stands for none.
pub record DlunaCoreInfo : Type 0 where
  pub efficiency_class : ℤ
  pub primary_cpu : ℤ
  pub sibling_cpu : ℤ

-- `DlunaCpuOrder`: the valid entries of `order`, whose number is `count`.
pub record DlunaCpuOrder : Type 0 where
  pub order : List ℕ
  pub detected : Bool

abbrev pub is_negative : ℤ → Bool
is_negative (pos n) = false
is_negative (negsuc n) = true

-- Whether an id is 64 or above.
abbrev pub over_63 : ℤ → Bool
over_63 (pos n) = leb 64 n
over_63 (negsuc n) = false

-- `0, 1, … n - 1`.
abbrev pub count_to : ℕ → List ℕ
count_to zero = []
count_to (suc n) = count_to n ++ n ∷ []

unfoldable pub identity : ℤ → DlunaCpuOrder
identity (pos n) = record { order = count_to (min n 64); detected = false }
identity (negsuc n) = record { order = []; detected = false }

unfoldable pub usable : DlunaCoreInfo → Bool
usable core =
    if is_negative core.primary_cpu || over_63 core.primary_cpu || over_63 core.sibling_cpu
    then false
    else true

unfoldable pub all_usable : List DlunaCoreInfo → Bool
all_usable [] = true
all_usable (core ∷ cores) = if usable core then all_usable cores else false

abbrev pub higher : ℕ → ℤ → ℕ
higher m (pos n) = if ltb m n then n else m
higher m (negsuc n) = m

-- The largest class of the cores; no class below 0 counts.
unfoldable pub max_class : ℕ → List DlunaCoreInfo → ℕ
max_class best [] = best
max_class best (core ∷ cores) = max_class (higher best core.efficiency_class) cores

unfoldable pub push : List ℕ → ℤ → List ℕ
push order (negsuc n) = order
push order (pos cpu) = if ltb (length order) 64 then order ++ cpu ∷ [] else order

-- One loop over the cores of a class, with the id that it pushes.
unfoldable pub push_class : (DlunaCoreInfo → ℤ) → ℕ → List DlunaCoreInfo → List ℕ → List ℕ
push_class cpu cls [] order = order
push_class cpu cls (core ∷ cores) order =
    push_class cpu cls cores
      (if int_eq core.efficiency_class (pos cls) then push order (cpu core) else order)

-- The classes below `cls`, best first.
unfoldable pub push_lower : ℕ → List DlunaCoreInfo → List ℕ → List ℕ
push_lower zero cores order = order
push_lower (suc cls) cores order =
    push_lower cls cores
      (push_class (λ c. c.sibling_cpu) cls cores (push_class (λ c. c.primary_cpu) cls cores order))

unfoldable pub tiers_of : List DlunaCoreInfo → List ℕ
tiers_of cores =
    let best = max_class 0 cores in
    push_class (λ c. c.sibling_cpu) best cores
      (push_lower best cores (push_class (λ c. c.primary_cpu) best cores []))

-- The order that the three tiers gave, unless it is empty.
unfoldable pub or_identity : List ℕ → ℤ → DlunaCpuOrder
or_identity [] nlogical = identity nlogical
or_identity (cpu ∷ rest) nlogical = record { order = cpu ∷ rest; detected = true }

-- An empty list stands for a null pointer or no cores, too.
unfoldable pub pin_order_from_cores : List DlunaCoreInfo → ℤ → DlunaCpuOrder
pin_order_from_cores [] nlogical = identity nlogical
pin_order_from_cores (core ∷ cores) nlogical =
    if all_usable (core ∷ cores)
    then or_identity (tiers_of (core ∷ cores)) nlogical
    else identity nlogical
