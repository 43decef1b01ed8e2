-- ===== src/Backoff/Laws.antt =====
-- The bounds on the waits, and what `backoff_sleep` sleeps.
use native.Mathlib.Nat.{pow-suc}
use dirtybird_c_miner.Base.{
  ℕ, zero, suc, ◌+◌, ◌-◌, ◌*◌, ◌^◌, ◌≤◌, ◌<◌, ◌≡◌, ◌⊎◌, inl, inr, refl, ap, ◌∙◌, Bool, true, false,
  ◌||◌, List, [], ◌∷◌, min, ltb, leb, ◌==◌, if◌then◌else◌, replicate, length, ==_iff, All, total,
  Bool-cases, arith,
}
use dirtybird_c_miner.Backoff.{
  min_uptime_ms, Attempt, refused, ended, wait_ms, next_backoff, waits, sleep_loop, backoff_sleep,
}

abbrev pub InRange : ℕ → Type 0
InRange ms = (1000 ≤ ms) × (ms ≤ 30000)

wait_ms-InRange : (b : ℕ) (a : Attempt) → InRange b → InRange (wait_ms b a)
wait_ms-InRange b refused h = h
wait_ms-InRange b (ended got_job uptime) h =
    elim (Bool-cases (got_job || leb min_uptime_ms uptime)) [
      | inl useful ↦ rw useful (omega arith, omega arith)
      | inr useless ↦ rw useless h
    ]

-- Whatever the connections do, each wait is between one second and thirty.
pub waits-InRange : (b : ℕ) (attempts : List Attempt) → InRange b → All InRange (waits b attempts)
unfolding waits
waits-InRange b [] h = tt
waits-InRange b (a ∷ rest) h =
    let now = wait_ms-InRange b a h in
    (now, waits-InRange (next_backoff b a) rest (omega (arith, now.0), omega arith))

-- `min (1000 * 2 ^ k) 30000` for `n` values of `k` in a row.
abbrev pub doubling : ℕ → ℕ → List ℕ
doubling k zero = []
doubling k (suc n) = min (1000 * 2 ^ k) 30000 ∷ doubling (suc k) n

waits-refused_from :
    (k n : ℕ) → waits (min (1000 * 2 ^ k) 30000) (replicate n refused) ≡ doubling k n
unfolding waits
waits-refused_from k zero = refl
waits-refused_from k (suc n) =
    ap (λ l. min (1000 * 2 ^ k) 30000 ∷ l)
      (ap (λ b. waits b (replicate n refused)) (omega (arith, pow-suc 2 k))
        ∙ waits-refused_from (suc k) n)

-- Slices of a quarter of a second at most, the tests from number `n` on that came before each of
-- them finding the flag `quit` down, that make up the whole time, or less where the next test finds
-- it up.
abbrev pub SleptFrom : (ℕ → Bool) → ℕ → ℕ → List ℕ → Type 0
SleptFrom quit n ms slices =
    All (λ slice. slice ≤ 250) slices
    × ((i : ℕ) → n ≤ i → i < n + length slices → quit i ≡ false)
    × ((total (λ s. s) slices ≡ ms)
        ⊎ ((total (λ s. s) slices < ms) × (quit (n + length slices) ≡ true)))

abbrev pub Slept : (ℕ → Bool) → ℕ → List ℕ → Type 0
Slept quit ms slices = SleptFrom quit 0 ms slices

zero_of : (ms : ℕ) → (ms == 0) ≡ true → 0 ≡ ms
zero_of ms h = ground arith

positive : (ms : ℕ) → (ms == 0) ≡ false → 0 < ms
positive ms h = ground arith

slice_lem :
    (ms : ℕ) → 0 < ms → let s = if ltb ms 250 then ms else 250 in (s ≤ 250) × (0 < s) × (s ≤ ms)
slice_lem ms h = ground arith

next_test : (n : ℕ) (rest : List ℕ) → n + suc (length rest) ≡ n + 1 + length rest
next_test n rest = omega arith

first_test :
    (quit : ℕ → Bool) (n : ℕ) (rest : List ℕ)
    → quit n ≡ false
    → ((i : ℕ) → n + 1 ≤ i → i < n + 1 + length rest → quit i ≡ false)
    → (i : ℕ) → n ≤ i
    → i < n + suc (length rest)
    → quit i ≡ false
first_test quit n rest down later i low high = elim (Bool-cases (i == n)) [
  | inl e ↦ ap quit ((==_iff i n).0 e) ∙ down
  | inr e ↦ let apart : n + 1 ≤ i = ground (arith, e, low) in later i apart (omega arith)
]

sleep_loop-Slept :
    (quit : ℕ → Bool) (n fuel ms : ℕ) → ms ≤ fuel → SleptFrom quit n ms (sleep_loop quit n fuel ms)
unfolding sleep_loop
sleep_loop-Slept quit n zero ms h =
    (tt, (λ i low high. absurd (omega arith)), inl (omega (arith, h)))
sleep_loop-Slept quit n (suc fuel) ms h = elim (Bool-cases (ms == 0)) [
  | inl none ↦ rw none (tt, (λ i low high. absurd (omega arith)), inl (zero_of ms none))
  | inr some ↦ elim (Bool-cases (quit n)) [
    | inl stop ↦
        let here : n + 0 ≡ n = omega arith in
        rw (some, stop)
          (tt, (λ i low high. absurd (omega arith)), inr (positive ms some, ap quit here ∙ stop))
    | inr go ↦
        let s = if ltb ms 250 then ms else 250 in
        let rest = sleep_loop quit (n + 1) fuel (ms - s) in
        let (small, least, fits) = slice_lem ms (positive ms some) in
        let (slices, tested, slept) =
          sleep_loop-Slept quit (n + 1) fuel (ms - s) (omega (arith, h, least)) in
        rw (some, go)
          (
            (small, slices),
            first_test quit n rest go tested,
            elim slept [
              | inl whole ↦ inl (omega (arith, whole, fits))
              | inr (less, stop) ↦
                  inr (omega (arith, less, fits), ap quit (next_test n rest) ∙ stop)
            ],
          )
  ]
]

-- `backoff_sleep` tests the flag `quit` before each slice, and returns after slices of at most 250
-- milliseconds before each of which the test found the flag down. They add up to the time asked for,
-- or to less, and then the next test found the flag up.
pub backoff_sleep-Slept : (quit : ℕ → Bool) (ms : ℕ) → Slept quit ms (backoff_sleep quit ms)
unfolding backoff_sleep
backoff_sleep-Slept quit ms = sleep_loop-Slept quit 0 ms ms (omega arith)

-- While all connections are refused, the wait behind the refusal number `k`, counted from 0, is
-- 1000 * 2 ^ k milliseconds, and 30000 from where that exceeds it.
pub waits-refused : (n : ℕ) → waits 1000 (replicate n refused) ≡ doubling 0 n
waits-refused n = waits-refused_from 0 n
