-- ===== src/Backoff/Tests.antt =====
-- Waits of concrete runs.
use dirtybird_c_miner.Base.{◌≡◌, refl, true, false, List, [], ◌∷◌, All, replicate, leb, arith}
use dirtybird_c_miner.Backoff.{Attempt, refused, ended, waits, backoff_sleep}
use dirtybird_c_miner.Backoff.Laws.{
  InRange, Slept, doubling, waits-InRange, waits-refused, backoff_sleep-Slept,
}

-- Two refusals, a session without a job that lasted a second, and one with a job.
abbrev rounds : List Attempt
rounds = refused ∷ refused ∷ ended false 1000 ∷ ended true 5 ∷ refused ∷ []

wait_after_each : waits 1000 rounds ≡ 1000 ∷ 2000 ∷ 4000 ∷ 1000 ∷ 2000 ∷ []
unfolding waits
wait_after_each = refl

waits-InRange_example : All InRange (waits 1000 rounds)
waits-InRange_example = waits-InRange 1000 rounds (omega arith, omega arith)

seven_refusals : waits 1000 (replicate 7 refused) ≡ doubling 0 7
seven_refusals = waits-refused 7

backoff_sleep-Slept_example : Slept (λ n. leb 3 n) 2000 (backoff_sleep (λ n. leb 3 n) 2000)
backoff_sleep-Slept_example = backoff_sleep-Slept (λ n. leb 3 n) 2000
