-- ===== src/Backoff.antt =====
-- src/network.cpp: the waits between connections, in `network_thread` and `backoff_sleep`.
pub mod Laws
mod Tests
use dirtybird_c_miner.Base.{
  ℕ, zero, suc, ◌+◌, ◌-◌, ◌*◌, Bool, true, false, ◌||◌, List, [], ◌∷◌, min, ltb, leb, ◌==◌,
  if◌then◌else◌,
}

abbrev pub max_backoff : ℕ
max_backoff = 30000

abbrev pub min_uptime_ms : ℕ
min_uptime_ms = 10000

-- One round of the outer loop: `ws_connect` failed, or a session ended after `uptime` milliseconds.
pub data Attempt : Type 0 where
  refused : Attempt
  ended : Bool → ℕ → Attempt

-- The wait behind a round that started with `backoff_ms`.
abbrev pub wait_ms : ℕ → Attempt → ℕ
wait_ms backoff_ms refused = backoff_ms
wait_ms backoff_ms (ended got_job uptime_ms) =
    if got_job || leb min_uptime_ms uptime_ms then 1000 else backoff_ms

-- `backoff_ms` behind it.
abbrev pub next_backoff : ℕ → Attempt → ℕ
next_backoff backoff_ms a = min (wait_ms backoff_ms a * 2) max_backoff

-- The waits of a run of rounds.
unfoldable pub waits : ℕ → List Attempt → List ℕ
waits backoff_ms [] = []
waits backoff_ms (a ∷ rest) = wait_ms backoff_ms a ∷ waits (next_backoff backoff_ms a) rest

-- The slices that `backoff_sleep` sleeps. `quit n` is what the test number `n` of `G.quit` finds.
unfoldable pub sleep_loop : (ℕ → Bool) → ℕ → ℕ → ℕ → List ℕ
sleep_loop quit n zero ms = []
sleep_loop quit n (suc fuel) ms =
    let slice = if ltb ms 250 then ms else 250 in
    let rest = sleep_loop quit (n + 1) fuel (ms - slice) in
    if ms == 0 then [] else if quit n then [] else slice ∷ rest

-- Each slice is at least a millisecond.
unfoldable pub backoff_sleep : (ℕ → Bool) → ℕ → List ℕ
backoff_sleep quit ms = sleep_loop quit 0 ms ms
