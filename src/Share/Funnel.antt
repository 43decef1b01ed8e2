-- ===== src/Share/Funnel.antt =====
-- Where every found share is, at every point of every schedule.
use dirtybird_c_miner.Base.{
  ℕ, suc, ap, ◌+◌, ◌-◌, ◌%◌, ◌^◌, ◌≤◌, ◌≡◌, ◌↔◌, refl, subst, Bool, length, set, total, total-set,
  total-replicate, weight-le-total, arith,
}
use dirtybird_c_miner.State.{MinerState}
use dirtybird_c_miner.Job.Laws.{handle_job-SameShares}
use dirtybird_c_miner.Share.{count_found}
use dirtybird_c_miner.Share.Balance.{
  Balance, count_found-Balance, stale_gate-Balance, submit_enqueue-Balance, discard_queue-Balance,
}
use dirtybird_c_miner.Share.System.{
  Worker, starting, mining, Network, swapped, sending, System, Move, first_snapshot, snapshot, find,
  drop_first, pass_first, lock, drop_second, pass_second, push, NetMove, dial, connect, job,
  discard, swap, load, skip, send, send_failed, drained, read_failed, hang_up, Step, work, network,
  Reach, here, next,
}

-- A share that a worker has counted as found and not yet dropped or queued.
abbrev pub in_flight : Worker → ℕ
in_flight starting = 0
in_flight (mining s) = 0
in_flight w = 1

-- The shares that the network thread has taken from the queue.
abbrev pub held : Network → ℕ
held (swapped batch) = length batch
held (sending batch cur) = length batch
held net = 0

abbrev pub unsettled : System → ℕ
unsettled s = total in_flight s.workers + held s.net + s.abandoned

recount : (st : MinerState) (k j : ℕ) → k ≡ j → Balance k st → Balance j st
recount st k j e h = subst (λ n. Balance n st) e h

Move-Balance :
    {st st' : MinerState} {free free' : Bool} {w w' : Worker} (k : ℕ)
    → Move st free w st' free' w'
    → Balance (in_flight w + k) st
    → Balance (in_flight w' + k) st'
Move-Balance k first_snapshot h = h
Move-Balance k snapshot h = h
Move-Balance {st} k (find blob) h =
    recount (count_found st) (suc (0 + k)) (1 + k) (omega arith) (count_found-Balance (0 + k) st h)
Move-Balance {st} k (drop_first {s = s} e) h =
    stale_gate-Balance (0 + k) s.epoch st e (recount st (1 + k) (suc (0 + k)) (omega arith) h)
Move-Balance k (pass_first e) h = h
Move-Balance k lock h = h
Move-Balance {st} k (drop_second {s = s} e) h =
    stale_gate-Balance (0 + k) s.epoch st e (recount st (1 + k) (suc (0 + k)) (omega arith) h)
Move-Balance k (pass_second e) h = h
Move-Balance {st} k (push {s = s} {hex = hex}) h =
    submit_enqueue-Balance (0 + k) st s.job_id hex s.epoch
      (recount st (1 + k) (suc (0 + k)) (omega arith) h)

NetMove-Balance :
    {st : MinerState} {free has_job : Bool} {net : Network} {st' : MinerState} {has_job' : Bool}
    {net' : Network} {a : ℕ} (k : ℕ)
    → NetMove st free has_job net st' has_job' net' a
    → Balance (held net + k) st
    → Balance (held net' + (k + a)) st'
NetMove-Balance {st} k dial h = omega (arith, discard_queue-Balance (0 + k) st h)
NetMove-Balance {st} k connect h = omega (arith, discard_queue-Balance (0 + k) st h)
NetMove-Balance {st} k (job {has_job = has_job} json) h =
    let same = handle_job-SameShares json st has_job in
    omega (
      arith,
      ap length same.submit_queue,
      same.found,
      same.stale_drops,
      same.submit_drops,
      same.submitted,
      same.send_fails,
    )
NetMove-Balance {st} k discard h = omega (arith, discard_queue-Balance (0 + k) st h)
NetMove-Balance k swap h = omega arith
NetMove-Balance k load h = omega arith
NetMove-Balance k (skip e) h = omega arith
NetMove-Balance k (send e) h = omega arith
NetMove-Balance k (send_failed e) h = omega arith
NetMove-Balance k drained h = omega arith
NetMove-Balance k read_failed h = omega arith
NetMove-Balance {st} k hang_up h = omega (arith, discard_queue-Balance (0 + k) st h)

Step-Balance : {s t : System} → Step s t → Balance (unsettled s) s.st → Balance (unsettled t) t.st
Step-Balance {s} (work i {w = w} {w' = w'} {st' = st'} at m) h =
    recount st' (in_flight w' + others) _ (omega (arith, moved, enough))
      (Move-Balance others m (recount s.st _ (in_flight w + others) (omega (arith, enough)) h))
  where
    others : ℕ
    others = total in_flight s.workers - in_flight w + held s.net + s.abandoned

    moved :
        total in_flight (set s.workers i w') + in_flight w
        ≡ total in_flight s.workers + in_flight w'
    moved = total-set in_flight s.workers i w' at

    enough : in_flight w ≤ total in_flight s.workers
    enough = weight-le-total in_flight s.workers i at
Step-Balance {s} (network {st' = st'} m) h =
    recount st' _ _ (omega arith)
      (NetMove-Balance others m (recount s.st _ (held s.net + others) (omega arith) h))
  where
    others : ℕ
    others = total in_flight s.workers + s.abandoned

-- In every state that some schedule of the workers and the network thread leads to, each share
-- counted as found is settled in a counter, queued, in a worker's hands, in the batch that the
-- network thread took, or was abandoned behind a failed send.
pub Reach-Balance : {threads n : ℕ} {s : System} → Reach threads n s → Balance (unsettled s) s.st
Reach-Balance {threads} here = omega (arith, total-replicate in_flight threads starting refl)
Reach-Balance (next r step) = Step-Balance step (Reach-Balance r)

-- Once no share is on its way, the counters add up to the number of finds exactly when no share
-- was ever abandoned (all modulo 2 ^ 64). Shares behind a failed send break the identity.
pub funnel_identity_iff :
    {threads n : ℕ} {s : System}
    → Reach threads n s
    → total in_flight s.workers ≡ 0
    → held s.net ≡ 0
    → length s.st.submit_queue ≡ 0
    → (s.st.found % 2 ^ 64
        ≡ (s.st.stale_drops + s.st.submit_drops + s.st.submitted + s.st.send_fails) % 2 ^ 64)
      ↔ (s.abandoned % 2 ^ 64 ≡ 0)
funnel_identity_iff r none_flying none_held none_queued =
    (λ p. omega (arith, Reach-Balance r), λ p. omega (arith, Reach-Balance r))
