-- ===== src/Share/Bounds.antt =====
-- The lock and the queue's bound, over every schedule.
use dirtybird_c_miner.Base.{
  ℕ, ap, ◌+◌, ◌-◌, ◌≤◌, ◌≡◌, ◌⊎◌, inl, inr, refl, Bool, true, false, length, set, total, total-set,
  total-replicate, weight-le-total, Bool-cases, arith,
}
use dirtybird_c_miner.State.{MinerState}
use dirtybird_c_miner.Job.Laws.{handle_job-SameShares}
use dirtybird_c_miner.Share.{count_found, stale_gate, discard_queue}
use dirtybird_c_miner.Share.Queue.{submit_enqueue_lem}
use dirtybird_c_miner.Share.System.{
  Worker, starting, locked, pushing, Network, System, Move, first_snapshot, snapshot, find,
  drop_first, pass_first, lock, drop_second, pass_second, push, NetMove, dial, connect, job,
  discard, swap, load, skip, send, send_failed, drained, read_failed, hang_up, Step, work, network,
  Reach, here, next,
}

-- Whether a worker is inside the section that `submitMutex` guards.
abbrev pub inside : Worker → ℕ
inside (locked s hex) = 1
inside (pushing s hex) = 1
inside w = 0

-- The lock as a token: it is in the lock, or with a worker.
abbrev pub token : Bool → ℕ
token true = 1
token false = 0

record Bounded (st : MinerState) (free : Bool) (holders : ℕ) : Type 0 where
  queue : length st.submit_queue ≤ 32
  lock : holders + token free ≡ 1

stale_gate-queue : (k : ℕ) (st : MinerState) → (stale_gate st k).1.submit_queue ≡ st.submit_queue
unfolding stale_gate
stale_gate-queue k st = ground arith

Move-Bounded :
    {st st' : MinerState} {free free' : Bool} {w w' : Worker} (others : ℕ)
    → Move st free w st' free' w'
    → Bounded st free (inside w + others)
    → Bounded st' free' (inside w' + others)
unfolding count_found
Move-Bounded others first_snapshot h = h
Move-Bounded others snapshot h = h
Move-Bounded others (find blob) h = record { queue = h.queue; lock = h.lock }
Move-Bounded {st} others (drop_first {s = s} p) h = record {
  queue = omega (arith, h.queue, ap length (stale_gate-queue s.epoch st));
  lock = h.lock;
}
Move-Bounded others (pass_first p) h = h
Move-Bounded others lock h = record { queue = h.queue; lock = omega (arith, h.lock) }
Move-Bounded {st} others (drop_second {s = s} p) h = record {
  queue = omega (arith, h.queue, ap length (stale_gate-queue s.epoch st));
  lock = omega (arith, h.lock);
}
Move-Bounded others (pass_second p) h = h
Move-Bounded {st} others (push {s = s} {hex = hex}) h = record {
  queue = (submit_enqueue_lem st s.job_id hex s.epoch h.queue).0;
  lock = omega (arith, h.lock);
}

NetMove-Bounded :
    {st : MinerState} {free has_job : Bool} {net : Network} {st' : MinerState} {has_job' : Bool}
    {net' : Network} {a : ℕ} (holders : ℕ)
    → NetMove st free has_job net st' has_job' net' a
    → Bounded st free holders
    → Bounded st' free holders
unfolding discard_queue
NetMove-Bounded holders dial h = record { queue = omega arith; lock = h.lock }
NetMove-Bounded holders connect h = record { queue = omega arith; lock = h.lock }
NetMove-Bounded {st} holders (job {has_job = has_job} json) h = record {
  queue = omega (arith, h.queue, ap length (handle_job-SameShares json st has_job).submit_queue);
  lock = h.lock;
}
NetMove-Bounded holders discard h = record { queue = omega arith; lock = h.lock }
NetMove-Bounded holders swap h = record { queue = omega arith; lock = h.lock }
NetMove-Bounded holders load h = h
NetMove-Bounded holders (skip p) h = record { queue = h.queue; lock = h.lock }
NetMove-Bounded holders (send p) h = record { queue = h.queue; lock = h.lock }
NetMove-Bounded holders (send_failed p) h = record { queue = h.queue; lock = h.lock }
NetMove-Bounded holders drained h = h
NetMove-Bounded holders read_failed h = h
NetMove-Bounded holders hang_up h = record { queue = omega arith; lock = h.lock }

recount : (st : MinerState) (free : Bool) (k j : ℕ) → k ≡ j → Bounded st free k → Bounded st free j
recount st free k j e h = record { queue = h.queue; lock = omega (arith, h.lock) }

Step-Bounded :
    {s t : System}
    → Step s t
    → Bounded s.st s.lock_free (total inside s.workers)
    → Bounded t.st t.lock_free (total inside t.workers)
Step-Bounded {s} (work i {w} {w'} {st'} {free'} at m) h =
    recount st' free' (inside w' + others) _ (omega (arith, moved, enough)) (
      Move-Bounded others m
        (recount s.st s.lock_free _ (inside w + others) (omega (arith, enough)) h))
  where
    others : ℕ
    others = total inside s.workers - inside w

    moved : total inside (set s.workers i w') + inside w ≡ total inside s.workers + inside w'
    moved = total-set inside s.workers i w' at

    enough : inside w ≤ total inside s.workers
    enough = weight-le-total inside s.workers i at
Step-Bounded {s} (network m) h = NetMove-Bounded (total inside s.workers) m h

Reach-Bounded :
    {threads n : ℕ} {s : System}
    → Reach threads n s
    → Bounded s.st s.lock_free (total inside s.workers)
Reach-Bounded {threads} here = record {
  queue = omega arith;
  lock = omega (arith, total-replicate inside threads starting refl);
}
Reach-Bounded (next r step) = Step-Bounded step (Reach-Bounded r)

-- On every schedule, the queue holds at most 32 shares, and exactly one of these holds: the lock is
-- free and no worker is inside the section that `submitMutex` guards, or one worker is there.
pub queue_guarded :
    {threads n : ℕ} {s : System}
    → Reach threads n s
    → (length s.st.submit_queue ≤ 32)
      × (((s.lock_free ≡ true) × (total inside s.workers ≡ 0))
          ⊎ ((s.lock_free ≡ false) × (total inside s.workers ≡ 1)))
queue_guarded {s = s} r =
    let b = Reach-Bounded r in
    (
      b.queue,
      elim (Bool-cases s.lock_free) [
        | inl free ↦ inl (free, omega (arith, b.lock, ap token free))
        | inr taken ↦ inr (taken, omega (arith, b.lock, ap token taken))
      ],
    )
