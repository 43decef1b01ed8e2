-- ===== src/Share/Current.antt =====
-- Which shares reach the daemon, over every schedule.
use dirtybird_c_miner.Base.{
  ℕ, suc, ◌^◌, ◌≤◌, ◌<◌, ◌≡◌, refl, sym, subst, ◌∙◌, Bool, true, List, [], ◌∷◌, some, some_inj, All,
  All-get_elem?, All-set, All-replicate, All-map, inl, inr, arith,
}
use dirtybird_c_miner.State.{MinerState, PendingSubmit}
use dirtybird_c_miner.Job.{handle_job}
use dirtybird_c_miner.Job.Laws.{handle_job-SameShares, handle_job-job_epoch}
use dirtybird_c_miner.Share.Fresh.{
  ItemOk, WorkerOk, NetOk, StateOk, Move-ok, discard_queue-StateOk, KnownAt-older, WorkerOk-older,
}
use dirtybird_c_miner.Share.System.{
  Worker, starting, Network, reading, sending, System, NetMove, dial, connect, job, discard, swap,
  load, skip, send, send_failed, drained, read_failed, hang_up, handed_out, Step, work, network,
  Reach, here, next,
}

-- The current epoch and job, and that no copy is newer.
record Fresh (workers : List Worker) (st : MinerState) (has_job : Bool) (net : Network) (n : ℕ)
    : Type 0 where
  epoch : ℕ
  job_id : List ℕ
  bound : epoch ≤ n
  st_ok : StateOk epoch job_id st
  workers_ok : All (WorkerOk epoch job_id) workers
  net_ok : NetOk epoch job_id has_job net

kept :
    {workers : List Worker} {st : MinerState} {has_job : Bool} {net : Network} {n : ℕ}
    (st' : MinerState) (has_job' : Bool) (net' : Network) (f : Fresh workers st has_job net n)
    → StateOk f.epoch f.job_id st'
    → NetOk f.epoch f.job_id has_job' net'
    → Fresh workers st' has_job' net' (suc n)
kept st' has_job' net' f ok known = record {
  epoch = f.epoch;
  job_id = f.job_id;
  bound = omega (arith, f.bound);
  st_ok = ok;
  workers_ok = f.workers_ok;
  net_ok = known;
}

-- A job message, at an epoch that does not wrap.
job-Fresh :
    {workers : List Worker} {st : MinerState} {has_job : Bool} {n : ℕ} (json : List ℕ)
    → suc n < 2 ^ 64
    → Fresh workers st has_job reading n
    → let (_, st', has_job') = handle_job json st has_job in
      Fresh workers st' has_job' reading (suc n)
job-Fresh {workers} {st} {has_job} json small f =
    let queue_kept = sym (handle_job-SameShares json st has_job).submit_queue in
    elim (handle_job-job_epoch json st has_job) [
      | inl (same_epoch, same_job) ↦
          kept _ _ reading f
            (record {
              epoch = same_epoch ∙ f.st_ok.epoch;
              job_id = same_job ∙ f.st_ok.job_id;
              queue = subst (All (ItemOk f.epoch f.job_id)) queue_kept f.st_ok.queue;
            })
            tt
      | inr moved ↦
          let st' = (handle_job json st has_job).1 in
          record {
            epoch = suc f.epoch;
            job_id = st'.job_id;
            bound = omega (arith, f.bound);
            st_ok = record {
              epoch = omega (arith, moved, f.bound, f.st_ok.epoch);
              job_id = refl;
              queue = subst (All (ItemOk (suc f.epoch) st'.job_id)) queue_kept (
                  All-map (ItemOk f.epoch f.job_id) (ItemOk (suc f.epoch) st'.job_id)
                    st.submit_queue
                    (λ item h. KnownAt-older f.epoch f.job_id st'.job_id item.epoch item.job_id h)
                    f.st_ok.queue);
            };
            workers_ok =
                All-map (WorkerOk f.epoch f.job_id) (WorkerOk (suc f.epoch) st'.job_id) workers
                  (WorkerOk-older f.epoch f.job_id st'.job_id) f.workers_ok;
            net_ok = tt;
          }
    ]

NetMove-Fresh :
    {workers : List Worker} {st : MinerState} {free has_job : Bool} {net : Network}
    {st' : MinerState} {has_job' : Bool} {net' : Network} {k n : ℕ}
    → suc n < 2 ^ 64
    → NetMove st free has_job net st' has_job' net' k
    → Fresh workers st has_job net n
    → Fresh workers st' has_job' net' (suc n)
NetMove-Fresh {st = st} small dial f =
    let ok = discard_queue-StateOk f.epoch f.job_id st f.st_ok in
    kept _ _ _ f (record { epoch = ok.epoch; job_id = ok.job_id; queue = ok.queue }) tt
NetMove-Fresh {st = st} small connect f =
    let ok = discard_queue-StateOk f.epoch f.job_id st f.st_ok in
    kept _ _ _ f (record { epoch = ok.epoch; job_id = ok.job_id; queue = ok.queue }) tt
NetMove-Fresh small (job json) f = job-Fresh json small f
NetMove-Fresh {st = st} small discard f =
    kept _ _ _ f (discard_queue-StateOk f.epoch f.job_id st f.st_ok) tt
NetMove-Fresh small swap f =
    kept _ _ _ f (record { epoch = f.st_ok.epoch; job_id = f.st_ok.job_id; queue = tt })
      (f.st_ok.queue, refl)
NetMove-Fresh small load f = kept _ _ _ f f.st_ok (f.net_ok.0, f.net_ok.1, f.st_ok.epoch)
NetMove-Fresh small (skip p) f =
    kept _ _ _ f (record { epoch = f.st_ok.epoch; job_id = f.st_ok.job_id; queue = f.st_ok.queue })
      (f.net_ok.0.1, f.net_ok.1, f.net_ok.2)
NetMove-Fresh small (send p) f =
    kept _ _ _ f (record { epoch = f.st_ok.epoch; job_id = f.st_ok.job_id; queue = f.st_ok.queue })
      (f.net_ok.0.1, f.net_ok.1, f.net_ok.2)
NetMove-Fresh small (send_failed p) f =
    kept _ _ _ f (record { epoch = f.st_ok.epoch; job_id = f.st_ok.job_id; queue = f.st_ok.queue })
      tt
NetMove-Fresh small drained f = kept _ _ _ f f.st_ok tt
NetMove-Fresh small read_failed f = kept _ _ _ f f.st_ok tt
NetMove-Fresh {st = st} small hang_up f =
    let ok = discard_queue-StateOk f.epoch f.job_id st f.st_ok in
    kept _ _ _ f (record { epoch = ok.epoch; job_id = ok.job_id; queue = ok.queue }) tt

abbrev FreshAt : ℕ → System → Type 0
FreshAt n s = Fresh s.workers s.st s.has_job s.net n

Step-Fresh : {n : ℕ} {s t : System} → suc n < 2 ^ 64 → Step s t → FreshAt n s → FreshAt (suc n) t
Step-Fresh {s = s} small (work i {w} {w'} at m) f =
    let moved =
      Move-ok f.epoch f.job_id m f.st_ok
        (All-get_elem? (WorkerOk f.epoch f.job_id) s.workers i f.workers_ok at) in
    record {
      epoch = f.epoch;
      job_id = f.job_id;
      bound = omega (arith, f.bound);
      st_ok = moved.0;
      workers_ok = All-set (WorkerOk f.epoch f.job_id) s.workers i w' f.workers_ok moved.1;
      net_ok = f.net_ok;
    }
Step-Fresh small (network m) f = NetMove-Fresh small m f

Reach-Fresh : {threads n : ℕ} {s : System} → n < 2 ^ 64 → Reach threads n s → FreshAt n s
Reach-Fresh {threads} small here = record {
  epoch = 0;
  job_id = [];
  bound = omega arith;
  st_ok = record { epoch = refl; job_id = refl; queue = tt };
  workers_ok = All-replicate (WorkerOk 0 []) threads starting tt;
  net_ok = tt;
}
Reach-Fresh small (next {n = n} r step) = Step-Fresh small step (Reach-Fresh (omega arith) r)

-- A share with the current job, in a session that has one.
abbrev Current : MinerState → Bool → PendingSubmit → Type 0
Current st has_job item = (item.job_id ≡ st.job_id) × (item.epoch ≡ st.job_epoch) × (has_job ≡ true)

head-Current :
    {workers : List Worker} {st : MinerState} {has_job : Bool} {n cur : ℕ} {item : PendingSubmit}
    {batch : List PendingSubmit}
    → Fresh workers st has_job (sending (item ∷ batch) cur) n
    → item.epoch ≡ cur
    → Current st has_job item
head-Current f same =
    let now = same ∙ f.net_ok.2 in
    (f.net_ok.0.0.1 now ∙ sym f.st_ok.job_id, now ∙ sym f.st_ok.epoch, f.net_ok.1)

NetMove-Current :
    {workers : List Worker} {st : MinerState} {free has_job : Bool} {net : Network}
    {st' : MinerState} {has_job' : Bool} {net' : Network} {k n : ℕ} {item : PendingSubmit}
    (m : NetMove st free has_job net st' has_job' net' k)
    → handed_out m ≡ some item
    → Fresh workers st has_job net n
    → Current st has_job item
unfolding handed_out
NetMove-Current dial e f = absurd (cc e)
NetMove-Current connect e f = absurd (cc e)
NetMove-Current (job json) e f = absurd (cc e)
NetMove-Current discard e f = absurd (cc e)
NetMove-Current swap e f = absurd (cc e)
NetMove-Current load e f = absurd (cc e)
NetMove-Current (skip p) e f = absurd (cc e)
NetMove-Current {st = st} {has_job = has_job} (send {item = handed} p) e f =
    subst (Current st has_job) (some_inj handed _ e) (head-Current f p)
NetMove-Current {st = st} {has_job = has_job} (send_failed {item = handed} p) e f =
    subst (Current st has_job) (some_inj handed _ e) (head-Current f p)
NetMove-Current drained e f = absurd (cc e)
NetMove-Current read_failed e f = absurd (cc e)
NetMove-Current hang_up e f = absurd (cc e)

-- On every schedule of fewer than 2 ^ 64 steps, whatever the workers and the daemon do: each share
-- that a move of the network thread hands to the connection, whether the send succeeds or fails, has
-- the job id and the epoch that the shared state holds at that moment, and the session has received
-- a job.
pub sent_current :
    {threads n : ℕ} {s : System} {st' : MinerState} {has_job' : Bool} {net' : Network} {k : ℕ}
    {item : PendingSubmit}
    → Reach threads n s
    → n < 2 ^ 64
    → (m : NetMove s.st s.lock_free s.has_job s.net st' has_job' net' k) → handed_out m ≡ some item
    → (item.job_id ≡ s.st.job_id) × (item.epoch ≡ s.st.job_epoch) × (s.has_job ≡ true)
sent_current r small m handed = NetMove-Current m handed (Reach-Fresh small r)
