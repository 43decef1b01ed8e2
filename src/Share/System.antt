-- ===== src/Share/System.antt =====
-- All workers and the network thread at work on the shared state, one atomic step at a time.
-- `submitMutex` makes the queue's updates atomic, `jobMutex` a worker's snapshot of the job.
use dirtybird_c_miner.Base.{
  ℕ, suc, ◌+◌, ◌≡◌, ◌≢◌, Bool, true, false, List, [], ◌∷◌, Option, none, some, length, get_elem?,
  set, replicate, add64,
}
use dirtybird_c_miner.Text.Hex.{hex_str}
use dirtybird_c_miner.State.{MinerState, PendingSubmit, initial}
use dirtybird_c_miner.Job.{handle_job}
use dirtybird_c_miner.Share.{
  submit_enqueue, count_found, stale_gate, discard_queue, cleanup, open_session,
}

-- The job that a worker copied under `jobMutex`.
pub record Snapshot : Type 0 where
  pub job_id : List ℕ
  pub epoch : ℕ

-- Where a worker stands.
pub data Worker : Type 0 where
  starting : Worker  -- before its first snapshot
  mining : Snapshot → Worker
  at_gate : Snapshot → List ℕ → Worker  -- found a share, before the first stale gate
  waiting : Snapshot → List ℕ → Worker  -- has the blob in hexadecimal, before the lock
  locked : Snapshot → List ℕ → Worker  -- holds `submitMutex`, before the second gate
  pushing : Snapshot → List ℕ → Worker  -- holds `submitMutex`, before the queue

-- Where the network thread stands.
pub data Network : Type 0 where
  dialing : Network  -- before `ws_connect` returns true
  reading : Network  -- head of the session's loop
  swapped : List PendingSubmit → Network  -- took the queue, before it loads the epoch
  sending : List PendingSubmit → ℕ → Network  -- the rest of the batch, and the loaded epoch
  lost_connection : Network  -- before `cleanup`

-- `abandoned` counts the shares behind a failed send; the program does not count them.
pub record System : Type 0 where
  pub st : MinerState
  pub has_job : Bool
  pub lock_free : Bool
  pub workers : List Worker
  pub net : Network
  pub abandoned : ℕ

-- Worker `i` moves: `Move before after` with the shared state, the lock and the worker.
pub data Move (st : MinerState) : Bool → Worker → MinerState → Bool → Worker → Type 0 where
  first_snapshot :
      {free : Bool}
      → Move st free starting st free (mining (record { job_id = st.job_id; epoch = st.job_epoch }))
  snapshot :
      {free : Bool} {old : Snapshot}
      → Move st free
          (mining old)
          st
          free
          (mining (record { job_id = st.job_id; epoch = st.job_epoch }))
  find :
      {free : Bool} {s : Snapshot} (blob : List ℕ)
      → Move st free (mining s) (count_found st) free (at_gate s blob)
  drop_first :
      {free : Bool} {s : Snapshot} {blob : List ℕ}
      → (stale_gate st s.epoch).0 ≡ false
      → Move st free (at_gate s blob) (stale_gate st s.epoch).1 free (mining s)
  pass_first :
      {free : Bool} {s : Snapshot} {blob : List ℕ}
      → (stale_gate st s.epoch).0 ≡ true
      → Move st free (at_gate s blob) st free (waiting s (hex_str blob))
  lock : {s : Snapshot} {hex : List ℕ} → Move st true (waiting s hex) st false (locked s hex)
  drop_second :
      {s : Snapshot} {hex : List ℕ}
      → (stale_gate st s.epoch).0 ≡ false
      → Move st false (locked s hex) (stale_gate st s.epoch).1 true (mining s)
  pass_second :
      {s : Snapshot} {hex : List ℕ}
      → (stale_gate st s.epoch).0 ≡ true
      → Move st false (locked s hex) st false (pushing s hex)
  push :
      {s : Snapshot} {hex : List ℕ}
      → Move st false (pushing s hex) (submit_enqueue st s.job_id hex s.epoch).1 true (mining s)

-- The network thread moves. It touches the queue only while no worker holds the lock.
pub data NetMove (st : MinerState)
    : Bool → Bool → Network → MinerState → Bool → Network → ℕ → Type 0 where
  -- The `cleanup` with which each attempt begins, and that of a failed one.
  dial : {has_job : Bool} → NetMove st true has_job dialing (cleanup st) has_job dialing 0
  connect : {has_job : Bool} → NetMove st true has_job dialing (open_session st) false reading 0
  job :
      {free has_job : Bool} (json : List ℕ)
      → NetMove st free has_job reading
          (handle_job json st has_job).1
          (handle_job json st has_job).2
          reading
          0
  discard : NetMove st true false reading (discard_queue st) false reading 0
  swap :
      NetMove st true true reading
        (record st { submit_queue = [] })
        true
        (swapped st.submit_queue)
        0
  load :
      {free has_job : Bool} {batch : List PendingSubmit}
      → NetMove st free has_job (swapped batch) st has_job (sending batch st.job_epoch) 0
  skip :
      {free has_job : Bool} {item : PendingSubmit} {batch : List PendingSubmit} {cur : ℕ}
      → item.epoch ≢ cur
      → NetMove st free has_job
          (sending (item ∷ batch) cur)
          (record st { stale_drops = add64 st.stale_drops 1 })
          has_job
          (sending batch cur)
          0
  send :
      {free has_job : Bool} {item : PendingSubmit} {batch : List PendingSubmit} {cur : ℕ}
      → item.epoch ≡ cur
      → NetMove st free has_job
          (sending (item ∷ batch) cur)
          (record st { submitted = add64 st.submitted 1 })
          has_job
          (sending batch cur)
          0
  send_failed :
      {free has_job : Bool} {item : PendingSubmit} {batch : List PendingSubmit} {cur : ℕ}
      → item.epoch ≡ cur
      → NetMove st free has_job
          (sending (item ∷ batch) cur)
          (record st { send_fails = add64 st.send_fails 1 })
          has_job
          lost_connection
          (length batch)
  drained :
      {free has_job : Bool} {cur : ℕ}
      → NetMove st free has_job (sending [] cur) st has_job reading 0
  read_failed : {free has_job : Bool} → NetMove st free has_job reading st has_job lost_connection 0
  hang_up :
      {has_job : Bool} → NetMove st true has_job lost_connection (cleanup st) has_job dialing 0

-- The share that a move of the network thread hands to the connection.
unfoldable pub handed_out :
    {st : MinerState} {free has_job : Bool} {net : Network} {st' : MinerState} {has_job' : Bool}
    {net' : Network} {k : ℕ}
    → NetMove st free has_job net st' has_job' net' k
    → Option PendingSubmit
handed_out dial = none
handed_out connect = none
handed_out (job json) = none
handed_out discard = none
handed_out swap = none
handed_out load = none
handed_out (skip p) = none
handed_out (send {item = item} p) = some item
handed_out (send_failed {item = item} p) = some item
handed_out drained = none
handed_out read_failed = none
handed_out hang_up = none

pub data Step (s : System) : System → Type 0 where
  work :
      (i : ℕ) {w w' : Worker} {st' : MinerState} {free' : Bool}
      → get_elem? s.workers i ≡ some w
      → Move s.st s.lock_free w st' free' w'
      → Step s (record s { st = st'; lock_free = free'; workers = set s.workers i w' })
  network :
      {st' : MinerState} {has_job' : Bool} {net' : Network} {k : ℕ}
      → NetMove s.st s.lock_free s.has_job s.net st' has_job' net' k
      → Step s (record s { st = st'; has_job = has_job'; net = net'; abandoned = s.abandoned + k })

-- `threads` workers and the network thread at the start of the program.
abbrev pub start : ℕ → System
start threads = record {
  st = initial;
  has_job = false;
  lock_free = true;
  workers = replicate threads starting;
  net = dialing;
  abandoned = 0;
}

-- The states that some schedule of `n` steps leads to.
pub data Reach (threads : ℕ) : ℕ → System → Type 0 where
  here : Reach threads 0 (start threads)
  next : {n : ℕ} {s t : System} → Reach threads n s → Step s t → Reach threads (suc n) t
