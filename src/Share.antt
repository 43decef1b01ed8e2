-- ===== src/Share.antt =====
-- The way of a found share: the gates and the queue on the worker's side (src/miner.cpp and
-- include/dluna.h), and the drain on the network's side (src/network.cpp).
pub mod Queue
pub mod Drain
pub mod System
pub mod Balance
pub mod Funnel
pub mod Bounds
pub mod Fresh
pub mod Current
mod Tests
use dirtybird_c_miner.Base.{
  ℕ, ◌+◌, ◌%◌, ◌^◌, ◌≢◌, Bool, true, false, not, List, [], ◌∷◌, ◌++◌, length, take, pop_front,
  add64, leb, ◌==◌, if◌then◌else◌,
}
use dirtybird_c_miner.Text.Chars.{codes}
use dirtybird_c_miner.Text.Hex.{hex_str}
use dirtybird_c_miner.State.{MinerState, PendingSubmit, submit_queue_max}

-- `dluna_submit_enqueue`: false if the oldest entry had to go.
unfoldable pub submit_enqueue : MinerState → List ℕ → List ℕ → ℕ → Bool × MinerState
submit_enqueue st job_id blob_hex job_epoch =
    let evicted = leb submit_queue_max (length st.submit_queue) in
    let kept =
      if evicted
      then record st {
        submit_queue = pop_front st.submit_queue;
        submit_drops = add64 st.submit_drops 1;
      }
      else st in
    let item : PendingSubmit = record { job_id = job_id; blob_hex = blob_hex; epoch = job_epoch } in
    (
      not evicted,
      record kept {
        submit_queue = kept.submit_queue ++ item ∷ [];
        enqueued = add64 kept.enqueued 1;
      },
    )

-- A find is counted before any gate.
unfoldable pub count_found : MinerState → MinerState
count_found st = record st { found = add64 st.found 1 }

-- A stale gate: whether the share's epoch is still the current one; if not, the share is dropped.
unfoldable pub stale_gate : MinerState → ℕ → Bool × MinerState
stale_gate st job_epoch =
    if st.job_epoch == job_epoch
    then (true, st)
    else (false, record st { stale_drops = add64 st.stale_drops 1 })

-- The worker's `submit_share`. The other threads' work between the two gates is `meanwhile`.
pub worker_submit : (MinerState → MinerState) → MinerState → List ℕ → List ℕ → ℕ → MinerState
worker_submit meanwhile st blob job_id job_epoch =
    let (fresh, first) = stale_gate (count_found st) job_epoch in
    let (still, second) = stale_gate (meanwhile first) job_epoch in
    if not fresh
    then first
    else if not still
    then second
    else (submit_enqueue second job_id (hex_str blob) job_epoch).1

-- Dropping all that is queued, in `cleanup`, in `ws_connect` and before a session's first job.
unfoldable pub discard_queue : MinerState → MinerState
discard_queue st = record st {
  stale_drops = add64 st.stale_drops (length st.submit_queue);
  submit_queue = [];
}

-- What `cleanup` leaves of the shared state.
abbrev pub cleanup : MinerState → MinerState
cleanup st = record (discard_queue st) { connected = false }

-- What a successful `ws_connect` leaves of it.
abbrev pub open_session : MinerState → MinerState
open_session st = record (discard_queue st) { connected = true }

-- The message for one share, cut to the 512-byte buffer.
pub share_json : PendingSubmit → List ℕ
share_json item = take 511 (
    codes "{\"jobid\":\""
    ++ (item.job_id ++ (codes "\",\"mbl_blob\":\"" ++ (item.blob_hex ++ codes "\"}"))))

-- A drain's result, the messages that were sent, and the state.
pub record Drained : Type 0 where
  pub ok : Bool
  pub sent : List PendingSubmit
  pub st : MinerState

-- The loop over the batch. `send n` is whether the call number `n` of `ws_send_text` succeeds.
unfoldable pub drain_batch : (ℕ → Bool) → ℕ → ℕ → List PendingSubmit → MinerState → Drained
drain_batch send cur n [] st = record { ok = true; sent = []; st = st }
drain_batch send cur n (item ∷ batch) st =
    let skipped =
      drain_batch send cur n batch (record st { stale_drops = add64 st.stale_drops 1 }) in
    let rest =
      drain_batch send cur (n + 1) batch (record st { submitted = add64 st.submitted 1 }) in
    if not (item.epoch == cur)
    then skipped
    else if send n
    then record rest { sent = item ∷ rest.sent }
    else record { ok = false; sent = []; st = record st { send_fails = add64 st.send_fails 1 } }

-- The network thread's `submit_share`.
unfoldable pub submit_share : (ℕ → Bool) → Bool → MinerState → Drained
submit_share send has_job st =
    if has_job
    then drain_batch send st.job_epoch 0 st.submit_queue (record st { submit_queue = [] })
    else record { ok = true; sent = []; st = discard_queue st }
