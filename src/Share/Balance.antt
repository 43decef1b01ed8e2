-- ===== src/Share/Balance.antt =====
-- The share funnel as an account: every find is somewhere. `Balance k st` says that all but `k` of
-- the finds that `st` has counted are settled in its other counters or wait in its queue.
use dirtybird_c_miner.Base.{
  ℕ, suc, ◌+◌, ◌%◌, ◌^◌, ◌≡◌, refl, Bool, true, false, not, List, [], ◌∷◌, length, pop_front, add64,
  ◌==◌, if◌then◌else◌, inl, inr, Bool-cases, length-append, arith,
}
use dirtybird_c_miner.State.{MinerState, PendingSubmit}
use dirtybird_c_miner.Share.Queue.{length-pop_front}
use dirtybird_c_miner.Share.{
  submit_enqueue, count_found, stale_gate, discard_queue, drain_batch, submit_share,
}

abbrev pub settled : MinerState → ℕ
settled st =
    st.stale_drops + st.submit_drops + st.submitted + st.send_fails + length st.submit_queue

abbrev pub Balance : ℕ → MinerState → Type 0
Balance k st = st.found % 2 ^ 64 ≡ (settled st + k) % 2 ^ 64

pub count_found-Balance :
    (k : ℕ) (st : MinerState) → Balance k st → Balance (suc k) (count_found st)
unfolding count_found
count_found-Balance k st h = omega arith

-- A share that a gate drops is settled.
pub stale_gate-Balance :
    (k e : ℕ) (st : MinerState)
    → (stale_gate st e).0 ≡ false
    → Balance (suc k) st
    → Balance k (stale_gate st e).1
unfolding stale_gate
stale_gate-Balance k e st drop h = ground arith

pub stale_gate_pass :
    (e : ℕ) (st : MinerState) → (stale_gate st e).0 ≡ true → (stale_gate st e).1 ≡ st
unfolding stale_gate
stale_gate_pass e st pass = ground arith

pub submit_enqueue-Balance :
    (k : ℕ) (st : MinerState) (job_id blob_hex : List ℕ) (e : ℕ)
    → Balance (suc k) st
    → Balance k (submit_enqueue st job_id blob_hex e).1
unfolding submit_enqueue
submit_enqueue-Balance k st job_id blob_hex e h = ground (
  arith,
  length-append st.submit_queue (item ∷ []),
  length-append (pop_front st.submit_queue) (item ∷ []),
  length-pop_front st.submit_queue,
)
  where
    item : PendingSubmit
    item = record { job_id = job_id; blob_hex = blob_hex; epoch = e }

pub discard_queue-Balance : (k : ℕ) (st : MinerState) → Balance k st → Balance k (discard_queue st)
unfolding discard_queue
discard_queue-Balance k st h = omega arith

-- The items behind the one whose sending fails.
pub abandoned : (ℕ → Bool) → ℕ → ℕ → List PendingSubmit → ℕ
abandoned send cur n [] = 0
abandoned send cur n (item ∷ batch) =
    let skipped = abandoned send cur n batch in
    let rest = abandoned send cur (n + 1) batch in
    if not (item.epoch == cur) then skipped else if send n then rest else length batch

pub drain_batch-Balance :
    (send : ℕ → Bool) (cur n k : ℕ) (batch : List PendingSubmit) (st : MinerState)
    → Balance (k + length batch) st
    → Balance (k + abandoned send cur n batch) (drain_batch send cur n batch st).st
unfolding drain_batch abandoned
drain_batch-Balance send cur n k [] st h = h
drain_batch-Balance send cur n k (item ∷ batch) st h = elim (Bool-cases (item.epoch == cur)) [
  | inr stale ↦ rw stale (drain_batch-Balance send cur n k batch _ (omega arith))
  | inl fresh ↦ elim (Bool-cases (send n)) [
    | inl sent ↦ rw (fresh, sent) (drain_batch-Balance send cur (n + 1) k batch _ (omega arith))
    | inr failed ↦ rw (fresh, failed) (omega arith)
  ]
]

-- A drain settles every share of the batch but those behind the one whose sending fails. With no
-- failure nothing is abandoned.
pub submit_share-Balance :
    (send : ℕ → Bool) (has_job : Bool) (k : ℕ) (st : MinerState)
    → Balance k st
    → let out = submit_share send has_job st in
      Balance (k + (if has_job then abandoned send st.job_epoch 0 st.submit_queue else 0)) out.st
unfolding submit_share
submit_share-Balance send true k st h =
    drain_batch-Balance send st.job_epoch 0 k st.submit_queue _ (omega arith)
submit_share-Balance send false k st h = omega (arith, discard_queue-Balance k st h)

abandoned_ok :
    (send : ℕ → Bool) (cur n : ℕ) (batch : List PendingSubmit) (st : MinerState)
    → (drain_batch send cur n batch st).ok ≡ true
    → abandoned send cur n batch ≡ 0
unfolding drain_batch abandoned
abandoned_ok send cur n [] st h = refl
abandoned_ok send cur n (item ∷ batch) st h = ground (
  arith,
  abandoned_ok send cur n batch (record st { stale_drops = add64 st.stale_drops 1 }),
  abandoned_ok send cur (n + 1) batch (record st { submitted = add64 st.submitted 1 }),
)

-- A drain that reports no failure settles every share: the account is kept.
pub submit_share_ok-Balance :
    (send : ℕ → Bool) (has_job : Bool) (k : ℕ) (st : MinerState)
    → (submit_share send has_job st).ok ≡ true
    → Balance k st
    → Balance k (submit_share send has_job st).st
submit_share_ok-Balance send true k st ok h =
    let none_left =
      abandoned_ok send st.job_epoch 0 st.submit_queue (record st { submit_queue = [] })
        (unfold submit_share in ok) in
    omega (arith, submit_share-Balance send true k st h, none_left)
submit_share_ok-Balance send false k st ok h = omega (arith, submit_share-Balance send false k st h)
