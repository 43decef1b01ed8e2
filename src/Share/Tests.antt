-- ===== src/Share/Tests.antt =====
-- The shares' path at concrete inputs: a full queue, drains, and a schedule of one worker that finds
-- a share, queues it, and has it taken by the network thread.
use dirtybird_c_miner.Base.{
  ℕ, ◌+◌, ◌-◌, ◌%◌, ◌^◌, ◌≤◌, ◌<◌, ◌≡◌, ◌⊎◌, ◌↔◌, refl, true, false, List, [], ◌∷◌, ◌++◌, length,
  replicate, drop, total, add64, if◌then◌else◌, arith,
}
use dirtybird_c_miner.Text.Chars.{codes, str_eq}
use dirtybird_c_miner.Text.Hex.{hex_str}
use dirtybird_c_miner.Text.Json.{json_str, json_int}
use dirtybird_c_miner.State.{MinerState, PendingSubmit, initial, submit_queue_max}
use dirtybird_c_miner.Job.{handle_job, parse_job, well_formed, store_job, work_changed}
use dirtybird_c_miner.Share.{
  submit_enqueue, discard_queue, count_found, stale_gate, submit_share, drain_batch,
}
use dirtybird_c_miner.Share.Queue.{submit_enqueue_lem}
use dirtybird_c_miner.Share.Drain.{SentInOrder, submit_share_lem}
use dirtybird_c_miner.Share.System.{
  Snapshot, System, first_snapshot, find, pass_first, lock, pass_second, push, connect, job, swap,
  load, send, send_failed, handed_out, hang_up, work, network, Reach, here, next,
}
use dirtybird_c_miner.Share.Balance.{Balance}
use dirtybird_c_miner.Share.Funnel.{unsettled, Reach-Balance, funnel_identity_iff}
use dirtybird_c_miner.Share.Bounds.{inside, queue_guarded}
use dirtybird_c_miner.Share.Current.{sent_current}

abbrev snap : Snapshot
snap = record { job_id = codes "7a"; epoch = 1 }

abbrev bytes : List ℕ
bytes = 1 ∷ 255 ∷ []

abbrev item : PendingSubmit
item = record { job_id = codes "7a"; blob_hex = codes "01ff"; epoch = 1 }

abbrev old_item : PendingSubmit
old_item = record { job_id = codes "6f"; blob_hex = codes "01fe"; epoch = 0 }

abbrev full : MinerState
full = record initial { submit_queue = replicate 32 item; found = 32; enqueued = 32; job_epoch = 1 }

abbrev two_queued : MinerState
two_queued = record initial { submit_queue = old_item ∷ item ∷ []; found = 4; job_epoch = 1 }

abbrev job_json : List ℕ
job_json = codes "{\"jobid\":\"7a\",\"blockhashing_blob\":\"" ++ replicate 96 48 ++ codes "\"}"

abbrev with_job : (s : System) × Reach 1 3 s
with_job = (
  _,
  next (next (next here (network connect)) (network (job job_json))) (work 0 refl first_snapshot),
)

-- The worker holds the lock.
abbrev guarded : (s : System) × Reach 1 6 s
unfolding discard_queue str_eq handle_job parse_job well_formed store_job work_changed json_str
    json_int count_found stale_gate hex_str submit_enqueue
guarded = (
  _,
  next
      (next (next with_job.1 (work 0 refl (find {s = snap} bytes)))
        (work 0 refl (pass_first {s = snap} {blob = bytes} refl)))
      (work 0 refl (lock {s = snap} {hex = hex_str bytes})),
)

-- The network thread has taken the queued share.
abbrev taken : (s : System) × Reach 1 10 s
unfolding discard_queue str_eq handle_job parse_job well_formed store_job work_changed json_str
    json_int count_found stale_gate hex_str submit_enqueue
taken = (
  _,
  next
      (next
        (next (next guarded.1 (work 0 refl (pass_second {s = snap} {hex = hex_str bytes} refl)))
          (work 0 refl (push {s = snap} {hex = hex_str bytes})))
        (network swap))
      (network load),
)

-- Its sending failed.
abbrev lost : (s : System) × Reach 1 12 s
unfolding discard_queue str_eq handle_job parse_job well_formed store_job work_changed json_str
    json_int count_found stale_gate hex_str submit_enqueue
lost = (
  _,
  next (next taken.1 (network (send_failed {item = item} {batch = []} {cur = 1} refl)))
      (network hang_up),
)

sent_current_example :
    (item.job_id ≡ taken.0.st.job_id)
    × (item.epoch ≡ taken.0.st.job_epoch)
    × (taken.0.has_job ≡ true)
unfolding discard_queue str_eq handle_job parse_job well_formed store_job work_changed json_str
    json_int count_found stale_gate hex_str submit_enqueue handed_out
sent_current_example =
    sent_current {s = taken.0} {item = item} taken.1 (omega arith)
      (send {item = item} {batch = []} {cur = 1} refl) refl

Reach-Balance_example : Balance (unsettled taken.0) taken.0.st
Reach-Balance_example = Reach-Balance taken.1

funnel_identity_iff_example :
    (lost.0.st.found % 2 ^ 64
      ≡ (lost.0.st.stale_drops + lost.0.st.submit_drops + lost.0.st.submitted
          + lost.0.st.send_fails)
        % 2 ^ 64)
    ↔ (lost.0.abandoned % 2 ^ 64 ≡ 0)
unfolding discard_queue str_eq handle_job parse_job well_formed store_job work_changed json_str
    json_int count_found stale_gate hex_str submit_enqueue
funnel_identity_iff_example = funnel_identity_iff lost.1 refl refl refl

queue_guarded_example :
    (length guarded.0.st.submit_queue ≤ 32)
    × (((guarded.0.lock_free ≡ true) × (total inside guarded.0.workers ≡ 0))
        ⊎ ((guarded.0.lock_free ≡ false) × (total inside guarded.0.workers ≡ 1)))
queue_guarded_example = queue_guarded guarded.1

full_queue-evicts : (submit_enqueue full (codes "7a") (codes "02") 1).1.submit_drops ≡ 1
unfolding submit_enqueue
full_queue-evicts = refl

submit_enqueue_lem_example :
    let (kept, st') = submit_enqueue full (codes "7a") (codes "02") 1 in
    let new : PendingSubmit = record { job_id = codes "7a"; blob_hex = codes "02"; epoch = 1 } in
    (length st'.submit_queue ≤ submit_queue_max)
    × (st'.submit_queue
        ≡ drop (length full.submit_queue + 1 - submit_queue_max) (full.submit_queue ++ new ∷ []))
    × (st'.enqueued ≡ add64 full.enqueued 1)
    × ((kept ≡ true) ↔ (length full.submit_queue < submit_queue_max))
    × (st'.submit_drops ≡ (if kept then full.submit_drops else add64 full.submit_drops 1))
submit_enqueue_lem_example = submit_enqueue_lem full (codes "7a") (codes "02") 1 (omega arith)

submit_share_lem_example :
    let out = submit_share (λ n. true) true two_queued in
    (out.st.submit_queue ≡ [])
    × (out.st.job_epoch ≡ two_queued.job_epoch)
    × (((true ≡ true) × SentInOrder two_queued out)
        ⊎ ((true ≡ false) × (out.sent ≡ []) × (out.ok ≡ true)))
submit_share_lem_example = submit_share_lem (λ n. true) true two_queued

drain_skips_old : (submit_share (λ n. true) true two_queued).sent ≡ item ∷ []
unfolding submit_share drain_batch
drain_skips_old = refl
