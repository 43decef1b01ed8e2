-- ===== src/Share/Drain.antt =====
-- What a drain sends, and in which order.
use mathlib.Core.List.{append-nil}
use dirtybird_c_miner.Base.{
  ℕ, ◌+◌, ◌≡◌, refl, sym, ap, ◌∙◌, Bool, true, false, ◌⊎◌, List, [], ◌∷◌, ◌++◌, add64, ◌==◌,
  if◌then◌else◌, inl, inr, Bool-cases,
}
use dirtybird_c_miner.State.{MinerState, PendingSubmit}
use dirtybird_c_miner.Share.{discard_queue, Drained, drain_batch, submit_share}

-- The shares of a batch that are for the epoch `cur`, in their order.
abbrev pub current : ℕ → List PendingSubmit → List PendingSubmit
current cur [] = []
current cur (item ∷ batch) =
    if item.epoch == cur then item ∷ current cur batch else current cur batch

-- What a drain at epoch `cur` did with a batch.
pub record IsDrained (cur : ℕ) (batch : List PendingSubmit) (st : MinerState) (out : Drained)
    : Type 0 where
  pub unsent : List PendingSubmit
  pub order : current cur batch ≡ out.sent ++ unsent
  pub all_sent : out.ok ≡ true → unsent ≡ []
  pub queue : out.st.submit_queue ≡ st.submit_queue
  pub epoch : out.st.job_epoch ≡ st.job_epoch

drain_batch-IsDrained :
    (send : ℕ → Bool) (cur n : ℕ) (batch : List PendingSubmit) (st : MinerState)
    → IsDrained cur batch st (drain_batch send cur n batch st)
unfolding drain_batch
drain_batch-IsDrained send cur n [] st = record {
  unsent = [];
  order = refl;
  all_sent = λ _. refl;
  queue = refl;
  epoch = refl;
}
drain_batch-IsDrained send cur n (item ∷ batch) st = elim (Bool-cases (item.epoch == cur)) [
  | inr stale ↦
      let rest =
        drain_batch-IsDrained send cur n batch
          (record st { stale_drops = add64 st.stale_drops 1 }) in
      rw stale (record {
        unsent = rest.unsent;
        order = rw stale rest.order;
        all_sent = rest.all_sent;
        queue = rest.queue;
        epoch = rest.epoch;
      })
  | inl fresh ↦ elim (Bool-cases (send n)) [
    | inl sent ↦
        let rest =
          drain_batch-IsDrained send cur (n + 1) batch
            (record st { submitted = add64 st.submitted 1 }) in
        rw (fresh, sent)
          (record {
            unsent = rest.unsent;
            order = rw fresh (ap (λ l. item ∷ l) rest.order);
            all_sent = rest.all_sent;
            queue = rest.queue;
            epoch = rest.epoch;
          })
    | inr failed ↦
        rw (fresh, failed)
          (record {
            unsent = current cur (item ∷ batch);
            order = refl;
            all_sent = λ p. cc;
            queue = refl;
            epoch = refl;
          })
  ]
]

-- What a drain of a session that has had a job did: it sent the queued shares of the current
-- epoch in their order, all of them, or those before the one whose sending failed.
abbrev pub SentInOrder : MinerState → Drained → Type 0
SentInOrder st out =
    ((out.ok ≡ true) × (out.sent ≡ current st.job_epoch st.submit_queue))
    ⊎ ((out.ok ≡ false)
        × (unsent : List PendingSubmit) × (current st.job_epoch st.submit_queue
            ≡ out.sent ++ unsent))

-- A drain empties the queue and keeps the epoch. In a session that has had a job it sends the
-- queued shares of the current epoch, oldest first, no other and none out of turn, and all of them
-- unless it reports a failure. Before the session's first job it sends nothing and reports no
-- failure.
pub submit_share_lem :
    (send : ℕ → Bool) (has_job : Bool) (st : MinerState)
    → let out = submit_share send has_job st in
      (out.st.submit_queue ≡ [])
      × (out.st.job_epoch ≡ st.job_epoch)
      × (((has_job ≡ true) × SentInOrder st out)
          ⊎ ((has_job ≡ false) × (out.sent ≡ []) × (out.ok ≡ true)))
unfolding submit_share discard_queue
submit_share_lem send true st =
    let out = submit_share send true st in
    let d =
      drain_batch-IsDrained send st.job_epoch 0 st.submit_queue (record st { submit_queue = [] }) in
    let outcome : SentInOrder st out = elim (Bool-cases out.ok) [
      | inl good ↦
          inl
            (good, sym (d.order ∙ ap (λ l. out.sent ++ l) (d.all_sent good) ∙ append-nil out.sent))
      | inr bad ↦ inr (bad, d.unsent, d.order)
    ] in
    (d.queue, d.epoch, inl (refl, outcome))
submit_share_lem send false st = (refl, refl, inr (refl, refl, refl))
