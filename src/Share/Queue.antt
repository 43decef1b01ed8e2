-- ===== src/Share/Queue.antt =====
-- The bounded queue of found shares.
use dirtybird_c_miner.Base.{
  if◌then◌else◌, ℕ, ◌+◌, ◌-◌, ◌≤◌, ◌<◌, ◌≡◌, ◌↔◌, refl, true, List, [], ◌∷◌, ◌++◌, length, drop,
  pop_front, add64, leb, leb→le, inl, inr, Bool-cases, length-append, arith,
}
use dirtybird_c_miner.State.{MinerState, PendingSubmit, submit_queue_max}
use dirtybird_c_miner.Share.{submit_enqueue}

pub length-pop_front : (xs : List PendingSubmit) → length (pop_front xs) ≡ length xs - 1
length-pop_front [] = refl
length-pop_front (x ∷ xs) = omega arith

pop_front-append :
    (xs ys : List PendingSubmit) → 0 < length xs → pop_front xs ++ ys ≡ drop 1 (xs ++ ys)
pop_front-append [] ys h = absurd (omega arith)
pop_front-append (x ∷ xs) ys h = refl

-- On a queue within its limit, adding a share keeps it within the limit and puts the share last;
-- only a full queue loses its oldest entry, which is counted and reported by the result.
pub submit_enqueue_lem :
    (st : MinerState) (job_id blob_hex : List ℕ) (job_epoch : ℕ)
    → length st.submit_queue ≤ submit_queue_max
    → let (kept, st') = submit_enqueue st job_id blob_hex job_epoch in
      let item : PendingSubmit = record {
        job_id = job_id;
        blob_hex = blob_hex;
        epoch = job_epoch;
      } in
      (length st'.submit_queue ≤ submit_queue_max)
      × (st'.submit_queue
          ≡ drop (length st.submit_queue + 1 - submit_queue_max) (st.submit_queue ++ item ∷ []))
      × (st'.enqueued ≡ add64 st.enqueued 1)
      × ((kept ≡ true) ↔ (length st.submit_queue < submit_queue_max))
      × (st'.submit_drops ≡ (if kept then st.submit_drops else add64 st.submit_drops 1))
unfolding submit_enqueue
submit_enqueue_lem st job_id blob_hex job_epoch h =
    elim (Bool-cases (leb submit_queue_max (length st.submit_queue))) [
      | inl full ↦
          let over : length st.submit_queue + 1 - submit_queue_max ≡ 1 =
            omega (arith, leb→le submit_queue_max (length st.submit_queue) full) in
          rw (full, over)
            (
              omega (
                arith,
                length-append (pop_front st.submit_queue) (item ∷ []),
                length-pop_front st.submit_queue,
              ),
              pop_front-append st.submit_queue (item ∷ []) (omega (arith, over)),
              refl,
              (λ p. cc, λ p. absurd (omega (arith, over))),
              refl,
            )
      | inr room ↦
          let less : length st.submit_queue < submit_queue_max = ground arith in
          let over : length st.submit_queue + 1 - submit_queue_max ≡ 0 = omega (arith, less) in
          rw (room, over)
            (
              omega (arith, length-append st.submit_queue (item ∷ []), less),
              refl,
              refl,
              (λ p. less, λ p. refl),
              refl,
            )
    ]
  where
    item : PendingSubmit
    item = record { job_id = job_id; blob_hex = blob_hex; epoch = job_epoch }
